-- ===== src/Telemetry.antt =====
-- packages/sdk-ts/src/vercel.ts: the integration that turns the lifecycle events of the AI SDK into
-- spans. Spans are objects of the OpenTelemetry API, in a store by number; a context is known by the
-- span that is active in it, since every context that the code makes sets a new span.
pub mod Content
pub mod Starts
pub mod Finishes
pub mod Events
mod Weights
mod Edits
mod Effects
mod Handled
pub mod Ends
pub mod Wrappers
pub mod Transparent
pub mod Tests
use trace_bloom.Base.{
  ℕ, zero, suc, ◌+◌, String, Bool, true, false, Option, none, some, List, [], ◌∷◌, ◌++◌, length,
  if◌then◌else◌, string_eq,
}
use trace_bloom.Dict
use trace_bloom.Dict.{Dict}
use trace_bloom.Json.{Number, truthy}
use trace_bloom.Pricing.{Amount, PricingMap}

pub data SpanKind : Type 0 where
  internal client : SpanKind

-- A status that is set: OK, or ERROR with its message.
pub data SpanStatus : Type 0 where
  unset : SpanStatus
  fine : SpanStatus
  failed : String → SpanStatus

pub data AttributeValue : Type 0 where
  text : String → AttributeValue
  texts : List String → AttributeValue
  number : Number → AttributeValue
  flag : Bool → AttributeValue
  tokens : ℕ → AttributeValue
  cost : Amount → AttributeValue

-- An event by its name, its finish reason if it has one, and its content.
pub record SpanEvent : Type 0 where
  pub name : String
  pub finish_reason : Option String
  pub content : String

-- A span, with the number of calls of its method `end`.
pub record Span : Type 0 where
  pub name : String
  pub kind : SpanKind
  pub parent : Option ℕ
  pub attributes : Dict String AttributeValue
  pub events : List SpanEvent
  pub status : SpanStatus
  pub ended : ℕ

-- OperationState. A context is its span, so an entry of `steps` or of the stack is one number.
pub record OperationState : Type 0 where
  pub span : ℕ
  pub steps : Dict ℕ ℕ
  pub current_step : Option ℕ
  pub model_stack : List ℕ
  pub tool_spans : Dict String ℕ

pub record Telemetry : Type 0 where
  pub spans : List Span
  pub ops : Dict String OperationState

-- PromptTag, what getState gives, and the names that a plain object inherits.
pub record Setup : Type 0 where
  pub prompt_version : Option String
  pub prompt_name : Option String
  pub capture_content : Bool
  pub pricing : PricingMap
  pub inherited : String → Bool

unfoldable pub modify_at : ℕ → (Span → Span) → List Span → List Span
modify_at i f [] = []
modify_at zero f (s ∷ spans) = f s ∷ spans
modify_at (suc i) f (s ∷ spans) = s ∷ modify_at i f spans

abbrev pub set_attribute : String → AttributeValue → Span → Span
set_attribute key value s = record s { attributes = Dict.set key value s.attributes }

-- `if (text) span.setAttribute(key, text)`.
unfoldable pub set_text : String → Option String → Span → Span
set_text key none s = s
set_text key (some value) s = if truthy (some value) then set_attribute key (text value) s else s

unfoldable pub set_number : String → Option Number → Span → Span
set_number key none s = s
set_number key (some n) s = set_attribute key (number n) s

abbrev pub add_event : String → Option String → String → Span → Span
add_event name reason content s = record s {
  events = s.events ++ record { name = name; finish_reason = reason; content = content } ∷ [];
}

abbrev pub end_span : Span → Span
end_span s = record s { ended = s.ended + 1 }

abbrev pub set_status : SpanStatus → Span → Span
set_status status s = record s { status = status }

-- applyTag.
unfoldable pub apply_tag : Setup → Span → Span
unfolding set_text
apply_tag setup s =
    set_text "gen_ai.prompt.name" setup.prompt_name
      (set_text "gen_ai.prompt.version" setup.prompt_version s)

-- `tracer.startSpan`.
abbrev pub new_span : String → SpanKind → Option ℕ → Dict String AttributeValue → Span
new_span name kind parent attributes = record {
  name = name;
  kind = kind;
  parent = parent;
  attributes = attributes;
  events = [];
  status = unset;
  ended = 0;
}
