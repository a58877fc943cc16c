-- ===== src/Telemetry/Content.antt =====
-- packages/sdk-ts/src/vercel.ts: stringifyContent and operationName, and the AI SDK's event types.
use trace_bloom.Base.{ℕ, String, Bool, true, false, Option, List, [], ◌∷◌, if◌then◌else◌, string_eq}
use trace_bloom.Text.{◌+++◌, is_empty}
use trace_bloom.Json.{Number}

-- A part of a content: a string, an object with a text, and anything else.
pub data Part : Type 0 where
  plain : String → Part
  with_text : String → Part
  opaque : Part

-- A value of unknown type: a string, undefined, null, a list of parts with its JSON text, and any
-- other value by its JSON text.
pub data Content : Type 0 where
  text : String → Content
  undefined null_value : Content
  parts : List Part → String → Content
  json : String → Content

abbrev pub part_text : Part → String
part_text (plain s) = s
part_text (with_text s) = s
part_text opaque = ""

-- The `map` and the `filter` on the parts.
unfoldable pub part_texts : List Part → List String
part_texts [] = []
part_texts (p ∷ ps) =
    let rest = part_texts ps in if is_empty (part_text p) then rest else part_text p ∷ rest

unfoldable pub join_texts : String → List String → String
join_texts s [] = s
join_texts s (t ∷ ts) = s +++ "\n" +++ join_texts t ts

abbrev pub texts_or : String → List String → String
texts_or whole [] = whole
texts_or whole (t ∷ ts) = join_texts t ts

-- stringifyContent.
unfoldable pub stringify_content : Content → String
unfolding part_texts join_texts
stringify_content (text s) = s
stringify_content undefined = ""
stringify_content null_value = ""
stringify_content (parts ps whole) = texts_or whole (part_texts ps)
stringify_content (json whole) = whole

abbrev pub is_present : Content → Bool
is_present undefined = false
is_present null_value = false
is_present (text s) = true
is_present (parts ps whole) = true
is_present (json whole) = true

abbrev pub is_defined : Content → Bool
is_defined undefined = false
is_defined null_value = true
is_defined (text s) = true
is_defined (parts ps whole) = true
is_defined (json whole) = true

-- GENERATION_OPERATIONS.
abbrev pub generation_operations : List String
generation_operations =
    "ai.generateText" ∷ "ai.streamText" ∷ "ai.generateObject" ∷ "ai.streamObject" ∷ []

pub record AisdkOperationStartEvent : Type 0 where
  pub call_id : String
  pub operation_id : Option String
  pub function_id : Option String

pub record AisdkModelCallStartEvent : Type 0 where
  pub call_id : String
  pub provider : Option String
  pub model_id : Option String
  pub messages : List (Option String × Content)
  pub instructions : Content
  pub temperature : Option Number
  pub top_p : Option Number
  pub max_output_tokens : Option Number

pub record AisdkModelCallEndEvent : Type 0 where
  pub call_id : String
  pub model_id : Option String
  pub finish_reason : Option String
  pub input_tokens : Option ℕ
  pub output_tokens : Option ℕ
  pub response_id : Option String
  pub content : Content

pub record AisdkToolStartEvent : Type 0 where
  pub call_id : String
  pub tool_call_id : Option String
  pub tool_name : Option String
  pub input : Content

-- The output of a tool: whether its type is `tool-error`, its error and its output.
pub record AisdkToolEndEvent : Type 0 where
  pub call_id : String
  pub tool_call_id : Option String
  pub is_tool_error : Bool
  pub error : Content
  pub output : Content
