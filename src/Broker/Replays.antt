-- ===== src/Broker/Replays.antt =====
-- What trimBoundaryReplays delivers of the rows that the inclusive bound fetches again.
use trace_bloom.Base.{
  ℕ, ◌<◌, ◌≡◌, refl, ◌↔◌, ◌⊎◌, inl, inr, String, Bool, true, false, ◌&&◌, ◌||◌, not, List, [], ◌∷◌,
  arith, ltb, if◌then◌else◌, keep_iff, elem, elem-append, ◌==◌, nat_eq, string_eq, Bool-cases,
}
use mathlib.Core.List.{Memᴰ}
use trace_bloom.Live.{LiveSpan, LiveDelta}
use trace_bloom.Broker.{TracePoller}
use trace_bloom.Broker.Poller.{insert_name, is_fresh_span, note_spans, trim_boundary_replays}
use trace_bloom.Broker.Steps.{take_delta}

-- The ids of the rows that arrived at a time.
abbrev pub ids_at : ℕ → List LiveSpan → List String
ids_at mark [] = []
ids_at mark (s ∷ spans) =
    if s.ingested_ms == mark then s.span_id ∷ ids_at mark spans else ids_at mark spans

elem-note_spans :
    (k : String) (mark : ℕ) (spans : List LiveSpan) (names : List String)
    → elem k (note_spans mark spans names) ≡ (elem k (ids_at mark spans) || elem k names)
unfolding note_spans
elem-note_spans k mark [] names = refl
elem-note_spans k mark (s ∷ spans) names = ground (
  arith,
  elem-note_spans k mark spans names,
  elem-note_spans k mark spans (insert_name s.span_id names),
  elem-append k names (s.span_id ∷ []),
  string_eq.beq_iff s.span_id k,
)

-- Whether the boundary holds the id once a delta was taken in.
abbrev pub was_delivered : TracePoller → LiveDelta → String → Bool
was_delivered p f k =
    elem k (ids_at f.cursor.span_ms f.spans)
    || f.cursor.span_ms == p.head.span_ms && elem k p.span_boundary

boundary-next :
    (p : TracePoller) (f : LiveDelta) (now : ℕ) (k : String)
    → elem k (take_delta f now p).span_boundary ≡ was_delivered p f k
unfolding take_delta trim_boundary_replays
boundary-next p f now k = elim (Bool-cases (f.cursor.span_ms == p.head.span_ms)) [
  | inl h ↦ rw h (elem-note_spans k f.cursor.span_ms f.spans p.span_boundary)
  | inr h ↦ rw h (elem-note_spans k f.cursor.span_ms f.spans [])
]

next-head : (p : TracePoller) (f : LiveDelta) (now : ℕ) → (take_delta f now p).head ≡ f.cursor
unfolding take_delta trim_boundary_replays
next-head p f now = refl

fresh_iff :
    (p : TracePoller) (f : LiveDelta) (now : ℕ) (s : LiveSpan)
    → let q = take_delta f now p in
      (is_fresh_span q.head q.span_boundary s ≡ true)
      ↔ ((f.cursor.span_ms < s.ingested_ms) ⊎ (was_delivered p f s.span_id ≡ false))
unfolding is_fresh_span
fresh_iff p f now s =
    rw (next-head p f now, boundary-next p f now s.span_id)
      (plain (was_delivered p f s.span_id) f.cursor.span_ms s.ingested_ms)
  where
    plain : (d : Bool) (a b : ℕ) → ((ltb a b || not d) ≡ true) ↔ ((a < b) ⊎ (d ≡ false))
    plain d a b = ground arith

-- After a poller took in a delta f, the next fetch g delivers exactly these of its spans: the ones
-- that arrived after the watermark of f, and those at or before it whose id was not among the rows
-- of f at the watermark, nor in the boundary that stays while the watermark does not move.
pub trim_boundary_replays-next :
    (p : TracePoller) (f g : LiveDelta) (now : ℕ) (s : LiveSpan)
    → Memᴰ s (trim_boundary_replays g (take_delta f now p)).0.spans
      ↔ Memᴰ s g.spans
        × ((f.cursor.span_ms < s.ingested_ms) ⊎ (was_delivered p f s.span_id ≡ false))
unfolding trim_boundary_replays
trim_boundary_replays-next p f g now s =
    let q = take_delta f now p in
    let (into, back) = keep_iff (is_fresh_span q.head q.span_boundary) s g.spans in
    let (open_up, close) = fresh_iff p f now s in
    (
      λ m. let (inside, fresh) = into m in (inside, open_up fresh),
      λ (inside, cases). back (inside, close cases),
    )
