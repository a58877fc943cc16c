-- ===== src/Rail.antt =====
-- apps/dashboard/lib/live-list.ts: the cache of the running traces. The promise of a query is known by
-- its number, in the order in which the queries are made.
pub mod Load
pub mod Tests
use trace_bloom.Base.{
  ℕ, ◌+◌, String, Bool, true, false, Option, none, some, List, [], ◌∷◌, length, leb, nat_beq,
  if◌then◌else◌,
}

abbrev pub cache_ttl_ms : ℕ
cache_ttl_ms = 2000

pub record Cached : Type 0 where
  pub at : ℕ
  pub result : ℕ

-- The cache, beside the times of the queries made so far, newest first.
pub record Rail : Type 0 where
  pub queries : List ℕ
  pub cache : Option Cached

abbrev pub no_rail : Rail
no_rail = record { queries = []; cache = none }

unfoldable pub is_current : ℕ → Option Cached → Bool
is_current now none = false
is_current now (some cache) = if leb (cache.at + cache_ttl_ms) now then false else true

abbrev pub start_query : ℕ → Rail → Rail
start_query now rail = record {
  queries = now ∷ rail.queries;
  cache = some (record { at = now; result = length rail.queries });
}

-- runningTraces, without the answer, which is the promise that the cache holds afterwards.
unfoldable pub running_traces : ℕ → Rail → Rail
unfolding is_current
running_traces now rail = if is_current now rail.cache then rail else start_query now rail

unfoldable pub is_result : ℕ → Option Cached → Bool
is_result query none = false
is_result query (some cache) = nat_beq cache.result query

-- The callback of `catch`.
unfoldable pub query_failed : ℕ → Rail → Rail
unfolding is_result
query_failed query rail = if is_result query rail.cache then record rail { cache = none } else rail

-- LiveTraceRow, with the numbers of its texts.
pub record LiveTraceRow : Type 0 where
  pub trace_id : String
  pub service : String
  pub model : String
  pub span_count : ℕ
  pub total_tokens : ℕ
  pub cost_usd : ℕ
  pub error_count : ℕ
  pub start_time : String
  pub last_activity_ms : ℕ

pub record RawRunningRow : Type 0 where
  pub trace_id : String
  pub service : String
  pub model : String
  pub span_count : ℕ
  pub total_tokens : String
  pub cost_usd : ℕ
  pub error_count : String
  pub started_iso : String
  pub last_activity_ms : String

-- The row that queryRunningTraces makes of a row of the query, given JavaScript's `Number` on texts.
unfoldable pub running_row : (String → ℕ) → RawRunningRow → LiveTraceRow
running_row number_of row = record {
  trace_id = row.trace_id;
  service = row.service;
  model = row.model;
  span_count = row.span_count;
  total_tokens = number_of row.total_tokens;
  cost_usd = row.cost_usd;
  error_count = number_of row.error_count;
  start_time = row.started_iso;
  last_activity_ms = number_of row.last_activity_ms;
}
