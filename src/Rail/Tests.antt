-- ===== src/Rail/Tests.antt =====
-- Runs.
use trace_bloom.Base.{◌+◌, ◌*◌, ◌≤◌, length, List, ◌≡◌, refl, [], ◌∷◌}
use trace_bloom.Rail.{no_rail, is_current, is_result, running_traces, query_failed}
use trace_bloom.Rail.Load.{RailEvent, request, failure, Moment, after, after-queries}

abbrev start_moment : Moment
start_moment = record { now = 0; failures = 0; rail = no_rail }

-- A second request within the window shares the query; one after it, or after a failure, makes another.
rail_runs :
    ((after (request 5 ∷ request 1999 ∷ request 1 ∷ []) start_moment).rail.queries ≡ 2005 ∷ 5 ∷ [])
    × ((after (request 5 ∷ failure 0 ∷ request 1 ∷ []) start_moment).rail.queries ≡ 6 ∷ 5 ∷ [])
    × ((after (request 5 ∷ request 2000 ∷ failure 0 ∷ request 1 ∷ []) start_moment).rail.queries
        ≡ 2005 ∷ 5 ∷ [])
unfolding after running_traces query_failed is_current is_result
rail_runs = (refl, refl, refl)

abbrev a_run : List RailEvent
a_run = request 5 ∷ failure 0 ∷ request 1 ∷ request 1999 ∷ []

after-queries_example :
    let end = after a_run start_moment in
    2000 * length end.rail.queries + 0 ≤ 2000 * (end.failures + 1) + end.now
after-queries_example = after-queries 0 a_run
