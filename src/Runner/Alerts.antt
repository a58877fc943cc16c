-- ===== src/Runner/Alerts.antt =====
-- Which regressions a pass raises.
use trace_bloom.Base.{
  ℕ, ◌+◌, ◌-◌, ◌<◌, ◌≡◌, refl, ◌∙◌, ap, String, Bool, true, ◌&&◌, not, none, List, [], ◌∷◌, ◌++◌,
  map, keep, elem, arith, length, string_eq, Bool-cases, inl, inr, elem-append, beq_self,
}
use mathlib.Core.List.{append_assoc, append-nil}
use trace_bloom.Regression.{Regression, VariantStats, detect_regressions}
use trace_bloom.Runner.{EvalDefinition}
use trace_bloom.Runner.Run.{ok, Raised, Store, RunnerConfig, Services, EvalRunSummary}
use trace_bloom.Runner.Once.{
  key_of, raised_key, is_recent, recent_keys, raised_row, insert_raised, raise_one, raise_all,
  with_regressions, run_regression_pass,
}

abbrev pub is_new : List String → Regression → Bool
is_new seen r = not (elem (key_of r) seen)

elem-key_of-new :
    (k : String) (seen : List String) (rs : List Regression)
    → elem k (map key_of (keep (is_new seen) rs)) ≡ (not (elem k seen) && elem k (map key_of rs))
elem-key_of-new k seen [] = ground arith
elem-key_of-new k seen (r ∷ rs) =
    ground (arith, elem-key_of-new k seen rs, string_eq.beq_iff (key_of r) k)

-- None is new where all their keys are seen.
keep_new-nil :
    (seen : List String) (rs : List Regression)
    → ((k : String) → elem k (map key_of rs) ≡ true → elem k seen ≡ true)
    → keep (is_new seen) rs ≡ []
keep_new-nil seen [] h = refl
keep_new-nil seen (r ∷ rs) h =
    let one : elem (key_of r) seen ≡ true = h (key_of r) (ground (arith, beq_self (key_of r))) in
    rw one (keep_new-nil seen rs (λ k m. h k (ground arith)))

keep_again :
    (seen : List String) (rs : List Regression)
    → keep (is_new (seen ++ map key_of (keep (is_new seen) rs))) rs ≡ []
keep_again seen rs = keep_new-nil (seen ++ map key_of (keep (is_new seen) rs)) rs (λ k m.
    ground
      (arith, elem-append k seen (map key_of (keep (is_new seen) rs)), elem-key_of-new k seen rs))

module _ (eval_id : String) (window_start : ℕ) where
  abbrev keys_of : List Raised → List String
  keys_of rows = map raised_key (keep (is_recent eval_id window_start) rows)

  keys_of-append : (xs ys : List Raised) → keys_of (xs ++ ys) ≡ keys_of xs ++ keys_of ys
  keys_of-append [] ys = refl
  keys_of-append (x ∷ xs) ys = elim (Bool-cases (is_recent eval_id window_start x)) [
    | inl e ↦ rw e (ap (λ (l : List String). raised_key x ∷ l) (keys_of-append xs ys))
    | inr e ↦ rw e (keys_of-append xs ys)
  ]

module _ (c : RunnerConfig) (sv : Services) (def : EvalDefinition)
    (inserts : sv.raise_error ≡ none) where
  -- The table with the rows of the regressions that are not seen.
  abbrev pub add_raised : List Regression → Store → Store
  add_raised rs s = record s { regressions = s.regressions ++ map (raised_row c sv def) rs }

  raise_all_lem :
      (seen : List String) (rs : List Regression) (raised : ℕ) (s : Store)
      → raise_all c sv def seen rs raised s
        ≡ (ok (raised + length (keep (is_new seen) rs)), add_raised (keep (is_new seen) rs) s)
  unfolding raise_all raise_one
  raise_all_lem seen [] raised s = ground (arith, append-nil s.regressions)
  raise_all_lem seen (r ∷ rs) raised s = elim (Bool-cases (elem (key_of r) seen)) [
    | inl e ↦ rw e (raise_all_lem seen rs raised s)
    | inr e ↦
        rw (e, inserts)
          (raise_all_lem seen rs (raised + 1) (insert_raised (raised_row c sv def r) s)
            ∙ ground (
              arith,
              append_assoc s.regressions (raised_row c sv def r ∷ [])
                  (map (raised_row c sv def) (keep (is_new seen) rs)),
            ))
  ]

  -- A pass whose queries and inserts succeed raises exactly the detected regressions whose variant and
  -- metric were not raised for this eval since the window started, in the order of detection, with
  -- the webhook's answer, and changes nothing else.
  pub run_regression_pass_lem :
      (now : ℕ) (stats : List VariantStats) (summary : EvalRunSummary) (s : Store)
      → sv.variant_stats ≡ ok stats
      → let fresh =
          keep
            (is_new (recent_keys def.id (now - c.regression_window_ms) s))
            (detect_regressions stats c.thresholds) in
        run_regression_pass c sv def now summary s
        ≡ (ok (with_regressions summary (length fresh)), add_raised fresh s)
  unfolding run_regression_pass
  run_regression_pass_lem now stats summary s answered = rw answered (
      rw
        (raise_all_lem (recent_keys def.id (now - c.regression_window_ms) s)
          (detect_regressions stats c.thresholds) 0 s)
        (ground arith))

  keys_of-raised_row :
      (window_start : ℕ) (rs : List Regression)
      → ((r : Regression) → window_start < sv.detected_at r)
      → keys_of def.id window_start (map (raised_row c sv def) rs) ≡ map key_of rs
  keys_of-raised_row window_start [] h = refl
  keys_of-raised_row window_start (r ∷ rs) h =
      ground (arith, keys_of-raised_row window_start rs h, h r, beq_self def.id)

-- None is new, where each key is seen or among those of the new ones.
keep_later :
    (seen later : List String) (rs found : List Regression)
    → ((k : String) → elem k seen ≡ true → elem k later ≡ true)
    → ((k : String) → elem k (map key_of found) ≡ true → elem k (map key_of rs) ≡ true)
    → keep (is_new (later ++ map key_of (keep (is_new seen) rs))) found ≡ []
keep_later seen later rs found kept sub =
    keep_new-nil (later ++ map key_of (keep (is_new seen) rs)) found (λ k m. ground (
      arith,
      elem-append k later (map key_of (keep (is_new seen) rs)),
      elem-key_of-new k seen rs,
      kept k,
      sub k m,
    ))

raise_all-nil :
    (c : RunnerConfig) (sv : Services) (def : EvalDefinition) (seen : List String)
    (rs : List Regression) (raised : ℕ) (s : Store)
    → keep (is_new seen) rs ≡ []
    → raise_all c sv def seen rs raised s ≡ (ok raised, s)
unfolding raise_all raise_one
raise_all-nil c sv def seen [] raised s h = refl
raise_all-nil c sv def seen (r ∷ rs) raised s h = elim (Bool-cases (elem (key_of r) seen)) [
  | inl e ↦ rw e (raise_all-nil c sv def seen rs raised s (ground arith))
  | inr e ↦ absurd (ground arith)
]

run_regression_pass-nil :
    (c : RunnerConfig) (sv : Services) (def : EvalDefinition) (now : ℕ) (stats : List VariantStats)
    (summary : EvalRunSummary) (s : Store)
    → sv.variant_stats ≡ ok stats
    → keep
        (is_new (recent_keys def.id (now - c.regression_window_ms) s))
        (detect_regressions stats c.thresholds)
      ≡ []
    → run_regression_pass c sv def now summary s ≡ (ok summary, s)
unfolding run_regression_pass
run_regression_pass-nil c sv def now stats summary s answered none_new = rw answered (
    rw
      (raise_all-nil c sv def (recent_keys def.id (now - c.regression_window_ms) s)
        (detect_regressions stats c.thresholds) 0 s none_new)
      (ground arith))

-- Where the statistics can be read in both passes and the first one's inserts succeed: a later pass
-- that detects no further variant and metric raises nothing and leaves the table as it is, as long as
-- the rows that the first pass inserted, at the times that the database gave them, and those that it
-- found raised, are within the window of the later one.
pub run_regression_pass-again :
    (c : RunnerConfig) (sv later : Services) (def : EvalDefinition) (now then : ℕ)
    (stats later_stats : List VariantStats) (summary again : EvalRunSummary) (s : Store)
    → sv.raise_error ≡ none
    → sv.variant_stats ≡ ok stats
    → later.variant_stats ≡ ok later_stats
    → ((k : String)
        → elem k (map key_of (detect_regressions later_stats c.thresholds)) ≡ true
        → elem k (map key_of (detect_regressions stats c.thresholds)) ≡ true)
    → ((r : Regression) → then - c.regression_window_ms < sv.detected_at r)
    → ((k : String)
        → elem k (recent_keys def.id (now - c.regression_window_ms) s) ≡ true
        → elem k (recent_keys def.id (then - c.regression_window_ms) s) ≡ true)
    → let first = run_regression_pass c sv def now summary s in
      run_regression_pass c later def then again first.1 ≡ (ok again, first.1)
run_regression_pass-again c sv later def now then stats later_stats summary again s inserts answered
      answered_later sub recent kept =
    let seen = recent_keys def.id (now - c.regression_window_ms) s in
    let fresh = keep (is_new seen) (detect_regressions stats c.thresholds) in
    let start = then - c.regression_window_ms in
    let keys : recent_keys def.id start (add_raised c sv def inserts fresh s)
        ≡ recent_keys def.id start s ++ map key_of fresh =
      keys_of-append def.id start s.regressions (map (raised_row c sv def) fresh)
      ∙ ap (λ (l : List String). recent_keys def.id start s ++ l)
          (keys_of-raised_row c sv def inserts start fresh recent) in
    rw (run_regression_pass_lem c sv def inserts now stats summary s answered) (
      run_regression_pass-nil c later def then later_stats again
        (add_raised c sv def inserts fresh s) answered_later
        (rw keys (
          keep_later seen (recent_keys def.id start s) (detect_regressions stats c.thresholds)
            (detect_regressions later_stats c.thresholds) kept sub)))
