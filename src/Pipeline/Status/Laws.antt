-- ===== src/Pipeline/Status/Laws.antt =====
-- The run's status in terms of how many of its steps are in which state.
use stock_platform.Prelude.{
  ◌≡◌, ◌<◌, refl, Bool, true, false, List, [], ◌∷◌, exists, arith, ◌↔◌, if◌then◌else◌, count,
  length, ltb, ◌==◌,
}
use stock_platform.Pipeline.Tables.{success, partial, failed, is_done, is_failed}
use stock_platform.Pipeline.Status.{
  State, is_critical_failure, all_done, some_state, recompute_run_status,
}

abbrev pub failed_state : State → Bool
failed_state s = is_failed s.0

-- Pending or running, or failed.
abbrev pub not_done : State → Bool
not_done s = if is_done s.0 then false else true

exists-count : (p : State → Bool) (states : List State) → exists p states ≡ ltb 0 (count p states)
exists-count p [] = refl
exists-count p (s ∷ states) = ground (arith, exists-count p states)

all_done-count : (states : List State) → all_done states ≡ (count not_done states == 0)
all_done-count [] = refl
all_done-count (s ∷ states) = ground (arith, all_done-count states)

some_state-length : (states : List State) → some_state states ≡ ltb 0 (length states)
some_state-length [] = refl
some_state-length (s ∷ states) = ground arith

-- The status is failed exactly where a critical step failed; else partial exactly where the run is
-- final and a step failed; else success exactly where the run is final, has a step and all are
-- done.
pub recompute_run_status_iff :
    (states : List State) (final : Bool)
    → let status = recompute_run_status states final in
      let critical = count is_critical_failure states in
      let failures = count failed_state states in
      let open_steps = count not_done states in
      ((status ≡ failed) ↔ (0 < critical))
      × ((status ≡ partial) ↔ ((critical ≡ 0) × (final ≡ true) × (0 < failures)))
      × ((status ≡ success) ↔ (
          (critical ≡ 0)
          × (final ≡ true)
          × (failures ≡ 0)
          × (open_steps ≡ 0)
          × (0 < length states)))
unfolding recompute_run_status
recompute_run_status_iff states final =
    let e = exists-count is_critical_failure states in
    let f = exists-count failed_state states in
    let a = all_done-count states in
    let l = some_state-length states in
    (ground (arith, e, f, a, l), ground (arith, e, f, a, l), ground (arith, e, f, a, l))
