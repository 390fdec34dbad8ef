-- ===== src/Tests/Guards.antt =====
-- The limiter, the requests to the providers and the runs of a task, at concrete inputs.
use stock_platform.Prelude.{◌≡◌, ◌≤◌, ◌+◌, refl, true, none, some, List, [], ◌∷◌, arith, length, ℕ}
use stock_platform.Prelude.Result.{ok}
use stock_platform.Pipeline.Topology.{outside}
use stock_platform.Pipeline.Tables.{manual, Db}
use stock_platform.Pipeline.Hooks.{Env}
use stock_platform.Admin.{
  LogRow, Work, caught, raised, returned, World, Desk, run_with_deadline, run_task, run_task_async,
  get_run, work_all,
}
use stock_platform.Admin.Life.{Tells, run_task-Tells}
use stock_platform.Admin.Queue.{AreSettled, work_all-AreSettled}
use stock_platform.Float.{Fixed, fixed, fixed_float}
use stock_platform.Quota.{analysis_limiter}
use stock_platform.Quota.Bounds.{IsExact, allowed, check-allowed_le}
use stock_platform.Sources.Tencent.{Client, Clock, response, tencent_get, waf_cooldown}
use stock_platform.Sources.Tencent.Pacing.{
  Call, after, sends, Paced, sends-Paced, SparesUntil, tencent_get-SparesUntil,
}

exact : IsExact Fixed
exact = record {
  lt_at_most = λ k a b h g. ground arith;
  not_lt_at_most = λ n k a b h g g'. ground arith;
  sub_unit = λ k x small h. ground arith;
  below_unit = λ x h. ground arith;
  add_nothing = λ k x now rate fin fin' h. ground arith;
}

-- Two users at once; the first asks twice.
check-allowed_le_example : allowed 8 (fixed 3) (8 ∷ 9 ∷ 8 ∷ []) (analysis_limiter {F = Fixed}) ≤ 6
check-allowed_le_example =
    check-allowed_le exact analysis_limiter 8 (fixed 3) 6 (8 ∷ 9 ∷ 8 ∷ []) refl refl refl
      (omega arith)

abbrev client : Client
client = record { last_ts = 1_000; cooldown_until = []; ua_idx = 0 }

abbrev clock_at : ℕ → Clock
clock_at t = record { check = t; now = t; sent = t + 600; answered = t + 700 }

-- The first host bans the client, is asked again, and the other host answers.
abbrev banned : Call ℕ
banned = record { host = 1; clock = clock_at 2_000; jitter = 100; reply = response 501 7 }

abbrev next_calls : List (Call ℕ)
next_calls =
    record { host = 1; clock = clock_at 3_000; jitter = 0; reply = response 200 8 }
    ∷ record { host = 0; clock = clock_at 4_000; jitter = 250; reply = response 200 9 }
    ∷ []

one_sent : length (sends (banned ∷ next_calls) client) ≡ 2
unfolding tencent_get
one_sent = refl

sends-Paced_example : Paced 1_000 (sends (banned ∷ next_calls) client)
unfolding tencent_get
sends-Paced_example =
    sends-Paced (banned ∷ next_calls) client (omega arith, (omega arith, (omega arith, tt)))

tencent_get-SparesUntil_example :
    SparesUntil 1 (2_700 + waf_cooldown) (sends next_calls (after banned client))
tencent_get-SparesUntil_example =
    tencent_get-SparesUntil banned next_calls client {body = 7} refl refl
      (omega arith, (omega arith, tt))

-- All tasks are registered, the 3rd outside of the topology is long, and the text of a timeout is short.
abbrev env : ℕ → Env
env now = record {
  settings = record {
    pipeline_enabled = true;
    pipeline_step_retry_max = 2;
    pipeline_step_retry_gap_min = 5;
  };
  today = 739870;
  now = now;
  calendar = none;
  has_scheduler = true;
}

abbrev world : World
world = record {
  is_registered = λ _. true;
  is_long = λ _. true;
  timeout_text = λ _. 84 ∷ [];
  exceeded_text = λ _. 69 ∷ [];
  at_time = env;
}

abbrev tables : Db
tables = record { runs = []; steps = []; next_run = 1; next_step = 1; alerts = []; jobs = [] }

abbrev desk : Desk
desk = record { logs = []; next_id = 1; queue = []; pipeline = tables }

-- Eight minutes, where five are allowed.
abbrev slow : Work
slow = record { takes = 480_000_000; ending = returned 12 }

run_task-Tells_example :
    let (a', got) = run_task world (outside 5) manual 1_000 slow desk in
    (r : LogRow) × (got ≡ ok r)
    × (get_run 1 a' ≡ some r)
    × (r.finished_at ≡ some (1_000 + 480_000_000))
    × Tells world (outside 5) slow r
run_task-Tells_example = run_task-Tells world (outside 5) manual 1_000 slow desk refl tt

-- The slow run fails, eight minutes after its start.
slow_ending :
    caught world (outside 5) (run_with_deadline world (outside 5) slow).0 ≡ raised (84 ∷ [])
unfolding run_with_deadline
slow_ending = refl

-- Two submissions.
abbrev busy : Desk
busy =
    (run_task_async world (outside 4) manual 2_000
      (run_task_async world (outside 3) manual 1_000 desk).0).0

abbrev works : List Work
works = slow ∷ record { takes = 5; ending = raised (66 ∷ []) } ∷ []

work_all-AreSettled_example : AreSettled busy.queue (work_all world 3_000 works busy)
unfolding run_task_async
work_all-AreSettled_example =
    work_all-AreSettled world 3_000 works busy (refl, (refl, tt)) (omega arith)
