-- ===== src/Examples/Wakes.antt =====
-- The maintenance loop on two tasks, of which one raises.
use session_pro_backend.Maintenance.{
  Task, credit_drain_interval_ms, google_reconcile_interval_ms, loop,
}
use session_pro_backend.Maintenance.Wakes.{after_wakes, loop-alone, run_wakes}
use session_pro_backend.Prelude.{List, [], arith, false, map, none, true, ℕ, ◌+◌, ◌≡◌, ◌∷◌}

-- The state counts what was done.
abbrev drain_task : Task ℕ
drain_task = record {
  interval_ms = credit_drain_interval_ms;
  run = λ n. (true, n + 100);
  last_run_ms = none;
}

abbrev reconcile_task : Task ℕ
reconcile_task = record {
  interval_ms = google_reconcile_interval_ms;
  run = λ n. (false, n + 1);
  last_run_ms = none;
}

abbrev two_tasks : List (Task ℕ)
two_tasks = drain_task ∷ reconcile_task ∷ []

abbrev wakes : List ℕ
wakes = 5000 ∷ 6000 ∷ 65000 ∷ 130000 ∷ []

loop-alone_example :
    loop wakes two_tasks 99 0 ≡ (map (after_wakes wakes) two_tasks, run_wakes wakes two_tasks 0)
loop-alone_example = loop-alone wakes two_tasks 99 0 (omega arith)
