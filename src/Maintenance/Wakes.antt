-- ===== src/Maintenance/Wakes.antt =====
-- maintenance.py: which tasks a wake runs, and how often a task runs.
use session_pro_backend.Maintenance.{Task, due, ran_at, run_tasks, loop}
use session_pro_backend.Prelude.{
  Bool-cases, List, [], arith, if◌then◌else◌, inl, inr, length, map, refl, some, suc, zero, ℕ, ◌*◌,
  ◌+◌, ◌-◌, ◌∷◌, ◌≡◌, ◌≤◌, ap, ◌∙◌,
}

-- Readings of a clock that does not go back, between two instants.
abbrev pub IsMonotonic : ℕ → List ℕ → ℕ → Type 0
IsMonotonic from [] until = from ≤ until
IsMonotonic from (now ∷ nows) until = (from ≤ now) × IsMonotonic now nows until

module _ {S : Type 0} where
  -- A task after a wake that reaches it.
  abbrev pub woken : ℕ → Task S → Task S
  woken now t = if due now t then ran_at now t else t

  -- The due tasks one after another, whichever raise.
  abbrev pub run_due : ℕ → List (Task S) → S → S
  run_due now [] s = s
  run_due now (t ∷ ts) s = run_due now ts (if due now t then (t.run s).1 else s)

  -- A wake that is not stopped runs every due task once, in order, and marks it as run now, whether
  -- or not tasks before it raise; it leaves the other tasks as they are.
  pub run_tasks-due :
      (now : ℕ) (tasks : List (Task S)) (tests : ℕ) (s : S)
      → length tasks ≤ tests
      → ((run_tasks now tasks tests s).0 ≡ map (woken now) tasks)
        × ((run_tasks now tasks tests s).1 ≡ tests - length tasks)
        × ((run_tasks now tasks tests s).2 ≡ run_due now tasks s)
  unfolding run_tasks
  run_tasks-due now [] tests s enough = (refl, omega arith, refl)
  run_tasks-due now (t ∷ ts) zero s enough = absurd (omega (arith, enough))
  run_tasks-due now (t ∷ ts) (suc tests) s enough = elim (Bool-cases (due now t)) [
    | inl is_due ↦
        let (marked, left, state) =
          run_tasks-due now ts tests (t.run s).1 (omega (arith, enough)) in
        (ground (arith, marked), ground (arith, left), ground (arith, state))
    | inr waits ↦
        let (marked, left, state) = run_tasks-due now ts tests s (omega (arith, enough)) in
        (ground (arith, marked), ground (arith, left), ground (arith, state))
  ]

  -- How often a task runs in the wakes at these readings.
  abbrev pub run_count : List ℕ → Task S → ℕ
  run_count [] t = 0
  run_count (now ∷ nows) t =
      let rest = run_count nows (woken now t) in if due now t then suc rest else rest

  run_count-bound :
      (nows : List ℕ) (t : Task S) (last from until : ℕ)
      → t.last_run_ms ≡ some last
      → last ≤ from
      → IsMonotonic from nows until
      → run_count nows t * t.interval_ms + last ≤ until
  unfolding due
  run_count-bound [] t last from until ran before upto = omega (arith, before, upto)
  run_count-bound (now ∷ nows) t last from until ran before (step, rest) =
      elim (Bool-cases (due now t)) [
        | inl is_due ↦
            let spaced : last + t.interval_ms ≤ now = ground arith in
            let count = run_count nows (ran_at now t) in
            let bound : count * t.interval_ms + now ≤ until =
              run_count-bound nows (ran_at now t) now now until refl (omega arith) rest in
            let same : woken now t ≡ ran_at now t = ground arith in
            let one_more : run_count (now ∷ nows) t ≡ suc count =
              ground (arith, ap (λ x. run_count nows x) same) in
            let product : suc count * t.interval_ms ≡ count * t.interval_ms + t.interval_ms =
              omega arith in
            rw one_more (rw product (omega (arith, spaced, bound)))
        | inr waits ↦
            let bound : run_count nows t * t.interval_ms + last ≤ until =
              run_count-bound nows t last now until ran (omega (arith, before, step)) rest in
            let same : woken now t ≡ t = ground arith in
            let no_more : run_count (now ∷ nows) t ≡ run_count nows t =
              ground (arith, ap (λ x. run_count nows x) same) in
            rw no_more bound
      ]

  -- A task after the wakes at these readings, were it the only one.
  abbrev pub after_wakes : List ℕ → Task S → Task S
  after_wakes [] t = t
  after_wakes (now ∷ nows) t = after_wakes nows (woken now t)

  map_after :
      (now : ℕ) (nows : List ℕ) (tasks : List (Task S))
      → map (after_wakes nows) (map (woken now) tasks) ≡ map (after_wakes (now ∷ nows)) tasks
  map_after now nows [] = refl
  map_after now nows (t ∷ ts) =
      ap (λ rest. after_wakes nows (woken now t) ∷ rest) (map_after now nows ts)

  map_nothing : (tasks : List (Task S)) → tasks ≡ map (after_wakes []) tasks
  map_nothing [] = refl
  map_nothing (t ∷ ts) = ap (λ rest. t ∷ rest) (map_nothing ts)

  length-woken : (now : ℕ) (tasks : List (Task S)) → length (map (woken now) tasks) ≡ length tasks
  length-woken now [] = refl
  length-woken now (t ∷ ts) = ap suc (length-woken now ts)

  -- The state after the wakes at these readings, each of which runs the tasks that are due then.
  abbrev pub run_wakes : List ℕ → List (Task S) → S → S
  run_wakes [] tasks s = s
  run_wakes (now ∷ nows) tasks s = run_wakes nows (map (woken now) tasks) (run_due now tasks s)

  -- While it is not stopped, the loop runs every task at the wakes at which it would be due alone,
  -- and at no others, whatever the others do to the state and whichever of them raise: it marks it
  -- as run then, and the state that it leaves is that of the due tasks of each wake, run once and
  -- in their order.
  pub loop-alone :
      (nows : List ℕ) (tasks : List (Task S)) (tests : ℕ) (s : S)
      → length nows * suc (length tasks) ≤ tests
      → loop nows tasks tests s ≡ (map (after_wakes nows) tasks, run_wakes nows tasks s)
  unfolding loop
  loop-alone [] tasks tests s enough = ap (λ (ts : List (Task S)). (ts, s)) (map_nothing tasks)
  loop-alone (now ∷ nows) tasks zero s enough = absurd (omega (arith, enough))
  loop-alone (now ∷ nows) tasks (suc tests) s enough =
      let n = length tasks in
      let product : suc (length nows) * suc n ≡ suc n + length nows * suc n = omega arith in
      let fits : suc n + length nows * suc n ≤ suc tests = omega (arith, product, enough) in
      let (marked, left, state) = run_tasks-due now tasks tests s (omega (arith, fits)) in
      let woke = map (woken now) tasks in
      let ran : S = run_due now tasks s in
      let run = run_tasks now tasks tests s in
      let same : length woke ≡ n = length-woken now tasks in
      let fits' : length nows * suc (length woke) ≤ tests - n = rw same (omega (arith, fits)) in
      let rest = loop-alone nows woke (tests - n) ran fits' in
      ap (λ (ts : List (Task S)). loop nows ts run.1 run.2) marked
      ∙ ap (λ (l : ℕ). loop nows woke l run.2) left
      ∙ ap (λ (s' : S). loop nows woke (tests - n) s') state
      ∙ rest
      ∙ ap (λ (ts : List (Task S)). (ts, run_wakes nows woke ran)) (map_after now nows tasks)
