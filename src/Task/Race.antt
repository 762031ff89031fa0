-- ===== src/Task/Race.antt =====
-- server/internal/task/executor.go: two executions of one task. `Execute` asks for a running run and
-- inserts its own row in two statements, which no lock and no transaction joins.
use cogitator.Base.{
  ℕ, suc, ◌≡◌, refl, true, false, List, [], ◌∷◌, anyb, Option, none, some, ◌==◌, arith, String,
  if◌then◌else◌,
}
use cogitator.Task.Runs.{
  Runs, create_run, set_run_model, new_run, Trigger, count_running, has_running_run, IsValid,
}
use cogitator.Task.Runs.Rows.{update_row-last, count_running-snoc}
use cogitator.Task.Executor.{Task, Executor, begin}
use cogitator.Task.Executor.Exclusive.{begin-rows, begun_row, begun_row-id, snoc-IsValid}

-- A step of one of the executions of the task: it asks, and it begins if the answer was no.
pub data Step : Type 0 where
  asks begins : ℕ → Step

-- The executor and, for each execution that has asked, the answer.
pub record Racing : Type 0 where
  pub executor : Executor
  pub may_begin : List ℕ

-- The result of one step, with the model that the resolver gives, if it is written: a worker that
-- may not begin has returned `ErrAlreadyRunning`.
unfoldable pub step : Racing → Task → Trigger → Option String → ℕ → Step → Racing
step s t trigger model now (asks worker) =
    if has_running_run s.executor.runs t.id
    then s
    else record s { may_begin = worker ∷ s.may_begin }
step s t trigger model now (begins worker) =
    if anyb (λ w. w == worker) s.may_begin
    then record s { executor = (begin s.executor t trigger now model).0 }
    else s

unfoldable pub steps : Racing → Task → Trigger → Option String → ℕ → List Step → Racing
steps s t trigger model now [] = s
steps s t trigger model now (x ∷ xs) = steps (step s t trigger model now x) t trigger model now xs

abbrev pub in_turn : List Step
in_turn = asks 0 ∷ begins 0 ∷ asks 1 ∷ begins 1 ∷ []

abbrev pub interleaved : List Step
interleaved = asks 0 ∷ asks 1 ∷ begins 0 ∷ begins 1 ∷ []

abbrev pub start : Executor → Racing
start e = record { executor = e; may_begin = [] }

begin-IsValid :
    (e : Executor) (t : Task) (trigger : Trigger) (now : ℕ) (model : Option String)
    → IsValid e.runs
    → IsValid (begin e t trigger now model).0.runs
unfolding begin create_run set_run_model
begin-IsValid e t trigger now none v =
    snoc-IsValid e.runs.next_id e.runs.rows (begun_row e.runs.next_id t.id trigger now none) v refl
begin-IsValid e t trigger now (some model) v =
    let n = e.runs.next_id in
    rw
      (update_row-last n (λ r. record r { model_used = model }) e.runs.rows
        (new_run n t.id trigger none now) v refl)
      (snoc-IsValid n e.runs.rows (begun_row n t.id trigger now (some model)) v refl)

count_running-begin :
    (e : Executor) (t : Task) (trigger : Trigger) (now : ℕ) (model : Option String)
    → IsValid e.runs
    → count_running (begin e t trigger now model).0.runs.rows t.id
      ≡ suc (count_running e.runs.rows t.id)
count_running-begin e t trigger now model v =
    let (rows, run) = begin-rows e t trigger now model v in
    let (id, running, of) = begun_row-id e.runs.next_id t.id trigger now model in
    rw rows (
      rw (count_running-snoc e.runs.rows (begun_row e.runs.next_id t.id trigger now model) t.id)
        (ground (arith, of t.id, running)))

count_running_idle :
    (s : Runs) (task : ℕ) → has_running_run s task ≡ false → count_running s.rows task ≡ 0
unfolding has_running_run
count_running_idle s task h = ground (arith, h)

busy : (s : Runs) (task : ℕ) → count_running s.rows task ≡ 1 → has_running_run s task ≡ true
unfolding has_running_run
busy s task h = ground (arith, h)

-- From a valid table in which no run of the task is running, two executions of which each asks and begins
-- before the other asks leave one running run, and two that both ask before either begins leave two,
-- whether the model can be written or not.
pub interleaved-two :
    (e : Executor) (t : Task) (trigger : Trigger) (model : Option String) (now : ℕ)
    → IsValid e.runs
    → has_running_run e.runs t.id ≡ false
    → (count_running (steps (start e) t trigger model now in_turn).executor.runs.rows t.id ≡ 1)
      × (count_running (steps (start e) t trigger model now interleaved).executor.runs.rows t.id
          ≡ 2)
unfolding steps step
interleaved-two e t trigger model now v idle =
    let one = begin e t trigger now model in
    let none_yet = count_running_idle e.runs t.id idle in
    let first = count_running-begin e t trigger now model v in
    let second =
      count_running-begin one.0 t trigger now model (begin-IsValid e t trigger now model v) in
    ground
      (arith, idle, first, second, none_yet, busy one.0.runs t.id (ground (arith, first, none_yet)))
