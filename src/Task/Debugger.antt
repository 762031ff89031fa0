-- ===== src/Task/Debugger.antt =====
-- server/internal/worker/debugger.go: the retry of a task whose run failed with a transient error.
-- The query of the runs works; the task is the one that `GetTask` finds, or none.
use native.Mathlib.Nat.{mul-le-mul_left}
use mathlib.Core.Path.{ap, ◌∙◌}
use cogitator.Base.{
  ℕ, suc, ◌+◌, ◌*◌, ◌≤◌, ◌≡◌, refl, inl, inr, Bool, true, false, ◌&&◌, List, [], ◌∷◌, Option, none,
  some, leb, length, filterb, arith, if◌then◌else◌, String, Bool-cases,
}
use cogitator.Task.Runs as TaskRuns
use cogitator.Task.Runs.{
  Trigger, IsValid, Run, Runs, system, ErrorClass, transient, systemic, is_failed, is_transient,
  count_running, has_running_run, list_runs_for_task, create_run,
}
use cogitator.Task.Runs.Rows.{count_running-create_run}
use cogitator.Task.Executor.{
  Task, Outcome, Db, Executor, Verdict, check_error, already_running, execute, second,
}
use cogitator.Task.Executor.Exclusive.{execute-keeps, snoc-IsValid}

-- The runs among the last fifty that failed with a transient error.
abbrev pub is_transient_failure : Run → Bool
is_transient_failure r = is_failed r.status && is_transient r.error_class

unfoldable pub retry_count : Runs → ℕ → ℕ
retry_count s task = length (filterb is_transient_failure (list_runs_for_task s task 50))

-- The time to wait before a retry, or none where none is due.
unfoldable pub handle_transient : Executor → Option Task → Option ℕ
handle_transient e none = none
handle_transient e (some t) =
    let count = retry_count e.runs t.id in
    if leb t.max_retries count then none else some (t.retry_backoff * second * (count + 1))

-- An event without its ids is dropped, and so is a systemic failure, which is only logged.
unfoldable pub handle_failure : Executor → Option ℕ → Option ℕ → ErrorClass → Option Task → Option ℕ
handle_failure e none task class found = none
handle_failure e (some run) none class found = none
handle_failure e (some run) (some task) transient found = handle_transient e found
handle_failure e (some run) (some task) systemic found = none

-- What runs when the time is over. `created` says whether the row of the retry could be written:
-- that error is dropped.
unfoldable pub retry :
    Executor → Task → ℕ → Bool → (String → String) → Db → Outcome → ℕ → ℕ → Executor × Verdict
retry e t failed_run created resolve db o now later =
    let (runs, run) = TaskRuns.create_run e.runs t.id system (some failed_run) now in
    execute (if created then record e { runs = runs } else e) t system resolve db o now later

has_running_run-create_run :
    (s : Runs) (task failed_run now : ℕ)
    → has_running_run (create_run s task system (some failed_run) now).0 task ≡ true
unfolding has_running_run
has_running_run-create_run s task failed_run now =
    rw (count_running-create_run s task task system (some failed_run) now) (ground arith)

create_run-IsValid :
    (s : Runs) (task failed_run now : ℕ)
    → IsValid s
    → IsValid (create_run s task system (some failed_run) now).0
unfolding create_run
create_run-IsValid s task failed_run now v = snoc-IsValid s.next_id s.rows _ v refl

-- A call of `Execute`, with all that it meets.
pub record Call : Type 0 where
  pub task : Task
  pub trigger : Trigger
  pub resolve : String → String
  pub db : Db
  pub outcome : Outcome
  pub now : ℕ
  pub later : ℕ

abbrev pub call : Executor → Call → Executor × Verdict
call e c = execute e c.task c.trigger c.resolve c.db c.outcome c.now c.later

unfoldable pub calls_after : Executor → List Call → Executor
calls_after e [] = e
calls_after e (c ∷ cs) = calls_after (call e c).0 cs

-- A task with a running run still has one after any executions.
stays_busy :
    (e : Executor) (task : ℕ) (cs : List Call)
    → IsValid e.runs
    → 1 ≤ count_running e.runs.rows task
    → 1 ≤ count_running (calls_after e cs).runs.rows task
unfolding calls_after
stays_busy e task [] v busy = busy
stays_busy e task (c ∷ cs) v busy =
    let (w, more) =
      execute-keeps e c.task c.trigger c.resolve c.db c.outcome c.now c.later task v in
    stays_busy (call e c).0 task cs w (omega (arith, busy, more))

busy_count : (s : Runs) (task : ℕ) → has_running_run s task ≡ true → 1 ≤ count_running s.rows task
unfolding has_running_run
busy_count s task h = ground (arith, h)

count_busy : (s : Runs) (task : ℕ) → 1 ≤ count_running s.rows task → has_running_run s task ≡ true
unfolding has_running_run
count_busy s task h = ground (arith, h)

call-refuses :
    (e : Executor) (c : Call)
    → has_running_run e.runs c.task.id ≡ true
    → call e c ≡ (e, if c.db.check_works then already_running else check_error)
unfolding execute
call-refuses e c busy = elim (Bool-cases c.db.check_works) [
  | inl works ↦ rw (works, busy) refl
  | inr fails ↦ rw fails refl
]

-- In a table whose ids are below the next one, where the row of a retry could be written and the
-- check works, the retry never reaches the agent: its own row makes the execution refuse to start,
-- and stays, running. After any further executions, of whatever tasks and with whatever outcome,
-- each execution of the task by any trigger still changes nothing: it is refused, or its check
-- fails. Where the row could not be written, the retry is an execution of the task like any other.
pub retry-refused :
    (e : Executor) (t : Task) (failed_run : ℕ) (resolve : String → String) (db : Db) (o : Outcome)
    (now later : ℕ) (cs : List Call) (again : Call)
    → IsValid e.runs
    → db.check_works ≡ true
    → again.task.id ≡ t.id
    → let (stuck, verdict) = retry e t failed_run true resolve db o now later in
      (verdict ≡ already_running)
      × (stuck ≡ record e { runs = (create_run e.runs t.id system (some failed_run) now).0 })
      × (call (calls_after stuck cs) again
          ≡ (calls_after stuck cs, if again.db.check_works then already_running else check_error))
      × (retry e t failed_run false resolve db o now later
          ≡ execute e t system resolve db o now later)
unfolding retry
retry-refused e t failed_run resolve db o now later cs again valid works same =
    let stuck = record e { runs = (create_run e.runs t.id system (some failed_run) now).0 } in
    let busy = has_running_run-create_run e.runs t.id failed_run now in
    let first : Call = record {
      task = t;
      trigger = system;
      resolve = resolve;
      db = db;
      outcome = o;
      now = now;
      later = later;
    } in
    let refused : call stuck first ≡ (stuck, already_running) =
      call-refuses stuck first busy
      ∙ ap (λ b. (stuck, if b then already_running else check_error)) works in
    let still =
      stays_busy stuck t.id cs (create_run-IsValid e.runs t.id failed_run now valid)
        (busy_count stuck.runs t.id busy) in
    rw refused (
      refl,
      refl,
      call-refuses (calls_after stuck cs) again (rw same (count_busy _ t.id still)),
      refl,
    )

handle_transient-bounded :
    (e : Executor) (t : Task) (wait : ℕ)
    → handle_transient e (some t) ≡ some wait
    → (suc (retry_count e.runs t.id) ≤ t.max_retries)
      × (wait ≤ t.retry_backoff * second * t.max_retries)
unfolding handle_transient
handle_transient-bounded e t wait h =
    let count = retry_count e.runs t.id in
    elim (Bool-cases (leb t.max_retries count)) [
      | inl over ↦ ground (arith, h)
      | inr under ↦
          let few : suc count ≤ t.max_retries = ground arith in
          let grows : t.retry_backoff * second * (count + 1)
              ≤ t.retry_backoff * second * t.max_retries =
            mul-le-mul_left (t.retry_backoff * second) (ground arith) in
          ground (arith, h, grows)
    ]

-- A failure is retried only if it is transient, its event has its ids, and the task is found with
-- fewer transient failures among its last fifty runs than retries; the wait then grows with them.
pub handle_failure-bounded :
    (e : Executor) (run task : Option ℕ) (class : ErrorClass) (found : Option Task) (wait : ℕ)
    → handle_failure e run task class found ≡ some wait
    → (class ≡ transient)
      × ((t : Task) × (found ≡ some t)
          × (suc (retry_count e.runs t.id) ≤ t.max_retries)
          × (wait ≤ t.retry_backoff * second * t.max_retries))
unfolding handle_failure handle_transient
handle_failure-bounded e none task class found wait h = absurd cc
handle_failure-bounded e (some run) none class found wait h = absurd cc
handle_failure-bounded e (some run) (some task) systemic found wait h = absurd cc
handle_failure-bounded e (some run) (some task) transient none wait h = absurd cc
handle_failure-bounded e (some run) (some task) transient (some t) wait h =
    let (few, short) = handle_transient-bounded e t wait h in (refl, (t, refl, few, short))
