-- ===== src/Task/Scheduler/Tests.antt =====
-- A reload on a small cron, which numbers its jobs and reads "daily" only.
use cogitator.Base.{
  ℕ, suc, ◌+◌, ◌≡◌, refl, true, false, List, [], ◌∷◌, ◌++◌, Option, none, some, if◌then◌else◌,
  arith, String,
}
use cogitator.Base.Eqs.{string_eq}
use cogitator.Task.Scheduler.{Job, without, Cron, ScheduledTask, Scheduler, reload}
use cogitator.Task.Scheduler.Reload.{IsValid, tasks_of, reload-Scheduled}

pub record Table : Type 0 where
  pub rows : List Job
  pub next_id : ℕ

abbrev add_row : Table → String → ℕ → Option (Table × ℕ)
add_row t expr task =
    if string_eq.beq expr "daily"
    then some
        (record { rows = t.rows ++ (t.next_id, task) ∷ []; next_id = suc t.next_id }, t.next_id)
    else none

abbrev daily : Cron
daily = record {
  State = Table;
  jobs = λ t. t.rows;
  parses = λ expr. string_eq.beq expr "daily";
  next = λ expr now. now + 10;
  add_func = add_row;
  remove = λ t id. record t { rows = without id t.rows };
  add_func-parses = λ t expr task good. (
    record { rows = t.rows ++ (t.next_id, task) ∷ []; next_id = suc t.next_id },
    t.next_id,
    rw good refl,
    refl,
  );
  add_func-fails = λ t expr task bad. rw bad refl;
  jobs-remove = λ t id. refl;
}

abbrev backup : ScheduledTask
backup = record { id = 3; cron_expr = "daily"; enabled = true }

abbrev paused : ScheduledTask
paused = record { id = 4; cron_expr = "daily"; enabled = false }

abbrev broken : ScheduledTask
broken = record { id = 5; cron_expr = "whenever"; enabled = true }

-- One task that is gone from the table is still scheduled.
abbrev before : Scheduler daily
before = record { cron = record { rows = (7, 9) ∷ []; next_id = 8 }; entries = (9, 7) ∷ [] }

reload-Scheduled_example :
    IsValid (reload before (some (backup ∷ paused ∷ broken ∷ []))).0
    × (tasks_of (reload before (some (backup ∷ paused ∷ broken ∷ []))).0.cron.rows ≡ 3 ∷ [])
    × ((reload before none).0.cron.rows ≡ [])
reload-Scheduled_example =
    reload-Scheduled before (backup ∷ paused ∷ broken ∷ []) (refl, tt)
      ((omega arith, (omega arith, tt)), ((omega arith, tt), (tt, tt)))
