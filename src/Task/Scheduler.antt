-- ===== src/Task/Scheduler.antt =====
-- server/internal/task/scheduler.go: the schedule of the tasks and the runs missed while the machine
-- slept. The cron library is an interface: its state, its jobs with the task each one runs, and what
-- its documentation says of adding and removing them. A time of 0 is the zero time.
pub mod Reload
pub mod CatchUp
mod Tests
use cogitator.Base.{
  ℕ, suc, ◌+◌, ◌≤◌, ◌<◌, ◌≡◌, ◌≢◌, refl, sym, ap, ◌∙◌, inl, inr, Bool, true, false, not, ◌&&◌, ◌||◌,
  List, [], ◌∷◌, ◌++◌, Option, none, some, ltb, ◌==◌, ==_iff, anyb, filterb, map, All,
  if◌then◌else◌, if_both, arith, String, Bool-cases, Option-cases,
}
use cogitator.Base.Assoc
use cogitator.Base.Eqs.{nat_eq, string_eq}
use cogitator.Task.Runs.{Run, Runs, Trigger, catch_up, last_run_time, create_run, is_of, new_run}

-- A job is its entry's id and the id of the task that its function runs.
abbrev pub Job : Type 0
Job = ℕ × ℕ

abbrev pub without : ℕ → List Job → List Job
without id jobs = filterb (λ j. not (j.0 == id)) jobs

pub record Cron : Type 1 where
  pub State : Type 0
  pub jobs : State → List Job
  pub parses : String → Bool
  pub next : String → ℕ → ℕ
  pub add_func : State → String → ℕ → Option (State × ℕ)
  pub remove : State → ℕ → State
  -- A function is added if and only if its expression parses, as a new job under a new id.
  pub add_func-parses :
      (c : State) (expr : String) (task : ℕ)
      → parses expr ≡ true
      → (c' : State) × (id : ℕ) × (add_func c expr task ≡ some (c', id))
        × (jobs c' ≡ jobs c ++ (id, task) ∷ [])
  pub add_func-fails :
      (c : State) (expr : String) (task : ℕ) → parses expr ≡ false → add_func c expr task ≡ none
  pub jobs-remove : (c : State) (id : ℕ) → jobs (remove c id) ≡ without id (jobs c)

pub record ScheduledTask : Type 0 where
  pub id : ℕ
  pub cron_expr : String
  pub enabled : Bool

-- `WHERE enabled = 1 AND cron_expr != ''`
abbrev pub list_scheduled_tasks : List ScheduledTask → List ScheduledTask
list_scheduled_tasks tasks = filterb (λ t. t.enabled && not (string_eq.beq t.cron_expr "")) tasks

pub record Scheduler (L : Cron) : Type 0 where
  pub cron : L.State
  pub entries : List (ℕ × ℕ)

unfoldable pub remove_entries : (L : Cron) → L.State → List (ℕ × ℕ) → L.State
remove_entries L c [] = c
remove_entries L c ((task, id) ∷ entries) = remove_entries L (L.remove c id) entries

-- The task missed a firing in the window and has not run since its start: `catchUpMissed` runs it.
unfoldable pub is_missed : Cron → List Run → ℕ → ℕ → ScheduledTask → Bool
is_missed L rows sleep_start wake t =
    L.parses t.cron_expr
    && (not (L.next t.cron_expr sleep_start == 0)
        && (ltb (L.next t.cron_expr sleep_start) wake && ltb (last_run_time rows t.id) sleep_start))

abbrev pub catch_up_missed : Cron → List Run → ℕ → ℕ → List ScheduledTask → List ScheduledTask
catch_up_missed L rows sleep_start wake tasks =
    filterb (is_missed L rows sleep_start wake) (list_scheduled_tasks tasks)

module _ {L : Cron} where
  abbrev pub with_entry : Scheduler L → ℕ → Option (L.State × ℕ) → Scheduler L
  with_entry s task none = s
  with_entry s task (some (c, id)) = record s { cron = c; entries = Assoc.insert task id s.entries }

  -- `addTaskLocked`
  unfoldable pub add_task : Scheduler L → ScheduledTask → Scheduler L
  add_task s t = with_entry s t.id (L.add_func s.cron t.cron_expr t.id)

  unfoldable pub add_tasks : Scheduler L → List ScheduledTask → Scheduler L
  add_tasks s [] = s
  add_tasks s (t ∷ ts) = add_tasks (add_task s t) ts

  abbrev pub cleared : Scheduler L → Scheduler L
  cleared s = record { cron = remove_entries L s.cron s.entries; entries = [] }

  -- `Reload`, with whether it succeeds; `none` is a failing query.
  unfoldable pub reload : Scheduler L → Option (List ScheduledTask) → Scheduler L × Bool
  reload s none = (cleared s, false)
  reload s (some tasks) = (add_tasks (cleared s) (list_scheduled_tasks tasks), true)
