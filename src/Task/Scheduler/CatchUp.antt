-- ===== src/Task/Scheduler/CatchUp.antt =====
-- The runs that were missed while the machine slept are caught up once.
use Prim.Native.Nat.{max}
use cogitator.Base.{ℕ, ◌≤◌, ◌≡◌, ◌≢◌, false, List, [], ◌∷◌, ◌++◌, none, ◌==◌, if◌then◌else◌, arith}
use cogitator.Task.Runs.{Run, Runs, Trigger, is_of, new_run, create_run, last_run_time}
use cogitator.Task.Scheduler.{Cron, ScheduledTask, is_missed}

last_run_time-snoc :
    (rows : List Run) (r : Run) (task : ℕ)
    → last_run_time (rows ++ r ∷ []) task ≡ (
        if is_of task r
        then max (last_run_time rows task) r.started_at
        else last_run_time rows task)
unfolding last_run_time
last_run_time-snoc [] r task = ground arith
last_run_time-snoc (q ∷ rows) r task = ground (arith, last_run_time-snoc rows r task)

last_run_time-create_run :
    (s : Runs) (task other now : ℕ) (trigger : Trigger)
    → last_run_time (create_run s task trigger none now).0.rows other
      ≡ (if task == other then max (last_run_time s.rows other) now else last_run_time s.rows other)
unfolding create_run
last_run_time-create_run s task other now trigger =
    last_run_time-snoc s.rows (new_run s.next_id task trigger none now) other

-- A task that has run since the start of the sleep is not caught up again: a run at or after the
-- start, of whatever trigger, ends the miss of its task, and it changes the answer for no other task.
pub is_missed_once :
    (L : Cron) (s : Runs) (t u : ScheduledTask) (trigger : Trigger) (sleep_start wake now : ℕ)
    → sleep_start ≤ now
    → t.id ≢ u.id
    → (is_missed L (create_run s t.id trigger none now).0.rows sleep_start wake t ≡ false)
      × (is_missed L (create_run s t.id trigger none now).0.rows sleep_start wake u
          ≡ is_missed L s.rows sleep_start wake u)
unfolding is_missed
is_missed_once L s t u trigger sleep_start wake now since ne = (
  rw (last_run_time-create_run s t.id t.id now trigger) (ground arith),
  rw (last_run_time-create_run s t.id u.id now trigger) (ground (arith, ne)),
)
