-- ===== src/Task/Runs.antt =====
-- server/internal/task/types.go and store.go: the table `task_runs` and the queries on it. The table
-- is the list of its rows by rising id; `none` is NULL. A method's error is its result `none`: the
-- database may fail at every call, which is the argument `up`.
pub mod Rows
use Prim.Native.Nat.{max}
use mathlib.Core.List.{reverse}
use cogitator.Base.{
  ℕ, suc, ◌+◌, ◌<◌, ◌≡◌, refl, Bool, true, false, not, map, take, All-append, ◌&&◌, List, [], ◌∷◌,
  ◌++◌, Option, none, some, ltb, ◌==◌, length, anyb, filterb, All, arith, if◌then◌else◌, String,
}
use cogitator.Task.ToolCalls.{ToolCallCollector}

pub data Trigger : Type 0 where
  cron manual conversation spawned system catch_up : Trigger

pub data RunStatus : Type 0 where
  running completed failed retrying cancelled : RunStatus

pub data ErrorClass : Type 0 where
  transient systemic : ErrorClass

abbrev pub is_running : RunStatus → Bool
is_running running = true
is_running s = false

abbrev pub is_failed : RunStatus → Bool
is_failed failed = true
is_failed s = false

abbrev pub is_transient : Option ErrorClass → Bool
is_transient (some transient) = true
is_transient c = false

pub record Run : Type 0 where
  pub id : ℕ
  pub task_id : Option ℕ
  pub trigger : Trigger
  pub started_at : ℕ
  pub finished_at : Option ℕ
  pub status : RunStatus
  pub model_used : String
  pub error_message : String
  pub error_class : Option ErrorClass
  pub result_summary : String
  pub retry_of : Option ℕ
  pub tool_calls : ToolCallCollector

pub record Runs : Type 0 where
  pub rows : List Run
  pub next_id : ℕ

abbrev pub is_of : ℕ → Run → Bool
is_of task r = elim r.task_id [ none ↦ false | some t ↦ t == task ]

-- `SELECT COUNT(*) ... WHERE task_id = ? AND status = 'running'`
unfoldable pub count_running : List Run → ℕ → ℕ
count_running [] task = 0
count_running (r ∷ rows) task =
    let rest = count_running rows task in
    if is_of task r && is_running r.status then suc rest else rest

unfoldable pub has_running_run : Runs → ℕ → Bool
has_running_run s task = ltb 0 (count_running s.rows task)

abbrev pub new_run : ℕ → ℕ → Trigger → Option ℕ → ℕ → Run
new_run id task trigger retry_of now = record {
  id = id;
  task_id = some task;
  trigger = trigger;
  started_at = now;
  finished_at = none;
  status = running;
  model_used = "";
  error_message = "";
  error_class = none;
  result_summary = "";
  retry_of = retry_of;
  tool_calls = [];
}

-- The callers never set a status, so the row starts as running.
unfoldable pub create_run : Runs → ℕ → Trigger → Option ℕ → ℕ → Runs × ℕ
create_run s task trigger retry_of now = (
  record s {
    rows = s.rows ++ new_run s.next_id task trigger retry_of now ∷ [];
    next_id = suc s.next_id;
  },
  s.next_id,
)

-- `UPDATE task_runs SET ... WHERE id = ?`
unfoldable pub update_row : ℕ → (Run → Run) → List Run → List Run
update_row id f [] = []
update_row id f (r ∷ rows) = (if r.id == id then f r else r) ∷ update_row id f rows

abbrev pub update_run : Runs → ℕ → (Run → Run) → Runs
update_run s id f = record s { rows = update_row id f s.rows }

abbrev pub completed_with : String → ℕ → Run → Run
completed_with summary now r = record r {
  status = completed;
  finished_at = some now;
  result_summary = summary;
}

abbrev pub failed_with : String → ErrorClass → ℕ → Run → Run
failed_with msg class now r = record r {
  status = failed;
  finished_at = some now;
  error_message = msg;
  error_class = some class;
}

abbrev pub cancelled_at : ℕ → Run → Run
cancelled_at now r = record r { status = cancelled; finished_at = some now }

unfoldable pub complete_run : Runs → ℕ → String → ℕ → Runs
complete_run s id summary now = update_run s id (completed_with summary now)

unfoldable pub fail_run : Runs → ℕ → String → ErrorClass → ℕ → Runs
fail_run s id msg class now = update_run s id (failed_with msg class now)

unfoldable pub cancel_run : Runs → ℕ → ℕ → Runs
cancel_run s id now = update_run s id (cancelled_at now)

unfoldable pub set_run_model : Runs → ℕ → String → Runs
set_run_model s id model = update_run s id (λ r. record r { model_used = model })

unfoldable pub save_tool_calls : Runs → ℕ → ToolCallCollector → Runs
save_tool_calls s id calls = update_run s id (λ r. record r { tool_calls = calls })

unfoldable pub find_row : ℕ → List Run → Option Run
find_row id [] = none
find_row id (r ∷ rows) = if r.id == id then some r else find_row id rows

unfoldable pub get_run : Runs → ℕ → Option Run
get_run s id = find_row id s.rows

unfoldable pub delete_run : Runs → ℕ → Runs × Bool
delete_run s id =
    (record s { rows = filterb (λ r. not (r.id == id)) s.rows }, anyb (λ r. r.id == id) s.rows)

abbrev stale_message : String
stale_message = "server restarted while task was running"

abbrev fail_stale : ℕ → Run → Run
fail_stale now r =
    if is_running r.status
    then record r { status = failed; finished_at = some now; error_message = stale_message }
    else r

unfoldable pub cleanup_stale_runs : Runs → ℕ → Runs × ℕ
cleanup_stale_runs s now = (
  record s { rows = map (fail_stale now) s.rows },
  length (filterb (λ r. is_running r.status) s.rows),
)

-- `SELECT MAX(started_at)`, 0 for the zero time.
unfoldable pub last_run_time : List Run → ℕ → ℕ
last_run_time [] task = 0
last_run_time (r ∷ rows) task =
    let rest = last_run_time rows task in if is_of task r then max r.started_at rest else rest

-- `ORDER BY id DESC LIMIT ?` over rows that stand by rising id.
unfoldable pub list_runs_for_task : Runs → ℕ → ℕ → List Run
list_runs_for_task s task limit =
    let found = reverse (filterb (is_of task) s.rows) in
    if limit == 0 then take 50 found else take limit found

-- Every id in the table is below the next one.
abbrev pub IsValid : Runs → Type 0
IsValid s = All (λ r. r.id < s.next_id) s.rows
