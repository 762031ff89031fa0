-- ===== src/Task/Executor.antt =====
-- server/internal/task/executor.go: the execution of a task as one run.
-- The database may fail at the calls whose errors the code reads or drops (`Db`). The agent is a
-- parameter: its reply, the tool calls that it recorded, and whether the context was done when it
-- returned (`Outcome`). What `Execute` publishes on the bus is the list `published`, oldest first.
-- The bus is set. The text of the self-healing prompt is left out; that a healing agent is spawned is a notice.
pub mod Classify
pub mod Exclusive
pub mod Notices
use Prim.Native.String.{◌++◌ as ◌+++◌}
use cogitator.Base.{
  ℕ, ◌+◌, ◌*◌, ◌≤◌, ◌≡◌, Bool, true, false, not, ◌&&◌, ◌||◌, List, [], ◌∷◌, ◌++◌, Option, none,
  some, ltb, ◌==◌, filterb, if◌then◌else◌, String, anyb,
}
use cogitator.Base.Eqs.{string_eq}
use cogitator.Base.Texts.{Bytes, codes}
use cogitator.Task.Runs as TaskRuns
use cogitator.Task.Runs.{
  Trigger, cron, manual, conversation, spawned, system, catch_up, ErrorClass, transient, systemic,
  Run, Runs,
}
use cogitator.Task.ToolCalls.{
  ToolCallRecord, ToolCallCollector, has_failures, used_tool_successfully,
}

pub record Task : Type 0 where
  pub id : ℕ
  pub name : String
  pub prompt : String
  pub model_tier : String
  pub user_id : String
  pub timeout : ℕ
  pub max_retries : ℕ
  pub retry_backoff : ℕ
  pub notify_chat : Bool
  pub broadcast : Bool
  pub notify_users : List String

pub data Reply : Type 0 where
  answered errored : String → Reply

pub record Outcome : Type 0 where
  pub reply : Reply
  pub stopped : Bool
  pub calls : ToolCallCollector

-- Which statements succeed: the check, the insertion, the model, the tool calls, the final update,
-- the last query.
pub record Db : Type 0 where
  pub check_works : Bool
  pub create_works : Bool
  pub model_works : Bool
  pub save_works : Bool
  pub finish_works : Bool
  pub get_works : Bool

pub data Notice : Type 0 where
  task_started : ℕ → ℕ → Trigger → Notice
  task_cancelled : ℕ → ℕ → Notice
  task_failed : ℕ → ℕ → String → ErrorClass → Notice
  task_completed : ℕ → ℕ → Bool → Notice
  task_notify_chat : ℕ → ℕ → String → Notice
  self_healing : ℕ → ℕ → Notice

pub record Executor : Type 0 where
  pub runs : Runs
  pub active : List ℕ
  pub published : List Notice

pub data Verdict : Type 0 where
  check_error already_running create_error : Verdict
  returned : Option Run → Verdict

abbrev pub second : ℕ
second = 1_000_000_000

abbrev pub max_task_timeout : ℕ
max_task_timeout = 600 * second

pub task_timeout : Task → ℕ
task_timeout t =
    if ltb 0 t.timeout
    then (if ltb (t.timeout * second) max_task_timeout
        then t.timeout * second
        else max_task_timeout)
    else max_task_timeout

-- `c >= 'A' && c <= 'Z'`, then `c += 32`
abbrev pub lower : ℕ → ℕ
lower c = if ltb b'@' c && ltb c b'[' then c + 32 else c

-- The inner loop of containsLower: the text begins with `sub`, but for the case of its letters.
unfoldable pub lower_prefix : Bytes → Bytes → Bool
lower_prefix s [] = true
lower_prefix [] (p ∷ ps) = false
lower_prefix (c ∷ s) (p ∷ ps) = lower c == p && lower_prefix s ps

-- The outer loop. It also tries the starts at which `sub` no longer fits, where the inner loop fails.
unfoldable pub contains_lower : Bytes → Bytes → Bool
unfolding lower_prefix
contains_lower [] sub = lower_prefix [] sub
contains_lower (c ∷ s) sub = lower_prefix (c ∷ s) sub || contains_lower s sub

abbrev pub transient_keywords : List String
transient_keywords =
    "timeout" ∷ "deadline" ∷ "connection refused" ∷ "eof" ∷ "temporary" ∷ "unavailable" ∷ []

unfoldable pub classify_error : String → ErrorClass
unfolding contains_lower
classify_error msg =
    if anyb (λ k. contains_lower (codes msg) (codes k)) transient_keywords
    then transient
    else systemic

abbrev pub is_conversation : Trigger → Bool
is_conversation conversation = true
is_conversation t = false

abbrev pub publish : Executor → Notice → Executor
publish e n = record e { published = e.published ++ n ∷ [] }

abbrev pub publish_if : Bool → Executor → Notice → Executor
publish_if b e n = if b then publish e n else e

-- The last update of the row, which changes nothing if the database fails.
abbrev pub finish : Db → Executor → Runs → Executor
finish db e runs = if db.finish_works then record e { runs = runs } else e

abbrev pub has_records : ToolCallCollector → Bool
has_records [] = false
has_records (r ∷ rs) = true

-- The tool calls are stored whatever the outcome, unless there are none or the database fails.
abbrev pub save : Db → Executor → ℕ → ToolCallCollector → Executor
save db e run calls =
    if has_records calls && db.save_works
    then record e { runs = TaskRuns.save_tool_calls e.runs run calls }
    else e

abbrev pub failure_text : String → String
failure_text msg = "Failed: " +++ msg

-- The rest of `Execute` after the agent has returned, on its three ways out.
unfoldable pub settle :
    Executor → Task → Trigger → ℕ → Db → Bool → ToolCallCollector → Reply → ℕ → Executor
settle e t trigger run db stopped calls (errored msg) now =
    if stopped
    then publish (finish db e (TaskRuns.cancel_run e.runs run now)) (task_cancelled t.id run)
    else (let class = classify_error msg in
        let failed = finish db e (TaskRuns.fail_run e.runs run msg class now) in
        publish_if (t.notify_chat && not (is_conversation trigger))
          (publish failed (task_failed t.id run msg class))
          (task_notify_chat t.id run (failure_text msg)))
settle e t trigger run db stopped calls (answered content) now =
    let done = finish db e (TaskRuns.complete_run e.runs run content now) in
    let healed = publish_if (has_failures calls) done (self_healing t.id run) in
    let notified = used_tool_successfully calls "notify_user" in
    publish_if (t.notify_chat && not (is_conversation trigger) && not notified)
      (publish healed (task_completed t.id run notified)) (task_notify_chat t.id run content)

-- `delete(e.activeRuns, runID)`
abbrev pub remove_active : ℕ → List ℕ → List ℕ
remove_active run active = filterb (λ r. not (r == run)) active

-- The error of SetRunModel is dropped: the row then has no model.
abbrev pub with_model : Runs → ℕ → Option String → Runs
with_model runs run none = runs
with_model runs run (some model) = TaskRuns.set_run_model runs run model

-- The model that is written, if the statement works.
abbrev pub model_of : Db → String → Option String
model_of db model = if db.model_works then some model else none

-- From the insertion of the run to the call of the agent.
unfoldable pub begin : Executor → Task → Trigger → ℕ → Option String → Executor × ℕ
begin e t trigger now model =
    let (runs, run) = TaskRuns.create_run e.runs t.id trigger none now in
    (
      publish (record e { runs = with_model runs run model; active = run ∷ e.active })
          (task_started t.id run trigger),
      run,
    )

unfoldable pub execute :
    Executor → Task → Trigger → (String → String) → Db → Outcome → ℕ → ℕ → Executor × Verdict
execute e t trigger model_resolver db o now later =
    let (started, run) = begin e t trigger now (model_of db (model_resolver t.model_tier)) in
    let settled =
      settle (save db started run o.calls) t trigger run db o.stopped o.calls o.reply later in
    let ended = record settled { active = remove_active run settled.active } in
    let result = if db.get_works then TaskRuns.get_run ended.runs run else none in
    if not db.check_works
    then (e, check_error)
    else if TaskRuns.has_running_run e.runs t.id
    then (e, already_running)
    else if not db.create_works
    then (e, create_error)
    else (ended, returned result)

-- `Cancel` forgets the run and reports whether it was active here; calling its function ends the
-- context, which is the `stopped` of the run's outcome.
pub cancel : Executor → ℕ → Executor × Bool
cancel e run = (record e { active = remove_active run e.active }, anyb (λ r. r == run) e.active)
