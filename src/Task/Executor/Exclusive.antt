-- ===== src/Task/Executor/Exclusive.antt =====
-- One run at a time for each task, and the row that an execution leaves.
use cogitator.Base.{
  ◌∙◌, ℕ, ◌≤◌, ◌<◌, ◌≡◌, refl, sym, ap, inl, inr, Bool, true, false, not, ◌&&◌, List, [], ◌∷◌, ◌++◌,
  Option, none, some, All, arith, ◌==◌, suc, All-append, All-weaken, if◌then◌else◌, String,
  Bool-cases,
}
use cogitator.Task.Runs.{
  save_tool_calls, Run, Runs, Trigger, new_run, count_running, has_running_run, create_run,
  update_row, set_run_model, complete_run, fail_run, cancel_run, completed_with, failed_with,
  cancelled_at, is_of, is_running, IsValid,
}
use cogitator.Task.Runs.Rows.{update_row-last, count_running-snoc}
use cogitator.Task.ToolCalls.{ToolCallCollector}
use cogitator.Task.Executor.{
  check_error, already_running, create_error, Verdict, has_records, save, Task, Reply, answered,
  errored, Outcome, Db, Executor, classify_error, settle, model_of, begin, execute,
}

-- The row at the end of an execution, by the way out.
abbrev pub settled_row : Bool → Reply → ℕ → Run → Run
settled_row stopped (errored msg) now r =
    if stopped then cancelled_at now r else failed_with msg (classify_error msg) now r
settled_row stopped (answered content) now r = completed_with content now r

abbrev pub final_row : Db → Bool → Reply → ℕ → Run → Run
final_row db stopped reply now r = if db.finish_works then settled_row stopped reply now r else r

settle-rows :
    (e : Executor) (t : Task) (trigger : Trigger) (run : ℕ) (db : Db) (stopped : Bool)
    (calls : ToolCallCollector) (reply : Reply) (now : ℕ) (rows : List Run) (r : Run)
    → e.runs.rows ≡ rows ++ r ∷ []
    → All (λ q. q.id < run) rows
    → r.id ≡ run
    → (settle e t trigger run db stopped calls reply now).runs.rows
      ≡ rows ++ final_row db stopped reply now r ∷ []
unfolding settle complete_run fail_run cancel_run
settle-rows e t trigger run db stopped calls (answered content) now rows r h below at = ground (
  arith,
  h,
  ap (update_row run (completed_with content now)) h,
  update_row-last run (completed_with content now) rows r below at,
)
settle-rows e t trigger run db stopped calls (errored msg) now rows r h below at = ground (
  arith,
  h,
  ap (update_row run (cancelled_at now)) h,
  ap (update_row run (failed_with msg (classify_error msg) now)) h,
  update_row-last run (cancelled_at now) rows r below at,
  update_row-last run (failed_with msg (classify_error msg) now) rows r below at,
)

-- The row of a run that has begun, with its model if that was written.
abbrev pub begun_row : ℕ → ℕ → Trigger → ℕ → Option String → Run
begun_row run task trigger now none = new_run run task trigger none now
begun_row run task trigger now (some model) = record (new_run run task trigger none now) {
  model_used = model;
}

pub begun_row-id :
    (run task : ℕ) (trigger : Trigger) (now : ℕ) (model : Option String)
    → ((begun_row run task trigger now model).id ≡ run)
      × (is_running (begun_row run task trigger now model).status ≡ true)
      × ((q : ℕ) → is_of q (begun_row run task trigger now model) ≡ (task == q))
begun_row-id run task trigger now none = (refl, refl, λ q. refl)
begun_row-id run task trigger now (some model) = (refl, refl, λ q. refl)

pub begin-rows :
    (e : Executor) (t : Task) (trigger : Trigger) (now : ℕ) (model : Option String)
    → IsValid e.runs
    → ((begin e t trigger now model).0.runs.rows
        ≡ e.runs.rows ++ begun_row e.runs.next_id t.id trigger now model ∷ [])
      × ((begin e t trigger now model).1 ≡ e.runs.next_id)
unfolding begin create_run set_run_model
begin-rows e t trigger now none v = (refl, refl)
begin-rows e t trigger now (some model) v = (
  update_row-last e.runs.next_id (λ r. record r { model_used = model }) e.runs.rows
      (new_run e.runs.next_id t.id trigger none now) v refl,
  refl,
)

abbrev pub saved_row : Db → ToolCallCollector → Run → Run
saved_row db calls r =
    if has_records calls && db.save_works then record r { tool_calls = calls } else r

save-rows :
    (db : Db) (e : Executor) (run : ℕ) (calls : ToolCallCollector) (rows : List Run) (r : Run)
    → e.runs.rows ≡ rows ++ r ∷ []
    → All (λ q. q.id < run) rows
    → r.id ≡ run
    → (save db e run calls).runs.rows ≡ rows ++ saved_row db calls r ∷ []
unfolding save_tool_calls
save-rows db e run calls rows r h below at =
    elim (Bool-cases (has_records calls && db.save_works)) [
      | inl kept ↦
          rw (kept, h) (update_row-last run (λ q. record q { tool_calls = calls }) rows r below at)
      | inr dropped ↦ rw dropped h
    ]

saved_row-kept :
    (db : Db) (calls : ToolCallCollector) (r : Run)
    → ((saved_row db calls r).id ≡ r.id)
      × ((saved_row db calls r).status ≡ r.status)
      × ((task : ℕ) → is_of task (saved_row db calls r) ≡ is_of task r)
saved_row-kept db calls r = (ground arith, ground arith, λ task. ground arith)

-- The rows after `Execute` has gone through to the end.
abbrev pub final_rows : Executor → Task → Trigger → Option String → Db → Outcome → ℕ → ℕ → List Run
final_rows e t trigger model db o now later =
    e.runs.rows
    ++ final_row db o.stopped o.reply later
        (saved_row db o.calls (begun_row e.runs.next_id t.id trigger now model))
      ∷ []

abbrev result_of : Bool → Bool → Bool → Executor → Executor × Verdict → Executor × Verdict
result_of check busy create e through =
    if not check
    then (e, check_error)
    else if busy
    then (e, already_running)
    else if not create
    then (e, create_error)
    else through

-- The three early returns leave the executor as it is.
through :
    (e ended : Executor) (v : Verdict) (rows : List Run) (check busy create : Bool)
    → ended.runs.rows ≡ rows
    → (result_of check busy create e (ended, v)).0.runs.rows
      ≡ (if check && (not busy && create) then rows else e.runs.rows)
through e ended v rows false busy create h = refl
through e ended v rows true true create h = refl
through e ended v rows true false false h = refl
through e ended v rows true false true h = h

-- `Execute` leaves the table as it was when the check fails, a run of the task is running, or the row
-- cannot be written; otherwise it adds one row, which is completed, failed or cancelled by the way
-- the agent returned, and is still running if the last update fails; the row has the model, if it could
-- be written, and the tool calls, where there are any and they could be stored.
pub execute-rows :
    (e : Executor) (t : Task) (trigger : Trigger) (resolve : String → String) (db : Db)
    (o : Outcome) (now later : ℕ)
    → IsValid e.runs
    → (execute e t trigger resolve db o now later).0.runs.rows ≡ (
        if db.check_works && (not (has_running_run e.runs t.id) && db.create_works)
        then final_rows e t trigger (model_of db (resolve t.model_tier)) db o now later
        else e.runs.rows)
unfolding execute
execute-rows e t trigger resolve db o now later v =
    let model = model_of db (resolve t.model_tier) in
    let (id, running, of) = begun_row-id e.runs.next_id t.id trigger now model in
    let (rows, run) = begin-rows e t trigger now model v in
    let started = (begin e t trigger now model).0 in
    let run_id = (begin e t trigger now model).1 in
    let began = begun_row e.runs.next_id t.id trigger now model in
    let kept =
      save-rows db started run_id o.calls e.runs.rows began rows (rw run v) (id ∙ sym run) in
    let last =
      settle-rows (save db started run_id o.calls) t trigger run_id db o.stopped o.calls o.reply
        later e.runs.rows (saved_row db o.calls began) kept (rw run v)
        ((saved_row-kept db o.calls began).0 ∙ id ∙ sym run) in
    through e _ _ _ db.check_works (has_running_run e.runs t.id) db.create_works last

-- The row at the end is running only where the last update fails.
final_row-is_running :
    (db : Db) (stopped : Bool) (reply : Reply) (now : ℕ) (r : Run) (task : ℕ)
    → is_running r.status ≡ true
    → (is_of task (final_row db stopped reply now r)
        && is_running (final_row db stopped reply now r).status)
      ≡ (is_of task r && not db.finish_works)
final_row-is_running db stopped (answered content) now r task h = ground (arith, h)
final_row-is_running db stopped (errored msg) now r task h = ground (arith, h)

no_running : (s : Runs) (task : ℕ) → has_running_run s task ≡ false → count_running s.rows task ≡ 0
unfolding has_running_run
no_running s task h = ground (arith, h)

-- A task that has at most one running run still has at most one after `Execute` of any task, and if
-- the last update works, it has as many running runs as before.
pub execute-AtMostOne :
    (e : Executor) (t : Task) (trigger : Trigger) (resolve : String → String) (db : Db)
    (o : Outcome) (now later task : ℕ)
    → IsValid e.runs
    → count_running e.runs.rows task ≤ 1
    → (count_running (execute e t trigger resolve db o now later).0.runs.rows task ≤ 1)
      × (db.finish_works ≡ true
          → count_running (execute e t trigger resolve db o now later).0.runs.rows task
            ≡ count_running e.runs.rows task)
execute-AtMostOne e t trigger resolve db o now later task v one =
    let fresh = begun_row e.runs.next_id t.id trigger now (model_of db (resolve t.model_tier)) in
    let began = saved_row db o.calls fresh in
    let (id, running, of) =
      begun_row-id e.runs.next_id t.id trigger now (model_of db (resolve t.model_tier)) in
    let (kept, status, of_task) = saved_row-kept db o.calls fresh in
    rw (execute-rows e t trigger resolve db o now later v)
      (elim (Bool-cases
        (db.check_works && (not (has_running_run e.runs t.id) && db.create_works))) [
          | inl go ↦ rw go (
              rw
                (
                  count_running-snoc e.runs.rows (final_row db o.stopped o.reply later began) task,
                  final_row-is_running db o.stopped o.reply later began task
                      (ap is_running status ∙ running),
                )
                (ground (arith, no_running e.runs t.id, go, one, of_task task, of task)))
          | inr stay ↦ rw stay (one, λ f. refl)
        ])

-- The ids stay below the next one.
settle-next_id :
    (e : Executor) (t : Task) (trigger : Trigger) (run : ℕ) (db : Db) (stopped : Bool)
    (calls : ToolCallCollector) (reply : Reply) (now : ℕ)
    → (settle e t trigger run db stopped calls reply now).runs.next_id ≡ e.runs.next_id
unfolding settle complete_run fail_run cancel_run
settle-next_id e t trigger run db stopped calls (answered content) now = ground arith
settle-next_id e t trigger run db stopped calls (errored msg) now = ground arith

begin-next_id :
    (e : Executor) (t : Task) (trigger : Trigger) (now : ℕ) (model : Option String)
    → (begin e t trigger now model).0.runs.next_id ≡ suc e.runs.next_id
unfolding begin create_run set_run_model
begin-next_id e t trigger now none = refl
begin-next_id e t trigger now (some model) = refl

execute-next_id :
    (e : Executor) (t : Task) (trigger : Trigger) (resolve : String → String) (db : Db)
    (o : Outcome) (now later : ℕ)
    → (execute e t trigger resolve db o now later).0.runs.next_id ≡ (
        if db.check_works && (not (has_running_run e.runs t.id) && db.create_works)
        then suc e.runs.next_id
        else e.runs.next_id)
unfolding execute save_tool_calls
execute-next_id e t trigger resolve db o now later =
    let model = model_of db (resolve t.model_tier) in
    let started = (begin e t trigger now model).0 in
    let run = (begin e t trigger now model).1 in
    ground (
      arith,
      begin-next_id e t trigger now model,
      settle-next_id (save db started run o.calls) t trigger run db o.stopped o.calls o.reply later,
    )

final_row-id :
    (db : Db) (stopped : Bool) (reply : Reply) (now : ℕ) (r : Run)
    → (final_row db stopped reply now r).id ≡ r.id
final_row-id db stopped (answered content) now r = ground arith
final_row-id db stopped (errored msg) now r = ground arith

pub snoc-IsValid :
    (n : ℕ) (rows : List Run) (r : Run)
    → All (λ q. q.id < n) rows
    → r.id ≡ n
    → All (λ q. q.id < suc n) (rows ++ r ∷ [])
snoc-IsValid n rows r v at =
    All-append (λ q. q.id < suc n) rows (r ∷ [])
      (All-weaken (λ q. q.id < n) (λ q. q.id < suc n) rows (λ q h. omega (arith, h)) v)
      (omega (arith, at), tt)

-- No execution ends a run that another one has begun.
pub execute-keeps :
    (e : Executor) (t : Task) (trigger : Trigger) (resolve : String → String) (db : Db)
    (o : Outcome) (now later task : ℕ)
    → IsValid e.runs
    → IsValid (execute e t trigger resolve db o now later).0.runs
      × (count_running e.runs.rows task
          ≤ count_running (execute e t trigger resolve db o now later).0.runs.rows task)
execute-keeps e t trigger resolve db o now later task v =
    let model = model_of db (resolve t.model_tier) in
    let fresh = begun_row e.runs.next_id t.id trigger now model in
    let row = final_row db o.stopped o.reply later (saved_row db o.calls fresh) in
    let id : row.id ≡ e.runs.next_id =
      final_row-id db o.stopped o.reply later (saved_row db o.calls fresh)
      ∙ (saved_row-kept db o.calls fresh).0
      ∙ (begun_row-id e.runs.next_id t.id trigger now model).0 in
    rw
      (
        execute-rows e t trigger resolve db o now later v,
        execute-next_id e t trigger resolve db o now later,
      )
      (elim (Bool-cases
        (db.check_works && (not (has_running_run e.runs t.id) && db.create_works))) [
          | inl go ↦ rw go (
            snoc-IsValid e.runs.next_id e.runs.rows row v id,
            rw (count_running-snoc e.runs.rows row task) (ground arith),
          )
          | inr stay ↦ rw stay (v, omega arith)
        ])
