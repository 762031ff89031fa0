-- ===== src/Task/Executor/Notices.antt =====
-- The notices of an execution: how many say that the run has ended, and when the chat is told.
use cogitator.Base.{
  ℕ, suc, ◌+◌, ◌≡◌, ap, ◌∙◌, Bool, true, false, not, ◌&&◌, List, Option, [], ◌∷◌, ◌++◌, arith,
  if◌then◌else◌, String,
}
use cogitator.Task.Runs.{
  Runs, Trigger, has_running_run, ErrorClass, complete_run, fail_run, cancel_run, create_run,
}
use cogitator.Task.ToolCalls.{ToolCallCollector, has_failures, used_tool_successfully}
use cogitator.Task.Executor.{
  save, Task, Reply, answered, errored, Outcome, Db, Executor, Notice, task_started, task_cancelled,
  task_failed, task_completed, task_notify_chat, self_healing, is_conversation, publish, publish_if,
  finish, classify_error, failure_text, settle, model_of, begin, execute,
}

-- Which notices are counted: those of a start, of an end, or to the chat.
pub data Kind : Type 0 where
  start end chat : Kind

abbrev pub is_of_kind : Kind → Notice → Bool
is_of_kind start (task_started t r g) = true
is_of_kind end (task_cancelled t r) = true
is_of_kind end (task_failed t r m c) = true
is_of_kind end (task_completed t r n) = true
is_of_kind chat (task_notify_chat t r c) = true
is_of_kind k n = false

unfoldable pub count_kind : Kind → List Notice → ℕ
count_kind k [] = 0
count_kind k (n ∷ ns) = let rest = count_kind k ns in if is_of_kind k n then suc rest else rest

count_kind-append :
    (k : Kind) (xs ys : List Notice) → count_kind k (xs ++ ys) ≡ count_kind k xs + count_kind k ys
unfolding count_kind
count_kind-append k [] ys = omega arith
count_kind-append k (n ∷ xs) ys = ground (arith, count_kind-append k xs ys)

-- Whether the chat is told: the task asks for it and did not come from a conversation, and either
-- the run failed without having been stopped or it completed and no call of `notify_user` succeeded.
abbrev pub tells_chat : Task → Trigger → Outcome → Bool
tells_chat t trigger o =
    t.notify_chat
    && (not (is_conversation trigger) && elim o.reply [
      | answered content ↦ not (used_tool_successfully o.calls "notify_user")
      | errored msg ↦ not o.stopped
    ])

abbrev one_if : Bool → ℕ
one_if b = if b then 1 else 0

-- What one kind gains from the notices of `settle`.
abbrev gain : Kind → Bool → ℕ
gain start tells = 0
gain end tells = 1
gain chat tells = one_if tells

publish-counts :
    (k : Kind) (e : Executor) (n : Notice)
    → count_kind k (publish e n).published ≡ count_kind k e.published + one_if (is_of_kind k n)
unfolding count_kind
publish-counts k e n = rw (count_kind-append k e.published (n ∷ [])) (ground arith)

publish_if-counts :
    (k : Kind) (b : Bool) (e : Executor) (n : Notice)
    → count_kind k (publish_if b e n).published
      ≡ count_kind k e.published + one_if (b && is_of_kind k n)
publish_if-counts k true e n = publish-counts k e n
publish_if-counts k false e n = omega arith

finish-counts :
    (k : Kind) (db : Db) (e : Executor) (runs : Runs)
    → count_kind k (finish db e runs).published ≡ count_kind k e.published
finish-counts k db e runs = ground arith

save-counts :
    (k : Kind) (db : Db) (e : Executor) (run : ℕ) (calls : ToolCallCollector)
    → count_kind k (save db e run calls).published ≡ count_kind k e.published
save-counts k db e run calls = ground arith

failed-counts :
    (k : Kind) (e : Executor) (t : Task) (trigger : Trigger) (run : ℕ) (msg : String)
    (class : ErrorClass) (text : String)
    → count_kind k
        (publish_if
          (t.notify_chat && not (is_conversation trigger))
          (publish e (task_failed t.id run msg class))
          (task_notify_chat t.id run text)).published
      ≡ count_kind k e.published + gain k (t.notify_chat && (not (is_conversation trigger) && true))
failed-counts k e t trigger run msg class text =
    rw
      (
        publish_if-counts k (t.notify_chat && not (is_conversation trigger))
            (publish e (task_failed t.id run msg class)) (task_notify_chat t.id run text),
        publish-counts k e (task_failed t.id run msg class),
      )
      (elim k [ start ↦ ground arith | end ↦ ground arith | chat ↦ ground arith ])

completed-counts :
    (k : Kind) (e : Executor) (t : Task) (trigger : Trigger) (run : ℕ) (heals notified : Bool)
    (text : String)
    → count_kind k
        (publish_if
          (t.notify_chat && not (is_conversation trigger) && not notified)
          (publish (publish_if heals e (self_healing t.id run)) (task_completed t.id run notified))
          (task_notify_chat t.id run text)).published
      ≡ count_kind k e.published
        + gain k (t.notify_chat && (not (is_conversation trigger) && not notified))
completed-counts k e t trigger run heals notified text =
    let healed = publish_if heals e (self_healing t.id run) in
    rw
      (
        publish_if-counts k (t.notify_chat && not (is_conversation trigger) && not notified)
            (publish healed (task_completed t.id run notified)) (task_notify_chat t.id run text),
        publish-counts k healed (task_completed t.id run notified),
        publish_if-counts k heals e (self_healing t.id run),
      )
      (elim k [ start ↦ ground arith | end ↦ ground arith | chat ↦ ground arith ])

cancelled-counts :
    (k : Kind) (e : Executor) (t : Task) (trigger : Trigger) (run : ℕ)
    → count_kind k (publish e (task_cancelled t.id run)).published
      ≡ count_kind k e.published
        + gain k (t.notify_chat && (not (is_conversation trigger) && false))
cancelled-counts k e t trigger run =
    rw (publish-counts k e (task_cancelled t.id run))
      (elim k [ start ↦ ground arith | end ↦ ground arith | chat ↦ ground arith ])

settle-counts :
    (k : Kind) (e : Executor) (t : Task) (trigger : Trigger) (run : ℕ) (db : Db) (o : Outcome)
    (now : ℕ)
    → count_kind k (settle e t trigger run db o.stopped o.calls o.reply now).published
      ≡ count_kind k e.published + gain k (tells_chat t trigger o)
unfolding settle
settle-counts k e t trigger run db o now = go o.stopped o.reply
  where
    go :
        (stopped : Bool) (reply : Reply)
        → count_kind k (settle e t trigger run db stopped o.calls reply now).published
          ≡ count_kind k e.published
            + gain k (tells_chat t trigger (record o { stopped = stopped; reply = reply }))
    go true (errored msg) =
        let done = finish db e (cancel_run e.runs run now) in
        cancelled-counts k done t trigger run
        ∙ ap
            (λ n.
              n + gain k (tells_chat t trigger (record o { stopped = true; reply = errored msg })))
            (finish-counts k db e (cancel_run e.runs run now))
    go false (errored msg) =
        let done = finish db e (fail_run e.runs run msg (classify_error msg) now) in
        failed-counts k done t trigger run msg (classify_error msg) (failure_text msg)
        ∙ ap
            (λ n.
              n + gain k (tells_chat t trigger (record o { stopped = false; reply = errored msg })))
            (finish-counts k db e (fail_run e.runs run msg (classify_error msg) now))
    go stopped (answered content) =
        let done = finish db e (complete_run e.runs run content now) in
        completed-counts k done t trigger run (has_failures o.calls)
          (used_tool_successfully o.calls "notify_user") content
        ∙ ap (λ n. n + gain k (tells_chat t trigger (record o { reply = answered content })))
            (finish-counts k db e (complete_run e.runs run content now))

begin-counts :
    (k : Kind) (e : Executor) (t : Task) (trigger : Trigger) (now : ℕ) (model : Option String)
    → count_kind k (begin e t trigger now model).0.published
      ≡ count_kind k e.published + elim k [ start ↦ 1 | _ ↦ 0 ]
unfolding begin count_kind create_run
begin-counts k e t trigger now model =
    rw (count_kind-append k e.published (task_started t.id e.runs.next_id trigger ∷ []))
      (elim k [ start ↦ ground arith | end ↦ ground arith | chat ↦ ground arith ])

-- What an execution that goes through adds to the count of one kind.
abbrev pub gains : Kind → Task → Trigger → Outcome → ℕ
gains start t trigger o = 1
gains end t trigger o = 1
gains chat t trigger o = if tells_chat t trigger o then 1 else 0

total :
    (k : Kind) (started : Executor) (before after : List Notice) (t : Task) (trigger : Trigger)
    (o : Outcome)
    → count_kind k started.published ≡ count_kind k before + elim k [ start ↦ 1 | _ ↦ 0 ]
    → count_kind k after ≡ count_kind k started.published + gain k (tells_chat t trigger o)
    → count_kind k after ≡ count_kind k before + gains k t trigger o
total start started before after t trigger o h g = omega (arith, h, g)
total end started before after t trigger o h g = omega (arith, h, g)
total chat started before after t trigger o h g = omega (arith, h, g)

-- An execution that goes through publishes one notice of a start and one of an end, and tells the
-- chat exactly where `tells_chat` says so; one that does not go through publishes nothing.
pub execute-counts :
    (e : Executor) (t : Task) (trigger : Trigger) (resolve : String → String) (db : Db)
    (o : Outcome) (now later : ℕ) (k : Kind)
    → count_kind k (execute e t trigger resolve db o now later).0.published
      ≡ count_kind k e.published
        + (if db.check_works && (not (has_running_run e.runs t.id) && db.create_works)
            then gains k t trigger o
            else 0)
unfolding execute
execute-counts e t trigger resolve db o now later k =
    let (started, run) = begin e t trigger now (model_of db (resolve t.model_tier)) in
    let saved = save db started run o.calls in
    let ended =
      total k saved e.published
        (settle saved t trigger run db o.stopped o.calls o.reply later).published t trigger o
        (save-counts k db started run o.calls
          ∙ begin-counts k e t trigger now (model_of db (resolve t.model_tier)))
        (settle-counts k saved t trigger run db o later) in
    ground (arith, ended)
