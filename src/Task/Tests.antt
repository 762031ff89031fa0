-- ===== src/Task/Tests.antt =====
-- Executions of one task on a small table.
use cogitator.Base.{◌≤◌, ◌≡◌, refl, ◌∷◌, [], true, false, some, none, arith, if◌then◌else◌, String}
use cogitator.Task.Runs.{
  Run, manual, cron, system, completed, count_running, has_running_run, create_run, new_run,
}
use cogitator.Task.Executor.{Task, answered, Outcome, Db, Executor, execute, already_running}
use cogitator.Task.ToolCalls.{used_tool_successfully}
use cogitator.Task.Executor.Exclusive.{execute-rows, execute-AtMostOne, final_rows}
use cogitator.Task.Executor.Notices.{chat, count_kind, execute-counts}
use cogitator.Task.Race.{interleaved-two, steps, in_turn, interleaved, start}
use cogitator.Task.Debugger.{Call, call, calls_after, retry, retry-refused}

abbrev digest : Task
digest = record {
  id = 4;
  name = "digest";
  prompt = "sum up the day";
  model_tier = "cheap";
  user_id = "ann";
  timeout = 30;
  max_retries = 2;
  retry_backoff = 5;
  notify_chat = true;
  broadcast = false;
  notify_users = [];
}

abbrev works : Db
works = record {
  check_works = true;
  create_works = true;
  model_works = true;
  save_works = true;
  finish_works = true;
  get_works = true;
}

abbrev earlier : Run
earlier = record (new_run 0 4 cron none 100) { status = completed }

abbrev idle : Executor
idle = record { runs = record { rows = earlier ∷ []; next_id = 1 }; active = []; published = [] }

abbrev resolver : String → String
resolver tier = "small-model"

abbrev fine : Outcome
fine = record { reply = answered "all quiet"; stopped = false; calls = [] }

execute-rows_example : (execute idle digest manual resolver works fine 200 210).0.runs.rows ≡ (
    if true
    then final_rows idle digest manual (some "small-model") works fine 200 210
    else earlier ∷ [])
unfolding has_running_run count_running
execute-rows_example = execute-rows idle digest manual resolver works fine 200 210 (omega arith, tt)

execute-AtMostOne_example :
    (count_running (execute idle digest manual resolver works fine 200 210).0.runs.rows 4 ≤ 1)
    × (true ≡ true
        → count_running (execute idle digest manual resolver works fine 200 210).0.runs.rows 4
          ≡ count_running (earlier ∷ []) 4)
unfolding count_running
execute-AtMostOne_example =
    execute-AtMostOne idle digest manual resolver works fine 200 210 4 (omega arith, tt)
      (omega arith)

execute-counts_example :
    count_kind chat (execute idle digest manual resolver works fine 200 210).0.published ≡ 1
unfolding has_running_run count_running count_kind used_tool_successfully
execute-counts_example = execute-counts idle digest manual resolver works fine 200 210 chat

interleaved-two_example :
    (count_running
        (steps (start idle) digest cron (some "small-model") 200 in_turn).executor.runs.rows
        4
      ≡ 1)
    × (count_running
          (steps (start idle) digest cron (some "small-model") 200 interleaved).executor.runs.rows
          4
        ≡ 2)
unfolding has_running_run count_running
interleaved-two_example =
    interleaved-two idle digest cron (some "small-model") 200 (omega arith, tt) refl

abbrev other_task : Call
other_task = record {
  task = record digest { id = 9 };
  trigger = cron;
  resolve = resolver;
  db = record works { finish_works = false };
  outcome = fine;
  now = 300;
  later = 310;
}

abbrev by_hand : Call
by_hand = record {
  task = digest;
  trigger = manual;
  resolve = resolver;
  db = works;
  outcome = fine;
  now = 400;
  later = 410;
}

retry-refused_example :
    let (stuck, verdict) = retry idle digest 0 true resolver works fine 200 210 in
    (verdict ≡ already_running)
    × (stuck ≡ record idle { runs = (create_run idle.runs 4 system (some 0) 200).0 })
    × (call (calls_after stuck (other_task ∷ [])) by_hand
        ≡ (calls_after stuck (other_task ∷ []), already_running))
    × (retry idle digest 0 false resolver works fine 200 210
        ≡ execute idle digest system resolver works fine 200 210)
retry-refused_example =
    retry-refused idle digest 0 resolver works fine 200 210 (other_task ∷ []) by_hand
      (omega arith, tt) refl refl
