-- ===== src/Agent/Tests.antt =====
-- A conversation and a turn of two rounds.
use cogitator.Base.{ℕ, ◌≡◌, refl, false, [], ◌∷◌, Option, none, arith, String, ◌==◌}
use cogitator.Agent.Context.{
  user, tool, other, text, ToolCall, Stored, plain, build_messages, IsGrouped,
  build_messages-IsGrouped,
}
use cogitator.Agent.Loop.{
  World, Turn, replied, Usage, stored_message, rounds, chat_loop, cancel_cleanup, run_tools,
  call_provider,
}
use cogitator.Agent.Loop.Cleanup.{chat_loop-Leaves}
use cogitator.Agent.Loop.Requests.{Sent, chat_loop-Sent}

abbrev no_blocks : String → Option String
no_blocks s = none

abbrev look : ToolCall
look = record { id = "c1"; name = "web_search"; arguments = "{}" }

abbrev question : Stored
question = stored_message 0 user "weather?" [] ""

abbrev tool_says : Stored
tool_says = stored_message 2 tool "sunny" [] "c1"

build_messages-IsGrouped_example :
    IsGrouped (build_messages no_blocks "be kind" (tool_says ∷ question ∷ []) none)
build_messages-IsGrouped_example =
    build_messages-IsGrouped no_blocks "be kind" (tool_says ∷ question ∷ []) none

abbrev no_usage : Usage
no_usage = record {
  input_tokens = 0;
  output_tokens = 0;
  cache_read_tokens = 0;
  cache_creation_tokens = 0;
}

-- The model asks for a tool in each round; the context is done before the second.
abbrev world : World
world = record {
  reply = λ n. replied (record { content = ""; tool_calls = look ∷ []; usage = no_usage });
  done = λ n. n == 2;
  execute = λ c. ("sunny", none);
  itoa = λ n. "many";
}

abbrev opening : Turn
opening = record {
  messages = plain other (text "be kind") ∷ plain user (text "weather?") ∷ [];
  stored = question ∷ [];
  next_id = 1;
  pending = [];
  requests = [];
  calls = 0;
  checks = 0;
  usage = no_usage;
  published = [];
}

-- The turn is cancelled, and the session holds the question and the note.
chat_loop-Leaves_example :
    (id : ℕ) × ((chat_loop world 5 false opening).0.stored
      ≡ question ∷ stored_message id other "[cancelled]" [] "" ∷ [])
unfolding chat_loop rounds run_tools call_provider cancel_cleanup
chat_loop-Leaves_example = chat_loop-Leaves world 5 false opening refl (omega arith, tt)

chat_loop-Sent_example : Sent 6 (chat_loop world 5 false opening).0
chat_loop-Sent_example = chat_loop-Sent world 5 false opening (refl, (refl, tt)) refl
