-- ===== src/Agent/Loop.antt =====
-- server/internal/agent/agent.go: the loop of `Chat`, from the user's message on. What the loop meets
-- is a `World`: the reply of the provider to each of its calls, whether the context is done each time
-- the code asks, and the results of the tools. Sessions, the bus and the tool executor are set, and
-- the inserts of messages work. The names of the tools for display, logs and durations are left out.
pub mod Cleanup
pub mod Requests
use Prim.Native.String.{len, slice, ◌++◌ as ◌+++◌}
use cogitator.Base.{
  ℕ, zero, suc, ◌+◌, ◌≤◌, ◌<◌, ◌≡◌, refl, Bool, true, false, not, ◌&&◌, ◌||◌, List, [], ◌∷◌, ◌++◌,
  Option, none, some, anyb, leb, ◌*◌, ◌==◌, if◌then◌else◌, String, filterb,
}
use cogitator.Base.Eqs.{string_eq}
use cogitator.Agent.Context.{
  Role, assistant, tool, other, text, ToolCall, Message, Stored, plain, has_calls,
}

pub record Usage : Type 0 where
  pub input_tokens : ℕ
  pub output_tokens : ℕ
  pub cache_read_tokens : ℕ
  pub cache_creation_tokens : ℕ

pub record Response : Type 0 where
  pub content : String
  pub tool_calls : List ToolCall
  pub usage : Usage

pub data Reply : Type 0 where
  failed : Reply
  replied : Response → Reply

-- The nth answers, the result of a tool with its error, and the digits of a number.
pub record World : Type 0 where
  pub reply : ℕ → Reply
  pub done : ℕ → Bool
  pub execute : ToolCall → String × Option String
  pub itoa : ℕ → String

pub data Event : Type 0 where
  thinking : ℕ → Event
  tool_calling : String → Event
  responded_with : String → Usage → Event
  agent_cancelled : Event

-- What is sent to the provider: the messages, and whether the tools are offered.
pub record Request : Type 0 where
  pub messages : List Message
  pub with_tools : Bool

pub record Turn : Type 0 where
  pub messages : List Message
  pub stored : List Stored
  pub next_id : ℕ
  pub pending : List ℕ
  pub requests : List Request
  pub calls : ℕ
  pub checks : ℕ
  pub usage : Usage
  pub published : List Event

pub data Outcome : Type 0 where
  cancelled provider_failed exceeded : Outcome
  answered : Response → Usage → Outcome

abbrev pub is_empty : String → Bool
is_empty s = string_eq.beq s ""

abbrev pub stored_message : ℕ → Role → String → List ToolCall → String → Stored
stored_message id r content calls call_id = record {
  id = id;
  role = r;
  content = content;
  tool_calls = calls;
  tool_call_id = call_id;
}

-- `AddMessage`
abbrev pub add_message : Turn → Role → String → List ToolCall → String → Turn
add_message t r content calls call_id = record t {
  stored = t.stored ++ stored_message t.next_id r content calls call_id ∷ [];
  next_id = suc t.next_id;
}

-- `trackMsg` of the message that was just added
abbrev pub add_tracked : Turn → Role → String → List ToolCall → String → Turn
add_tracked t r content calls call_id = record (add_message t r content calls call_id) {
  pending = t.pending ++ t.next_id ∷ [];
}

abbrev pub emit : Turn → Event → Turn
emit t e = record t { published = t.published ++ e ∷ [] }

abbrev pub is_pending : List ℕ → Stored → Bool
is_pending pending m = anyb (λ id. id == m.id) pending

-- `cancelCleanup`
unfoldable pub cancel_cleanup : Turn → Turn
cancel_cleanup t =
    emit
      (add_message (record t { stored = filterb (λ m. not (is_pending t.pending m)) t.stored })
        other "[cancelled]" [] "")
      agent_cancelled

abbrev pub tick : Turn → Turn
tick t = record t { checks = suc t.checks }

unfoldable pub call_provider : World → Turn → Bool → Turn × Reply
call_provider w t with_tools = (
  record t {
    requests = t.requests ++ record { messages = t.messages; with_tools = with_tools } ∷ [];
    calls = suc t.calls;
  },
  w.reply t.calls,
)

-- The context is asked after the provider has failed.
abbrev pub give_up : World → Turn → Turn × Outcome
give_up w t =
    if w.done t.checks then (cancel_cleanup (tick t), cancelled) else (tick t, provider_failed)

abbrev pub add_usage : Usage → Usage → Usage
add_usage a b = record {
  input_tokens = a.input_tokens + b.input_tokens;
  output_tokens = a.output_tokens + b.output_tokens;
  cache_read_tokens = a.cache_read_tokens + b.cache_read_tokens;
  cache_creation_tokens = a.cache_creation_tokens + b.cache_creation_tokens;
}

-- The last answer: no tool is called.
abbrev pub finish : Turn → Response → Turn × Outcome
finish t r = (
  emit (add_message t assistant r.content [] "") (responded_with r.content t.usage),
  answered r t.usage,
)

abbrev pub max_tool_result_bytes : ℕ
max_tool_result_bytes = 32 * 1024

-- The cut is at a character where Go's is at a byte.
abbrev pub truncate_tool_result : (ℕ → String) → String → ℕ → String
truncate_tool_result itoa s limit =
    if leb (len s) limit
    then s
    else slice s 0 limit
      +++ ("\n\n[output truncated: "
          +++ (itoa (len s) +++ (" bytes, showing first " +++ (itoa limit +++ "]"))))

abbrev pub tool_result : World → ToolCall → String
tool_result w c =
    let (result, err) = w.execute c in
    truncate_tool_result w.itoa
      (elim err [
        | none ↦ result
        | some msg ↦ if is_empty result then "Error: " +++ msg else result
      ])
      max_tool_result_bytes

abbrev pub run_tool : World → Turn → ToolCall → Turn
run_tool w t c =
    let called = emit (tick t) (tool_calling c.name) in
    let sent = record called {
      messages =
          called.messages
          ++ record {
            role = tool;
            content = text (tool_result w c);
            tool_calls = [];
            tool_call_id = c.id;
          }
            ∷ [];
    } in
    add_tracked sent tool (tool_result w c) [] c.id

-- The loop over the tool calls, and whether it was cancelled.
unfoldable pub run_tools : World → Turn → List ToolCall → Turn × Bool
run_tools w t [] = (t, false)
run_tools w t (c ∷ cs) =
    let rest = run_tools w (run_tool w t c) cs in
    if w.done t.checks then (cancel_cleanup (tick t), true) else rest

-- The assistant's message with its tool calls, sent on and stored.
abbrev pub add_calls : Turn → Response → Turn
add_calls t r =
    add_tracked
      (record t {
        messages =
            t.messages
            ++ record {
              role = assistant;
              content = text r.content;
              tool_calls = r.tool_calls;
              tool_call_id = "";
            }
              ∷ [];
      })
      assistant r.content r.tool_calls ""

-- The provider is asked, and once more with the tools if they were left out and nothing came back.
abbrev pub ask_again : World → Bool → Turn → Reply → Turn × Reply
ask_again w omitted t failed = (t, failed)
ask_again w omitted t (replied r) =
    if omitted && (is_empty r.content && not (has_calls r.tool_calls))
    then call_provider w t true
    else (t, replied r)

abbrev pub ask : World → Bool → Turn → Turn × Reply
ask w omitted t = let (t', reply) = call_provider w t (not omitted) in ask_again w omitted t' reply

-- What follows the tools of a round, where `next` is the next round.
abbrev pub after_tools : (Turn → Turn × Outcome) → Turn × Bool → Turn × Outcome
after_tools next (t, true) = (t, cancelled)
after_tools next (t, false) = next t

abbrev pub after_reply : World → (Turn → Turn × Outcome) → Turn → Reply → Turn × Outcome
after_reply w next t failed = give_up w t
after_reply w next t (replied r) =
    let spent = record t { usage = add_usage t.usage r.usage } in
    if has_calls r.tool_calls
    then after_tools next (run_tools w (add_calls spent r) r.tool_calls)
    else finish spent r

-- `left` rounds are left, and this is round `n`; `omit` can be set in round 0 only.
unfoldable pub rounds : World → ℕ → Bool → ℕ → Turn → Turn × Outcome
rounds w zero omit n t = (t, exceeded)
rounds w (suc left) omit n t =
    let (asked, reply) = ask w omit (emit (tick t) (thinking n)) in
    let next = rounds w left false (suc n) in
    if w.done t.checks then (cancel_cleanup (tick t), cancelled) else after_reply w next asked reply

-- `round <= a.maxToolRounds`
unfoldable pub chat_loop : World → ℕ → Bool → Turn → Turn × Outcome
chat_loop w max_tool_rounds omit t = rounds w (suc max_tool_rounds) omit 0 t
