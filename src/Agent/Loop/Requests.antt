-- ===== src/Agent/Loop/Requests.antt =====
-- What the provider is sent in a turn, and how often it is asked.
use cogitator.Base.{
  ℕ, zero, suc, ◌+◌, ◌≤◌, ◌≡◌, refl, ap, ◌∙◌, Bool, true, false, not, ◌&&◌, List, [], ◌∷◌, ◌++◌,
  All, All-append, length, length-append, if◌then◌else◌, if_both, arith,
}
use cogitator.Agent.Context.{
  assistant, tool, text, ToolCall, Message, is_tool, has_calls, IsSequenced, sequence_after,
}
use cogitator.Agent.Loop.{
  World, Turn, Request, Outcome, cancelled, provider_failed, Reply, failed, replied, Response,
  cancel_cleanup, tick, emit, thinking, give_up, finish, tool_result, run_tool, run_tools,
  add_calls, add_usage, call_provider, ask_again, ask, is_empty, after_tools, after_reply, rounds,
  chat_loop,
}

-- Whether a further tool result may follow the messages.
abbrev ends_inside : Bool → List Message → Bool
ends_inside inside [] = inside
ends_inside inside (m ∷ ms) = ends_inside (sequence_after inside m) ms

IsSequenced-snoc :
    (inside : Bool) (ms : List Message) (m : Message)
    → IsSequenced inside ms
    → (is_tool m.role && not (ends_inside inside ms)) ≡ false
    → IsSequenced inside (ms ++ m ∷ [])
IsSequenced-snoc inside [] m h ok = (ok, tt)
IsSequenced-snoc inside (x ∷ ms) m h ok =
    (h.0, IsSequenced-snoc (sequence_after inside x) ms m h.1 ok)

ends_inside-snoc :
    (inside : Bool) (ms : List Message) (m : Message)
    → ends_inside inside (ms ++ m ∷ []) ≡ sequence_after (ends_inside inside ms) m
ends_inside-snoc inside [] m = refl
ends_inside-snoc inside (x ∷ ms) m = ends_inside-snoc (sequence_after inside x) ms m

-- Each request sent is well formed, and there are at most `k`.
abbrev pub Sent : ℕ → Turn → Type 0
Sent k t = All (λ (q : Request). IsSequenced false q.messages) t.requests × (length t.requests ≤ k)

-- The conversation so far is well formed too.
abbrev Sound : ℕ → Turn → Type 0
Sound k t = IsSequenced false t.messages × Sent k t

widen : (k j : ℕ) (t : Turn) → k ≤ j → Sent k t → Sent j t
widen k j t le h = (h.0, omega (arith, le, h.1))

cleanup-Sent : (k : ℕ) (t : Turn) → Sent k t → Sent k (cancel_cleanup t)
unfolding cancel_cleanup
cleanup-Sent k t h = h

call-Sound :
    (w : World) (k : ℕ) (t : Turn) (b : Bool) → Sound k t → Sound (suc k) (call_provider w t b).0
unfolding call_provider
call-Sound w k t b h =
    let q : Request = record { messages = t.messages; with_tools = b } in
    (
      h.0,
      (
        All-append (λ (q : Request). IsSequenced false q.messages) t.requests (q ∷ []) h.1.0
            (h.0, tt),
        omega (arith, h.1.1, length-append t.requests (q ∷ [])),
      ),
    )

-- Inside the tool results of a round.
abbrev Inside : ℕ → Turn → Type 0
Inside k t = Sound k t × (ends_inside false t.messages ≡ true)

run_tool-Inside :
    (w : World) (k : ℕ) (t : Turn) (c : ToolCall) → Inside k t → Inside k (run_tool w t c)
run_tool-Inside w k t c ((shape, sent), inside) =
    let m : Message = record {
      role = tool;
      content = text (tool_result w c);
      tool_calls = [];
      tool_call_id = c.id;
    } in
    (
      (IsSequenced-snoc false t.messages m shape (ap not inside), sent),
      ends_inside-snoc false t.messages m ∙ inside,
    )

run_tools-Sent :
    (w : World) (next : Turn → Turn × Outcome) (k j : ℕ) (t : Turn) (cs : List ToolCall)
    → ((u : Turn) → Sound k u → Sent j (next u).0)
    → k ≤ j
    → Inside k t
    → Sent j (after_tools next (run_tools w t cs)).0
unfolding run_tools
run_tools-Sent w next k j t [] f le h = f t h.0
run_tools-Sent w next k j t (c ∷ cs) f le h =
    if_both (λ r. Sent j (after_tools next r).0) (w.done t.checks) (cancel_cleanup (tick t), true)
      (run_tools w (run_tool w t c) cs)
      (λ stopped. widen k j (cancel_cleanup (tick t)) le (cleanup-Sent k (tick t) h.0.1))
      (λ going. run_tools-Sent w next k j (run_tool w t c) cs f le (run_tool-Inside w k t c h))

give_up-Sent : (w : World) (k : ℕ) (t : Turn) → Sent k t → Sent k (give_up w t).0
give_up-Sent w k t h =
    if_both (λ (r : Turn × Outcome). Sent k r.0) (w.done t.checks)
      (cancel_cleanup (tick t), cancelled) (tick t, provider_failed)
      (λ stopped. cleanup-Sent k (tick t) h) (λ going. h)

add_calls-Inside :
    (k : ℕ) (t : Turn) (r : Response)
    → has_calls r.tool_calls ≡ true
    → Sound k t
    → Inside k (add_calls t r)
add_calls-Inside k t r calls (shape, sent) =
    let m : Message = record {
      role = assistant;
      content = text r.content;
      tool_calls = r.tool_calls;
      tool_call_id = "";
    } in
    (
      (IsSequenced-snoc false t.messages m shape refl, sent),
      ends_inside-snoc false t.messages m
          ∙ ap (λ b. if b then true else if true then false else ends_inside false t.messages)
              calls,
    )

after_reply-Sent :
    (w : World) (next : Turn → Turn × Outcome) (k j : ℕ) (t : Turn) (reply : Reply)
    → ((u : Turn) → Sound k u → Sent j (next u).0)
    → k ≤ j
    → Sound k t
    → Sent j (after_reply w next t reply).0
after_reply-Sent w next k j t failed f le h = widen k j (give_up w t).0 le (give_up-Sent w k t h.1)
after_reply-Sent w next k j t (replied r) f le h =
    let spent = record t { usage = add_usage t.usage r.usage } in
    if_both (λ p. Sent j p.0) (has_calls r.tool_calls)
      (after_tools next (run_tools w (add_calls spent r) r.tool_calls)) (finish spent r)
      (λ calls.
        run_tools-Sent w next k j (add_calls spent r) r.tool_calls f le
          (add_calls-Inside k spent r calls h))
      (λ over. widen k j (finish spent r).0 le h.1)

abbrev extra : Bool → ℕ
extra omit = if omit then 1 else 0

ask-Sound :
    (w : World) (omit : Bool) (k : ℕ) (t : Turn)
    → Sound k t
    → Sound (suc k + extra omit) (ask w omit t).0
unfolding call_provider
ask-Sound w omit k t h = again omit (w.reply t.calls)
  where
    called : Turn
    called = (call_provider w t (not omit)).0

    twice : (u : Turn) → Sound (suc (suc k)) u → Sound (suc k + 1) u
    twice u g = (g.0, widen (suc (suc k)) (suc k + 1) u (omega arith) g.1)

    one : Sound (suc k) called
    one = call-Sound w k t (not omit) h

    again :
        (omitted : Bool) (reply : Reply)
        → Sound (suc k + extra omitted) (ask_again w omitted called reply).0
    again omitted failed = (one.0, widen (suc k) (suc k + extra omitted) called (omega arith) one.1)
    again false (replied r) = (one.0, widen (suc k) (suc k + 0) called (omega arith) one.1)
    again true (replied r) =
        if_both (λ p. Sound (suc k + 1) p.0) (is_empty r.content && not (has_calls r.tool_calls))
          (call_provider w called true) (called, replied r)
          (λ retried. twice (call_provider w called true).0 (call-Sound w (suc k) called true one))
          (λ kept. (one.0, widen (suc k) (suc k + 1) called (omega arith) one.1))

rounds-Sent :
    (w : World) (left : ℕ) (omit : Bool) (n k : ℕ) (t : Turn)
    → Sound k t
    → Sent (k + left + extra omit) (rounds w left omit n t).0
unfolding rounds
rounds-Sent w zero omit n k t h = widen k (k + zero + extra omit) t (omega arith) h.1
rounds-Sent w (suc left) omit n k t h =
    let begun = emit (tick t) (thinking n) in
    let (asked, reply) = ask w omit begun in
    let next = rounds w left false (suc n) in
    let j = k + suc left + extra omit in
    if_both (λ p. Sent j p.0) (w.done t.checks) (cancel_cleanup (tick t), cancelled)
      (after_reply w next asked reply)
      (λ stopped. widen k j (cancel_cleanup (tick t)) (omega arith) (cleanup-Sent k (tick t) h.1))
      (λ going.
        after_reply-Sent w next (suc k + extra omit) j asked reply
          (λ u good.
            widen (suc k + extra omit + left + 0) j (rounds w left false (suc n) u).0 (omega arith)
              (rounds-Sent w left false (suc n) (suc k + extra omit) u good))
          (omega arith) (ask-Sound w omit k begun h))

-- In a turn whose conversation is well formed, the provider is asked at most once in each of the
-- `max_tool_rounds + 1` rounds, and once more if the tools are left out at first; and in each request
-- every tool result stands behind an assistant message with tool calls.
pub chat_loop-Sent :
    (w : World) (max_tool_rounds : ℕ) (omit : Bool) (t : Turn)
    → IsSequenced false t.messages
    → t.requests ≡ []
    → Sent (suc max_tool_rounds + (if omit then 1 else 0)) (chat_loop w max_tool_rounds omit t).0
unfolding chat_loop
chat_loop-Sent w max_tool_rounds omit t shape fresh =
    widen (0 + suc max_tool_rounds + extra omit) (suc max_tool_rounds + extra omit)
      (rounds w (suc max_tool_rounds) omit 0 t).0 (omega arith)
      (rounds-Sent w (suc max_tool_rounds) omit 0 0 t (shape, none_sent t.requests fresh))
  where
    none_sent :
        (qs : List Request)
        → qs ≡ []
        → All (λ (q : Request). IsSequenced false q.messages) qs × (length qs ≤ 0)
    none_sent [] h = (tt, omega arith)
    none_sent (q ∷ qs) h = absurd cc
