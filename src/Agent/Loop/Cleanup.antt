-- ===== src/Agent/Loop/Cleanup.antt =====
-- What a turn leaves in the session.
use cogitator.Base.{
  ℕ, zero, suc, ◌≤◌, ◌<◌, ◌≡◌, refl, sym, ap, ◌∙◌, Bool, true, false, not, ◌&&◌, List, [], ◌∷◌,
  ◌++◌, filterb, map, All, All-append, All-weaken, if_both, arith, String,
}
use cogitator.Agent.Context.{Role, assistant, tool, other, ToolCall, Stored, has_calls}
use cogitator.Agent.Loop.{
  World, Turn, tool_result, is_empty, thinking, Outcome, cancelled, provider_failed, Reply, failed,
  replied, stored_message, is_pending, cancel_cleanup, add_tracked, tick, emit, give_up, finish,
  run_tool, run_tools, add_calls, add_usage, call_provider, ask_again, ask, after_tools,
  after_reply, rounds, chat_loop,
}

-- What the turn has stored so far: the messages of before, and those that are pending.
pub record Tracking (base : List Stored) (first : ℕ) (stored : List Stored) (pending : List ℕ)
    (next_id : ℕ) : Type 0 where
  pub new : List Stored
  pub split : stored ≡ base ++ new
  pub tracked : pending ≡ map (λ m. m.id) new
  pub later : All (λ m. first ≤ m.id) new
  pub next : first ≤ next_id

abbrev pub Tracks : List Stored → ℕ → Turn → Type 0
Tracks base first t = Tracking base first t.stored t.pending t.next_id

map-snoc :
    (f : Stored → ℕ) (ms : List Stored) (m : Stored) → map f (ms ++ m ∷ []) ≡ map f ms ++ f m ∷ []
map-snoc f [] m = refl
map-snoc f (x ∷ ms) m = rw (map-snoc f ms m)

append_assoc : (a b c : List Stored) → (a ++ b) ++ c ≡ a ++ (b ++ c)
append_assoc [] b c = refl
append_assoc (x ∷ a) b c = rw (append_assoc a b c)

add_tracked-Tracks :
    (base : List Stored) (first : ℕ) (t : Turn) (r : Role) (content : String)
    (calls : List ToolCall) (call_id : String)
    → Tracks base first t
    → Tracks base first (add_tracked t r content calls call_id)
add_tracked-Tracks base first t r content calls call_id h =
    let m = stored_message t.next_id r content calls call_id in
    record {
      new = h.new ++ m ∷ [];
      split = ap (λ s. s ++ m ∷ []) h.split ∙ append_assoc base h.new (m ∷ []);
      tracked = ap (λ p. p ++ t.next_id ∷ []) h.tracked ∙ sym (map-snoc (λ x. x.id) h.new m);
      later = All-append (λ x. first ≤ x.id) h.new (m ∷ []) h.later (h.next, tt);
      next = omega (arith, h.next);
    }

-- No message of before is pending, and every new one is.
not_pending :
    (first : ℕ) (m : Stored) (ids : List ℕ)
    → m.id < first
    → All (λ id. first ≤ id) ids
    → is_pending ids m ≡ false
not_pending first m [] low h = refl
not_pending first m (id ∷ ids) low h = ground (arith, low, h.0, not_pending first m ids low h.1)

ids_later :
    (first : ℕ) (new : List Stored)
    → All (λ m. first ≤ m.id) new
    → All (λ id. first ≤ id) (map (λ m. m.id) new)
ids_later first [] h = tt
ids_later first (m ∷ new) h = (h.0, ids_later first new h.1)

keep_base :
    (first : ℕ) (base new : List Stored) (ids : List ℕ)
    → All (λ m. m.id < first) base
    → All (λ id. first ≤ id) ids
    → filterb (λ m. not (is_pending ids m)) new ≡ []
    → filterb (λ m. not (is_pending ids m)) (base ++ new) ≡ base
keep_base first [] new ids low h gone = gone
keep_base first (m ∷ base) new ids low h gone =
    rw (not_pending first m ids low.0 h, keep_base first base new ids low.1 h gone)

pending_gone :
    (ids : List ℕ) (new : List Stored)
    → All (λ m. is_pending ids m ≡ true) new
    → filterb (λ m. not (is_pending ids m)) new ≡ []
pending_gone ids [] h = refl
pending_gone ids (m ∷ new) h = rw (h.0, pending_gone ids new h.1)

pending_head : (m : Stored) (ids : List ℕ) → is_pending (m.id ∷ ids) m ≡ true
pending_head m ids = ground arith

pending_tail :
    (id : ℕ) (ids : List ℕ) (m : Stored) → is_pending ids m ≡ true → is_pending (id ∷ ids) m ≡ true
pending_tail id ids m h = ground (arith, h)

each_pending : (new : List Stored) → All (λ m. is_pending (map (λ x. x.id) new) m ≡ true) new
each_pending [] = tt
each_pending (m ∷ new) =
    let ids = map (λ x. x.id) new in
    (
      pending_head m ids,
      All-weaken (λ x. is_pending ids x ≡ true) (λ x. is_pending (m.id ∷ ids) x ≡ true) new
          (pending_tail m.id ids) (each_pending new),
    )

append_nil : (a : List Stored) → a ++ [] ≡ a
append_nil [] = refl
append_nil (x ∷ a) = rw (append_nil a)

cleaned :
    (base : List Stored) (first : ℕ) (stored : List Stored) (pending : List ℕ) (new : List Stored)
    → All (λ m. m.id < first) base
    → stored ≡ base ++ new
    → pending ≡ map (λ m. m.id) new
    → All (λ m. first ≤ m.id) new
    → filterb (λ m. not (is_pending pending m)) stored ≡ base
cleaned base first stored pending new low split tracked later =
    let ids = map (λ m. m.id) new in
    rw (split, tracked)
      (keep_base first base new ids low (ids_later first new later)
        (pending_gone ids new (each_pending new)))

-- What is left by each outcome: after a cancellation, the messages of before and a note of it; after
-- any other outcome, the messages of before and those that were added.
abbrev pub Leaves : List Stored → Turn × Outcome → Type 0
Leaves base (t, cancelled) =
    (id : ℕ) × (t.stored ≡ base ++ stored_message id other "[cancelled]" [] "" ∷ [])
Leaves base (t, o) = (new : List Stored) × (t.stored ≡ base ++ new)

cancel_cleanup-Leaves :
    (base : List Stored) (first : ℕ) (t : Turn)
    → All (λ m. m.id < first) base
    → Tracks base first t
    → Leaves base (cancel_cleanup t, cancelled)
unfolding cancel_cleanup
cancel_cleanup-Leaves base first t low h = (
  t.next_id,
  ap (λ s. s ++ stored_message t.next_id other "[cancelled]" [] "" ∷ [])
      (cleaned base first t.stored t.pending h.new low h.split h.tracked h.later),
)

run_tools-Leaves :
    (w : World) (next : Turn → Turn × Outcome) (base : List Stored) (first : ℕ) (t : Turn)
    (cs : List ToolCall)
    → All (λ m. m.id < first) base
    → ((u : Turn) → Tracks base first u → Leaves base (next u))
    → Tracks base first t
    → Leaves base (after_tools next (run_tools w t cs))
unfolding run_tools
run_tools-Leaves w next base first t [] low k h = k t h
run_tools-Leaves w next base first t (c ∷ cs) low k h =
    if_both (λ r. Leaves base (after_tools next r)) (w.done t.checks)
      (cancel_cleanup (tick t), true) (run_tools w (run_tool w t c) cs)
      (λ stopped. cancel_cleanup-Leaves base first (tick t) low h)
      (λ going.
        run_tools-Leaves w next base first (run_tool w t c) cs low k
          (add_tracked-Tracks base first t tool (tool_result w c) [] c.id h))

give_up-Leaves :
    (w : World) (base : List Stored) (first : ℕ) (t : Turn)
    → All (λ m. m.id < first) base
    → Tracks base first t
    → Leaves base (give_up w t)
give_up-Leaves w base first t low h =
    if_both (Leaves base) (w.done t.checks) (cancel_cleanup (tick t), cancelled)
      (tick t, provider_failed) (λ stopped. cancel_cleanup-Leaves base first (tick t) low h)
      (λ going. (h.new, h.split))

after_reply-Leaves :
    (w : World) (next : Turn → Turn × Outcome) (base : List Stored) (first : ℕ) (t : Turn)
    (reply : Reply)
    → All (λ m. m.id < first) base
    → ((u : Turn) → Tracks base first u → Leaves base (next u))
    → Tracks base first t
    → Leaves base (after_reply w next t reply)
after_reply-Leaves w next base first t failed low k h = give_up-Leaves w base first t low h
after_reply-Leaves w next base first t (replied r) low k h =
    let spent = record t { usage = add_usage t.usage r.usage } in
    if_both (Leaves base) (has_calls r.tool_calls)
      (after_tools next (run_tools w (add_calls spent r) r.tool_calls)) (finish spent r)
      (λ calls.
        run_tools-Leaves w next base first (add_calls spent r) r.tool_calls low k
          (add_tracked-Tracks base first t assistant r.content r.tool_calls "" h))
      (λ over.
        let m = stored_message t.next_id assistant r.content [] "" in
        (h.new ++ m ∷ [], ap (λ s. s ++ m ∷ []) h.split ∙ append_assoc base h.new (m ∷ [])))

ask-Tracks :
    (w : World) (omitted : Bool) (base : List Stored) (first : ℕ) (t : Turn)
    → Tracks base first t
    → Tracks base first (ask w omitted t).0
unfolding call_provider
ask-Tracks w omitted base first t h = again (w.reply t.calls)
  where
    again :
        (reply : Reply)
        → Tracks base first (ask_again w omitted (call_provider w t (not omitted)).0 reply).0
    again failed = h
    again (replied r) =
        if_both (λ p. Tracks base first p.0)
          (omitted && (is_empty r.content && not (has_calls r.tool_calls)))
          (call_provider w (call_provider w t (not omitted)).0 true)
          ((call_provider w t (not omitted)).0, replied r) (λ retried. h) (λ kept. h)

rounds-Leaves :
    (w : World) (left : ℕ) (omit : Bool) (n : ℕ) (base : List Stored) (first : ℕ) (t : Turn)
    → All (λ m. m.id < first) base
    → Tracks base first t
    → Leaves base (rounds w left omit n t)
unfolding rounds
rounds-Leaves w zero omit n base first t low h = (h.new, h.split)
rounds-Leaves w (suc left) omit n base first t low h =
    let begun = emit (tick t) (thinking n) in
    let (asked, reply) = ask w omit begun in
    let next = rounds w left false (suc n) in
    if_both (Leaves base) (w.done t.checks) (cancel_cleanup (tick t), cancelled)
      (after_reply w next asked reply) (λ stopped. cancel_cleanup-Leaves base first (tick t) low h)
      (λ going.
        after_reply-Leaves w next base first asked reply low
          (λ u. rounds-Leaves w left false (suc n) base first u low)
          (ask-Tracks w omit base first begun h))

-- A turn that starts with nothing pending and with the ids of the session below the next one leaves,
-- when it is cancelled at any point, the messages of before and one note of the cancellation; on
-- every other outcome it leaves the messages of before and those that it has added.
pub chat_loop-Leaves :
    (w : World) (max_tool_rounds : ℕ) (omit : Bool) (t : Turn)
    → t.pending ≡ []
    → All (λ m. m.id < t.next_id) t.stored
    → Leaves t.stored (chat_loop w max_tool_rounds omit t)
unfolding chat_loop
chat_loop-Leaves w max_tool_rounds omit t none_pending low =
    rounds-Leaves w (suc max_tool_rounds) omit 0 t.stored t.next_id t low (record {
      new = [];
      split = sym (append_nil t.stored);
      tracked = none_pending;
      later = tt;
      next = omega arith;
    })
