-- ===== src/Bus/Safety.antt =====
-- No method of the bus sends on a closed channel or closes one twice.
use cogitator.Base.{
  ℕ, suc, ◌≤◌, ◌≡◌, refl, inl, inr, true, false, List, [], ◌∷◌, ◌++◌, Option, none, some, ◌==◌,
  arith, String, Bool-cases, Option-cases,
}
use cogitator.Base.Eqs.{string_eq}
use cogitator.Bus.{
  Event, Chan, Subscriber, Bus, new, update, subscribe_with_buffer, subscribe, close_chan,
  remove_first, unsubscribe, push_if_room, try_send, listens, deliver, stamp, publish, close_all,
  close, receive, Fresh, Open, IsValid,
}

-- A change of the heap that leaves the channels of `subs` open leaves them valid.
pub Open-keep :
    (chans chans' : ℕ → Chan) (n m : ℕ) (subs : List Subscriber)
    → ((i : ℕ) → (chans' i).is_closed ≡ (chans i).is_closed)
    → n ≤ m
    → Open chans n subs
    → Open chans' m subs
Open-keep chans chans' n m [] same le o = tt
Open-keep chans chans' n m (s ∷ subs) same le o =
    (ground (arith, same s.ch), omega arith, o.2, Open-keep chans chans' n m subs same le o.3)

pub Open-update :
    (chans : ℕ → Chan) (n ch : ℕ) (c : Chan) (subs : List Subscriber)
    → Fresh ch subs
    → Open chans n subs
    → Open (update chans ch c) n subs
Open-update chans n ch c [] f o = tt
Open-update chans n ch c (s ∷ subs) f o =
    (ground (arith, f.0), o.1, o.2, Open-update chans n ch c subs f.1 o.3)

Fresh-next : (chans : ℕ → Chan) (n : ℕ) (subs : List Subscriber) → Open chans n subs → Fresh n subs
Fresh-next chans n [] o = tt
Fresh-next chans n (s ∷ subs) o = (ground arith, Fresh-next chans n subs o.3)

Open-snoc :
    (chans : ℕ → Chan) (n : ℕ) (subs : List Subscriber) (kinds : List String)
    → Open chans n subs
    → (chans n).is_closed ≡ false
    → Open chans (suc n) (subs ++ record { ch = n; kinds = kinds } ∷ [])
Open-snoc chans n [] kinds o h = (h, omega arith, tt, tt)
Open-snoc chans n (s ∷ subs) kinds o h =
    (o.0, omega arith, fresh subs o.2, Open-snoc chans n subs kinds o.3 h)
  where
    fresh :
        (xs : List Subscriber)
        → Fresh s.ch xs
        → Fresh s.ch (xs ++ record { ch = n; kinds = kinds } ∷ [])
    fresh [] f = (ground arith, tt)
    fresh (x ∷ xs) f = (f.0, fresh xs f.1)

-- A new subscription, of any buffer size, keeps the bus valid.
pub subscribe_with_buffer-IsValid :
    (b : Bus) (size : ℕ) (kinds : List String)
    → IsValid b
    → IsValid (subscribe_with_buffer b size kinds).0
unfolding subscribe_with_buffer
subscribe_with_buffer-IsValid b size kinds v =
    Open-snoc (update b.chans b.next (record { buffer = []; cap = size; is_closed = false })) b.next
      b.subscribers kinds
      (Open-update b.chans b.next b.next _ b.subscribers (Fresh-next b.chans b.next b.subscribers v)
        v)
      (ground arith)

-- What is left of the subscribers after a removal.
record Removed (chans : ℕ → Chan) (n ch : ℕ) (subs : List Subscriber) : Type 0 where
  rest : Open chans n subs
  fresh : Fresh ch subs
  was_open : (chans ch).is_closed ≡ false

remove_first-Removed :
    (chans : ℕ → Chan) (n ch : ℕ) (subs rest : List Subscriber)
    → Open chans n subs
    → remove_first ch subs ≡ some rest
    → Removed chans n ch rest × ((d : ℕ) → Fresh d subs → Fresh d rest)
unfolding remove_first
remove_first-Removed chans n ch [] rest o h = cc
remove_first-Removed chans n ch (s ∷ subs) rest o h = elim (Bool-cases (s.ch == ch)) [
  | inl hit ↦
      let same : subs ≡ rest = ground (arith, h) in
      let at : s.ch ≡ ch = ground arith in
      rw (← same)
        (record { rest = o.3; fresh = rw (← at) o.2; was_open = rw (← at) o.0 }, λ d f. f.1)
  | inr miss ↦ elim (Option-cases (remove_first ch subs)) [
    | inl e ↦ absurd (ground (arith, e))
    | inr (r, e) ↦
        let same : s ∷ r ≡ rest = ground (arith, e, h) in
        let (k, keep) = remove_first-Removed chans n ch subs r o.3 e in
        rw (← same) (
          record {
            rest = (o.0, o.1, keep s.ch o.2, k.rest);
            fresh = (ground arith, k.fresh);
            was_open = k.was_open;
          },
          λ d f. (f.0, keep d f.1),
        )
  ]
]

close_chan-open :
    (chans : ℕ → Chan) (ch : ℕ)
    → (chans ch).is_closed ≡ false
    → close_chan chans ch ≡ some (update chans ch (record (chans ch) { is_closed = true }))
unfolding close_chan
close_chan-open chans ch h = simp h

-- `unsubscribe` on a valid bus never closes a channel twice, and keeps the bus valid.
pub unsubscribe_safe :
    (b : Bus) (ch : ℕ) → IsValid b → (b' : Bus) × (unsubscribe b ch ≡ some b') × IsValid b'
unfolding unsubscribe
unsubscribe_safe b ch v = elim (Option-cases (remove_first ch b.subscribers)) [
  | inl e ↦ (b, rw (e, unsubscribe) refl, v)
  | inr (subs, e) ↦
      let k = (remove_first-Removed b.chans b.next ch b.subscribers subs v e).0 in
      (
        record b {
          subscribers = subs;
          chans = update b.chans ch (record (b.chans ch) { is_closed = true });
        },
        rw (e, close_chan-open b.chans ch k.was_open, unsubscribe) refl,
        Open-update b.chans b.next ch _ subs k.fresh k.rest,
      )
]

push_if_room-is_closed : (c : Chan) (e : Event) → (push_if_room c e).is_closed ≡ c.is_closed
unfolding push_if_room
push_if_room-is_closed c e = ground arith

pub try_send-open :
    (c : Chan) (e : Event) → c.is_closed ≡ false → try_send c e ≡ some (push_if_room c e)
unfolding try_send
try_send-open c e h = simp h

pub publish-delivers :
    (b : Bus) (e : Event) (now : ℕ) {chans : ℕ → Chan}
    → b.closed ≡ false
    → deliver (stamp e now) b.subscribers b.chans ≡ some chans
    → publish b e now ≡ some (record b { chans = chans })
unfolding publish
publish-delivers b e now live found = simp (live, found, publish)

pub deliver_safe :
    (e : Event) (n : ℕ) (subs : List Subscriber) (chans : ℕ → Chan)
    → Open chans n subs
    → (chans' : ℕ → Chan) × (deliver e subs chans ≡ some chans')
      × ((i : ℕ) → (chans' i).is_closed ≡ (chans i).is_closed)
unfolding deliver
deliver_safe e n [] chans o = (chans, refl, λ i. refl)
deliver_safe e n (s ∷ subs) chans o = elim (Bool-cases (listens s e.kind)) [
  | inl wanted ↦
      let c = push_if_room (chans s.ch) e in
      let (chans', found, same) =
        deliver_safe e n subs (update chans s.ch c) (Open-update chans n s.ch c subs o.2 o.3) in
      (
        chans',
        rw (wanted, try_send-open (chans s.ch) e o.0) found,
        λ i. ground (arith, same i, push_if_room-is_closed (chans s.ch) e),
      )
  | inr unwanted ↦
      let (chans', found, same) = deliver_safe e n subs chans o.3 in
      (chans', rw unwanted found, same)
]

-- `publish` on a valid bus never sends on a closed channel, and keeps the bus valid.
pub publish_safe :
    (b : Bus) (e : Event) (now : ℕ)
    → IsValid b
    → (b' : Bus) × (publish b e now ≡ some b') × IsValid b'
unfolding publish
publish_safe b e now v = elim (Bool-cases b.closed) [
  | inl done ↦ (b, rw done refl, v)
  | inr live ↦
      let (chans', found, same) = deliver_safe (stamp e now) b.next b.subscribers b.chans v in
      (
        record b { chans = chans' },
        publish-delivers b e now live found,
        Open-keep b.chans chans' b.next b.next b.subscribers same (omega arith) v,
      )
]

close_all_safe :
    (n : ℕ) (subs : List Subscriber) (chans : ℕ → Chan)
    → Open chans n subs
    → (chans' : ℕ → Chan) × (close_all subs chans ≡ some chans')
unfolding close_all
close_all_safe n [] chans o = (chans, refl)
close_all_safe n (s ∷ subs) chans o =
    let shut : Chan = record (chans s.ch) { is_closed = true } in
    let (chans', found) =
      close_all_safe n subs (update chans s.ch shut) (Open-update chans n s.ch shut subs o.2 o.3) in
    (chans', rw (close_chan-open chans s.ch o.0, close_all) found)

-- `close` on a valid bus never closes a channel twice, and keeps the bus valid.
pub close_safe : (b : Bus) → IsValid b → (b' : Bus) × (close b ≡ some b') × IsValid b'
unfolding close
close_safe b v =
    let (chans', found) = close_all_safe b.next b.subscribers b.chans v in
    (record b { subscribers = []; closed = true; chans = chans' }, rw (found, close) refl, tt)

receive-IsValid : (b : Bus) (ch : ℕ) → IsValid b → IsValid (receive b ch)
unfolding receive
receive-IsValid b ch v = by_buffer (b.chans ch).buffer refl
  where
    by_buffer : (buf : List Event) → (b.chans ch).buffer ≡ buf → IsValid (receive b ch)
    by_buffer [] h = rw (h, receive) v
    by_buffer (e ∷ rest) h =
        rw (h, receive)
          (Open-keep b.chans (update b.chans ch (record (b.chans ch) { buffer = rest })) b.next
            b.next b.subscribers (λ i. ground arith) (omega arith) v)

-- The calls that the rest of the program makes on a bus.
pub data Call : Type 0 where
  subscribes : List String → Call
  subscribes_with_buffer : ℕ → List String → Call
  unsubscribes : ℕ → Call
  publishes : Event → ℕ → Call
  receives : ℕ → Call
  closes : Call

pub step : Bus → Call → Option Bus
step b (subscribes kinds) = some (subscribe b kinds).0
step b (subscribes_with_buffer size kinds) = some (subscribe_with_buffer b size kinds).0
step b (unsubscribes ch) = unsubscribe b ch
step b (publishes e now) = publish b e now
step b (receives ch) = some (receive b ch)
step b closes = close b

pub run : Bus → List Call → Option Bus
run b [] = some b
run b (c ∷ calls) = elim (step b c) [ none ↦ none | some b' ↦ run b' calls ]

step_safe : (b : Bus) (c : Call) → IsValid b → (b' : Bus) × (step b c ≡ some b') × IsValid b'
unfolding step subscribe
step_safe b (subscribes kinds) v = (_, refl, subscribe_with_buffer-IsValid b 64 kinds v)
step_safe b (subscribes_with_buffer size kinds) v =
    (_, refl, subscribe_with_buffer-IsValid b size kinds v)
step_safe b (unsubscribes ch) v = unsubscribe_safe b ch v
step_safe b (publishes e now) v = publish_safe b e now v
step_safe b (receives ch) v = (_, refl, receive-IsValid b ch v)
step_safe b closes v = close_safe b v

run_safe :
    (b : Bus) (calls : List Call) → IsValid b → (b' : Bus) × (run b calls ≡ some b') × IsValid b'
unfolding run
run_safe b [] v = (b, refl, v)
run_safe b (c ∷ calls) v =
    let (b', found, w) = step_safe b c v in
    let (b'', result, u) = run_safe b' calls w in (b'', rw (found, run) result, u)

-- Whatever calls are made on a new bus, in whatever order, none of them panics (no send on a closed
-- channel, no second close), also after `close` and for repeated `unsubscribe` calls, and the bus
-- stays valid.
pub run-new_safe : (calls : List Call) → (b : Bus) × (run new calls ≡ some b) × IsValid b
unfolding new
run-new_safe calls = run_safe new calls tt
