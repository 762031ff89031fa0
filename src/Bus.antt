-- ===== src/Bus.antt =====
-- server/internal/bus/bus.go: the event bus. Every method runs under the lock, so it is one step.
-- A channel is a name (a number) for a buffer in the heap `chans`; a send on a closed channel and a
-- second close panic, which is `none` here. Names are given out in order and never reused.
-- Times are numbers, and 0 is the zero time.
pub mod Safety
pub mod Delivery
mod Tests
use cogitator.Base.{
  ℕ, suc, ◌+◌, ◌≤◌, ◌<◌, ◌≡◌, ◌≢◌, Bool, true, false, List, [], ◌∷◌, ◌++◌, Option, none, some, ltb,
  ◌==◌, length, anyb, All, if◌then◌else◌, String,
}
use cogitator.Base.Eqs.{string_eq}

pub record Event : Type 0 where
  pub kind : String
  pub payload : List (String × String)
  pub timestamp : ℕ

pub record Chan : Type 0 where
  pub buffer : List Event
  pub cap : ℕ
  pub is_closed : Bool

pub record Subscriber : Type 0 where
  pub ch : ℕ
  pub kinds : List String

pub record Bus : Type 0 where
  pub subscribers : List Subscriber
  pub closed : Bool
  pub chans : ℕ → Chan
  pub next : ℕ

abbrev pub no_chan : Chan
no_chan = record { buffer = []; cap = 0; is_closed = false }

pub new : Bus
new = record { subscribers = []; closed = false; chans = λ _. no_chan; next = 0 }

abbrev pub update : (ℕ → Chan) → ℕ → Chan → ℕ → Chan
update chans ch c i = if i == ch then c else chans i

pub subscribe_with_buffer : Bus → ℕ → List String → Bus × ℕ
subscribe_with_buffer b size kinds = (
  record b {
    subscribers = b.subscribers ++ record { ch = b.next; kinds = kinds } ∷ [];
    chans = update b.chans b.next (record { buffer = []; cap = size; is_closed = false });
    next = suc b.next;
  },
  b.next,
)

pub subscribe : Bus → List String → Bus × ℕ
unfolding subscribe_with_buffer
subscribe b kinds = subscribe_with_buffer b 64 kinds

-- `close(ch)`
pub close_chan : (ℕ → Chan) → ℕ → Option (ℕ → Chan)
close_chan chans ch =
    if (chans ch).is_closed
    then none
    else some (update chans ch (record (chans ch) { is_closed = true }))

-- The subscribers without the first that listens on `ch`, if there is one.
pub remove_first : ℕ → List Subscriber → Option (List Subscriber)
remove_first ch [] = none
remove_first ch (s ∷ subs) =
    let rest = remove_first ch subs in
    if s.ch == ch then some subs else elim rest [ none ↦ none | some r ↦ some (s ∷ r) ]

pub unsubscribe : Bus → ℕ → Option Bus
unsubscribe b ch = elim (remove_first ch b.subscribers) [
  | none ↦ some b
  | some subs ↦ elim (close_chan b.chans ch) [
    | none ↦ none
    | some chans ↦ some (record b { subscribers = subs; chans = chans })
  ]
]

pub push_if_room : Chan → Event → Chan
push_if_room c e =
    if ltb (length c.buffer) c.cap then record c { buffer = c.buffer ++ e ∷ [] } else c

-- `select { case ch <- evt: default: }`
pub try_send : Chan → Event → Option Chan
try_send c e = if c.is_closed then none else some (push_if_room c e)

abbrev pub listens : Subscriber → String → Bool
listens s kind = anyb (string_eq.beq kind) s.kinds

pub deliver : Event → List Subscriber → (ℕ → Chan) → Option (ℕ → Chan)
deliver e [] chans = some chans
deliver e (s ∷ subs) chans =
    let rest = deliver e subs chans in
    if listens s e.kind
    then elim (try_send (chans s.ch) e) [
      | none ↦ none
      | some c ↦ deliver e subs (update chans s.ch c)
    ]
    else rest

abbrev pub stamp : Event → ℕ → Event
stamp e now = if e.timestamp == 0 then record e { timestamp = now } else e

pub publish : Bus → Event → ℕ → Option Bus
publish b e now = if b.closed then some b else elim (deliver (stamp e now) b.subscribers b.chans) [
  | none ↦ none
  | some chans ↦ some (record b { chans = chans })
]

pub close_all : List Subscriber → (ℕ → Chan) → Option (ℕ → Chan)
close_all [] chans = some chans
close_all (s ∷ subs) chans = elim (close_chan chans s.ch) [
  | none ↦ none
  | some c ↦ close_all subs c
]

pub close : Bus → Option Bus
close b = elim (close_all b.subscribers b.chans) [
  | none ↦ none
  | some chans ↦ some (record b { subscribers = []; closed = true; chans = chans })
]

-- A listener takes the oldest event off a channel.
pub receive : Bus → ℕ → Bus
receive b ch = elim (b.chans ch).buffer [
  | [] ↦ b
  | e ∷ rest ↦ record b { chans = update b.chans ch (record (b.chans ch) { buffer = rest }) }
]

-- No subscriber further down the list listens on the channel.
abbrev pub Fresh : ℕ → List Subscriber → Type 0
Fresh ch = All λ s. s.ch ≢ ch

-- The channels of the subscribers are open, known, and all different.
abbrev pub Open : (ℕ → Chan) → ℕ → List Subscriber → Type 0
Open chans n [] = Unit
Open chans n (s ∷ subs) =
    ((chans s.ch).is_closed ≡ false) × (s.ch < n) × Fresh s.ch subs × Open chans n subs

abbrev pub IsValid : Bus → Type 0
IsValid b = Open b.chans b.next b.subscribers
