-- ===== src/Bus/Delivery.antt =====
-- Which channels an event reaches, and in what order a listener sees the events.
use mathlib.Core.List.{append-nil, append_assoc}
use cogitator.Base.{
  ap, ℕ, ◌+◌, ◌≤◌, ◌<◌, ◌≡◌, refl, sym, ◌∙◌, inl, inr, Bool, true, false, List, [], ◌∷◌, ◌++◌,
  Option, none, some, ◌==◌, length, arith, if◌then◌else◌, String, Bool-cases, length-append,
}
use cogitator.Base.Eqs.{string_eq}
use cogitator.Bus.{
  Event, Chan, Subscriber, Bus, update, push_if_room, listens, deliver, stamp, publish, Fresh, Open,
  IsValid,
}
use cogitator.Bus.Safety.{deliver_safe, publish-delivers, try_send-open, Open-update, Open-keep}

-- Whether the subscriber on the channel, if there is one, asked for the kind.
unfoldable pub wants : List Subscriber → ℕ → String → Bool
wants [] ch kind = false
wants (s ∷ subs) ch kind = if s.ch == ch then listens s kind else wants subs ch kind

wants-Fresh :
    (subs : List Subscriber) (ch : ℕ) (kind : String) → Fresh ch subs → wants subs ch kind ≡ false
unfolding wants
wants-Fresh [] ch kind f = refl
wants-Fresh (s ∷ subs) ch kind f = ground (arith, f.0, wants-Fresh subs ch kind f.1)

stamp-kind : (e : Event) (now : ℕ) → (stamp e now).kind ≡ e.kind
stamp-kind e now = ground arith

deliver_reaches :
    (e : Event) (n : ℕ) (subs : List Subscriber) (chans chans' : ℕ → Chan)
    → Open chans n subs
    → deliver e subs chans ≡ some chans'
    → (i : ℕ) → chans' i ≡ (if wants subs i e.kind then push_if_room (chans i) e else chans i)
unfolding deliver wants
deliver_reaches e n [] chans chans' o h i =
    let same : chans ≡ chans' = cc in ap (λ f. f i) (sym same)
deliver_reaches e n (s ∷ subs) chans chans' o h i = elim (Bool-cases (listens s e.kind)) [
  | inl wanted ↦
      let c = push_if_room (chans s.ch) e in
      let first : deliver e (s ∷ subs) chans ≡ deliver e subs (update chans s.ch c) =
        rw (wanted, try_send-open (chans s.ch) e o.0) refl in
      let rest =
        deliver_reaches e n subs (update chans s.ch c) chans'
          (Open-update chans n s.ch c subs o.2 o.3) (sym first ∙ h) i in
      ground (arith, rest, wants-Fresh subs s.ch e.kind o.2, wanted)
  | inr unwanted ↦
      let first : deliver e (s ∷ subs) chans ≡ deliver e subs chans = rw unwanted refl in
      let rest = deliver_reaches e n subs chans chans' o.3 (sym first ∙ h) i in
      ground (arith, rest, wants-Fresh subs s.ch e.kind o.2, unwanted)
]

-- On an open valid bus `publish` appends the event, stamped, to the channels whose subscriber asked
-- for its kind and whose buffer has room; it drops the event for a full channel, and it changes no
-- other channel and no subscription.
pub publish_reaches :
    (b : Bus) (e : Event) (now : ℕ)
    → IsValid b
    → b.closed ≡ false
    → (b' : Bus) × (publish b e now ≡ some b')
      × (b'.subscribers ≡ b.subscribers)
      × (b'.closed ≡ false)
      × IsValid b'
      × ((i : ℕ)
          → b'.chans i ≡ (
              if wants b.subscribers i e.kind
              then push_if_room (b.chans i) (stamp e now)
              else b.chans i))
publish_reaches b e now v live =
    let (chans', found, same) = deliver_safe (stamp e now) b.next b.subscribers b.chans v in
    (
      record b { chans = chans' },
      publish-delivers b e now live found,
      refl,
      live,
      Open-keep b.chans chans' b.next b.next b.subscribers same (omega arith) v,
      λ i.
          rw (stamp-kind e now) at
            (deliver_reaches (stamp e now) b.next b.subscribers b.chans chans' v found i),
    )

-- The events in order, each with the clock at its call.
pub publish_all : Bus → List (Event × ℕ) → Option Bus
publish_all b [] = some b
publish_all b ((e, now) ∷ rest) = elim (publish b e now) [
  | none ↦ none
  | some b' ↦ publish_all b' rest
]

-- The events that a subscriber on the channel asked for, in the order of publication.
unfoldable pub seen : List Subscriber → ℕ → List (Event × ℕ) → List Event
seen subs ch [] = []
seen subs ch ((e, now) ∷ rest) =
    let later = seen subs ch rest in if wants subs ch e.kind then stamp e now ∷ later else later

push_if_room-buffer :
    (c : Chan) (e : Event)
    → length c.buffer < c.cap
    → push_if_room c e ≡ record c { buffer = c.buffer ++ e ∷ [] }
unfolding push_if_room
push_if_room-buffer c e h = ground arith

-- The buffer of the channel after one event, and the room that is left.
one_seen :
    (c : Chan) (e : Event) (wanted : Bool) (later : List Event)
    → length c.buffer + length (if wanted then e ∷ later else later) ≤ c.cap
    → let c' = if wanted then push_if_room c e else c in
      (length c'.buffer + length later ≤ c'.cap)
      × (c'.buffer ++ later ≡ c.buffer ++ (if wanted then e ∷ later else later))
one_seen c e true later room =
    rw (push_if_room-buffer c e (omega arith))
      (omega (arith, length-append c.buffer (e ∷ [])), append_assoc c.buffer (e ∷ []) later)
one_seen c e false later room = (room, refl)

-- A listener whose buffer has room for them sees exactly the events that it asked for, each once,
-- in the order of publication, behind those that it had not read.
pub publish_all-seen :
    (b : Bus) (ch : ℕ) (events : List (Event × ℕ))
    → IsValid b
    → b.closed ≡ false
    → length (b.chans ch).buffer + length (seen b.subscribers ch events) ≤ (b.chans ch).cap
    → (b' : Bus) × (publish_all b events ≡ some b')
      × ((b'.chans ch).buffer ≡ (b.chans ch).buffer ++ seen b.subscribers ch events)
unfolding publish_all seen
publish_all-seen b ch [] v live room = (b, refl, sym (append-nil (b.chans ch).buffer))
publish_all-seen b ch ((e, now) ∷ rest) v live room =
    let (b', found, subs, live', w, reach) = publish_reaches b e now v live in
    let later = seen b.subscribers ch rest in
    let step = one_seen (b.chans ch) (stamp e now) (wants b.subscribers ch e.kind) later room in
    let (b'', done, result) = publish_all-seen b' ch rest w live' (rw (subs, reach ch) step.0) in
    (b'', rw (found, publish_all) done, result ∙ rw (subs, reach ch) step.1)
