-- ===== src/Worker/Trigger/Live.antt =====
-- A session with messages that wait is reflected upon when it has been idle.
use cogitator.Base.{
  ℕ, ◌+◌, ◌≤◌, refl, inl, inr, List, [], ◌∷◌, Option, none, some, arith, leb, All, Bool-cases,
  String,
}
use cogitator.Base.Assoc
use cogitator.Base.Eqs.{string_eq, ◌===◌}
use cogitator.Worker.Trigger.{
  SessionTracker, ReflectionTrigger, TriggerConfig, new_reflection_trigger, or_fresh, bumped,
  track_message, on_message, is_due, reflected, idle_from, check_idle_sessions, IsBefore, Follows,
  IsSound, IsValid,
}

abbrev pub Sound : ℕ → ℕ → List (String × SessionTracker) → Type 0
Sound threshold now = All (λ (e : String × SessionTracker). IsSound threshold now e.1)

-- The invariant at a later time.
later-IsSound :
    (threshold before now : ℕ) (t : SessionTracker)
    → before ≤ now
    → IsSound threshold before t
    → IsSound threshold now t
later-IsSound threshold before now t le v = record {
  waiting = v.waiting;
  activity = omega (arith, le, v.activity);
  reflection = past t.last_reflection v.reflection;
  order = v.order;
}
  where
    past : (o : Option ℕ) → IsBefore before o → IsBefore now o
    past none h = tt
    past (some r) h = omega (arith, h, le)

later-Sound :
    (threshold before now : ℕ) (m : List (String × SessionTracker))
    → before ≤ now
    → Sound threshold before m
    → Sound threshold now m
later-Sound threshold before now [] le h = tt
later-Sound threshold before now ((k, t) ∷ m) le h =
    (later-IsSound threshold before now t le h.0, later-Sound threshold before now m le h.1)

pub found-IsSound :
    (threshold now : ℕ) (key : String) (m : List (String × SessionTracker))
    → 1 ≤ threshold
    → Sound threshold now m
    → IsSound threshold now (or_fresh (Assoc.lookup key m))
unfolding Assoc.lookup
found-IsSound threshold now key [] pos h = record {
  waiting = pos;
  activity = omega arith;
  reflection = tt;
  order = tt;
}
found-IsSound threshold now key ((k, t) ∷ m) pos h = elim (Bool-cases (k === key)) [
  | inl same ↦ rw same h.0
  | inr other ↦ rw other (found-IsSound threshold now key m pos h.1)
]

insert-Sound :
    (threshold now : ℕ) (key : String) (t : SessionTracker) (m : List (String × SessionTracker))
    → IsSound threshold now t
    → Sound threshold now m
    → Sound threshold now (Assoc.insert key t m)
unfolding Assoc.insert
insert-Sound threshold now key t [] v h = (v, tt)
insert-Sound threshold now key t ((k, u) ∷ m) v h = elim (Bool-cases (k === key)) [
  | inl same ↦ rw same (v, h.1)
  | inr other ↦ rw other (h.0, insert-Sound threshold now key t m v h.1)
]

bumped-IsSound :
    (threshold now : ℕ) (t : SessionTracker)
    → 1 ≤ threshold
    → IsSound threshold now t
    → IsSound threshold now (bumped threshold now t).0
bumped-IsSound threshold now t pos v =
    elim (Bool-cases (leb threshold (t.messages_since_reflection + 1))) [
      | inl full ↦ rw full (record {
        waiting = pos;
        activity = omega arith;
        reflection = omega arith;
        order = inl refl;
      })
      | inr room ↦ rw room (record {
        waiting = ground (arith, room);
        activity = omega arith;
        reflection = v.reflection;
        order = after t.last_reflection v.reflection;
      })
    ]
  where
    after : (o : Option ℕ) → IsBefore now o → Follows (t.messages_since_reflection + 1) o now
    after none h = tt
    after (some r) h = inr h

reflected-IsSound :
    (threshold now : ℕ) (t : SessionTracker)
    → 1 ≤ threshold
    → IsSound threshold now t
    → IsSound threshold now (reflected now t)
reflected-IsSound threshold now t pos v = record {
  waiting = pos;
  activity = v.activity;
  reflection = omega arith;
  order = inl refl;
}

idle-Sound :
    (threshold timeout now : ℕ) (m : List (String × SessionTracker))
    → 1 ≤ threshold
    → Sound threshold now m
    → Sound threshold now (idle_from timeout now m).0
idle-Sound threshold timeout now [] pos h = tt
idle-Sound threshold timeout now ((k, t) ∷ m) pos h = elim (Bool-cases (is_due timeout now t)) [
  | inl due ↦
      rw due (reflected-IsSound threshold now t pos h.0, idle-Sound threshold timeout now m pos h.1)
  | inr calm ↦ rw calm (h.0, idle-Sound threshold timeout now m pos h.1)
]

-- The steps of the two goroutines, at times that do not go back.
pub data Step : ReflectionTrigger → ℕ → ReflectionTrigger → ℕ → Type 0 where
  message :
      (rt : ReflectionTrigger) (key : String) (t now : ℕ)
      → t ≤ now
      → Step rt t (on_message rt key now).0 now
  tick :
      (rt : ReflectionTrigger) (t now : ℕ) → t ≤ now → Step rt t (check_idle_sessions rt now).0 now

pub data Reach (cfg : TriggerConfig) : ReflectionTrigger → ℕ → Type 0 where
  start : (now : ℕ) → Reach cfg (new_reflection_trigger cfg) now
  next : {rt u : ReflectionTrigger} {t now : ℕ} → Reach cfg rt t → Step rt t u now → Reach cfg u now

step-IsValid :
    {rt u : ReflectionTrigger} {t now : ℕ} → Step rt t u now → IsValid rt t → IsValid u now
unfolding on_message track_message check_idle_sessions
step-IsValid (message rt key t now le) v =
    let sound = later-Sound rt.msg_threshold t now rt.sessions le v.sound in
    elim (Bool-cases (key === "")) [
      | inl without ↦ rw without (record { positive = v.positive; sound = sound })
      | inr named ↦ rw named (record {
        positive = v.positive;
        sound =
            insert-Sound rt.msg_threshold now key _ rt.sessions
              (bumped-IsSound rt.msg_threshold now _ v.positive
                (found-IsSound rt.msg_threshold now key rt.sessions v.positive sound))
              sound;
      })
    ]
step-IsValid (tick rt t now le) v = record {
  positive = v.positive;
  sound =
      idle-Sound rt.msg_threshold rt.idle_timeout now rt.sessions v.positive
        (later-Sound rt.msg_threshold t now rt.sessions le v.sound);
}

pub Reach-IsValid :
    (cfg : TriggerConfig) {rt : ReflectionTrigger} {now : ℕ} → Reach cfg rt now → IsValid rt now
unfolding new_reflection_trigger
Reach-IsValid cfg (start now) = record { positive = ground arith; sound = tt }
Reach-IsValid cfg (next r st) = step-IsValid st (Reach-IsValid cfg r)
