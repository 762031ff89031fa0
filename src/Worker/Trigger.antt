-- ===== src/Worker/Trigger.antt =====
-- server/internal/worker/trigger.go: when a conversation is reflected upon. The handlers of the two
-- goroutines are one step each under the mutex, with the clock as an argument, and give the session
-- keys for which an event is published. The zero time of a fresh tracker is `none`: it lies further
-- back than any timeout. A setting of the configuration that is not positive is 0.
pub mod Idle
pub mod Live
mod Tests
use cogitator.Base.{
  ℕ, ◌+◌, ◌*◌, ◌≤◌, ◌<◌, ◌≡◌, ◌⊎◌, Bool, true, false, not, ◌&&◌, List, [], ◌∷◌, ◌++◌, Option, none,
  some, ltb, leb, ◌==◌, All, if◌then◌else◌, String,
}
use cogitator.Base.Assoc
use cogitator.Base.Eqs.{string_eq, ◌===◌}

pub record SessionTracker : Type 0 where
  pub messages_since_reflection : ℕ
  pub last_activity : ℕ
  pub last_reflection : Option ℕ

pub record ReflectionTrigger : Type 0 where
  pub msg_threshold : ℕ
  pub idle_timeout : ℕ
  pub check_interval : ℕ
  pub sessions : List (String × SessionTracker)

pub record TriggerConfig : Type 0 where
  pub msg_threshold : ℕ
  pub idle_timeout : ℕ
  pub check_interval : ℕ

abbrev pub minute : ℕ
minute = 60_000_000_000

abbrev pub or_default : ℕ → ℕ → ℕ
or_default n default = if n == 0 then default else n

unfoldable pub new_reflection_trigger : TriggerConfig → ReflectionTrigger
new_reflection_trigger cfg = record {
  msg_threshold = or_default cfg.msg_threshold 5;
  idle_timeout = or_default cfg.idle_timeout (60 * minute);
  check_interval = or_default cfg.check_interval (5 * minute);
  sessions = [];
}

abbrev pub fresh : SessionTracker
fresh = record { messages_since_reflection = 0; last_activity = 0; last_reflection = none }

abbrev pub or_fresh : Option SessionTracker → SessionTracker
or_fresh none = fresh
or_fresh (some t) = t

-- One more message; at the threshold the count starts again, and the event is published.
abbrev pub bumped : ℕ → ℕ → SessionTracker → SessionTracker × Bool
bumped threshold now t =
    let n = t.messages_since_reflection + 1 in
    if leb threshold n
    then (
      record { messages_since_reflection = 0; last_activity = now; last_reflection = some now },
      true,
    )
    else (record t { messages_since_reflection = n; last_activity = now }, false)

unfoldable pub track_message : ReflectionTrigger → String → ℕ → ReflectionTrigger × List String
track_message rt key now =
    let (t, emits) = bumped rt.msg_threshold now (or_fresh (Assoc.lookup key rt.sessions)) in
    (record rt { sessions = Assoc.insert key t rt.sessions }, if emits then key ∷ [] else [])

-- The event handler: a message without a session key is passed over.
unfoldable pub on_message : ReflectionTrigger → String → ℕ → ReflectionTrigger × List String
unfolding track_message
on_message rt key now = if key === "" then (rt, []) else track_message rt key now

-- `now.Sub(t) >= timeout`
abbrev pub is_over : ℕ → ℕ → Option ℕ → Bool
is_over timeout now none = true
is_over timeout now (some t) = leb (t + timeout) now

abbrev pub is_due : ℕ → ℕ → SessionTracker → Bool
is_due timeout now t =
    ltb 0 t.messages_since_reflection
    && leb (t.last_activity + timeout) now
    && is_over timeout now t.last_reflection

abbrev pub reflected : ℕ → SessionTracker → SessionTracker
reflected now t = record t { messages_since_reflection = 0; last_reflection = some now }

abbrev pub idle_from :
    ℕ → ℕ → List (String × SessionTracker) → List (String × SessionTracker) × List String
idle_from timeout now [] = ([], [])
idle_from timeout now ((key, t) ∷ sessions) =
    let (rest, emitted) = idle_from timeout now sessions in
    if is_due timeout now t
    then ((key, reflected now t) ∷ rest, key ∷ emitted)
    else ((key, t) ∷ rest, emitted)

unfoldable pub check_idle_sessions : ReflectionTrigger → ℕ → ReflectionTrigger × List String
check_idle_sessions rt now =
    let (sessions, emitted) = idle_from rt.idle_timeout now rt.sessions in
    (record rt { sessions = sessions }, emitted)

-- At the time `now`: the clock is past all that was recorded, fewer messages than the threshold
-- wait, and where some wait they came after the last reflection.
abbrev pub IsBefore : ℕ → Option ℕ → Type 0
IsBefore now none = Unit
IsBefore now (some t) = t ≤ now

abbrev pub Follows : ℕ → Option ℕ → ℕ → Type 0
Follows waiting none activity = Unit
Follows waiting (some t) activity = (waiting ≡ 0) ⊎ (t ≤ activity)

pub record IsSound (threshold now : ℕ) (t : SessionTracker) : Type 0 where
  pub waiting : t.messages_since_reflection < threshold
  pub activity : t.last_activity ≤ now
  pub reflection : IsBefore now t.last_reflection
  pub order : Follows t.messages_since_reflection t.last_reflection t.last_activity

pub record IsValid (rt : ReflectionTrigger) (now : ℕ) : Type 0 where
  pub positive : 1 ≤ rt.msg_threshold
  pub sound : All (λ (e : String × SessionTracker). IsSound rt.msg_threshold now e.1) rt.sessions
