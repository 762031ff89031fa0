-- ===== src/Worker/Trigger/Idle.antt =====
-- checkIdleSessions reflects upon every session that waits and has been idle: its third test, on
-- the time since the last reflection, never holds a session back.
use cogitator.Base.{
  ℕ, ◌+◌, ◌≤◌, ◌≡◌, refl, inl, inr, true, List, [], ◌∷◌, Option, none, some, arith, anyb,
  Bool-cases, String,
}
use mathlib.Core.Option.{some_inj}
use mathlib.Core.Path.{subst}
use cogitator.Base.Assoc
use cogitator.Base.Eqs.{string_eq, ◌===◌}
use cogitator.Worker.Trigger.{
  SessionTracker, ReflectionTrigger, TriggerConfig, or_fresh, is_over, is_due, reflected, idle_from,
  check_idle_sessions, Follows, IsSound,
}
use cogitator.Worker.Trigger.Live.{Reach, Reach-IsValid, found-IsSound}

over :
    (timeout now waiting activity : ℕ) (o : Option ℕ)
    → 1 ≤ waiting
    → Follows waiting o activity
    → activity + timeout ≤ now
    → is_over timeout now o ≡ true
over timeout now waiting activity none some_wait h old = refl
over timeout now waiting activity (some r) some_wait h old = elim h [
  | inl none_wait ↦ absurd (omega (arith, none_wait, some_wait))
  | inr after ↦ ground (arith, after, old)
]

is_due-idle :
    (threshold before timeout now : ℕ) (t : SessionTracker)
    → IsSound threshold before t
    → 1 ≤ t.messages_since_reflection
    → t.last_activity + timeout ≤ now
    → is_due timeout now t ≡ true
is_due-idle threshold before timeout now t v waits old =
    let open_ =
      over timeout now t.messages_since_reflection t.last_activity t.last_reflection waits v.order
        old in
    ground (arith, open_, waits, old)

idle_from-lookup :
    (timeout now : ℕ) (key : String) (t : SessionTracker) (m : List (String × SessionTracker))
    → Assoc.lookup key m ≡ some t
    → is_due timeout now t ≡ true
    → Assoc.lookup key (idle_from timeout now m).0 ≡ some (reflected now t)
unfolding Assoc.lookup
idle_from-lookup timeout now key t [] h due = absurd (cc h)
idle_from-lookup timeout now key t ((k, u) ∷ m) h due =
    let rest = idle_from-lookup timeout now key t m in
    elim (Bool-cases (k === key)) [
      | inl same ↦ let eq = some_inj.0 (rw same at h) in rw (eq, due, same) refl
      | inr other ↦
          let later = rest (rw other at h) due in
          elim (Bool-cases (is_due timeout now u)) [
            | inl d ↦ rw (d, other) later
            | inr d ↦ rw (d, other) later
          ]
    ]

idle_from-emits :
    (timeout now : ℕ) (key : String) (t : SessionTracker) (m : List (String × SessionTracker))
    → Assoc.lookup key m ≡ some t
    → is_due timeout now t ≡ true
    → anyb (λ k. k === key) (idle_from timeout now m).1 ≡ true
unfolding Assoc.lookup
idle_from-emits timeout now key t [] h due = absurd (cc h)
idle_from-emits timeout now key t ((k, u) ∷ m) h due =
    let rest = idle_from-emits timeout now key t m in
    elim (Bool-cases (k === key)) [
      | inl same ↦ let eq = some_inj.0 (rw same at h) in rw (eq, due, same) refl
      | inr other ↦
          let later = rest (rw other at h) due in
          elim (Bool-cases (is_due timeout now u)) [
            | inl d ↦ rw (d, other) later
            | inr d ↦ rw d later
          ]
    ]

-- In every state that the two goroutines reach, a session with waiting messages, the last of which
-- is as old as the timeout, is reflected upon at the next check: its key is published, its count
-- starts again, and the time is recorded.
pub idle-reflected :
    (cfg : TriggerConfig) {rt : ReflectionTrigger} {before : ℕ} (now : ℕ) (key : String)
    (t : SessionTracker)
    → Reach cfg rt before
    → Assoc.lookup key rt.sessions ≡ some t
    → 1 ≤ t.messages_since_reflection
    → t.last_activity + rt.idle_timeout ≤ now
    → (anyb (λ k. k === key) (check_idle_sessions rt now).1 ≡ true)
      × (Assoc.lookup key (check_idle_sessions rt now).0.sessions ≡ some (reflected now t))
unfolding check_idle_sessions
idle-reflected cfg {rt} {before} now key t r found waits old =
    let v = Reach-IsValid cfg r in
    let sound =
      subst (λ o. IsSound rt.msg_threshold before (or_fresh o)) found
        (found-IsSound rt.msg_threshold before key rt.sessions v.positive v.sound) in
    let due = is_due-idle rt.msg_threshold before rt.idle_timeout now t sound waits old in
    (
      idle_from-emits rt.idle_timeout now key t rt.sessions found due,
      idle_from-lookup rt.idle_timeout now key t rt.sessions found due,
    )
