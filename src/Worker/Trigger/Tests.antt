-- ===== src/Worker/Trigger/Tests.antt =====
-- One message of a session, and the check a long time after it.
use cogitator.Base.{◌≡◌, refl, true, some, none, arith, anyb, String}
use cogitator.Base.Assoc
use cogitator.Base.Eqs.{string_eq, ◌===◌}
use cogitator.Worker.Trigger.{
  SessionTracker, ReflectionTrigger, TriggerConfig, new_reflection_trigger, track_message,
  on_message, reflected, check_idle_sessions,
}
use cogitator.Worker.Trigger.Live.{Reach, start, next, message}
use cogitator.Worker.Trigger.Idle.{idle-reflected}

abbrev config : TriggerConfig
config = record { msg_threshold = 5; idle_timeout = 10; check_interval = 1 }

abbrev key : String
key = "web:1"

abbrev spoken : ReflectionTrigger
unfolding on_message track_message new_reflection_trigger Assoc.lookup Assoc.insert
spoken = (on_message (new_reflection_trigger config) key 3).0

abbrev waiting : SessionTracker
waiting = record { messages_since_reflection = 1; last_activity = 3; last_reflection = none }

spoken-Reach : Reach config spoken 3
unfolding spoken
spoken-Reach = next (start 2) (message (new_reflection_trigger config) key 2 3 (omega arith))

idle-reflected_example :
    (anyb (λ k. k === key) (check_idle_sessions spoken 20).1 ≡ true)
    × (Assoc.lookup key (check_idle_sessions spoken 20).0.sessions ≡ some (reflected 20 waiting))
unfolding on_message track_message new_reflection_trigger Assoc.lookup Assoc.insert
idle-reflected_example =
    idle-reflected config 20 key waiting spoken-Reach refl (omega arith) (omega arith)
