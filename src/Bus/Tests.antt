-- ===== src/Bus/Tests.antt =====
-- Runs of the bus on small inputs.
use cogitator.Base.{ℕ, ◌≡◌, refl, ◌∷◌, [], List, false, some, arith}
use cogitator.Bus.{Event, Bus, new, IsValid}
use cogitator.Bus.Safety.{subscribes, unsubscribes, publishes, closes, run, run-new_safe}
use cogitator.Bus.Delivery.{wants, publish_all, seen, publish_all-seen}

abbrev two_listeners : Bus
two_listeners = record {
  subscribers =
      record { ch = 0; kinds = "task.failed" ∷ [] }
      ∷ record { ch = 1; kinds = "task.failed" ∷ "task.changed" ∷ [] }
      ∷ [];
  closed = false;
  chans = λ _. record { buffer = []; cap = 2; is_closed = false };
  next = 2;
}

two_listeners-IsValid : IsValid two_listeners
two_listeners-IsValid = (refl, omega arith, (omega arith, tt), (refl, omega arith, tt, tt))

abbrev failed : Event
failed = record { kind = "task.failed"; payload = []; timestamp = 0 }

abbrev changed : Event
changed = record { kind = "task.changed"; payload = []; timestamp = 8 }

run-new_safe_example :
    let calls =
      subscribes ("task.failed" ∷ [])
      ∷ publishes failed 5
      ∷ unsubscribes 0
      ∷ unsubscribes 0
      ∷ closes
      ∷ closes
      ∷ [] in
    (b : Bus) × (run new calls ≡ some b) × IsValid b
run-new_safe_example = run-new_safe _

publish_all-seen_example :
    let events : List (Event × ℕ) = (failed, 5) ∷ (changed, 6) ∷ [] in
    (b' : Bus) × (publish_all two_listeners events ≡ some b')
    × ((b'.chans 1).buffer ≡ seen two_listeners.subscribers 1 events)
unfolding seen wants
publish_all-seen_example =
    publish_all-seen two_listeners 1 ((failed, 5) ∷ (changed, 6) ∷ []) two_listeners-IsValid refl
      (omega arith)
