-- ===== src/Api/FailTracker/Tests.antt =====
-- Runs of the tracker on small inputs.
use cogitator.Base.{◌*◌, ◌≡◌, refl, ◌∷◌, [], true, arith}
use cogitator.Base.Texts.{codes, bytes_eq_instance}
use cogitator.Base.Assoc
use cogitator.Api.FailTracker.{FailTracker, second, blocked, IsValid}
use cogitator.Api.FailTracker.Lockout.{fail_all, failures_lock_fresh}

abbrev two_keys : FailTracker
two_keys = record {
  entries =
      (codes "ip:10.0.0.1", record { count = 5; first = 0; last = 9 })
      ∷ (codes "acct:ann", record { count = 1; first = 3 * second; last = 3 * second })
      ∷ [];
  max = 3;
}

two_keys-IsValid : IsValid two_keys
unfolding Assoc.lookup
two_keys-IsValid = record { distinct = (refl, (refl, tt)); bounded = omega arith }

failures_lock_fresh_example :
    (blocked
      (fail_all two_keys (codes "acct:bob") 100 (10 ∷ 20 ∷ 30 ∷ []))
      (codes "acct:bob")
      3
      100
      40).1
    ≡ true
unfolding Assoc.lookup
failures_lock_fresh_example =
    failures_lock_fresh two_keys (codes "acct:bob") 3 100 10 (20 ∷ 30 ∷ []) 40 two_keys-IsValid
      (omega arith) refl (omega arith)
