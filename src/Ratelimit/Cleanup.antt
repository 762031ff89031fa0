-- ===== src/Ratelimit/Cleanup.antt =====
-- Nobody can tell whether the cleanup ran.
use cogitator.Base.{
  ℕ, ◌-◌, ◌*◌, ◌≤◌, ◌≡◌, refl, sym, ◌∙◌, inl, inr, false, Option, none, some, arith, Bool-cases,
  String,
}
use cogitator.Base.Eqs.{string_eq}
use cogitator.Base.Assoc
use cogitator.Base.Assoc.{Distinct, keep_option}
use cogitator.Ratelimit.{
  unit, stale_after, Bucket, Limiter, is_fresh, cleanup, or_full, refill, spend, allow,
}

refill_full :
    (burst later : ℕ) (b : Bucket)
    → stale_after ≤ later - b.last_check
    → refill burst later b ≡ burst * unit
unfolding refill
refill_full burst later b old =
    let gained : stale_after * burst ≤ (later - b.last_check) * burst = grind arith in
    ground (arith, gained)

refill_new :
    (burst later : ℕ)
    → refill burst later (record { tokens = burst * unit; last_check = later }) ≡ burst * unit
unfolding refill
refill_new burst later = ground arith

-- A stale bucket is full by the time that anybody can look at it: five minutes refill it five times.
spend_stale :
    (burst now later : ℕ) (b : Bucket)
    → now ≤ later
    → is_fresh now b ≡ false
    → spend burst later (or_full burst later none) ≡ spend burst later b
unfolding spend
spend_stale burst now later b le stale =
    let old : stale_after ≤ later - b.last_check = ground arith in
    rw (refill_full burst later b old, refill_new burst later) refl

dropped :
    (burst now later : ℕ) (o : Option Bucket)
    → now ≤ later
    → spend burst later (or_full burst later (keep_option (is_fresh now) o))
      ≡ spend burst later (or_full burst later o)
dropped burst now later none le = refl
dropped burst now later (some b) le = elim (Bool-cases (is_fresh now b)) [
  | inl fresh ↦ rw fresh refl
  | inr stale ↦ rw stale (spend_stale burst now later b le stale)
]

-- For every address, a request at or after a cleanup gets the answer, and leaves the bucket, that it
-- would without the cleanup.
pub cleanup_unobservable :
    (l : Limiter) (ip : String) (now later : ℕ)
    → Distinct l.buckets
    → now ≤ later
    → ((allow (cleanup l now) ip later).1 ≡ (allow l ip later).1)
      × (Assoc.lookup ip (allow (cleanup l now) ip later).0.buckets
          ≡ Assoc.lookup ip (allow l ip later).0.buckets)
unfolding allow cleanup
cleanup_unobservable l ip now later d le =
    let same = dropped l.burst now later (Assoc.lookup ip l.buckets) le in
    rw (Assoc.lookup-keep (is_fresh now) ip l.buckets d, same)
      (
        refl,
        Assoc.lookup-insert_self ip _ (Assoc.keep (is_fresh now) l.buckets)
            ∙ sym (Assoc.lookup-insert_self ip _ l.buckets),
      )
