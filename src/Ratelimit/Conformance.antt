-- ===== src/Ratelimit/Conformance.antt =====
-- How many requests a bucket lets through.
use cogitator.Base.{
  ℕ, suc, ◌+◌, ◌-◌, ◌*◌, ◌≤◌, ◌≡◌, refl, inl, inr, Bool, true, false, List, [], ◌∷◌, ltb, arith,
  if◌then◌else◌, Bool-cases,
}
use cogitator.Ratelimit.{unit, Bucket, refill, spend}

-- One parameter is the burst, which is also the sustained rate in requests a minute.
module _ (burst : ℕ) where
  -- The bucket after requests at the given times, and how many of them passed.
  pub serve : Bucket → List ℕ → Bucket × ℕ
  serve b [] = (b, 0)
  serve b (now ∷ times) =
      let (b', permitted) = spend burst now b in
      let (final, count) = serve b' times in (final, if permitted then suc count else count)

  pub last_of : ℕ → List ℕ → ℕ
  last_of t [] = t
  last_of t (now ∷ times) = last_of now times

  abbrev pub Rising : ℕ → List ℕ → Type 0
  Rising last [] = Unit {0}
  Rising last (t ∷ times) = (last ≤ t) × Rising t times

  refill_le : (now : ℕ) (b : Bucket) → refill burst now b ≤ b.tokens + (now - b.last_check) * burst
  unfolding refill
  refill_le now b = ground arith

  refill_cap : (now : ℕ) (b : Bucket) → refill burst now b ≤ burst * unit
  unfolding refill
  refill_cap now b = ground arith

  spend_step :
      (now : ℕ) (b : Bucket)
      → ((spend burst now b).0.last_check ≡ now)
        × ((spend burst now b).0.tokens + (if (spend burst now b).1 then unit else 0)
            ≤ b.tokens + (now - b.last_check) * burst)
        × ((spend burst now b).0.tokens ≤ burst * unit)
  unfolding spend
  spend_step now b = elim (Bool-cases (ltb (refill burst now b) unit)) [
    | inl few ↦ rw few (refl, omega (arith, refill_le now b), refill_cap now b)
    | inr enough ↦
        let at_least : unit ≤ refill burst now b = ground arith in
        rw enough (refl, omega (arith, refill_le now b, at_least), omega (arith, refill_cap now b))
  ]

  last_of-le : (t : ℕ) (times : List ℕ) → Rising t times → t ≤ last_of t times
  unfolding last_of
  last_of-le t [] r = omega arith
  last_of-le t (now ∷ times) r = omega (arith, last_of-le now times r.1)

  count_step :
      (permitted : Bool) (n a c : ℕ)
      → n * unit + (if permitted then unit else 0) + a ≤ c
      → (if permitted then suc n else n) * unit + a ≤ c
  count_step true n a c h = omega arith
  count_step false n a c h = omega arith

  -- Over any sequence of requests on a clock that does not go back, the requests that pass use no
  -- more than the tokens of the bucket at the start and those that the rate gives until the last
  -- request: `passed * unit + rest <= tokens + (last - start) * burst`.
  pub serve_conforms :
      (b : Bucket) (times : List ℕ)
      → Rising b.last_check times
      → (serve b times).1 * unit + (serve b times).0.tokens
        ≤ b.tokens + (last_of b.last_check times - b.last_check) * burst
  unfolding serve last_of
  serve_conforms b [] r = omega arith
  serve_conforms b (now ∷ times) r =
      let b' = (spend burst now b).0 in
      let (at, used, _) = spend_step now b in
      let rest : (serve b' times).1 * unit + (serve b' times).0.tokens
          ≤ b'.tokens + (last_of now times - now) * burst =
        rw at at (serve_conforms b' times (rw at r.1)) in
      let later = last_of-le now times r.1 in
      let whole : last_of now times - b.last_check
          ≡ (now - b.last_check) + (last_of now times - now) =
        omega (arith, r.0) in
      rw whole (count_step (spend burst now b).1 (serve b' times).1 _ _ (omega (arith, used, rest)))
