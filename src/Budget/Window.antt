-- ===== src/Budget/Window.antt =====
-- The sliding window against its meaning: a request passes if fewer than `limit` requests passed in
-- the minute up to it.
use cogitator.Base.{
  ℕ, suc, ◌+◌, ◌≤◌, ◌≡◌, refl, ◌∙◌, inl, inr, Bool, true, false, List, [], ◌∷◌, ◌++◌, ltb, leb,
  length, arith, if◌then◌else◌, Bool-cases, All,
}
use cogitator.Budget.{minute, SlidingWindow, trim, window_allow}

-- The number of the given requests that lie in the minute up to `now`.
abbrev in_minute : ℕ → ℕ → Bool
in_minute now ts = leb now (ts + minute)

pub recent : ℕ → List ℕ → ℕ
recent now [] = 0
recent now (ts ∷ h) = let rest = recent now h in if in_minute now ts then suc rest else rest

-- The answers that the window gives to requests at the given times.
unfoldable pub answers : SlidingWindow → ℕ → List ℕ → List Bool
answers w limit [] = []
answers w limit (now ∷ times) =
    let (w', accepted) = window_allow w limit now in accepted ∷ answers w' limit times

-- The reference: `h` holds the times of all the requests that passed.
pub reference : List ℕ → ℕ → List ℕ → List Bool
reference h limit [] = []
reference h limit (now ∷ times) =
    let accepted = ltb (recent now h) limit in
    accepted ∷ reference (if accepted then now ∷ h else h) limit times

-- The times do not fall, from `last` on.
abbrev pub Rising : ℕ → List ℕ → Type 0
Rising last [] = Unit {0}
Rising last (t ∷ times) = (last ≤ t) × Rising t times

abbrev Below : ℕ → List ℕ → Type 0
Below last = All λ t. t ≤ last

recent_all :
    (now first : ℕ) (w : List ℕ) → Rising first w → now ≤ first + minute → recent now w ≡ length w
unfolding recent
recent_all now first [] r h = refl
recent_all now first (t ∷ w) r h = ground (arith, recent_all now t w r.1)

length-trim : (now first : ℕ) (w : List ℕ) → Rising first w → length (trim now w) ≡ recent now w
unfolding trim recent
length-trim now first [] r = refl
length-trim now first (t ∷ w) r = ground (arith, length-trim now t w r.1, recent_all now t w r.1)

recent-trim :
    (now later : ℕ) (w : List ℕ) → now ≤ later → recent later (trim now w) ≡ recent later w
unfolding trim recent
recent-trim now later [] h = refl
recent-trim now later (t ∷ w) h = ground (arith, recent-trim now later w h)

recent-snoc : (now t : ℕ) (w : List ℕ) → recent now (w ++ t ∷ []) ≡ recent now (t ∷ w)
unfolding recent
recent-snoc now t [] = refl
recent-snoc now t (u ∷ w) = ground (arith, recent-snoc now t w)

trim-Rising : (now first : ℕ) (w : List ℕ) → Rising first w → Rising first (trim now w)
unfolding trim
trim-Rising now first [] r = tt
trim-Rising now first (t ∷ w) r =
    ground (arith, lower first t (trim now w), trim-Rising now t w r.1)
  where
    lower : (a b : ℕ) (xs : List ℕ) → Rising b xs → a ≤ b → Rising a xs
    lower a b [] s h = tt
    lower a b (x ∷ xs) s h = (omega (arith, s.0), s.1)

trim-Below : (now last : ℕ) (w : List ℕ) → Below last w → Below last (trim now w)
unfolding trim
trim-Below now last [] b = tt
trim-Below now last (t ∷ w) b = ground (arith, trim-Below now last w b.1)

snoc-Rising :
    (first last now : ℕ) (w : List ℕ)
    → Rising first w
    → Below last w
    → first ≤ now
    → last ≤ now
    → Rising first (w ++ now ∷ [])
snoc-Rising first last now [] r b f l = (f, tt)
snoc-Rising first last now (t ∷ w) r b f l =
    (r.0, snoc-Rising t last now w r.1 b.1 (omega (arith, b.0)) l)

snoc-Below : (last now : ℕ) (w : List ℕ) → Below last w → last ≤ now → Below now (w ++ now ∷ [])
snoc-Below last now [] b l = (omega arith, tt)
snoc-Below last now (t ∷ w) b l = (omega (arith, b.0), snoc-Below last now w b.1 l)

widen : (last now : ℕ) (w : List ℕ) → Below last w → last ≤ now → Below now w
widen last now [] b l = tt
widen last now (t ∷ w) b l = (omega (arith, b.0), widen last now w b.1 l)

-- The window `w` stands for the history `h` from the time `last` on.
record Stands (w h : List ℕ) (last : ℕ) : Type 0 where
  rising : Rising 0 w
  below : Below last w
  counts : (now : ℕ) → last ≤ now → recent now w ≡ recent now h

trim-Stands :
    (w h : List ℕ) (last now : ℕ) → Stands w h last → last ≤ now → Stands (trim now w) h now
trim-Stands w h last now s l = record {
  rising = trim-Rising now 0 w s.rising;
  below = trim-Below now now w (widen last now w s.below l);
  counts = λ later le. recent-trim now later w le ∙ s.counts later (omega (arith, l, le));
}

snoc-Stands : (w h : List ℕ) (now : ℕ) → Stands w h now → Stands (w ++ now ∷ []) (now ∷ h) now
unfolding recent
snoc-Stands w h now s = record {
  rising = snoc-Rising 0 now now w s.rising s.below (omega arith) (omega arith);
  below = snoc-Below now now w s.below (omega arith);
  counts = λ later le. ground (arith, recent-snoc later now w, s.counts later le);
}

-- A request at a time not before those of the window passes exactly if fewer than `limit` requests
-- of the history lie in the minute up to it, and the window goes on standing for the history.
window_step :
    (w h : List ℕ) (limit last now : ℕ)
    → Stands w h last
    → last ≤ now
    → ((window_allow w limit now).1 ≡ ltb (recent now h) limit)
      × Stands (window_allow w limit now).0 (if ltb (recent now h) limit then now ∷ h else h) now
unfolding window_allow
window_step w h limit last now s l =
    let size = length-trim now 0 w s.rising ∙ s.counts now l in
    let t = trim-Stands w h last now s l in
    elim (Bool-cases (leb limit (length (trim now w)))) [
      | inl full ↦
          let shut : ltb (recent now h) limit ≡ false = ground (arith, size) in
          rw (full, shut) (refl, t)
      | inr room ↦
          let open_slot : ltb (recent now h) limit ≡ true = ground (arith, size) in
          rw (room, open_slot) (refl, snoc-Stands (trim now w) h now t)
    ]

answers-reference_from :
    (w h : List ℕ) (limit last : ℕ) (times : List ℕ)
    → Stands w h last
    → Rising last times
    → answers w limit times ≡ reference h limit times
unfolding answers reference
answers-reference_from w h limit last [] s r = refl
answers-reference_from w h limit last (now ∷ times) s r =
    let (same, next) = window_step w h limit last now s r.0 in
    let rest =
      answers-reference_from (window_allow w limit now).0
        (if ltb (recent now h) limit then now ∷ h else h) limit now times next r.1 in
    cc (same, rest)

-- On a clock that does not go back, the window answers each of any sequence of requests as the
-- reference does, which keeps every request that passed: pass if and only if fewer than `limit`
-- requests passed in the minute up to the new one.
pub answers-reference :
    (limit start : ℕ) (times : List ℕ)
    → Rising start times
    → answers [] limit times ≡ reference [] limit times
answers-reference limit start times r = answers-reference_from [] [] limit start times empty r
  where
    empty : Stands [] [] start
    empty = record { rising = tt; below = tt; counts = λ now l. refl }
