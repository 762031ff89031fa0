-- ===== src/Memory/Retriever/Fill.antt =====
-- The loop that fills the token budget.
use cogitator.Base.{
  ℕ, ◌+◌, ◌≤◌, ◌<◌, ◌≡◌, refl, ◌⊎◌, inl, inr, Bool, true, false, ◌&&◌, List, [], ◌∷◌, ◌++◌, length,
  ltb, if◌then◌else◌, arith, Bool-cases,
}
use cogitator.Memory.Nodes.{Floats}
use cogitator.Memory.Retriever.{Scored, estimate_tokens_from_length, fill}

module _ {F : Floats} where
  abbrev cost : Scored F → ℕ
  cost c = estimate_tokens_from_length c.content_length

  abbrev pub total_cost : List (Scored F) → ℕ
  total_cost [] = 0
  total_cost (c ∷ cs) = cost c + total_cost cs

  -- Nothing is left over, or the next candidate would go over the budget.
  abbrev pub Stops : ℕ → ℕ → List (Scored F) → Type 0
  Stops budget used [] = Unit
  Stops budget used (c ∷ cs) = budget < used + cost c

  -- From a fill that has started within the budget.
  fill_started :
      (budget used : ℕ) (cs : List (Scored F))
      → (rest : List (Scored F)) × (cs ≡ (fill budget used true cs).0 ++ rest)
        × ((fill budget used true cs).1 ≡ used + total_cost (fill budget used true cs).0)
        × (used ≤ budget → (fill budget used true cs).1 ≤ budget)
        × Stops budget (fill budget used true cs).1 rest
  unfolding fill
  fill_started budget used [] = ([], refl, ground arith, λ h. h, tt)
  fill_started budget used (c ∷ cs) = elim (Bool-cases (ltb budget (used + cost c))) [
    | inl over ↦ rw over (c ∷ cs, refl, ground arith, λ h. h, ground arith)
    | inr under ↦
        let (rest, split, sum, within, stops) = fill_started budget (used + cost c) cs in
        rw under
          (rest, ground (arith, split), omega (arith, sum), λ h. within (ground arith), stops)
  ]

  fill_over :
      (budget used : ℕ) (cs : List (Scored F))
      → budget < used
      → fill budget used true cs ≡ ([], used)
  unfolding fill
  fill_over budget used [] over = refl
  fill_over budget used (c ∷ cs) over = ground (arith, over)

  first : (b : Bool) (s t : List (Scored F) × ℕ) → (if b && false then s else t) ≡ t
  first true s t = refl
  first false s t = refl

  -- The selected candidates are the first ones, and the tokens used are their estimates' sum. The sum
  -- is within the budget, or one candidate alone is selected; and the next candidate, if there is
  -- one, would go over the budget.
  pub fill_maximal :
      (budget : ℕ) (cs : List (Scored F))
      → (rest : List (Scored F)) × (cs ≡ (fill budget 0 false cs).0 ++ rest)
        × ((fill budget 0 false cs).1 ≡ total_cost (fill budget 0 false cs).0)
        × (((fill budget 0 false cs).1 ≤ budget) ⊎ (length (fill budget 0 false cs).0 ≡ 1))
        × Stops budget (fill budget 0 false cs).1 rest
  unfolding fill
  fill_maximal budget [] = ([], refl, refl, inl (omega arith), tt)
  fill_maximal budget (c ∷ cs) =
      rw
        (first (ltb budget (0 + cost c)) ([], 0)
          (c ∷ (fill budget (0 + cost c) true cs).0, (fill budget (0 + cost c) true cs).1))
        (elim (Bool-cases (ltb budget (0 + cost c))) [
          | inl over ↦
              rw (fill_over budget (0 + cost c) cs (ground arith))
                (cs, refl, omega arith, inr refl, alone cs (ground arith))
          | inr under ↦
              let (rest, split, sum, within, stops) = fill_started budget (0 + cost c) cs in
              (rest, ground (arith, split), omega (arith, sum), inl (within (ground arith)), stops)
        ])
    where
      alone : (rest : List (Scored F)) → budget < 0 + cost c → Stops budget (0 + cost c) rest
      alone [] h = tt
      alone (d ∷ rest) h = omega (arith, h)
