-- ===== src/Budget/Tests.antt =====
-- Runs of the guard on small inputs.
use cogitator.Base.{ℕ, ◌≡◌, ◌∷◌, [], List, arith}
use cogitator.Base.Eqs.{string_eq}
use cogitator.Budget.Window.{answers, reference, answers-reference}

abbrev times : List ℕ
times = 0 ∷ 10 ∷ 60_000_000_000 ∷ 60_000_000_001 ∷ 60_000_000_020 ∷ []

answers-reference_example : answers [] 2 times ≡ reference [] 2 times
answers-reference_example = answers-reference 2 0 times (omega arith)
