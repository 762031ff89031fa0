-- ===== src/Api/TtlStore/Tests.antt =====
-- A store at its cap: the next entry puts out the one that expires first, and is read once.
use cogitator.Base.{ℕ, ◌≡◌, refl, ◌∷◌, [], some, none}
use cogitator.Base.Eqs.{string_eq}
use cogitator.Base.Assoc
use cogitator.Api.TtlStore.{TtlStore, prune, oldest, evict_oldest, set, take}

abbrev full : TtlStore ℕ
full = record {
  entries =
      ("a", record { value = 1; expires = 20 }) ∷ ("b", record { value = 2; expires = 10 }) ∷ [];
  ttl = 30;
  max = 2;
}

runs : Unit {0}
unfolding set take prune oldest evict_oldest Assoc.lookup Assoc.insert Assoc.delete Assoc.keep
runs = tt

abbrev replaced : TtlStore ℕ
replaced = set full 5 "c" 3

evicted : ((take replaced 6 "b").1 ≡ none) × ((take replaced 6 "a").1 ≡ some 1)
unfolding runs
evicted = (refl, refl)

read_once :
    ((take replaced 34 "c").1 ≡ some 3)
    × ((take (take replaced 34 "c").0 34 "c").1 ≡ none)
    × ((take replaced 35 "c").1 ≡ none)
unfolding runs
read_once = (refl, refl, refl)
