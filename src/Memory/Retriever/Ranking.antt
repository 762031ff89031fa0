-- ===== src/Memory/Retriever/Ranking.antt =====
-- The loop over the cache and the sort of the candidates.
use mathlib.Core.List.{Perm}
use mathlib.Core.List.Perm
use cogitator.Base.{
  ◌≡◌, refl, inl, inr, true, false, List, [], ◌∷◌, arith, Bool-cases, String, All, some, none,
}
use cogitator.Base.Assoc
use cogitator.Base.Assoc.{Distinct}
use cogitator.Base.Eqs.{string_eq}
use cogitator.Memory.Nodes.{cosine_similarity, Floats, EmbeddingMeta}
use cogitator.Memory.Retriever.{
  Config, Scored, is_seen, passes, scored_of, candidates, insert_scored, sort_scored,
}

-- No order of two numbers holds both ways.
abbrev pub IsAsymmetric : Floats → Type 0
IsAsymmetric F = (a b : F.Float) → F.less a b ≡ true → F.less b a ≡ false

module _ {F : Floats} where
  -- No candidate has a greater score than the one before it.
  abbrev pub Falling : List (Scored F) → Type 0
  Falling [] = Unit
  Falling (x ∷ []) = Unit
  Falling (x ∷ y ∷ ys) = (F.less x.score y.score ≡ false) × Falling (y ∷ ys)

  -- Where an element may stand in front of a falling list.
  abbrev Fits : Scored F → List (Scored F) → Type 0
  Fits x [] = Unit
  Fits x (y ∷ ys) = F.less x.score y.score ≡ false

  Falling-cons : (x : Scored F) (ys : List (Scored F)) → Fits x ys → Falling ys → Falling (x ∷ ys)
  Falling-cons x [] f h = tt
  Falling-cons x (y ∷ ys) f h = (f, h)

  Fits-head : (x : Scored F) (ys : List (Scored F)) → Falling (x ∷ ys) → Fits x ys
  Fits-head x [] h = tt
  Fits-head x (y ∷ ys) h = h.0

  Falling-tail : (x : Scored F) (ys : List (Scored F)) → Falling (x ∷ ys) → Falling ys
  Falling-tail x [] h = tt
  Falling-tail x (y ∷ ys) h = h.1

  insert-Fits :
      (z x : Scored F) (ys : List (Scored F))
      → F.less z.score x.score ≡ false
      → Fits z ys
      → Fits z (insert_scored x ys)
  unfolding insert_scored
  insert-Fits z x [] h f = h
  insert-Fits z x (y ∷ ys) h f = elim (Bool-cases (F.less x.score y.score)) [
    | inl less ↦ rw less f
    | inr more ↦ rw more h
  ]

  insert-Falling :
      (x : Scored F) (ys : List (Scored F))
      → IsAsymmetric F
      → Falling ys
      → Falling (insert_scored x ys)
  unfolding insert_scored
  insert-Falling x [] asym h = tt
  insert-Falling x (y ∷ ys) asym h = elim (Bool-cases (F.less x.score y.score)) [
    | inl less ↦ rw less (
        Falling-cons y (insert_scored x ys)
          (insert-Fits y x ys (asym x.score y.score less) (Fits-head y ys h))
          (insert-Falling x ys asym (Falling-tail y ys h)))
    | inr more ↦ rw more (more, h)
  ]

  sort-Falling : (xs : List (Scored F)) → IsAsymmetric F → Falling (sort_scored xs)
  unfolding sort_scored
  sort-Falling [] asym = tt
  sort-Falling (x ∷ xs) asym = insert-Falling x (sort_scored xs) asym (sort-Falling xs asym)

  pub insert-All :
      (P : Scored F → Type 0) (x : Scored F) (ys : List (Scored F))
      → P x
      → All P ys
      → All P (insert_scored x ys)
  unfolding insert_scored
  insert-All P x [] p h = (p, tt)
  insert-All P x (y ∷ ys) p h = elim (Bool-cases (F.less x.score y.score)) [
    | inl less ↦ rw less (h.0, insert-All P x ys p h.1)
    | inr more ↦ rw more (p, h)
  ]

  pub sort-All : (P : Scored F → Type 0) (xs : List (Scored F)) → All P xs → All P (sort_scored xs)
  unfolding sort_scored
  sort-All P [] h = tt
  sort-All P (x ∷ xs) h = insert-All P x (sort_scored xs) h.0 (sort-All P xs h.1)

  -- The entry of the cache that a candidate stands for, which is no pinned node and has at least the
  -- least similarity.
  abbrev pub Origin :
      Config F → List F.Float → List String → List (String × EmbeddingMeta F) → Scored F → Type 0
  Origin c query seen cache x =
      (meta : EmbeddingMeta F) × (Assoc.lookup x.id cache ≡ some meta)
      × (is_seen x.id seen ≡ false)
      × (F.less (cosine_similarity F query meta.embedding) c.min_similarity ≡ false)
      × (x ≡ scored_of c query x.id meta)

  Origin-cons :
      (c : Config F) (query : List F.Float) (seen : List String) (id : String)
      (meta : EmbeddingMeta F) (cache : List (String × EmbeddingMeta F)) (xs : List (Scored F))
      → Assoc.lookup id cache ≡ none
      → All (Origin c query seen cache) xs
      → All (Origin c query seen ((id, meta) ∷ cache)) xs
  unfolding Assoc.lookup
  Origin-cons c query seen id meta cache [] new h = tt
  Origin-cons c query seen id meta cache (x ∷ xs) new ((m, found, unseen, near, same), h) = (
    (m, ground (arith, new, found, string_eq.beq_iff id x.id), unseen, near, same),
    Origin-cons c query seen id meta cache xs new h,
  )

  candidates-Origin :
      (c : Config F) (query : List F.Float) (seen : List String)
      (cache : List (String × EmbeddingMeta F))
      → Distinct cache
      → All (Origin c query seen cache) (candidates c query seen cache)
  unfolding candidates Assoc.lookup
  candidates-Origin c query seen [] d = tt
  candidates-Origin c query seen ((id, meta) ∷ cache) d =
      let rest =
        Origin-cons c query seen id meta cache (candidates c query seen cache) d.0
          (candidates-Origin c query seen cache d.1) in
      elim (Bool-cases (passes c query seen id meta)) [
        | inl kept ↦ rw kept (
          (
            meta,
            ground (arith, string_eq.beq_iff id id),
            ground (arith, kept),
            ground (arith, kept),
            refl,
          ),
          rest,
        )
        | inr dropped ↦ rw dropped rest
      ]

  insert-Perm : (x : Scored F) (ys : List (Scored F)) → Perm (insert_scored x ys) (x ∷ ys)
  unfolding insert_scored
  insert-Perm x [] = Perm.refl (x ∷ [])
  insert-Perm x (y ∷ ys) = elim (Bool-cases (F.less x.score y.score)) [
    | inl less ↦ rw less (Perm.trans (Perm.cons y (insert-Perm x ys)) (Perm.swap x y ys))
    | inr more ↦ rw more (Perm.refl (x ∷ y ∷ ys))
  ]

  sort-Perm : (xs : List (Scored F)) → Perm (sort_scored xs) xs
  unfolding sort_scored
  sort-Perm [] = Perm.refl []
  sort-Perm (x ∷ xs) = Perm.trans (insert-Perm x (sort_scored xs)) (Perm.cons x (sort-Perm xs))

  -- Where no order of two numbers holds both ways, and the keys of the cache are distinct, the ranked
  -- candidates are those that the loop found, by falling score, and each stands for an entry of the
  -- cache that is not pinned and not below the least similarity, with the score of that entry.
  pub ranked-Falling :
      (c : Config F) (query : List F.Float) (seen : List String)
      (cache : List (String × EmbeddingMeta F))
      → IsAsymmetric F
      → Distinct cache
      → Perm (sort_scored (candidates c query seen cache)) (candidates c query seen cache)
        × Falling (sort_scored (candidates c query seen cache))
        × All (Origin c query seen cache) (sort_scored (candidates c query seen cache))
  ranked-Falling c query seen cache asym d =
      let xs = candidates c query seen cache in
      (
        sort-Perm xs,
        sort-Falling xs asym,
        sort-All (Origin c query seen cache) xs (candidates-Origin c query seen cache d),
      )
