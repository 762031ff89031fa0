-- ===== src/Memory/Retriever/Cache.antt =====
-- server/internal/memory/retriever.go: the cache of the embeddings, by user, which `Retrieve` fills
-- under the lock and `InvalidateCache` empties. Its query of the store is `get_embeddings_with_meta`;
-- that it may fail is the argument `works`. A request also raises the confidence of the nodes that
-- it selects, without an invalidation: the cache then holds the confidence of before.
use cogitator.Base.{
  ℕ, map, ◌⊎◌, ◌≡◌, ◌≢◌, refl, sym, ap, ◌∙◌, inl, inr, Bool, true, false, not, ◌&&◌, ◌||◌, List, [],
  ◌∷◌, Option, none, some, ◌==◌, length, anyb, allb, All, if◌then◌else◌, arith, Bool-cases, String,
}
use cogitator.Base.Assoc
use cogitator.Base.Eqs.{string_eq}
use cogitator.Memory.Nodes.{
  Floats, NodeType, same_type, Node, Store, EmbeddingMeta, get_node, join, meta_of, sees, is_wanted,
  embeddings_with_meta, get_embeddings_with_meta, update_node, adjust_confidence,
}
use cogitator.Memory.Retriever.{Config, RetrievedNode, loaded, load_nodes}

-- The second slice has as many types as the first, and each of its types is in the first.
abbrev pub types_match : List NodeType → List NodeType → Bool
types_match a b = length a == length b && allb (λ t. anyb (same_type t) a) b

abbrev pub cache_key : String → String
cache_key user = if string_eq.beq user "" then "_all" else user

-- A map that is nil and one without entries are the same here.
pub record MetaCache (F : Floats) : Type 0 where
  pub by_user : List (String × List (String × EmbeddingMeta F))
  pub cached_types : List NodeType
  pub dirty : Bool

abbrev pub Entries : Floats → Type 0
Entries F = List (String × EmbeddingMeta F)

cache_key-injective : (a b : String) → a ≢ "_all" → b ≢ "_all" → cache_key a ≡ cache_key b → a ≡ b
cache_key-injective a b na nb h = elim (Bool-cases (string_eq.beq a "")) [
  | inl ea ↦ elim (Bool-cases (string_eq.beq b "")) [
    | inl eb ↦ (string_eq.beq_iff a "").0 ea ∙ sym ((string_eq.beq_iff b "").0 eb)
    | inr nb' ↦ absurd (nb (ground (arith, h, ea, nb')))
  ]
  | inr na' ↦ elim (Bool-cases (string_eq.beq b "")) [
    | inl eb ↦ absurd (na (ground (arith, h, eb, na')))
    | inr nb' ↦ ground (arith, h, na', nb')
  ]
]

-- What happens to a retriever: the store is changed and the cache invalidated, or a user asks and
-- the nodes of these ids are selected.
pub data Event (F : Floats) : Type 0 where
  changes : Store F → Event F
  asks : String → List String → Event F

some_inj {ℓ} : {A : Type ℓ} {a b : A} → some a ≡ some b → a ≡ b
some_inj h = cc

module _ {F : Floats} where
  abbrev pub invalidate : MetaCache F → MetaCache F
  invalidate m = record { by_user = []; cached_types = []; dirty = true }

  abbrev is_missing : Option (Entries F) → Bool
  is_missing none = true
  is_missing (some c) = false

  abbrev pub store_entries : MetaCache F → String → List NodeType → Entries F → MetaCache F
  store_entries m user types entries = record m {
    by_user = Assoc.insert (cache_key user) entries m.by_user;
    cached_types = types;
    dirty = false;
  }

  -- The locked part of `retrieveVector`: the cache afterwards and the entries that are read, or none.
  unfoldable pub refresh :
      MetaCache F → Store F → String → List NodeType → Bool → MetaCache F × Option (Entries F)
  refresh m s user types works =
      let entries = get_embeddings_with_meta s user types in
      if m.dirty
        || (is_missing (Assoc.lookup (cache_key user) m.by_user)
            || not (types_match m.cached_types types))
      then (if works then (store_entries m user types entries, some entries) else (m, none))
      else (m, Assoc.lookup (cache_key user) m.by_user)

  -- An entry but for its confidence.
  abbrev pub bare : Entries F → List (String × NodeType × ℕ × List F.Float)
  bare [] = []
  bare ((id, e) ∷ entries) = (id, e.kind, e.content_length, e.embedding) ∷ bare entries

  abbrev pub bare_answer : Option (Entries F) → Option (List (String × NodeType × ℕ × List F.Float))
  bare_answer none = none
  bare_answer (some entries) = some (bare entries)

  -- Each entry is what the store would answer, but for the confidence. The user "_all" shares its key with the empty user.
  abbrev pub Coherent : Store F → List NodeType → MetaCache F → Type 0
  Coherent s types m =
      (user : String) (entries : Entries F)
      → user ≢ "_all"
      → Assoc.lookup (cache_key user) m.by_user ≡ some entries
      → bare entries ≡ bare (get_embeddings_with_meta s user types)

  stored-Coherent :
      (m : MetaCache F) (s : Store F) (user : String) (types : List NodeType)
      → user ≢ "_all"
      → Coherent s types m
      → Coherent s types (store_entries m user types (get_embeddings_with_meta s user types))
  stored-Coherent m s user types real co other entries real' found =
      let stored = get_embeddings_with_meta s user types in
      elim (Bool-cases (string_eq.beq (cache_key user) (cache_key other))) [
        | inl same ↦
            let one : user ≡ other =
              cache_key-injective user other real real' ((string_eq.beq_iff _ _).0 same) in
            ap bare (
              some_inj (
                sym found
                ∙ Assoc.lookup-insert (cache_key user) (cache_key other) stored m.by_user
                ∙ ap (λ b. if b then some stored else Assoc.lookup (cache_key other) m.by_user)
                    same))
            ∙ ap (λ u. bare (get_embeddings_with_meta s u types)) one
        | inr different ↦ co other entries real' (
            sym (
              Assoc.lookup-insert (cache_key user) (cache_key other) stored m.by_user
              ∙ ap (λ b. if b then some stored else Assoc.lookup (cache_key other) m.by_user)
                  different)
            ∙ found)
      ]

  held :
      (o : Option (Entries F)) (fresh : Entries F)
      → is_missing o ≡ false
      → ((entries : Entries F) → o ≡ some entries → bare entries ≡ bare fresh)
      → bare_answer o ≡ bare_answer (some fresh)
  held none fresh h f = absurd cc
  held (some c) fresh h f = ap some (f c refl)

  refresh-Coherent :
      (m : MetaCache F) (s : Store F) (user : String) (types : List NodeType)
      → user ≢ "_all"
      → Coherent s types m
      → Coherent s types (refresh m s user types true).0
        × (bare_answer (refresh m s user types true).1
            ≡ bare_answer (some (get_embeddings_with_meta s user types)))
  unfolding refresh
  refresh-Coherent m s user types real co =
      let found = Assoc.lookup (cache_key user) m.by_user in
      elim (Bool-cases (m.dirty || (is_missing found || not (types_match m.cached_types types)))) [
        | inl stale ↦ rw stale (stored-Coherent m s user types real co, refl)
        | inr hit ↦ rw hit (
          co,
          held found (get_embeddings_with_meta s user types) (ground (arith, hit))
              (λ entries. co user entries real),
        )
      ]

  -- A raised confidence leaves a row as it was, or with another confidence.
  Raised : Option (Node F) → Option (Node F) → Type 0
  Raised o o' =
      (o' ≡ o)
      ⊎ ((n : Node F) × (x : F.Float) × (o ≡ some n) × (o' ≡ some (record n { confidence = x })))

  get_node-Raised :
      (s : Store F) (id key : String) (delta bound : F.Float)
      → Raised (get_node s key) (get_node (adjust_confidence s id delta bound) key)
  unfolding Raised get_node adjust_confidence update_node
  get_node-Raised s id key delta bound = row (Assoc.lookup id s.nodes) refl
    where
      row :
          (o : Option (Node F))
          → Assoc.lookup id s.nodes ≡ o
          → Raised (Assoc.lookup key s.nodes) (
              Assoc.lookup key
                (elim o as (λ x. Store F) [
                  | none ↦ s
                  | some n ↦ record s {
                    nodes =
                        Assoc.insert id
                          (record n { confidence = F.smaller (F.plus n.confidence delta) bound })
                          s.nodes;
                  }
                ]).nodes)
      row none h = inl refl
      row (some n) h =
          let x = F.smaller (F.plus n.confidence delta) bound in
          let raised = record n { confidence = x } in
          let found = Assoc.lookup-insert id key raised s.nodes in
          elim (Bool-cases (string_eq.beq id key)) [
            | inl same ↦ inr (
              n,
              x,
              ap (λ k. Assoc.lookup k s.nodes) (sym ((string_eq.beq_iff id key).0 same)) ∙ h,
              found ∙ ap (λ b. if b then some raised else Assoc.lookup key s.nodes) same,
            )
            | inr other ↦
                inl (found ∙ ap (λ b. if b then some raised else Assoc.lookup key s.nodes) other)
          ]

  entry-bare :
      (b : Bool) (id : String) (e : EmbeddingMeta F) (x : F.Float) (rest rest' : Entries F)
      → bare rest' ≡ bare rest
      → bare (if b then (id, record e { confidence = x }) ∷ rest' else rest')
        ≡ bare (if b then (id, e) ∷ rest else rest)
  entry-bare true id e x rest rest' h = ap (λ r. (id, e.kind, e.content_length, e.embedding) ∷ r) h
  entry-bare false id e x rest rest' h = h

  join-bare :
      (user : String) (types : List NodeType) (id : String) (v : List F.Float)
      (o o' : Option (Node F)) (rest rest' : Entries F)
      → Raised o o'
      → bare rest' ≡ bare rest
      → bare (join user types id v o' rest') ≡ bare (join user types id v o rest)
  unfolding Raised
  join-bare user types id v o o' rest rest' (inl same) h = rw same (joined o)
    where
      joined :
          (o : Option (Node F))
          → bare (join user types id v o rest') ≡ bare (join user types id v o rest)
      joined none = h
      joined (some n) =
          entry-bare (sees user n && is_wanted types n.kind) id (meta_of n v) n.confidence rest
            rest' h
  join-bare user types id v o o' rest rest' (inr (n, x, e, e')) h =
      rw (e, e')
        (entry-bare (sees user n && is_wanted types n.kind) id (meta_of n v) x rest rest' h)

  adjusted-bare :
      (s : Store F) (id : String) (delta bound : F.Float) (user : String) (types : List NodeType)
      (rows : List (String × List F.Float))
      → bare (embeddings_with_meta (adjust_confidence s id delta bound) user types rows)
        ≡ bare (embeddings_with_meta s user types rows)
  unfolding embeddings_with_meta
  adjusted-bare s id delta bound user types [] = refl
  adjusted-bare s id delta bound user types ((key, v) ∷ rows) =
      join-bare user types key v (get_node s key)
        (get_node (adjust_confidence s id delta bound) key) _ _
        (get_node-Raised s id key delta bound) (adjusted-bare s id delta bound user types rows)

  adjusted-embeddings :
      (s : Store F) (id : String) (delta bound : F.Float)
      → (adjust_confidence s id delta bound).embeddings ≡ s.embeddings
  unfolding adjust_confidence update_node
  adjusted-embeddings s id delta bound =
      elim (Assoc.lookup id s.nodes)
        as (λ o.
          (elim o as (λ x. Store F) [
            | none ↦ s
            | some n ↦ record s {
              nodes =
                  Assoc.insert id
                    (record n { confidence = F.smaller (F.plus n.confidence delta) bound }) s.nodes;
            }
          ]).embeddings
          ≡ s.embeddings) [ none ↦ refl | some n ↦ refl ]

  get_embeddings-bare :
      (s : Store F) (id : String) (delta bound : F.Float) (user : String) (types : List NodeType)
      → bare (get_embeddings_with_meta (adjust_confidence s id delta bound) user types)
        ≡ bare (get_embeddings_with_meta s user types)
  unfolding get_embeddings_with_meta
  get_embeddings-bare s id delta bound user types =
      ap (λ rows. bare (embeddings_with_meta (adjust_confidence s id delta bound) user types rows))
        (adjusted-embeddings s id delta bound)
      ∙ adjusted-bare s id delta bound user types s.embeddings

  load_nodes-bare :
      (c : Config F) (read : String → Option String) (s : Store F) (ids : List String)
      (user : String) (types : List NodeType)
      → bare (get_embeddings_with_meta (load_nodes c read s ids).0 user types)
        ≡ bare (get_embeddings_with_meta s user types)
  unfolding load_nodes
  load_nodes-bare c read s [] user types = refl
  load_nodes-bare c read s (id ∷ ids) user types =
      let s' = adjust_confidence s id c.confidence_gain c.confidence_bound in
      at (get_node s id) (load_nodes-bare c read s ids user types) (
        load_nodes-bare c read s' ids user types
        ∙ get_embeddings-bare s id c.confidence_gain c.confidence_bound user types)
    where
      Same : Store F → Type 0
      Same t =
          bare (get_embeddings_with_meta t user types)
          ≡ bare (get_embeddings_with_meta s user types)

      at :
          (o : Option (Node F))
          → Same (load_nodes c read s ids).0
          → Same
              (load_nodes c read
                (adjust_confidence s id c.confidence_gain c.confidence_bound)
                ids).0
          → Same
              (elim o as (λ x. Store F × List (RetrievedNode F)) [
                | none ↦ load_nodes c read s ids
                | some n ↦
                    let (s', nodes) =
                      load_nodes c read
                        (adjust_confidence s id c.confidence_gain c.confidence_bound)
                        ids in
                    (s', loaded read n ∷ nodes)
              ]).0
      at none without found = without
      at (some n) without found = found

  load_nodes-Coherent :
      (c : Config F) (read : String → Option String) (s : Store F) (ids : List String)
      (types : List NodeType) (m : MetaCache F)
      → Coherent s types m
      → Coherent (load_nodes c read s ids).0 types m
  load_nodes-Coherent c read s ids types m co user entries real found =
      co user entries real found ∙ sym (load_nodes-bare c read s ids user types)

  -- What each request reads, with the cache. A request then raises the confidence of what it selects.
  unfoldable pub answers :
      Config F
      → (String → Option String)
      → MetaCache F
      → Store F
      → List NodeType
      → List (Event F)
      → List (Option (Entries F))
  answers c read m s types [] = []
  answers c read m s types (changes s' ∷ events) = answers c read (invalidate m) s' types events
  answers c read m s types (asks user ids ∷ events) =
      let (m', entries) = refresh m s user types true in
      entries ∷ answers c read m' (load_nodes c read s ids).0 types events

  unfoldable pub uncached :
      Config F
      → (String → Option String)
      → Store F
      → List NodeType
      → List (Event F)
      → List (Option (Entries F))
  uncached c read s types [] = []
  uncached c read s types (changes s' ∷ events) = uncached c read s' types events
  uncached c read s types (asks user ids ∷ events) =
      some (get_embeddings_with_meta s user types)
      ∷ uncached c read (load_nodes c read s ids).0 types events

  abbrev pub IsReal : Event F → Type 0
  IsReal (changes s) = Unit
  IsReal (asks user ids) = user ≢ "_all"

  invalidate-Coherent :
      (m : MetaCache F) (s : Store F) (types : List NodeType) → Coherent s types (invalidate m)
  unfolding Assoc.lookup
  invalidate-Coherent m s types user entries real found = absurd cc

  -- Where each change of the store but the raised confidence is followed by an invalidation, no user
  -- is called "_all", and the queries work, a retriever whose cache is coherent reads for each user
  -- the entries that the store would answer without a cache, all but their confidence, in every
  -- sequence of changes and requests of any users, whatever nodes the requests select and raise.
  pub answers-uncached :
      (c : Config F) (read : String → Option String) (m : MetaCache F) (s : Store F)
      (types : List NodeType) (events : List (Event F))
      → Coherent s types m
      → All IsReal events
      → map bare_answer (answers c read m s types events)
        ≡ map bare_answer (uncached c read s types events)
  unfolding answers uncached
  answers-uncached c read m s types [] co real = refl
  answers-uncached c read m s types (changes s' ∷ events) co real =
      answers-uncached c read (invalidate m) s' types events (invalidate-Coherent m s' types) real.1
  answers-uncached c read m s types (asks user ids ∷ events) co real =
      let (co', same) = refresh-Coherent m s user types real.0 co in
      let m' = (refresh m s user types true).0 in
      let rest =
        answers-uncached c read m' (load_nodes c read s ids).0 types events
          (load_nodes-Coherent c read s ids types m' co') real.1 in
      cc (same, rest)
