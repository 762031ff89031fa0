-- ===== src/Memory/Retriever/Listed.antt =====
-- The cache that is read for a user, and what retrieval makes of it.
use cogitator.Base.{
  ◌≡◌, refl, inl, inr, true, ◌&&◌, List, [], ◌∷◌, Option, none, some, arith, Bool-cases, String,
  All,
}
use cogitator.Base.Eqs.{string_eq}
use cogitator.Memory.Nodes.{
  Floats, Node, Store, NodeType, EmbeddingMeta, sees, get_node, join, or_zero, is_wanted,
  embeddings_with_meta, get_embeddings_with_meta,
}
use cogitator.Memory.Retriever.{Config, retrieve_vector}
use cogitator.Memory.Retriever.Privacy.{Visible, Shown, Seen, retrieve_vector-Visible}

module _ {F : Floats} where
  -- The node of a cached id is one that the user may see, of a wanted type.
  abbrev pub Listed : Store F → String → List NodeType → String × EmbeddingMeta F → Type 0
  Listed s user types (id, meta) =
      (n : Node F) × (get_node s id ≡ some n)
      × (sees user n ≡ true)
      × (is_wanted types n.kind ≡ true)
      × (meta.content_length ≡ or_zero n.content_length)

  join-Listed :
      (s : Store F) (user : String) (types : List NodeType) (id : String) (v : List F.Float)
      (o : Option (Node F)) (rest : List (String × EmbeddingMeta F))
      → get_node s id ≡ o
      → All (Listed s user types) rest
      → All (Listed s user types) (join user types id v o rest)
  join-Listed s user types id v none rest at h = h
  join-Listed s user types id v (some n) rest at h =
      elim (Bool-cases (sees user n && is_wanted types n.kind)) [
        | inl kept ↦ rw kept ((n, at, ground (arith, kept), ground (arith, kept), refl), h)
        | inr dropped ↦ rw dropped h
      ]

  rows-Listed :
      (s : Store F) (user : String) (types : List NodeType) (rows : List (String × List F.Float))
      → All (Listed s user types) (embeddings_with_meta s user types rows)
  unfolding embeddings_with_meta
  rows-Listed s user types [] = tt
  rows-Listed s user types ((id, v) ∷ rows) =
      join-Listed s user types id v (get_node s id) (embeddings_with_meta s user types rows) refl
        (rows-Listed s user types rows)

  Listed-Visible :
      (s : Store F) (user : String) (types : List NodeType)
      (cache : List (String × EmbeddingMeta F))
      → All (Listed s user types) cache
      → All (λ p. Visible s user p.0) cache
  Listed-Visible s user types [] h = tt
  Listed-Visible s user types ((id, meta) ∷ cache) ((n, at, seen, wanted, size), h) =
      ((λ m there. ground (arith, at, there, seen)), Listed-Visible s user types cache h)

  -- The cache that is read for a user names only nodes of the store that the user may see and that
  -- have a wanted type, with their sizes, and retrieval from it is visible to the user throughout.
  pub get_embeddings_with_meta-Listed :
      (c : Config F) (read : String → Option String) (s : Store F) (user : String)
      (query : List F.Float) (types : List NodeType)
      → let cache = get_embeddings_with_meta s user types in
        let r = retrieve_vector c read s user query cache in
        All (Listed s user types) cache
        × All (Seen user) r.1.pinned
        × All (Seen user) r.1.nodes
        × All (Shown r.0 user) r.1.connected
  unfolding get_embeddings_with_meta
  get_embeddings_with_meta-Listed c read s user query types =
      let cache = embeddings_with_meta s user types s.embeddings in
      let listed = rows-Listed s user types s.embeddings in
      let (pinned, nodes, connected) =
        retrieve_vector-Visible c read s user query cache
          (Listed-Visible s user types cache listed) in
      (listed, pinned, nodes, connected)
