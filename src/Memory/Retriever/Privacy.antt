-- ===== src/Memory/Retriever/Privacy.antt =====
-- Who sees what is retrieved.
use mathlib.Core.Path.{subst}
use cogitator.Base.{
  ℕ, ◌+◌, ltb, ◌≡◌, refl, sym, ap, inl, inr, Bool, true, false, ◌&&◌, ◌||◌, List, [], ◌∷◌, Option,
  none, some, arith, Bool-cases, Option-cases, String, All, All-append, All-weaken, filterb, map,
}
use cogitator.Base.Assoc
use cogitator.Base.Eqs.{string_eq}
use cogitator.Memory.Nodes.{
  Floats, Node, Edge, Store, EmbeddingMeta, sees, get_node, rows_of, get_pinned_nodes, sees_target,
  get_edges_from, update_node, adjust_confidence,
}
use cogitator.Memory.Retriever.{
  Config, RetrievedNode, NodeSummary, loaded, load_nodes, summary_of, follow, connect,
  retrieve_vector, is_seen, candidates, sort_scored, fill, Scored, passes,
  estimate_tokens_from_length,
}
use cogitator.Memory.Retriever.Ranking.{sort-All}

module _ {F : Floats} where
  -- The user may see the node of this id, if there is one.
  abbrev pub Visible : Store F → String → String → Type 0
  Visible s user id = (n : Node F) → get_node s id ≡ some n → sees user n ≡ true

  -- The summary is that of a node of the store that the user may see.
  abbrev pub Shown : Store F → String → NodeSummary → Type 0
  Shown s user m =
      (id : String) × (n : Node F) × (get_node s id ≡ some n)
      × (m ≡ summary_of n)
      × (sees user n ≡ true)

  abbrev pub Seen : String → RetrievedNode F → Type 0
  Seen user r = sees user r.node ≡ true

  filtered-Seen :
      (read : String → Option String) (user : String) (rows : List (Node F))
      → All (Seen user) (map (loaded read) (filterb (λ n. n.pinned && sees user n) rows))
  filtered-Seen read user [] = tt
  filtered-Seen read user (n ∷ rows) = elim (Bool-cases (n.pinned && sees user n)) [
    | inl kept ↦ rw kept (ground (arith, kept), filtered-Seen read user rows)
    | inr dropped ↦ rw dropped (filtered-Seen read user rows)
  ]

  -- A change of the confidence changes nothing that `sees` reads.
  adjust-Visible :
      (s : Store F) (id user other : String) (delta bound : F.Float)
      → Visible s user other
      → Visible (adjust_confidence s id delta bound) user other
  unfolding adjust_confidence update_node get_node
  adjust-Visible s id user other delta bound v n found =
      elim (Option-cases (Assoc.lookup id s.nodes)) [
        | inl missing ↦ v n (ground (arith, missing, found))
        | inr (m, there) ↦ ground (
          arith,
          there,
          found,
          v m,
          v n,
          string_eq.beq_iff id other,
          Assoc.lookup-insert id other
              (record m { confidence = F.smaller (F.plus m.confidence delta) bound }) s.nodes,
        )
      ]

  pub load_nodes_missing :
      (c : Config F) (read : String → Option String) (s : Store F) (id : String) (ids : List String)
      → get_node s id ≡ none
      → load_nodes c read s (id ∷ ids) ≡ load_nodes c read s ids
  unfolding load_nodes
  load_nodes_missing c read s id ids missing = rw (missing, load_nodes) refl

  pub load_nodes_there :
      (c : Config F) (read : String → Option String) (s : Store F) (id : String) (ids : List String)
      (n : Node F)
      → get_node s id ≡ some n
      → (load_nodes c read s (id ∷ ids)).1
        ≡ loaded read n
          ∷ (load_nodes c read (adjust_confidence s id c.confidence_gain c.confidence_bound) ids).1
  unfolding load_nodes
  load_nodes_there c read s id ids n there = rw (there, load_nodes) refl

  load_nodes-Seen :
      (c : Config F) (read : String → Option String) (s : Store F) (user : String)
      (ids : List String)
      → All (Visible s user) ids
      → All (Seen user) (load_nodes c read s ids).1
  unfolding load_nodes
  load_nodes-Seen c read s user [] h = tt
  load_nodes-Seen c read s user (id ∷ ids) h =
      let s' = adjust_confidence s id c.confidence_gain c.confidence_bound in
      elim (Option-cases (get_node s id)) [
        | inl missing ↦
            subst (All (Seen user))
              (ap (λ r. r.1) (sym (load_nodes_missing c read s id ids missing)))
              (load_nodes-Seen c read s user ids h.1)
        | inr (n, there) ↦
            subst (All (Seen user)) (sym (load_nodes_there c read s id ids n there)) (
              h.0 n there,
              load_nodes-Seen c read s' user ids (
                  All-weaken (Visible s user) (Visible s' user) ids
                    (λ other. adjust-Visible s id user other c.confidence_gain c.confidence_bound)
                    h.1),
            )
      ]

  follow-Shown :
      (c : Config F) (s : Store F) (user : String) (edges : List (Edge F)) (seen : List String)
      → All (λ e. sees_target s user e ≡ true) edges
      → All (Shown s user) (follow c s edges seen).0
  unfolding follow
  follow-Shown c s user [] seen h = tt
  follow-Shown c s user (e ∷ edges) seen h =
      elim (Bool-cases (F.less e.weight c.edge_min_weight || is_seen e.target_id seen)) [
        | inl skipped ↦ rw skipped (follow-Shown c s user edges seen h.1)
        | inr fresh ↦
            let rest = follow-Shown c s user edges (e.target_id ∷ seen) h.1 in
            rw fresh (elim (Option-cases (get_node s e.target_id)) [
              | inl missing ↦ rw missing rest
              | inr (n, there) ↦ rw there ((e.target_id, n, there, refl, shows e n there h.0), rest)
            ])
      ]
    where
      shows :
          (e : Edge F) (n : Node F)
          → get_node s e.target_id ≡ some n
          → sees_target s user e ≡ true
          → sees user n ≡ true
      shows e n there seen = ground (arith, there, seen)

  edges-sees_target :
      (s : Store F) (id user : String) (edges : List (Edge F))
      → All
          (λ e. sees_target s user e ≡ true)
          (filterb (λ e. string_eq.beq e.source_id id && sees_target s user e) edges)
  edges-sees_target s id user [] = tt
  edges-sees_target s id user (e ∷ edges) =
      elim (Bool-cases (string_eq.beq e.source_id id && sees_target s user e)) [
        | inl kept ↦ rw kept (ground (arith, kept), edges-sees_target s id user edges)
        | inr dropped ↦ rw dropped (edges-sees_target s id user edges)
      ]

  pub connect-Shown :
      (c : Config F) (s : Store F) (user : String) (ids seen : List String)
      → All (Shown s user) (connect c s user ids seen)
  unfolding connect get_edges_from
  connect-Shown c s user [] seen = tt
  connect-Shown c s user (id ∷ ids) seen =
      let (found, seen') = follow c s (get_edges_from s id user) seen in
      All-append (Shown s user) found (connect c s user ids seen')
        (follow-Shown c s user (get_edges_from s id user) seen
          (edges-sees_target s id user s.edges))
        (connect-Shown c s user ids seen')

  Origins-Visible :
      (c : Config F) (query : List F.Float) (s : Store F) (user : String) (seen : List String)
      (cache : List (String × EmbeddingMeta F))
      → All (λ p. Visible s user p.0) cache
      → All (λ x. Visible s user x.id) (candidates c query seen cache)
  unfolding candidates
  Origins-Visible c query s user seen [] h = tt
  Origins-Visible c query s user seen ((id, meta) ∷ cache) h =
      let rest = Origins-Visible c query s user seen cache h.1 in
      elim (Bool-cases (passes c query seen id meta)) [
        | inl kept ↦ rw kept (h.0, rest)
        | inr dropped ↦ rw dropped rest
      ]

  fill-All :
      (P : Scored F → Type 0) (budget used : ℕ) (started : Bool) (cs : List (Scored F))
      → All P cs
      → All P (fill budget used started cs).0
  unfolding fill
  fill-All P budget used started [] h = tt
  fill-All P budget used started (x ∷ cs) h =
      let used' = used + estimate_tokens_from_length x.content_length in
      elim (Bool-cases (ltb budget used' && started)) [
        | inl over ↦ rw over tt
        | inr under ↦ rw under (h.0, fill-All P budget used' true cs h.1)
      ]

  ids-All :
      (P : String → Type 0) (xs : List (Scored F))
      → All (λ x. P x.id) xs
      → All P (map (λ x. x.id) xs)
  ids-All P [] h = tt
  ids-All P (x ∷ xs) h = (h.0, ids-All P xs h.1)

  -- Where the cache names only nodes that the user may see, everything that is retrieved is visible
  -- to the user: the pinned nodes, the selected ones, and those that the edges lead to.
  pub retrieve_vector-Visible :
      (c : Config F) (read : String → Option String) (s : Store F) (user : String)
      (query : List F.Float) (cache : List (String × EmbeddingMeta F))
      → All (λ p. Visible s user p.0) cache
      → let r = retrieve_vector c read s user query cache in
        All (Seen user) r.1.pinned × All (Seen user) r.1.nodes × All (Shown r.0 user) r.1.connected
  unfolding retrieve_vector get_pinned_nodes
  retrieve_vector-Visible c read s user query cache h =
      let pinned = map (loaded read) (get_pinned_nodes s user) in
      let seen = map (λ r. r.node.id) pinned in
      let ranked = sort_scored (candidates c query seen cache) in
      let selected = (fill c.token_budget 0 false ranked).0 in
      let chosen = ids-All (Visible s user) selected (
        fill-All (λ x. Visible s user x.id) c.token_budget 0 false ranked
          (sort-All (λ x. Visible s user x.id) (candidates c query seen cache)
            (Origins-Visible c query s user seen cache h))) in
      (
        filtered-Seen read user (rows_of s.nodes),
        load_nodes-Seen c read s user (map (λ x. x.id) selected) chosen,
        connect-Shown c _ user _ _,
      )
