-- ===== src/Memory/Retriever.antt =====
-- server/internal/memory/retriever.go and tokens.go: retrieval by similarity. The embedding of the
-- query, the similarity of its vectors and the content files are parameters. The cache of the user is
-- an argument, in the order in which the runtime visits its keys. Traces and statistics, which only
-- report, are left out, and so is the access time that `TouchAccess` writes.
pub mod Fill
pub mod Ranking
pub mod Privacy
pub mod Listed
pub mod Cache
pub mod Classifier
use cogitator.Base.{
  ℕ, ◌+◌, ◌/◌, ◌≡◌, refl, Bool, true, false, not, ◌&&◌, ◌||◌, List, [], ◌∷◌, ◌++◌, Option, none,
  some, length, anyb, filterb, map, ltb, if◌then◌else◌, String, arith, take,
}
use cogitator.Base.Eqs.{string_eq}
use cogitator.Base.Assoc
use cogitator.Memory.Nodes.{
  cosine_similarity, Floats, NodeType, fact, preference, Node, Edge, Store, EmbeddingMeta, get_node,
  get_pinned_nodes, get_edges_from, adjust_confidence,
}

pub record Config (F : Floats) : Type 0 where
  pub token_budget : ℕ
  pub min_similarity : F.Float
  pub type_boost : F.Float
  pub edge_min_weight : F.Float
  pub top_k : ℕ
  -- The constants 0.02 and 0.95.
  pub confidence_gain : F.Float
  pub confidence_bound : F.Float

pub record RetrievedNode (F : Floats) : Type 0 where
  pub node : Node F
  pub content : String

pub record NodeSummary : Type 0 where
  pub id : String
  pub kind : NodeType
  pub title : String
  pub summary : String

pub record RetrievedContext (F : Floats) : Type 0 where
  pub pinned : List (RetrievedNode F)
  pub nodes : List (RetrievedNode F)
  pub connected : List NodeSummary

pub record Scored (F : Floats) : Type 0 where
  pub id : String
  pub score : F.Float
  pub content_length : ℕ

abbrev pub header_token_overhead : ℕ
header_token_overhead = 30

-- The clamp of negative lengths has nothing to do: a length is a natural number.
abbrev pub estimate_tokens_from_length : ℕ → ℕ
estimate_tokens_from_length n = n / 4 + header_token_overhead

abbrev pub is_seen : String → List String → Bool
is_seen id seen = anyb (string_eq.beq id) seen

abbrev pub boosted : NodeType → Bool
boosted preference = true
boosted fact = true
boosted k = false

abbrev pub load_content : (String → Option String) → String → String
load_content read path =
    if string_eq.beq path "" then "" else elim (read path) [ none ↦ "" | some text ↦ text ]

module _ {F : Floats} where
  abbrev pub scored_of : Config F → List F.Float → String → EmbeddingMeta F → Scored F
  scored_of c query id meta =
      let score = F.times (cosine_similarity F query meta.embedding) meta.confidence in
      record {
        id = id;
        score = if boosted meta.kind then F.times score c.type_boost else score;
        content_length = meta.content_length;
      }

  abbrev pub passes : Config F → List F.Float → List String → String → EmbeddingMeta F → Bool
  passes c query seen id meta =
      not (is_seen id seen)
      && not (F.less (cosine_similarity F query meta.embedding) c.min_similarity)

  -- The loop over the cache.
  unfoldable pub candidates :
      Config F → List F.Float → List String → List (String × EmbeddingMeta F) → List (Scored F)
  candidates c query seen [] = []
  candidates c query seen ((id, meta) ∷ cache) =
      let rest = candidates c query seen cache in
      if passes c query seen id meta then scored_of c query id meta ∷ rest else rest

  -- `sort.Slice` by falling score, which promises an order only where `less` is one, and none for
  -- scores that are NaN; of equal scores the first stays first here.
  unfoldable pub insert_scored : Scored F → List (Scored F) → List (Scored F)
  insert_scored x [] = x ∷ []
  insert_scored x (y ∷ ys) =
      let rest = insert_scored x ys in if F.less x.score y.score then y ∷ rest else x ∷ y ∷ ys

  unfoldable pub sort_scored : List (Scored F) → List (Scored F)
  sort_scored [] = []
  sort_scored (x ∷ xs) = insert_scored x (sort_scored xs)

  -- The loop that fills the budget; `started` is `len(selected) > 0`.
  unfoldable pub fill : ℕ → ℕ → Bool → List (Scored F) → List (Scored F) × ℕ
  fill budget used started [] = ([], used)
  fill budget used started (c ∷ cs) =
      let used' = used + estimate_tokens_from_length c.content_length in
      let (selected, total) = fill budget used' true cs in
      if ltb budget used' && started then ([], used) else (c ∷ selected, total)

  abbrev pub loaded : (String → Option String) → Node F → RetrievedNode F
  loaded read n = record { node = n; content = load_content read n.content_path }

  -- The loop that loads the selected nodes and raises their confidence.
  unfoldable pub load_nodes :
      Config F → (String → Option String) → Store F → List String → Store F × List (RetrievedNode F)
  load_nodes c read s [] = (s, [])
  load_nodes c read s (id ∷ ids) = elim (get_node s id) [
    | none ↦ load_nodes c read s ids
    | some n ↦
        let (s', nodes) =
          load_nodes c read (adjust_confidence s id c.confidence_gain c.confidence_bound) ids in
        (s', loaded read n ∷ nodes)
  ]

  abbrev pub summary_of : Node F → NodeSummary
  summary_of n = record { id = n.id; kind = n.kind; title = n.title; summary = n.summary }

  -- The inner loop over the edges of one node, with the ids seen so far.
  unfoldable pub follow :
      Config F → Store F → List (Edge F) → List String → List NodeSummary × List String
  follow c s [] seen = ([], seen)
  follow c s (e ∷ edges) seen =
      if F.less e.weight c.edge_min_weight || is_seen e.target_id seen
      then follow c s edges seen
      else (let (found, seen') = follow c s edges (e.target_id ∷ seen) in
          elim (get_node s e.target_id) [
            | none ↦ (found, seen')
            | some n ↦ (summary_of n ∷ found, seen')
          ])

  unfoldable pub connect :
      Config F → Store F → String → List String → List String → List NodeSummary
  connect c s user [] seen = []
  connect c s user (id ∷ ids) seen =
      let (found, seen') = follow c s (get_edges_from s id user) seen in
      found ++ connect c s user ids seen'

  abbrev pub ids_of : List (RetrievedNode F) → List String
  ids_of = map (λ r. r.node.id)

  unfoldable pub retrieve_vector :
      Config F
      → (String → Option String)
      → Store F
      → String
      → List F.Float
      → List (String × EmbeddingMeta F)
      → Store F × RetrievedContext F
  retrieve_vector c read s user query cache =
      let pinned = map (loaded read) (get_pinned_nodes s user) in
      let seen = ids_of pinned in
      let ranked = sort_scored (candidates c query seen cache) in
      let selected = (fill c.token_budget 0 false ranked).0 in
      let (s', nodes) = load_nodes c read s (map (λ x. x.id) selected) in
      let all_seen = seen ++ ids_of nodes in
      (
        s',
        record {
          pinned = pinned;
          nodes = nodes;
          connected = connect c s' user (seen ++ ids_of nodes) all_seen;
        },
      )
