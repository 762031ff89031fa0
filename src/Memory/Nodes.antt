-- ===== src/Memory/Nodes.antt =====
-- server/internal/memory/types.go, store.go and vector.go: the tables of the nodes, of their embeddings and of
-- the edges, and the queries by which memories are retrieved. Arithmetic on float64 is a parameter.
-- The columns that retrieval does not read (tags, triggers, times, origin) are left out.
use cogitator.Base.{
  ℕ, Bool, true, false, not, ◌&&◌, ◌||◌, List, [], ◌∷◌, Option, none, some, length, ◌==◌, anyb,
  filterb, map, if◌then◌else◌, String,
}
use cogitator.Base.Eqs.{string_eq}
use cogitator.Base.Assoc

-- float64.
pub record Floats : Type 1 where
  pub Float : Type 0
  pub zero : Float
  pub is_zero : Float → Bool
  pub less : Float → Float → Bool
  pub plus : Float → Float → Float
  pub times : Float → Float → Float
  pub over : Float → Float → Float
  pub smaller : Float → Float → Float
  pub sqrt : Float → Float

-- The sums of the loop: of the products, and of the squares of each vector.
unfoldable pub sums :
    (F : Floats)
    → List F.Float
    → List F.Float
    → F.Float × F.Float × F.Float
    → F.Float × F.Float × F.Float
sums F (x ∷ a) (y ∷ b) (dot, norm_a, norm_b) =
    sums F a b (F.plus dot (F.times x y), F.plus norm_a (F.times x x), F.plus norm_b (F.times y y))
sums F a b acc = acc

unfoldable pub cosine_similarity : (F : Floats) → List F.Float → List F.Float → F.Float
cosine_similarity F a b =
    let (dot, norm_a, norm_b) = sums F a b (F.zero, F.zero, F.zero) in
    let denom = F.times (F.sqrt norm_a) (F.sqrt norm_b) in
    if not (length a == length b) || length a == 0
    then F.zero
    else if F.is_zero denom
    then F.zero
    else F.over dot denom

pub data NodeType : Type 0 where
  fact preference pattern skill episode task_knowledge : NodeType

abbrev pub same_type : NodeType → NodeType → Bool
same_type fact fact = true
same_type preference preference = true
same_type pattern pattern = true
same_type skill skill = true
same_type episode episode = true
same_type task_knowledge task_knowledge = true
same_type a b = false

pub record Node (F : Floats) : Type 0 where
  pub id : String
  pub user_id : Option String
  pub kind : NodeType
  pub title : String
  pub summary : String
  pub confidence : F.Float
  pub content_path : String
  pub content_length : Option ℕ
  pub pinned : Bool
  pub private : Bool

pub record Edge (F : Floats) : Type 0 where
  pub source_id : String
  pub target_id : String
  pub weight : F.Float

-- The key of a node is its id.
pub record Store (F : Floats) : Type 0 where
  pub nodes : List (String × Node F)
  pub embeddings : List (String × List F.Float)
  pub edges : List (Edge F)

pub record EmbeddingMeta (F : Floats) : Type 0 where
  pub kind : NodeType
  pub content_length : ℕ
  pub confidence : F.Float
  pub embedding : List F.Float

abbrev pub owned_by : String → Option String → Bool
owned_by user none = false
owned_by user (some u) = string_eq.beq u user

abbrev pub or_zero : Option ℕ → ℕ
or_zero none = 0
or_zero (some n) = n

-- `n.type IN (...)`, which an empty list leaves out
abbrev pub is_wanted : List NodeType → NodeType → Bool
is_wanted [] k = true
is_wanted (t ∷ ts) k = anyb (λ w. same_type w k) (t ∷ ts)

module _ {F : Floats} where
  -- `userID == ""`, or `private = 0 OR user_id = ?`
  abbrev pub sees : String → Node F → Bool
  sees user n = string_eq.beq user "" || (not n.private || owned_by user n.user_id)

  unfoldable pub get_node : Store F → String → Option (Node F)
  get_node s id = Assoc.lookup id s.nodes

  abbrev pub rows_of : List (String × Node F) → List (Node F)
  rows_of [] = []
  rows_of ((id, n) ∷ m) = n ∷ rows_of m

  unfoldable pub get_pinned_nodes : Store F → String → List (Node F)
  get_pinned_nodes s user = filterb (λ n. n.pinned && sees user n) (rows_of s.nodes)

  -- The join with the target's row, where a user is given.
  abbrev pub sees_target : Store F → String → Edge F → Bool
  sees_target s user e =
      string_eq.beq user "" || elim (get_node s e.target_id) [ none ↦ false | some n ↦ sees user n ]

  unfoldable pub get_edges_from : Store F → String → String → List (Edge F)
  get_edges_from s id user =
      filterb (λ e. string_eq.beq e.source_id id && sees_target s user e) s.edges

  abbrev pub meta_of : Node F → List F.Float → EmbeddingMeta F
  meta_of n v = record {
    kind = n.kind;
    content_length = or_zero n.content_length;
    confidence = n.confidence;
    embedding = v;
  }

  abbrev pub join :
      String
      → List NodeType
      → String
      → List F.Float
      → Option (Node F)
      → List (String × EmbeddingMeta F)
      → List (String × EmbeddingMeta F)
  join user types id v none rest = rest
  join user types id v (some n) rest =
      if sees user n && is_wanted types n.kind then (id, meta_of n v) ∷ rest else rest

  unfoldable pub embeddings_with_meta :
      Store F
      → String
      → List NodeType
      → List (String × List F.Float)
      → List (String × EmbeddingMeta F)
  embeddings_with_meta s user types [] = []
  embeddings_with_meta s user types ((id, v) ∷ rows) =
      join user types id v (get_node s id) (embeddings_with_meta s user types rows)

  unfoldable pub get_embeddings_with_meta :
      Store F → String → List NodeType → List (String × EmbeddingMeta F)
  get_embeddings_with_meta s user types = embeddings_with_meta s user types s.embeddings

  -- `UPDATE nodes SET ... WHERE id = ?`
  unfoldable pub update_node : Store F → String → (Node F → Node F) → Store F
  update_node s id f = elim (Assoc.lookup id s.nodes) [
    | none ↦ s
    | some n ↦ record s { nodes = Assoc.insert id (f n) s.nodes }
  ]

  -- `MIN(confidence + ?, ?)`, for a delta that is not negative
  unfoldable pub adjust_confidence : Store F → String → F.Float → F.Float → Store F
  adjust_confidence s id delta bound =
      update_node s id (λ n. record n { confidence = F.smaller (F.plus n.confidence delta) bound })

  -- `GetNodeSummaries`, without its order, as far as retrieval asks: the ids.
  unfoldable pub summary_ids : Store F → String → List String
  summary_ids s user = map (λ n. n.id) (filterb (sees user) (rows_of s.nodes))
