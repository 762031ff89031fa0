-- ===== src/Memory/Tests.antt =====
-- Retrieval from a small store, with whole numbers for float64.
use Prim.Native.Nat.{min}
use mathlib.Core.List.{Perm}
use mathlib.Core.Bool.{false≢true}
use cogitator.Base.Eqs.{string_eq}
use cogitator.Base.{
  map, ℕ, ◌+◌, ◌*◌, ◌≤◌, ◌≡◌, ◌≢◌, ◌⊎◌, refl, true, false, List, [], ◌∷◌, ◌++◌, Option, none, some,
  ltb, ◌==◌, ◌/◌, length, All, arith, String,
}
use cogitator.Base.Assoc
use cogitator.Memory.Nodes.{
  Floats, fact, skill, Node, Store, EmbeddingMeta, get_embeddings_with_meta,
}
use cogitator.Memory.Retriever.{Config, Scored, retrieve_vector, fill, candidates, sort_scored}
use cogitator.Memory.Retriever.Fill.{fill_maximal, total_cost, Stops}
use cogitator.Memory.Retriever.Ranking.{IsAsymmetric, Falling, Origin, ranked-Falling}
use cogitator.Memory.Retriever.Privacy.{Seen, Shown}
use cogitator.Memory.Retriever.Listed.{Listed, get_embeddings_with_meta-Listed}
use cogitator.Memory.Retriever.Cache.{
  MetaCache, changes, asks, answers, uncached, answers-uncached, Coherent, bare_answer,
}

-- Vectors with one entry, whose square root is taken to be the number itself.
abbrev whole : Floats
whole = record {
  Float = ℕ;
  zero = 0;
  is_zero = λ a. a == 0;
  less = ltb;
  plus = λ a b. a + b;
  times = λ a b. a * b;
  over = λ a b. a / b;
  smaller = min;
  sqrt = λ a. a;
}

abbrev settings : Config whole
settings = record {
  token_budget = 100;
  min_similarity = 0;
  type_boost = 2;
  edge_min_weight = 1;
  top_k = 2;
  confidence_gain = 1;
  confidence_bound = 9;
}

abbrev tea : Node whole
tea = record {
  id = "a";
  user_id = some "ann";
  kind = fact;
  title = "tea";
  summary = "likes tea";
  confidence = 5;
  content_path = "";
  content_length = some 40;
  pinned = false;
  private = false;
}

-- Bob's own.
abbrev diary : Node whole
diary = record tea { id = "b"; user_id = some "bob"; title = "diary"; private = true }

abbrev small : Store whole
small = record {
  nodes = ("a", tea) ∷ ("b", diary) ∷ [];
  embeddings = ("a", 4 ∷ []) ∷ ("b", 5 ∷ []) ∷ [];
  edges = record { source_id = "a"; target_id = "b"; weight = 2 } ∷ [];
}

abbrev no_files : String → Option String
no_files path = none

abbrev near : Scored whole
near = record { id = "a"; score = 9; content_length = 40 }

abbrev far : Scored whole
far = record { id = "b"; score = 7; content_length = 400 }

fill_maximal_example :
    (rest : List (Scored whole)) × (near ∷ far ∷ []
      ≡ (fill 100 0 false (near ∷ far ∷ [])).0 ++ rest)
    × ((fill 100 0 false (near ∷ far ∷ [])).1 ≡ total_cost (fill 100 0 false (near ∷ far ∷ [])).0)
    × (((fill 100 0 false (near ∷ far ∷ [])).1 ≤ 100)
        ⊎ (length (fill 100 0 false (near ∷ far ∷ [])).0 ≡ 1))
    × Stops 100 (fill 100 0 false (near ∷ far ∷ [])).1 rest
fill_maximal_example = fill_maximal 100 (near ∷ far ∷ [])

whole-IsAsymmetric : IsAsymmetric whole
whole-IsAsymmetric a b h = ground (arith, h)

abbrev cached : List (String × EmbeddingMeta whole)
cached =
    ("a", record { kind = fact; content_length = 40; confidence = 5; embedding = 4 ∷ [] })
    ∷ ("c", record { kind = skill; content_length = 80; confidence = 6; embedding = 3 ∷ [] })
    ∷ []

ranked-Falling_example :
    Perm
      (sort_scored (candidates settings (1 ∷ []) [] cached))
      (candidates settings (1 ∷ []) [] cached)
    × Falling (sort_scored (candidates settings (1 ∷ []) [] cached))
    × All
        (Origin settings (1 ∷ []) [] cached)
        (sort_scored (candidates settings (1 ∷ []) [] cached))
unfolding Assoc.lookup
ranked-Falling_example =
    ranked-Falling settings (1 ∷ []) [] cached whole-IsAsymmetric (refl, (refl, tt))

get_embeddings_with_meta-Listed_example :
    let cache = get_embeddings_with_meta small "ann" (fact ∷ []) in
    let r = retrieve_vector settings no_files small "ann" (1 ∷ []) cache in
    All (Listed small "ann" (fact ∷ [])) cache
    × All (Seen "ann") r.1.pinned
    × All (Seen "ann") r.1.nodes
    × All (Shown r.0 "ann") r.1.connected
get_embeddings_with_meta-Listed_example =
    get_embeddings_with_meta-Listed settings no_files small "ann" (1 ∷ []) (fact ∷ [])

abbrev empty_cache : MetaCache whole
empty_cache = record { by_user = []; cached_types = []; dirty = true }

empty_cache-Coherent : Coherent small (fact ∷ []) empty_cache
unfolding Assoc.lookup
empty_cache-Coherent user entries real found = absurd cc

ann-Real : ◌≢◌ {A = String} "ann" "_all"
ann-Real same = absurd (false≢true ((string_eq.beq_iff "ann" "_all").1 same))

bob-Real : ◌≢◌ {A = String} "bob" "_all"
bob-Real same = absurd (false≢true ((string_eq.beq_iff "bob" "_all").1 same))

abbrev less_private : Store whole
less_private = record small { nodes = ("a", tea) ∷ ("b", record diary { private = false }) ∷ [] }

answers-uncached_example :
    map bare_answer (
      answers settings
        (λ p. none)
        empty_cache
        small
        (fact ∷ [])
        (asks "ann" ("a" ∷ [])
          ∷ asks "bob" ("b" ∷ [])
          ∷ changes less_private
          ∷ asks "ann" ("a" ∷ [])
          ∷ []))
    ≡ map bare_answer (
        uncached settings
          (λ p. none)
          small
          (fact ∷ [])
          (asks "ann" ("a" ∷ [])
            ∷ asks "bob" ("b" ∷ [])
            ∷ changes less_private
            ∷ asks "ann" ("a" ∷ [])
            ∷ []))
answers-uncached_example =
    answers-uncached settings (λ p. none) empty_cache small (fact ∷ [])
      (asks "ann" ("a" ∷ [])
        ∷ asks "bob" ("b" ∷ [])
        ∷ changes less_private
        ∷ asks "ann" ("a" ∷ [])
        ∷ [])
      empty_cache-Coherent (ann-Real, (bob-Real, (tt, (ann-Real, tt))))
