-- ===== src/Memory/Retriever/Classifier.antt =====
-- server/internal/memory/retriever.go: retrieval by the answer of a language model, `retrieveLLM`.
-- The answer of the model, as a list of ids where it parses, is a parameter.
use cogitator.Base.{
  ℕ, zero, suc, ◌≤◌, ◌<◌, ◌≡◌, refl, inl, inr, List, [], ◌∷◌, Option, none, some, length, take, All,
  arith, Option-cases, String, length-take,
}
use cogitator.Memory.Retriever.Privacy.{load_nodes_missing, load_nodes_there, connect-Shown, Shown}
use cogitator.Memory.Nodes.{Floats, Node, Store, get_node, summary_ids, adjust_confidence}
use cogitator.Memory.Retriever.{
  Config, RetrievedNode, RetrievedContext, loaded, load_nodes, connect, ids_of,
}

pub data Answer : Type 0 where
  no_provider chat_failed unreadable : Answer
  named : List String → Answer

module _ {F : Floats} where
  abbrev pub nothing : RetrievedContext F
  nothing = record { pinned = []; nodes = []; connected = [] }

  abbrev pub follow_answer :
      Config F
      → (String → Option String)
      → Store F
      → String
      → List String
      → Store F × RetrievedContext F
  follow_answer c read s user ids =
      let (s', nodes) = load_nodes c read s ids in
      (s', record { pinned = []; nodes = nodes; connected = connect c s' user ids (ids_of nodes) })

  abbrev pub answer_result :
      Config F
      → (String → Option String)
      → Store F
      → String
      → Answer
      → Store F × Option (RetrievedContext F)
  answer_result c read s user no_provider = (s, some nothing)
  answer_result c read s user chat_failed = (s, none)
  answer_result c read s user unreadable = (s, some nothing)
  answer_result c read s user (named ids) =
      let (s', r) = follow_answer c read s user (take c.top_k ids) in (s', some r)

  -- A model is asked only if there are nodes to name.
  abbrev pub ask :
      Config F
      → (String → Option String)
      → Store F
      → String
      → Answer
      → List String
      → Store F × Option (RetrievedContext F)
  ask c read s user answer [] = (s, some nothing)
  ask c read s user answer (id ∷ ids) = answer_result c read s user answer

  unfoldable pub retrieve_llm :
      Config F
      → (String → Option String)
      → Store F
      → String
      → Answer
      → Store F × Option (RetrievedContext F)
  retrieve_llm c read s user no_provider = (s, some nothing)
  retrieve_llm c read s user answer = ask c read s user answer (summary_ids s user)

  load_nodes-length-le :
      (c : Config F) (read : String → Option String) (s : Store F) (ids : List String)
      → length (load_nodes c read s ids).1 ≤ length ids
  unfolding load_nodes
  load_nodes-length-le c read s [] = omega arith
  load_nodes-length-le c read s (id ∷ ids) = elim (Option-cases (get_node s id)) [
    | inl missing ↦
        rw (load_nodes_missing c read s id ids missing)
          (omega (arith, load_nodes-length-le c read s ids))
    | inr (n, there) ↦ rw (load_nodes_there c read s id ids n there) (
        omega (
          arith,
          load_nodes-length-le c read (adjust_confidence s id c.confidence_gain c.confidence_bound)
              ids,
        ))
  ]

  -- What the context promises: no more nodes than `top_k`, and neighbours that the user may see.
  abbrev pub Bounded : Config F → String → Store F × Option (RetrievedContext F) → Type 0
  Bounded c user (s, none) = Unit
  Bounded c user (s, some r) = (length r.nodes ≤ c.top_k) × All (Shown s user) r.connected

  answer_result-Bounded :
      (c : Config F) (read : String → Option String) (s : Store F) (user : String) (answer : Answer)
      → Bounded c user (answer_result c read s user answer)
  answer_result-Bounded c read s user no_provider = (omega arith, tt)
  answer_result-Bounded c read s user chat_failed = tt
  answer_result-Bounded c read s user unreadable = (omega arith, tt)
  answer_result-Bounded c read s user (named ids) = (
    omega (arith, load_nodes-length-le c read s (take c.top_k ids), length-take c.top_k ids),
    connect-Shown c _ user _ _,
  )

  ask-Bounded :
      (c : Config F) (read : String → Option String) (s : Store F) (user : String) (answer : Answer)
      (summaries : List String)
      → Bounded c user (ask c read s user answer summaries)
  ask-Bounded c read s user answer [] = (omega arith, tt)
  ask-Bounded c read s user answer (id ∷ ids) = answer_result-Bounded c read s user answer

  -- Whatever the model answers, retrieval fails or gives at most `top_k` nodes, and each neighbour
  -- that it lists is one that the user may see.
  pub retrieve_llm-Bounded :
      (c : Config F) (read : String → Option String) (s : Store F) (user : String) (answer : Answer)
      → Bounded c user (retrieve_llm c read s user answer)
  unfolding retrieve_llm
  retrieve_llm-Bounded c read s user no_provider = (omega arith, tt)
  retrieve_llm-Bounded c read s user chat_failed =
      ask-Bounded c read s user chat_failed (summary_ids s user)
  retrieve_llm-Bounded c read s user unreadable =
      ask-Bounded c read s user unreadable (summary_ids s user)
  retrieve_llm-Bounded c read s user (named ids) =
      ask-Bounded c read s user (named ids) (summary_ids s user)

  load_first :
      (c : Config F) (read : String → Option String) (s : Store F) (k : ℕ) (id : String)
      (ids : List String) (n : Node F)
      → 0 < k
      → get_node s id ≡ some n
      → (rest : List (RetrievedNode F)) × ((load_nodes c read s (take k (id ∷ ids))).1
          ≡ loaded read n ∷ rest)
  load_first c read s zero id ids n positive there = absurd (omega (arith, positive))
  load_first c read s (suc k) id ids n positive there =
      (_, load_nodes_there c read s id (take k ids) n there)

  -- The node that the model names first is loaded if it is in the store, whoever may see it, where
  -- the user sees at least one node and `top_k` is positive.
  pub retrieve_llm_unchecked :
      (c : Config F) (read : String → Option String) (s : Store F) (user id first : String)
      (ids others : List String) (n : Node F)
      → summary_ids s user ≡ first ∷ others
      → 0 < c.top_k
      → get_node s id ≡ some n
      → (r : RetrievedContext F) × ((retrieve_llm c read s user (named (id ∷ ids))).1 ≡ some r)
        × (rest : List (RetrievedNode F)) × (r.nodes ≡ loaded read n ∷ rest)
  unfolding retrieve_llm
  retrieve_llm_unchecked c read s user id first ids others n some_seen positive there =
      let (rest, first_loaded) = load_first c read s c.top_k id ids n positive there in
      (
        (follow_answer c read s user (take c.top_k (id ∷ ids))).1,
        rw some_seen refl,
        rest,
        first_loaded,
      )
