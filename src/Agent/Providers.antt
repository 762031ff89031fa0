-- ===== src/Agent/Providers.antt =====
-- server/internal/agent/agent.go: which provider and model answer a request, and at which tier. A
-- provider is an element of a type `P`.
use cogitator.Base.{◌≡◌, List, [], Option, none, some, if◌then◌else◌, arith, String}
use cogitator.Base.Assoc
use cogitator.Base.Eqs.{string_eq}

pub record Agent {ℓ} (P : Type ℓ) : Type ℓ where
  pub provider : Option P
  pub model : String
  pub model_providers : List (String × P)
  pub cheap_model : String

module _ {ℓ} {P : Type ℓ} where
  unfoldable pub set_provider : Agent P → Option P → String → Agent P
  set_provider a p model = record a {
    provider = p;
    model_providers = [];
    model = if string_eq.beq model "" then a.model else model;
  }

  unfoldable pub set_model_provider : Agent P → String → P → Agent P
  set_model_provider a model p = record a {
    model_providers = Assoc.insert model p a.model_providers;
  }

  unfoldable pub set_cheap_model : Agent P → String → Agent P
  set_cheap_model a name = record a { cheap_model = name }

  abbrev or_provider : Option P → Option P → Option P
  or_provider none p = p
  or_provider (some q) p = some q

  unfoldable pub resolve_title_provider : Agent P → Option P × String
  resolve_title_provider a =
      if string_eq.beq a.cheap_model ""
      then (a.provider, a.model)
      else elim (Assoc.lookup a.cheap_model a.model_providers) [
        | none ↦ (a.provider, a.model)
        | some p ↦ (some p, a.cheap_model)
      ]

  -- The start of `Chat`, where an override of the model may choose another provider.
  unfoldable pub chat_provider : Agent P → String → Option P × String
  chat_provider a override =
      if string_eq.beq override ""
      then (a.provider, a.model)
      else (or_provider (Assoc.lookup override a.model_providers) a.provider, override)

  -- The tier by which the budget guard counts.
  unfoldable pub tier_of : Agent P → String → String
  tier_of a model = if string_eq.beq model a.model then "standard" else "cheap"

  -- After `SetProvider`, whatever was registered before, every request and every title goes to the new
  -- provider, a request without an override uses the new default model at the standard tier, and
  -- registering a model again sends its requests to the registered provider, and titles if it is the
  -- cheap model.
  pub set_provider-Fresh :
      (a : Agent P) (p : P) (model override other : String) (q : P)
      → let b = set_provider a (some p) model in
        ((chat_provider b override).0 ≡ some p)
        × (resolve_title_provider b ≡ (some p, b.model))
        × (tier_of b (chat_provider b "").1 ≡ "standard")
        × ((chat_provider (set_model_provider b override q) other).0 ≡ (
            if string_eq.beq override other
            then (if string_eq.beq other "" then some p else some q)
            else some p))
  unfolding set_provider set_model_provider resolve_title_provider chat_provider tier_of
      Assoc.lookup Assoc.insert
  set_provider-Fresh a p model override other q = (
    ground arith,
    ground arith,
    ground (
      arith,
      string_eq.beq_iff (if string_eq.beq model "" then a.model else model)
          (if string_eq.beq model "" then a.model else model),
    ),
    ground (arith, string_eq.beq_iff override other),
  )
