-- ===== src/Api/Social/Unlink.antt =====
-- Unlinking a provider never locks an account out.
use mathlib.Core.Path.{subst}
use cogitator.Base.{
  ◌≡◌, refl, Bool, true, false, not, ◌&&◌, ◌⊎◌, inl, inr, List, [], ◌∷◌, some, arith, anyb, filterb,
  ◌==◌, All, Bool-cases, String,
}
use cogitator.Base.Eqs.{string_eq, ◌===◌}
use cogitator.Base.Results.{Result, ok, err}
use cogitator.Base.Rows.{delete_where}
use cogitator.Base.Sorting.{sort_by, sort_by-All}
use cogitator.User.{Error, OauthLink, Store}
use cogitator.User.Links.{of_user, of_provider, list_oauth_links, unlink_oauth, has_password}
use cogitator.Api.Auth.{Response, no_content}
use cogitator.Api.Social.{handle_unlink_oauth, unlink_checked, other_links}

module _ (caller provider : String) where
  -- A link of the caller to another provider.
  abbrev elsewhere : OauthLink → Bool
  elsewhere l = of_user caller l && not (l.provider === provider)

  All-here :
      (links : List OauthLink)
      → anyb elsewhere links ≡ false
      → All (λ (l : OauthLink). (l.provider === provider) ≡ true) (filterb (of_user caller) links)
  All-here [] h = tt
  All-here (l ∷ links) h = elim (Bool-cases (of_user caller l)) [
    | inl own ↦ rw own (ground (arith, h, own), All-here links (ground (arith, h)))
    | inr foreign ↦ rw foreign (All-here links (ground (arith, h)))
  ]

  none_other :
      (links : List OauthLink)
      → All (λ (l : OauthLink). (l.provider === provider) ≡ true) links
      → other_links provider links ≡ 0
  none_other [] h = refl
  none_other (l ∷ links) h = rw h.0 (none_other links h.1)

  -- Where the count is not 0, a link to another provider stays.
  stays :
      (links : List OauthLink)
      → anyb elsewhere links ≡ true
      → anyb (of_user caller) (delete_where (of_provider caller provider) links) ≡ true
  stays [] h = cc
  stays (l ∷ links) h = ground (arith, h, stays links)

  counted :
      (links : List OauthLink)
      → (other_links provider
            (sort_by (λ (l : OauthLink). l.created_at) (filterb (of_user caller) links))
          == 0)
        ≡ false
      → anyb elsewhere links ≡ true
  counted links h = elim (Bool-cases (anyb elsewhere links)) [
    | inl found ↦ found
    | inr missing ↦
        let zero = none_other _ (
          sort_by-All (λ (l : OauthLink). l.created_at)
            (λ (l : OauthLink). (l.provider === provider) ≡ true) (filterb (of_user caller) links)
            (All-here links missing)) in
        absurd (ground (arith, zero, h))
  ]

  -- The account can still be entered, where the answer says that the provider was unlinked.
  abbrev Enters : Store × Response → Type 0
  Enters (t, no_content) =
      (has_password t caller ≡ ok true) ⊎ (anyb (of_user caller) t.links ≡ true)
  Enters (t, _) = Unit

  unlink-Enters :
      (s : Store) (r : Result Error Bool)
      → has_password s caller ≡ r
      → Enters (unlink_checked s caller provider r)
  unfolding has_password list_oauth_links unlink_oauth
  unlink-Enters s (err e) h = tt
  unlink-Enters s (ok true) h = elim (Bool-cases (anyb (of_provider caller provider) s.links)) [
    | inl linked ↦ rw linked (inl h)
    | inr missing ↦ rw missing tt
  ]
  unlink-Enters s (ok false) h =
      elim (Bool-cases (other_links provider (list_oauth_links s caller) == 0)) [
        | inl last ↦ rw last tt
        | inr others ↦ elim (Bool-cases (anyb (of_provider caller provider) s.links)) [
          | inl linked ↦ rw (others, linked) (inr (stays s.links (counted s.links others)))
          | inr missing ↦ rw (others, missing) tt
        ]
      ]

-- An account from which a provider was unlinked still has a password, or a link to a provider.
pub unlink-enters :
    (s s' : Store) (caller provider : String)
    → handle_unlink_oauth s (some caller) provider ≡ (s', no_content)
    → (has_password s' caller ≡ ok true) ⊎ (anyb (of_user caller) s'.links ≡ true)
unfolding handle_unlink_oauth
unlink-enters s s' caller provider h =
    subst (Enters caller provider) h (elim (Bool-cases (provider === "")) [
      | inl lacking ↦ rw lacking tt
      | inr named ↦ rw named (unlink-Enters caller provider s (has_password s caller) refl)
    ])
