-- ===== src/User/Integrity/Rows.antt =====
-- The calls that change the tables of the codes, the tokens and the links keep the integrity.
use mathlib.Core.Path.{subst, sym}
use cogitator.Base.{
  ℕ, refl, Bool, not, ◌||◌, inl, inr, List, [], ◌∷◌, ◌++◌, arith, anyb, All, All-append, Bool-cases,
  String,
}
use cogitator.Base.Eqs.{string_eq, pair_eq, ◌===◌}
use cogitator.Base.Texts.{Bytes, bytes_eq_instance}
use cogitator.Base.Results.{Result, ok, err}
use cogitator.Base.Rows.{
  update_where, delete_where, update_where_miss, Unique, Unique-snoc, Unique-delete_where,
  Unique-update_where,
}
use cogitator.User.{Error, InviteCode, RefreshToken, OauthLink, Store, has_id}
use cogitator.User.Invites.{
  CreateInviteInput, create_invite_code, write_redeemed, delete_invite_code, generate_invite_code,
  has_code, redeemed_by_user, new_invite,
}
use cogitator.User.Tokens.{
  store_refresh_token, revoke_refresh_token, revoke_all_refresh_tokens, cleanup_expired_tokens,
  has_hash, new_token, is_expired,
}
use cogitator.User.Links.{link_oauth, unlink_oauth, is_link, of_provider, new_link}
use cogitator.User.Integrity.{IsThere, IsRedeemer, IsValid, pair_of}

module _ {A : Type 0} where
  All-delete_where :
      (P : A → Type 0) (p : A → Bool) (xs : List A) → All P xs → All P (delete_where p xs)
  All-delete_where P p [] h = tt
  All-delete_where P p (x ∷ xs) h = elim (Bool-cases (p x)) [
    | inl gone ↦ rw gone (All-delete_where P p xs h.1)
    | inr kept ↦ rw kept (h.0, All-delete_where P p xs h.1)
  ]

  All-update_where :
      (P : A → Type 0) (p : A → Bool) (f : A → A) (xs : List A)
      → ((x : A) → P x → P (f x))
      → All P xs
      → All P (update_where p f xs)
  All-update_where P p f [] keep h = tt
  All-update_where P p f (x ∷ xs) keep h = elim (Bool-cases (p x)) [
    | inl here ↦ rw here (keep x h.0, All-update_where P p f xs keep h.1)
    | inr other ↦ rw other (h.0, All-update_where P p f xs keep h.1)
  ]

module _ (s : Store) where
  abbrev Created : InviteCode → Type 0
  Created c = IsThere s.users c.created_by

  abbrev Redeemed : InviteCode → Type 0
  Redeemed c = IsRedeemer s.users c.redeemed_by

  abbrev Owned : RefreshToken → Type 0
  Owned t = IsThere s.users t.user_id

  abbrev Linked : OauthLink → Type 0
  Linked l = IsThere s.users l.user_id

  with_invites :
      (cs : List InviteCode)
      → Unique (λ (c : InviteCode). c.code) cs
      → All Created cs
      → All Redeemed cs
      → IsValid s
      → IsValid (record s { invites = cs })
  with_invites cs codes creators redeemers v = record {
    ids = v.ids;
    emails = v.emails;
    codes = codes;
    hashes = v.hashes;
    pairs = v.pairs;
    creators = creators;
    redeemers = redeemers;
    token_users = v.token_users;
    link_users = v.link_users;
    other_users = v.other_users;
  }

  with_tokens :
      (ts : List RefreshToken)
      → Unique (λ (t : RefreshToken). t.token_hash) ts
      → All Owned ts
      → IsValid s
      → IsValid (record s { tokens = ts })
  with_tokens ts hashes owned v = record {
    ids = v.ids;
    emails = v.emails;
    codes = v.codes;
    hashes = hashes;
    pairs = v.pairs;
    creators = v.creators;
    redeemers = v.redeemers;
    token_users = owned;
    link_users = v.link_users;
    other_users = v.other_users;
  }

  with_links :
      (ls : List OauthLink)
      → Unique pair_of ls
      → All Linked ls
      → IsValid s
      → IsValid (record s { links = ls })
  with_links ls pairs linked v = record {
    ids = v.ids;
    emails = v.emails;
    codes = v.codes;
    hashes = v.hashes;
    pairs = pairs;
    creators = v.creators;
    redeemers = v.redeemers;
    token_users = v.token_users;
    link_users = linked;
    other_users = v.other_users;
  }

  pub create_invite_code-IsValid :
      (input : CreateInviteInput) (random : Bytes) (now : ℕ)
      → IsValid s
      → IsValid (create_invite_code s input random now).0
  unfolding create_invite_code
  create_invite_code-IsValid input random now v =
      let c : InviteCode = new_invite input (generate_invite_code random) now in
      elim (Bool-cases
        (anyb (has_code c.code) s.invites || not (anyb (has_id c.created_by) s.users))) [
          | inl refused ↦ rw refused v
          | inr fine ↦ rw fine (
              with_invites (s.invites ++ c ∷ [])
                (Unique-snoc (λ (c : InviteCode). c.code) s.invites c v.codes
                  (ground (arith, fine)))
                (All-append Created s.invites (c ∷ []) v.creators (ground (arith, fine), tt))
                (All-append Redeemed s.invites (c ∷ []) v.redeemers (tt, tt)) v)
        ]

  pub write_redeemed-IsValid :
      (code : Bytes) (id : String) (seen : Result Error InviteCode)
      → IsValid s
      → IsValid (write_redeemed s code id seen).0
  unfolding write_redeemed
  write_redeemed-IsValid code id (err e) v = v
  write_redeemed-IsValid code id (ok c) v = elim (Bool-cases (anyb (has_code code) s.invites)) [
    | inr missing ↦ rw missing (
        subst (λ cs. IsValid (record s { invites = cs }))
          (sym (update_where_miss (has_code code) (redeemed_by_user id) s.invites missing)) v)
    | inl here ↦ elim (Bool-cases (anyb (has_id id) s.users)) [
      | inr stranger ↦ rw (here, stranger) v
      | inl there ↦
          let set = redeemed_by_user id in
          rw (here, there)
            (with_invites (update_where (has_code code) set s.invites)
              (Unique-update_where (λ (c : InviteCode). c.code) (has_code code) set s.invites
                (λ c. refl) v.codes)
              (All-update_where Created (has_code code) set s.invites (λ c h. h) v.creators)
              (All-update_where Redeemed (has_code code) set s.invites (λ c h. there) v.redeemers)
              v)
    ]
  ]

  pub delete_invite_code-IsValid : (code : Bytes) → IsValid s → IsValid (delete_invite_code s code)
  unfolding delete_invite_code
  delete_invite_code-IsValid code v =
      with_invites (delete_where (has_code code) s.invites)
        (Unique-delete_where (λ (c : InviteCode). c.code) (has_code code) s.invites v.codes)
        (All-delete_where Created (has_code code) s.invites v.creators)
        (All-delete_where Redeemed (has_code code) s.invites v.redeemers) v

  pub store_refresh_token-IsValid :
      (hash id : String) (expires now : ℕ)
      → IsValid s
      → IsValid (store_refresh_token s hash id expires now).0
  unfolding store_refresh_token
  store_refresh_token-IsValid hash id expires now v =
      elim (Bool-cases (anyb (has_hash hash) s.tokens || not (anyb (has_id id) s.users))) [
        | inl refused ↦ rw refused v
        | inr fine ↦ rw fine (
            with_tokens (s.tokens ++ new_token hash id expires now ∷ [])
              (Unique-snoc (λ (t : RefreshToken). t.token_hash) s.tokens
                (new_token hash id expires now) v.hashes (ground (arith, fine)))
              (All-append Owned s.tokens (new_token hash id expires now ∷ []) v.token_users
                (ground (arith, fine), tt))
              v)
      ]

  abbrev delete_tokens : (RefreshToken → Bool) → Store
  delete_tokens p = record s { tokens = delete_where p s.tokens }

  delete_tokens-IsValid : (p : RefreshToken → Bool) → IsValid s → IsValid (delete_tokens p)
  delete_tokens-IsValid p v =
      with_tokens (delete_where p s.tokens)
        (Unique-delete_where (λ (t : RefreshToken). t.token_hash) p s.tokens v.hashes)
        (All-delete_where Owned p s.tokens v.token_users) v

  pub revoke_refresh_token-IsValid :
      (hash : String) → IsValid s → IsValid (revoke_refresh_token s hash)
  unfolding revoke_refresh_token
  revoke_refresh_token-IsValid hash = delete_tokens-IsValid (has_hash hash)

  pub revoke_all_refresh_tokens-IsValid :
      (id : String) → IsValid s → IsValid (revoke_all_refresh_tokens s id)
  unfolding revoke_all_refresh_tokens
  revoke_all_refresh_tokens-IsValid id = delete_tokens-IsValid (λ t. t.user_id === id)

  pub cleanup_expired_tokens-IsValid :
      (now : ℕ) → IsValid s → IsValid (cleanup_expired_tokens s now).0
  unfolding cleanup_expired_tokens
  cleanup_expired_tokens-IsValid now = delete_tokens-IsValid (is_expired now)

  pub link_oauth-IsValid :
      (link id provider subject : String) (email : Bytes) (now : ℕ)
      → IsValid s
      → IsValid (link_oauth s link id provider subject email now).0
  unfolding link_oauth
  link_oauth-IsValid link id provider subject email now v =
      elim (Bool-cases (
        anyb (λ l. l.id === link) s.links
        || anyb (is_link provider subject) s.links
        || not (anyb (has_id id) s.users))) [
          | inl refused ↦ rw refused v
          | inr fine ↦
              let l : OauthLink = new_link link id provider subject email now in
              rw fine (
                with_links (s.links ++ l ∷ [])
                  (Unique-snoc pair_of s.links l v.pairs (ground (arith, fine)))
                  (All-append Linked s.links (l ∷ []) v.link_users (ground (arith, fine), tt)) v)
        ]

  pub unlink_oauth-IsValid :
      (id provider : String) → IsValid s → IsValid (unlink_oauth s id provider).0
  unfolding unlink_oauth
  unlink_oauth-IsValid id provider v = elim (Bool-cases (anyb (of_provider id provider) s.links)) [
    | inl here ↦ rw here (
        with_links (delete_where (of_provider id provider) s.links)
          (Unique-delete_where pair_of (of_provider id provider) s.links v.pairs)
          (All-delete_where Linked (of_provider id provider) s.links v.link_users) v)
    | inr missing ↦ rw missing v
  ]
