-- ===== src/User/Tokens/Expiry.antt =====
-- What validation sees of the tokens that were stored, revoked and cleaned up.
use cogitator.Base.{
  ℕ, ◌≡◌, ◌↔◌, refl, Bool, ◌||◌, true, false, inl, inr, List, [], ◌∷◌, ◌++◌, arith, ltb, ◌≤◌,
  String, anyb, not, Bool-cases, if◌then◌else◌,
}
use cogitator.Base.Eqs.{string_eq, ◌===◌}
use cogitator.Base.Results.{Result, ok, err, is_ok, ◌>>=◌}
use cogitator.Base.Rows.{
  first_where, delete_where, first_where-append, anyb-delete_where-le, Unique,
}
use mathlib.Core.Path.{subst}
use cogitator.User.{Store, Error, RefreshToken, token_not_found, token_expired, has_id, or_error}
use cogitator.User.Tokens.{
  validate_refresh_token, store_refresh_token, revoke_refresh_token, cleanup_expired_tokens,
  is_expired, has_hash, new_token,
}

-- What validation answers on a table.
abbrev answer : String → ℕ → List RefreshToken → Result Error String
answer hash now ts = or_error token_not_found (first_where (has_hash hash) ts) >>= λ t.
    if is_expired now t then err token_expired else ok t.user_id

answer_missing :
    (hash : String) (now : ℕ) (ts : List RefreshToken)
    → anyb (has_hash hash) ts ≡ false
    → answer hash now ts ≡ err token_not_found
answer_missing hash now [] h = refl
answer_missing hash now (t ∷ ts) h =
    let (here, there) = or_false (has_hash hash t) (anyb (has_hash hash) ts) h in
    rw here (answer_missing hash now ts there)
  where
    or_false : (a b : Bool) → (a || b) ≡ false → (a ≡ false) × (b ≡ false)
    or_false a b e = ground (arith, e)

answer-cleanup :
    (hash id : String) (before now : ℕ) (ts : List RefreshToken)
    → Unique (λ (t : RefreshToken). t.token_hash) ts
    → before ≤ now
    → (answer hash now (delete_where (is_expired before) ts) ≡ ok id) ↔ (answer hash now ts ≡ ok id)
answer-cleanup hash id before now [] unique le = (λ h. h, λ h. h)
answer-cleanup hash id before now (t ∷ ts) unique le = elim (Bool-cases (is_expired before t)) [
  | inl old ↦ elim (Bool-cases (has_hash hash t)) [
    | inl here ↦
        let late : is_expired now t ≡ true = ground (arith, old) in
        let gone : anyb (has_hash hash) (delete_where (is_expired before) ts) ≡ false =
          anyb-delete_where-le (is_expired before) (has_hash hash) ts (
            subst (λ k. anyb (has_hash k) ts ≡ false) ((string_eq.beq_iff t.token_hash hash).0 here)
              unique.0) in
        rw (old, here, late, answer_missing hash now (delete_where (is_expired before) ts) gone)
          (λ h. absurd cc, λ h. absurd cc)
    | inr other ↦ rw (old, other) (answer-cleanup hash id before now ts unique.1 le)
  ]
  | inr fresh ↦ elim (Bool-cases (has_hash hash t)) [
    | inl here ↦ rw (fresh, here) (λ h. h, λ h. h)
    | inr other ↦ rw (fresh, other) (answer-cleanup hash id before now ts unique.1 le)
  ]
]

-- Where no two tokens have one hash, the clean-up of expired tokens changes no validation at the
-- same time or later: one that succeeds for a user still does, and none succeeds that did not.
pub validate-cleanup :
    (s : Store) (hash id : String) (before now : ℕ)
    → Unique (λ (t : RefreshToken). t.token_hash) s.tokens
    → before ≤ now
    → (validate_refresh_token (cleanup_expired_tokens s before).0 hash now ≡ ok id)
      ↔ (validate_refresh_token s hash now ≡ ok id)
unfolding validate_refresh_token cleanup_expired_tokens
validate-cleanup s hash id before now unique le =
    answer-cleanup hash id before now s.tokens unique le

-- A revoked token is unknown, and the revocation changes the answer for no other token.
pub validate-revoke :
    (s : Store) (hash other : String) (now : ℕ)
    → validate_refresh_token (revoke_refresh_token s hash) other now
      ≡ (if hash === other then err token_not_found else validate_refresh_token s other now)
unfolding validate_refresh_token revoke_refresh_token
validate-revoke s hash other now = go s.tokens
  where
    go :
        (ts : List RefreshToken)
        → answer other now (delete_where (has_hash hash) ts)
          ≡ (if hash === other then err token_not_found else answer other now ts)
    go [] = ground arith
    go (t ∷ ts) = elim (Bool-cases (has_hash hash t)) [
      | inl here ↦ elim (Bool-cases (has_hash other t)) [
        | inl same ↦
            rw (here, same)
              (ground (
                arith,
                go ts,
                string_eq.beq_iff hash other,
                string_eq.beq_iff t.token_hash hash,
                string_eq.beq_iff t.token_hash other,
              ))
        | inr differs ↦ rw (here, differs) (go ts)
      ]
      | inr there ↦ elim (Bool-cases (has_hash other t)) [
        | inl same ↦
            rw (there, same)
              (ground (
                arith,
                string_eq.beq_iff hash other,
                string_eq.beq_iff t.token_hash hash,
                string_eq.beq_iff t.token_hash other,
              ))
        | inr differs ↦ rw (there, differs) (go ts)
      ]
    ]

-- A token that was just stored is valid for its user until it expires.
pub validate-store :
    (s : Store) (hash id : String) (expires_at stored now : ℕ)
    → is_ok (store_refresh_token s hash id expires_at stored).1 ≡ true
    → validate_refresh_token (store_refresh_token s hash id expires_at stored).0 hash now
      ≡ (if ltb expires_at now then err token_expired else ok id)
unfolding validate_refresh_token store_refresh_token
validate-store s hash id expires_at stored now works =
    elim (Bool-cases (anyb (has_hash hash) s.tokens || not (anyb (has_id id) s.users))) [
      | inl refused ↦ absurd cc (rw refused at works)
      | inr done ↦ rw done (
          rw (first_where-append (has_hash hash) s.tokens _ (ground (arith, done)))
            (ground (arith, string_eq.beq_iff hash hash)))
    ]

-- Storing a token changes the answer for no other hash.
pub validate-store_other :
    (s : Store) (hash other id : String) (expires_at stored now : ℕ)
    → (hash === other) ≡ false
    → validate_refresh_token (store_refresh_token s hash id expires_at stored).0 other now
      ≡ validate_refresh_token s other now
unfolding validate_refresh_token store_refresh_token
validate-store_other s hash other id expires_at stored now differs =
    elim (Bool-cases (anyb (has_hash hash) s.tokens || not (anyb (has_id id) s.users))) [
      | inl refused ↦ rw refused refl
      | inr done ↦ rw done (go s.tokens)
    ]
  where
    go :
        (ts : List RefreshToken)
        → answer other now (ts ++ new_token hash id expires_at stored ∷ []) ≡ answer other now ts
    go [] = rw differs refl
    go (t ∷ ts) = elim (Bool-cases (has_hash other t)) [
      | inl here ↦ rw here refl
      | inr there ↦ rw there (go ts)
    ]
