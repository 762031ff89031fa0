-- ===== src/User/Tokens.antt =====
-- server/internal/user/store.go: the refresh tokens, which the table holds as hashes.
pub mod Expiry
use cogitator.Base.{
  ℕ, Bool, not, ◌||◌, List, [], ◌∷◌, ◌++◌, ◌-◌, ltb, anyb, length, filterb, if◌then◌else◌, String,
}
use cogitator.Base.Eqs.{◌===◌, string_eq}
use cogitator.Base.Results.{Result, ok, err, ◌>>=◌}
use cogitator.Base.Rows.{first_where, delete_where}
use cogitator.User.{
  Store, RefreshToken, Error, database, token_not_found, token_expired, has_id, or_error,
}

abbrev pub has_hash : String → RefreshToken → Bool
has_hash hash t = t.token_hash === hash

-- `expiresAt.Before(time.Now())`, which is also the test of the clean-up's WHERE clause.
abbrev pub is_expired : ℕ → RefreshToken → Bool
is_expired now t = ltb t.expires_at now

abbrev pub new_token : String → String → ℕ → ℕ → RefreshToken
new_token hash user_id expires_at now = record {
  token_hash = hash;
  user_id = user_id;
  expires_at = expires_at;
  created_at = now;
}

unfoldable pub store_refresh_token :
    Store → String → String → ℕ → ℕ → Store × Result Error (Unit {0})
store_refresh_token s hash user_id expires_at now =
    if anyb (has_hash hash) s.tokens || not (anyb (has_id user_id) s.users)
    then (s, err database)
    else (record s { tokens = s.tokens ++ new_token hash user_id expires_at now ∷ [] }, ok tt)

unfoldable pub validate_refresh_token : Store → String → ℕ → Result Error String
validate_refresh_token s hash now =
    or_error token_not_found (first_where (has_hash hash) s.tokens) >>= λ t.
    if is_expired now t then err token_expired else ok t.user_id

unfoldable pub revoke_refresh_token : Store → String → Store
revoke_refresh_token s hash = record s { tokens = delete_where (has_hash hash) s.tokens }

unfoldable pub revoke_all_refresh_tokens : Store → String → Store
revoke_all_refresh_tokens s id = record s { tokens = delete_where (λ t. t.user_id === id) s.tokens }

-- The number of the deleted rows comes back.
unfoldable pub cleanup_expired_tokens : Store → ℕ → Store × ℕ
cleanup_expired_tokens s now = (
  record s { tokens = delete_where (is_expired now) s.tokens },
  length (filterb (is_expired now) s.tokens),
)
