-- ===== src/Api/Users.antt =====
-- server/internal/api/user_handlers.go, and the links of social logins in social_handlers.go: what
-- administrators do to accounts, and what a caller does to the own one. The caller is the id that
-- the access token names, `none` where there is none; an argument of type Option is a JSON body.
-- The statements that clear the other tables of a deleted account count as one, `clears`; the two on
-- the invite codes work, whose errors the code drops.
pub mod Admins
pub mod Access
mod Tests
use cogitator.Base.{
  ℕ, ◌≡◌, Bool, true, false, not, ◌||◌, ◌&&◌, List, [], ◌∷◌, Option, none, some, leb, ltb, ◌==◌,
  length, filterb, if◌then◌else◌, String,
}
use cogitator.Base.Eqs.{string_eq, ◌===◌}
use cogitator.Base.Texts.{Bytes, is_empty, bytes_eq_instance}
use cogitator.Base.Results.{Result, ok, err}
use cogitator.Base.Rows.{update_where, delete_where}
use cogitator.User.{
  Role, role_admin, role_moderator, role_user, role_beq, Error, User, InviteCode, OauthLink, Store,
  Bcrypt, not_found, duplicate_user, link_not_found, get, update_role, update_user, update_email,
  update_profile, delete,
}
use cogitator.User.Tokens.{revoke_all_refresh_tokens}
use cogitator.User.Links.{
  get_by_oauth_link, link_oauth, list_oauth_links, unlink_oauth, has_password,
}

pub data Answer : Type 0 where
  reply : ℕ → String → Answer
  done no_content : Answer
  account : User → Answer
  me : User → Bool → Answer
  profile : String → Answer

abbrev pub unauthorized : Store → Store × Answer
unauthorized s = (s, reply 401 "unauthorized")

-- After a change of one row, of which the code looks at the error.
abbrev pub reported : String → Answer → Store × Result Error (Unit {0}) → Store × Answer
reported message answer (s, ok _) = (s, answer)
reported message answer (s, err e) = (s, reply 500 message)

abbrev pub is_admin : User → Bool
is_admin u = role_beq u.role role_admin

unfoldable pub count_admins : Store → ℕ
count_admins s = length (filterb is_admin s.users)

abbrev pub shown : Result Error User → Answer
shown (ok u) = account u
shown (err e) = reply 404 "user not found"

unfoldable pub handle_get_user : Store → String → Answer
handle_get_user s id = shown (get s id)

abbrev pub parse_role : String → Option Role
parse_role role =
    if role === "admin"
    then some role_admin
    else if role === "moderator"
    then some role_moderator
    else if role === "user"
    then some role_user
    else none

abbrev pub role_change : Store → String → Role → ℕ → Result Error User → Store × Answer
role_change s id role now (err e) = (s, reply 404 "user not found")
role_change s id role now (ok target) =
    if is_admin target && not (role_beq role role_admin) && leb (count_admins s) 1
    then (s, reply 400 "cannot remove last admin")
    else reported "failed to update role" done (update_role s id role now)

abbrev pub role_checked : Store → String → String → Option Role → ℕ → Store × Answer
role_checked s caller id none now = (s, reply 400 "invalid role")
role_checked s caller id (some role) now =
    if id === caller
    then (s, reply 400 "cannot change own role")
    else role_change s id role now (get s id)

unfoldable pub handle_update_user_role :
    Store → Option String → String → Option String → ℕ → Store × Answer
unfolding count_admins
handle_update_user_role s none id body now = unauthorized s
handle_update_user_role s (some caller) id none now = (s, reply 400 "invalid JSON body")
handle_update_user_role s (some caller) id (some role) now =
    role_checked s caller id (parse_role role) now

abbrev pub password_reset : Store → String → ℕ → Option String → User → Store × Answer
password_reset s id now none existing = (s, reply 500 "failed to hash password")
password_reset s id now (some hash) existing =
    reported "failed to update password" done (update_user s id existing.name (some hash) now)

abbrev pub reset_found : Bcrypt → Store → String → Bytes → ℕ → Result Error User → Store × Answer
reset_found B s id password now (err e) = (s, reply 404 "user not found")
reset_found B s id password now (ok existing) =
    password_reset s id now (B.generate_from_password password) existing

unfoldable pub handle_reset_password : Bcrypt → Store → String → Option Bytes → ℕ → Store × Answer
handle_reset_password B s id none now = (s, reply 400 "password is required")
handle_reset_password B s id (some password) now =
    if is_empty password
    then (s, reply 400 "password is required")
    else reset_found B s id password now (get s id)

-- `UPDATE invite_codes SET redeemed_by = NULL WHERE redeemed_by = ?`
abbrev pub redeemed_by_id : String → InviteCode → Bool
redeemed_by_id id c = elim c.redeemed_by [ none ↦ false | some u ↦ u === id ]

abbrev pub unredeemed : InviteCode → InviteCode
unredeemed c = record c { redeemed_by = none }

unfoldable pub clear_private : Store → String → Bool → Store
clear_private s id clears = record s {
  others = if clears then delete_where (λ u. u === id) s.others else s.others;
  invites =
      delete_where (λ c. c.created_by === id)
        (update_where (redeemed_by_id id) unredeemed s.invites);
}

abbrev pub delete_found : Store → String → Bool → Bool → Result Error User → Store × Answer
delete_found s id reassigns clears (err e) = (s, reply 404 "user not found")
delete_found s id reassigns clears (ok target) =
    if is_admin target && leb (count_admins s) 1
    then (s, reply 400 "cannot delete last admin")
    else if not reassigns
    then (s, reply 500 "failed to reassign tasks")
    else reported "failed to delete user" no_content
        (delete (revoke_all_refresh_tokens (clear_private s id clears) id) id)

unfoldable pub handle_delete_user : Store → Option String → String → Bool → Bool → Store × Answer
unfolding count_admins clear_private
handle_delete_user s none id reassigns clears = unauthorized s
handle_delete_user s (some caller) id reassigns clears =
    if id === caller
    then (s, reply 400 "cannot delete yourself")
    else delete_found s id reassigns clears (get s id)

abbrev pub password_known : Result Error Bool → Bool
password_known (ok b) = b
password_known (err e) = false

abbrev pub me_found : Store → String → Result Error User → Answer
me_found s id (err e) = reply 404 "user not found"
me_found s id (ok u) = me u (password_known (has_password s id))

unfoldable pub handle_get_me : Store → Option String → Answer
handle_get_me s none = reply 401 "unauthorized"
handle_get_me s (some caller) = me_found s caller (get s caller)

pub record UpdateMeRequest : Type 0 where
  pub current_password : Bytes
  pub name : Bytes
  pub email : Bytes
  pub password : Bytes

abbrev pub refetched : String → Store × Result Error (Unit {0}) → Store × Answer
refetched id (s, err e) = (s, reply 500 "failed to update user")
refetched id (s, ok _) =
    (s, elim (get s id) [ ok u ↦ account u | err e ↦ reply 500 "failed to fetch updated user" ])

-- The name and the password, after the email.
abbrev pub rename : Store → String → Bytes → ℕ → Option (Option String) → Store × Answer
rename s id name now none = (s, reply 500 "failed to hash password")
rename s id name now (some hash) = refetched id (update_user s id name hash now)

-- `none` where the hashing fails, `some none` where the body has no new password.
abbrev pub new_hash : Bcrypt → Bytes → Option (Option String)
new_hash B [] = some none
new_hash B (c ∷ rest) = elim (B.generate_from_password (c ∷ rest)) [
  | none ↦ none
  | some hash ↦ some (some hash)
]

abbrev pub email_updated :
    Bcrypt → String → UpdateMeRequest → User → ℕ → Store × Result Error (Unit {0}) → Store × Answer
email_updated B id body current now (s, err duplicate_user) = (s, reply 409 "email already taken")
email_updated B id body current now (s, err _) = (s, reply 500 "failed to update email")
email_updated B id body current now (s, ok _) =
    rename s id (if is_empty body.name then current.name else body.name) now
      (new_hash B body.password)

abbrev pub me_checked :
    Bcrypt → Store → String → UpdateMeRequest → ℕ → Result Error User → Store × Answer
me_checked B s id body now (err e) = (s, reply 404 "user not found")
me_checked B s id body now (ok current) =
    if not (B.compare_hash_and_password current.password_hash body.current_password)
    then (s, reply 401 "incorrect password")
    else if not (is_empty body.password) && ltb (length body.password) 6
    then (s, reply 400 "password must be at least 6 characters")
    else email_updated B id body current now (
        if not (is_empty body.email) && not (body.email === current.email)
        then update_email s id body.email now
        else (s, ok tt))

unfoldable pub handle_update_me :
    Bcrypt → Store → Option String → Option UpdateMeRequest → ℕ → Store × Answer
handle_update_me B s none body now = unauthorized s
handle_update_me B s (some caller) none now = (s, reply 400 "invalid JSON body")
handle_update_me B s (some caller) (some body) now =
    if is_empty body.current_password
    then (s, reply 400 "current_password is required")
    else me_checked B s caller body now (get s caller)

abbrev pub profile_found : Result Error User → Answer
profile_found (ok u) = profile u.profile_overrides
profile_found (err e) = reply 404 "user not found"

unfoldable pub handle_get_profile : Store → Option String → Answer
handle_get_profile s none = reply 401 "unauthorized"
handle_get_profile s (some caller) = profile_found (get s caller)

unfoldable pub handle_update_profile : Store → Option String → Option String → ℕ → Store × Answer
handle_update_profile s none body now = unauthorized s
handle_update_profile s (some caller) none now = (s, reply 400 "invalid JSON body")
handle_update_profile s (some caller) (some overrides) now =
    reported "failed to update profile" (profile overrides) (update_profile s caller overrides now)
