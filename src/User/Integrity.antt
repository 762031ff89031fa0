-- ===== src/User/Integrity.antt =====
-- The integrity of the tables: keys are unique, and each reference to an account names one that is
-- there. `Op` lists the calls of the store that change it, and `run` makes one.
pub mod Accounts
pub mod Rows
pub mod Theorem
use cogitator.Base.{ℕ, ◌≡◌, Bool, true, List, [], ◌∷◌, Option, none, some, anyb, All, String}
use cogitator.Base.Eqs.{string_eq, pair_eq}
use cogitator.Base.Texts.{Bytes, bytes_eq_instance}
use cogitator.Base.Results.{Result}
use cogitator.Base.Rows.{Unique}
use cogitator.User.{
  Bcrypt, Role, Error, User, InviteCode, RefreshToken, OauthLink, Store, CreateUserInput, has_id,
  create, create_first_admin, create_social, update_role, update_profile, update_user, update_email,
  delete,
}
use cogitator.User.Invites.{
  CreateInviteInput, create_invite_code, write_redeemed, delete_invite_code,
}
use cogitator.User.Tokens.{
  store_refresh_token, revoke_refresh_token, revoke_all_refresh_tokens, cleanup_expired_tokens,
}
use cogitator.User.Links.{link_oauth, unlink_oauth}

abbrev pub IsThere : List User → String → Type 0
IsThere users id = anyb (has_id id) users ≡ true

abbrev pub IsRedeemer : List User → Option String → Type 0
IsRedeemer users none = Unit
IsRedeemer users (some id) = IsThere users id

abbrev pub pair_of : OauthLink → String × String
pair_of l = (l.provider, l.subject)

pub record IsValid (s : Store) : Type 0 where
  pub ids : Unique (λ (u : User). u.id) s.users
  pub emails : Unique (λ (u : User). u.email) s.users
  pub codes : Unique (λ (c : InviteCode). c.code) s.invites
  pub hashes : Unique (λ (t : RefreshToken). t.token_hash) s.tokens
  pub pairs : Unique pair_of s.links
  pub creators : All (λ (c : InviteCode). IsThere s.users c.created_by) s.invites
  pub redeemers : All (λ (c : InviteCode). IsRedeemer s.users c.redeemed_by) s.invites
  pub token_users : All (λ (t : RefreshToken). IsThere s.users t.user_id) s.tokens
  pub link_users : All (λ (l : OauthLink). IsThere s.users l.user_id) s.links
  pub other_users : All (IsThere s.users) s.others

-- `op_redeem` is the second step of a redemption, for anything that the first step may have read.
pub data Op : Type 0 where
  op_create op_first_admin : CreateUserInput → String → Op
  op_social : Bytes → Bytes → Role → String → Op
  op_role : String → Role → Op
  op_profile : String → String → Op
  op_user : String → Bytes → Option String → Op
  op_email : String → Bytes → Op
  op_delete : String → Op
  op_invite : CreateInviteInput → Bytes → Op
  op_redeem : Bytes → String → Result Error InviteCode → Op
  op_delete_invite : Bytes → Op
  op_store_token : String → String → ℕ → Op
  op_revoke op_revoke_all : String → Op
  op_cleanup : Op
  op_link : String → String → String → String → Bytes → Op
  op_unlink : String → String → Op

abbrev pub run : Bcrypt → Op → ℕ → Store → Store
run B (op_create input id) now s = (create B s input id now).0
run B (op_first_admin input id) now s = (create_first_admin B s input id now).0
run B (op_social email name role id) now s = (create_social s email name role id now).0
run B (op_role id role) now s = (update_role s id role now).0
run B (op_profile id overrides) now s = (update_profile s id overrides now).0
run B (op_user id name hash) now s = (update_user s id name hash now).0
run B (op_email id email) now s = (update_email s id email now).0
run B (op_delete id) now s = (delete s id).0
run B (op_invite input random) now s = (create_invite_code s input random now).0
run B (op_redeem code id seen) now s = (write_redeemed s code id seen).0
run B (op_delete_invite code) now s = delete_invite_code s code
run B (op_store_token hash id expires) now s = (store_refresh_token s hash id expires now).0
run B (op_revoke hash) now s = revoke_refresh_token s hash
run B (op_revoke_all id) now s = revoke_all_refresh_tokens s id
run B op_cleanup now s = (cleanup_expired_tokens s now).0
run B (op_link link id provider subject email) now s =
    (link_oauth s link id provider subject email now).0
run B (op_unlink id provider) now s = (unlink_oauth s id provider).0

-- A run of calls, each with the time at which it comes.
abbrev pub run_all : Bcrypt → List (Op × ℕ) → Store → Store
run_all B [] s = s
run_all B ((op, now) ∷ ops) s = run_all B ops (run B op now s)
