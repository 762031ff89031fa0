-- ===== src/User/Integrity/Theorem.antt =====
-- Every run of the calls of the store keeps the integrity of its tables.
use cogitator.Base.{ℕ, ◌≡◌, refl, List, [], ◌∷◌, Option, none, some, String}
use cogitator.User.{
  Bcrypt, Store, User, CreateUserInput, create, create_hashed, create_first_admin,
  create_first_hashed, insert_first, create_social, update_role, update_profile, update_user,
  new_user, role_admin, update_by_id,
}
use cogitator.User.Integrity.{
  IsValid, Op, op_create, op_first_admin, op_social, op_role, op_profile, op_user, op_email,
  op_delete, op_invite, op_redeem, op_delete_invite, op_store_token, op_revoke, op_revoke_all,
  op_cleanup, op_link, op_unlink, run, run_all,
}
use cogitator.User.Integrity.Accounts.{
  insert_user-IsValid, update_by_id-IsValid, update_email-IsValid, delete-IsValid,
}
use cogitator.User.Integrity.Rows.{
  create_invite_code-IsValid, write_redeemed-IsValid, delete_invite_code-IsValid,
  store_refresh_token-IsValid, revoke_refresh_token-IsValid, revoke_all_refresh_tokens-IsValid,
  cleanup_expired_tokens-IsValid, link_oauth-IsValid, unlink_oauth-IsValid,
}

module _ (s : Store) (v : IsValid s) where
  hashed :
      (input : CreateUserInput) (id : String) (now : ℕ) (h : Option String)
      → IsValid (create_hashed s input id now h).0
  hashed input id now none = v
  hashed input id now (some h) = insert_user-IsValid s (new_user input id h now) v

  first : (us : List User) (u : User) → IsValid (insert_first s us u).0
  first [] u = insert_user-IsValid s u v
  first (w ∷ ws) u = v

  first_hashed :
      (input : CreateUserInput) (id : String) (now : ℕ) (h : Option String)
      → IsValid (create_first_hashed s input id now h).0
  first_hashed input id now none = v
  first_hashed input id now (some h) =
      first s.users (new_user (record input { role = role_admin }) id h now)

  name_and_hash :
      (id : String) (f : Option String → User → User) (h : Option String)
      → ((o : Option String) (u : User) → ((f o u).id ≡ u.id) × ((f o u).email ≡ u.email))
      → IsValid (update_by_id s id (f h)).0
  name_and_hash id f h same =
      update_by_id-IsValid s id (f h) (λ u. (same h u).0) (λ u. (same h u).1) v

  pub run-IsValid : (B : Bcrypt) (op : Op) (now : ℕ) → IsValid (run B op now s)
  unfolding create create_first_admin create_social update_role update_profile update_user
  run-IsValid B (op_create input id) now =
      hashed input id now (B.generate_from_password input.password)
  run-IsValid B (op_first_admin input id) now =
      first_hashed input id now (B.generate_from_password input.password)
  run-IsValid B (op_social email name role id) now = insert_user-IsValid s _ v
  run-IsValid B (op_role id role) now = update_by_id-IsValid s id _ (λ u. refl) (λ u. refl) v
  run-IsValid B (op_profile id overrides) now =
      update_by_id-IsValid s id _ (λ u. refl) (λ u. refl) v
  run-IsValid B (op_user id name none) now = update_by_id-IsValid s id _ (λ u. refl) (λ u. refl) v
  run-IsValid B (op_user id name (some h)) now =
      update_by_id-IsValid s id _ (λ u. refl) (λ u. refl) v
  run-IsValid B (op_email id email) now = update_email-IsValid s id email now v
  run-IsValid B (op_delete id) now = delete-IsValid s id v
  run-IsValid B (op_invite input random) now = create_invite_code-IsValid s input random now v
  run-IsValid B (op_redeem code id seen) now = write_redeemed-IsValid s code id seen v
  run-IsValid B (op_delete_invite code) now = delete_invite_code-IsValid s code v
  run-IsValid B (op_store_token hash id expires) now =
      store_refresh_token-IsValid s hash id expires now v
  run-IsValid B (op_revoke hash) now = revoke_refresh_token-IsValid s hash v
  run-IsValid B (op_revoke_all id) now = revoke_all_refresh_tokens-IsValid s id v
  run-IsValid B op_cleanup now = cleanup_expired_tokens-IsValid s now v
  run-IsValid B (op_link link id provider subject email) now =
      link_oauth-IsValid s link id provider subject email now v
  run-IsValid B (op_unlink id provider) now = unlink_oauth-IsValid s id provider v

-- Each run of the calls of the account store, in any order and at any times, keeps its integrity:
-- ids, emails, codes, token hashes and pairs of provider and subject stay unique, and each code,
-- token and link refers to accounts that are there.
pub run_all-IsValid :
    (B : Bcrypt) (ops : List (Op × ℕ)) (s : Store) → IsValid s → IsValid (run_all B ops s)
run_all-IsValid B [] s v = v
run_all-IsValid B ((op, now) ∷ ops) s v =
    run_all-IsValid B ops (run B op now s) (run-IsValid s v B op now)
