-- ===== src/User/Invites/Kept.antt =====
-- A redeemed code stays redeemed under the calls of the store, unless the code itself is deleted.
use mathlib.Core.Path.{subst, sym, ap}
use cogitator.Base.{
  ℕ, ◌≡◌, refl, true, false, not, ◌&&◌, ◌||◌, inl, inr, List, [], ◌∷◌, ◌++◌, Option, none, some,
  All, arith, anyb, Bool-cases, if_both, String,
}
use cogitator.Base.Results.{Result, ok, err}
use cogitator.Base.Texts.{Bytes, bytes_eq, bytes_eq_iff, bytes_eq_instance}
use cogitator.Base.Rows.{first_where, delete_where}
use cogitator.User.{
  Bcrypt, User, InviteCode, Store, Error, code_redeemed, insert_user, create, create_hashed,
  create_first_admin, create_first_hashed, insert_first, create_social, update_role, update_profile,
  update_user, update_email, update_by_id, delete, new_user, has_id,
}
use cogitator.User.Invites.{
  has_code, is_past, check_unused, read_invite, write_redeemed, redeemed_by_user,
  redeem_invite_code, create_invite_code, delete_invite_code, generate_invite_code,
}
use cogitator.User.Invites.Once.{answer, written, write-ok, ok-injective, read-written}
use cogitator.User.Tokens.{
  store_refresh_token, revoke_refresh_token, revoke_all_refresh_tokens, cleanup_expired_tokens,
}
use cogitator.User.Links.{link_oauth, unlink_oauth}
use cogitator.User.Integrity.{
  Op, op_create, op_first_admin, op_social, op_role, op_profile, op_user, op_email, op_delete,
  op_invite, op_redeem, op_delete_invite, op_store_token, op_revoke, op_revoke_all, op_cleanup,
  op_link, op_unlink, run, run_all,
}

module _ (code : Bytes) (later : ℕ) where
  abbrev pub Used : List InviteCode → Type 0
  Used cs = answer code later cs ≡ err code_redeemed

  Used-append : (cs ds : List InviteCode) → Used cs → Used (cs ++ ds)
  Used-append [] ds h = absurd cc
  Used-append (c ∷ cs) ds h = elim (Bool-cases (has_code code c)) [
    | inl here ↦ rw here (rw here at h)
    | inr other ↦ rw other (Used-append cs ds (rw other at h))
  ]

  Used-written :
      (other : Bytes) (id : String) (cs : List InviteCode) → Used cs → Used (written other id cs)
  Used-written other id [] h = absurd cc
  Used-written other id (c ∷ cs) h = elim (Bool-cases (has_code code c)) [
    | inl here ↦ elim (Bool-cases (has_code other c)) [
      | inl this ↦ rw (this, here) refl
      | inr that ↦ rw (that, here) (rw here at h)
    ]
    | inr there ↦
        let rest = Used-written other id cs (rw there at h) in
        elim (Bool-cases (has_code other c)) [
          | inl this ↦ rw (this, there) rest
          | inr that ↦ rw (that, there) rest
        ]
  ]

  not_other :
      (a other : Bytes)
      → bytes_eq a code ≡ true
      → bytes_eq other code ≡ false
      → bytes_eq a other ≡ false
  not_other a other here differs =
      ground
        (arith, here, differs, bytes_eq_iff a code, bytes_eq_iff a other, bytes_eq_iff other code)

  Used-delete :
      (other : Bytes) (cs : List InviteCode)
      → bytes_eq other code ≡ false
      → Used cs
      → Used (delete_where (has_code other) cs)
  Used-delete other [] differs h = absurd cc
  Used-delete other (c ∷ cs) differs h = elim (Bool-cases (has_code code c)) [
    | inl here ↦
        let that : has_code other c ≡ false = not_other c.code other here differs in
        rw (that, here) (rw here at h)
    | inr there ↦
        let rest = Used-delete other cs differs (rw there at h) in
        elim (Bool-cases (has_code other c)) [
          | inl this ↦ rw this rest
          | inr that ↦ rw (that, there) rest
        ]
  ]

-- The call is not the deletion of the code.
abbrev pub Spares : Bytes → Op × ℕ → Type 0
Spares code (op_delete_invite other, now) = bytes_eq other code ≡ false
Spares code (op, now) = Unit

module _ (B : Bcrypt) (code : Bytes) (later : ℕ) where
  abbrev StillUsed : Store → Type 0
  StillUsed s = Used code later s.invites

  untouched : (s t : Store) → t.invites ≡ s.invites → StillUsed s → StillUsed t
  untouched s t e h = rw e h

  insert-Used : (s : Store) (u : User) → StillUsed s → StillUsed (insert_user s u).0
  unfolding insert_user
  insert-Used s u h = untouched s (insert_user s u).0 (ground arith) h

  run-Used :
      (op : Op) (now : ℕ) (s : Store)
      → Spares code (op, now)
      → StillUsed s
      → StillUsed (run B op now s)
  unfolding create create_first_admin create_social update_role update_profile update_user
      update_email update_by_id delete create_invite_code write_redeemed delete_invite_code
      store_refresh_token revoke_refresh_token revoke_all_refresh_tokens cleanup_expired_tokens
      link_oauth unlink_oauth
  run-Used (op_create input id) now s k h = hashed (B.generate_from_password input.password)
    where
      hashed : (o : Option String) → StillUsed (create_hashed s input id now o).0
      hashed none = h
      hashed (some p) = insert-Used s (new_user input id p now) h
  run-Used (op_first_admin input id) now s k h = hashed (B.generate_from_password input.password)
    where
      first : (us : List User) (u : User) → StillUsed (insert_first s us u).0
      first [] u = insert-Used s u h
      first (v ∷ vs) u = h

      hashed : (o : Option String) → StillUsed (create_first_hashed s input id now o).0
      hashed none = h
      hashed (some p) = first s.users _
  run-Used (op_social email name role id) now s k h = insert-Used s _ h
  run-Used (op_role id role) now s k h =
      untouched s (run B (op_role id role) now s) (ground arith) h
  run-Used (op_profile id overrides) now s k h =
      untouched s (run B (op_profile id overrides) now s) (ground arith) h
  run-Used (op_user id name hash) now s k h =
      untouched s (run B (op_user id name hash) now s) (ground arith) h
  run-Used (op_email id email) now s k h =
      untouched s (run B (op_email id email) now s) (ground arith) h
  run-Used (op_delete id) now s k h = untouched s (run B (op_delete id) now s) (ground arith) h
  run-Used (op_invite input random) now s k h =
      if_both (λ (r : Store × Result Error InviteCode). StillUsed r.0)
        (anyb (has_code (generate_invite_code random)) s.invites
          || not (anyb (has_id input.created_by) s.users))
        _ _ (λ e. h) (λ e. Used-append code later s.invites _ h)
  run-Used (op_redeem other id (err e)) now s k h = h
  run-Used (op_redeem other id (ok c)) now s k h =
      if_both (λ (r : Store × Result Error InviteCode). StillUsed r.0)
        (anyb (has_code other) s.invites && not (anyb (has_id id) s.users)) _ _ (λ e. h)
        (λ e. Used-written code later other id s.invites h)
  run-Used (op_delete_invite other) now s k h = Used-delete code later other s.invites k h
  run-Used (op_store_token hash id expires) now s k h =
      untouched s (run B (op_store_token hash id expires) now s) (ground arith) h
  run-Used (op_revoke hash) now s k h = h
  run-Used (op_revoke_all id) now s k h = h
  run-Used op_cleanup now s k h = h
  run-Used (op_link link id provider subject email) now s k h =
      untouched s (run B (op_link link id provider subject email) now s) (ground arith) h
  run-Used (op_unlink id provider) now s k h =
      untouched s (run B (op_unlink id provider) now s) (ground arith) h

  pub run_all-Used :
      (ops : List (Op × ℕ)) (s : Store)
      → All (Spares code) ops
      → StillUsed s
      → StillUsed (run_all B ops s)
  run_all-Used [] s k h = h
  run_all-Used ((op, now) ∷ ops) s k h =
      run_all-Used ops (run B op now s) k.1 (run-Used op now s k.0 h)

-- What the first step has read where it succeeds: a row that is there, not redeemed, not expired.
answer-read :
    (code : Bytes) (now : ℕ) (cs : List InviteCode) {b : InviteCode}
    → answer code now cs ≡ ok b
    → (first_where (has_code code) cs ≡ some b)
      × (b.redeemed_by ≡ none)
      × (is_past now b.expires_at ≡ false)
answer-read code now [] h = absurd cc
answer-read code now (c ∷ cs) {b} h = elim (Bool-cases (has_code code c)) [
  | inr other ↦ rw other (answer-read code now cs (rw other at h))
  | inl here ↦ rw here (unused c c.redeemed_by refl (rw here at h))
]
  where
    unused :
        (c : InviteCode) (o : Option String)
        → c.redeemed_by ≡ o
        → check_unused now c o ≡ ok b
        → (some c ≡ some b) × (b.redeemed_by ≡ none) × (is_past now b.expires_at ≡ false)
    unused c (some u) e h = absurd cc
    unused c none e h = elim (Bool-cases (is_past now c.expires_at)) [
      | inl past ↦ absurd (cc (rw past at h))
      | inr live ↦
          let same : ◌≡◌ {A = Result Error InviteCode} (ok c) (ok b) = rw live at h in
          subst
            (λ (d : InviteCode).
              (some c ≡ some d) × (d.redeemed_by ≡ none) × (is_past now d.expires_at ≡ false))
            (ok-injective same) (refl, e, live)
    ]

-- A redemption that succeeds is of a row that was there, neither redeemed nor expired, and returns
-- that row with the account as the one that redeemed it. After it, and after any further calls of
-- the account store but a deletion of the code itself, each redemption of the code fails as redeemed,
-- whoever asks and whenever, and changes nothing. The cleanup of handleDeleteUser, which goes past
-- the store, is no such call.
pub redeem-once :
    (B : Bcrypt) (s s' : Store) (code : Bytes) (id other : String) (now later : ℕ) (c : InviteCode)
    (ops : List (Op × ℕ))
    → redeem_invite_code s code id now ≡ (s', ok c)
    → All (Spares code) ops
    → ((b : InviteCode) × (first_where (has_code code) s.invites ≡ some b)
        × (b.redeemed_by ≡ none)
        × (is_past now b.expires_at ≡ false)
        × (c ≡ redeemed_by_user id b))
      × (redeem_invite_code (run_all B ops s') code other later
          ≡ (run_all B ops s', err code_redeemed))
unfolding redeem_invite_code read_invite write_redeemed
redeem-once B s s' code id other now later c ops h spares =
    let (b, seen, after, same) = write-ok s code id (read_invite s code now) h in
    let (there, free, live) = answer-read code now s.invites seen in
    let used : Used code later s'.invites =
      subst (λ t. read_invite t code later ≡ err code_redeemed) (sym after)
        (read-written s code id now later seen) in
    (
      (b, there, free, live, same),
      ap (write_redeemed (run_all B ops s') code other)
          (run_all-Used B code later ops s' spares used),
    )
