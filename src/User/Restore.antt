-- ===== src/User/Restore.antt =====
-- Deleting an account that was just created gives the tables back as they were.
use mathlib.Core.Path.{subst, sym, ◌∙◌}
use mathlib.Core.Bool.{false≢true}
use cogitator.Base.{
  ◌≡◌, refl, true, false, inl, inr, List, [], ◌∷◌, ◌++◌, Option, none, some, arith, anyb, All,
  Bool-cases, String,
}
use cogitator.Base.Eqs.{string_eq, ◌===◌}
use cogitator.Base.Rows.{delete_where, delete_where-snoc, delete_where_miss, anyb-append}
use cogitator.User.{User, InviteCode, RefreshToken, OauthLink, Store, has_id, names_user, delete}
use cogitator.User.Integrity.{IsValid, IsThere, IsRedeemer}

module _ (us : List User) (id : String) (new : anyb (has_id id) us ≡ false) where
  -- Who is there is not the new account.
  not_new : (k : String) → IsThere us k → (k === id) ≡ false
  not_new k there = elim (Bool-cases (k === id)) [
    | inr differs ↦ differs
    | inl same ↦
        absurd (false≢true (sym new ∙ subst (IsThere us) ((string_eq.beq_iff k id).0 same) there))
  ]

  none_named :
      (cs : List InviteCode)
      → All (λ (c : InviteCode). IsThere us c.created_by) cs
      → All (λ (c : InviteCode). IsRedeemer us c.redeemed_by) cs
      → anyb (names_user id) cs ≡ false
  none_named [] h k = refl
  none_named (c ∷ cs) h k =
      ground (arith, not_new c.created_by h.0, redeemer c.redeemed_by k.0, none_named cs h.1 k.1)
    where
      redeemer :
          (o : Option String)
          → IsRedeemer us o
          → (elim o [ none ↦ false | some u ↦ u === id ]) ≡ false
      redeemer none r = refl
      redeemer (some u) r = not_new u r

  none_owned :
      {A : Type 0} (user_of : A → String) (xs : List A)
      → All (λ x. IsThere us (user_of x)) xs
      → anyb (λ x. user_of x === id) xs ≡ false
  none_owned user_of [] h = refl
  none_owned user_of (x ∷ xs) h = rw (not_new (user_of x) h.0) (none_owned user_of xs h.1)

-- On sound tables an account whose id is new can be deleted again, which restores them.
pub delete_new :
    (s : Store) (u : User)
    → IsValid s
    → anyb (has_id u.id) s.users ≡ false
    → (delete (record s { users = s.users ++ u ∷ [] }) u.id).0 ≡ s
unfolding delete
delete_new s u v new =
    let there : anyb (has_id u.id) (s.users ++ u ∷ []) ≡ true =
      ground (arith, anyb-append (has_id u.id) s.users (u ∷ []), string_eq.beq_iff u.id u.id) in
    let unnamed = none_named s.users u.id new s.invites v.creators v.redeemers in
    let unreferred = none_owned s.users u.id new (λ k. k) s.others v.other_users in
    let users : delete_where (has_id u.id) (s.users ++ u ∷ []) ≡ s.users =
      delete_where-snoc (has_id u.id) s.users u new ((string_eq.beq_iff u.id u.id).1 refl) in
    rw (there, unnamed, unreferred)
      (rw
        (
          users,
          delete_where_miss (λ (t : RefreshToken). t.user_id === u.id) s.tokens
              (none_owned s.users u.id new (λ (t : RefreshToken). t.user_id) s.tokens
                v.token_users),
          delete_where_miss (λ (l : OauthLink). l.user_id === u.id) s.links
              (none_owned s.users u.id new (λ (l : OauthLink). l.user_id) s.links v.link_users),
        )
        refl)
