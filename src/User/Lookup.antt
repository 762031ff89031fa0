-- ===== src/User/Lookup.antt =====
-- Reading an account back after it was inserted or changed.
use mathlib.Core.Path.{ap, ◌∙◌}
use cogitator.Base.{
  ◌≡◌, refl, true, false, inl, inr, List, [], ◌∷◌, ◌++◌, arith, anyb, Bool-cases, String,
}
use cogitator.Base.Eqs.{string_eq}
use cogitator.Base.Results.{Result, ok, err}
use cogitator.Base.Rows.{first_where, update_where, first_where-append}
use cogitator.User.{Store, User, Error, not_found, has_id, or_error, get, update_by_id}

abbrev found : String → List User → Result Error User
found id us = or_error not_found (first_where (has_id id) us)

pub get-insert :
    (s : Store) (u : User)
    → anyb (has_id u.id) s.users ≡ false
    → get (record s { users = s.users ++ u ∷ [] }) u.id ≡ ok u
unfolding get
get-insert s u new =
    rw (first_where-append (has_id u.id) s.users (u ∷ []) new)
      (ground (arith, string_eq.beq_iff u.id u.id))

found-there :
    (id : String) (us : List User) {u : User} → found id us ≡ ok u → anyb (has_id id) us ≡ true
found-there id [] h = absurd cc
found-there id (w ∷ us) h = elim (Bool-cases (has_id id w)) [
  | inl here ↦ rw here refl
  | inr other ↦ rw other (found-there id us (rw other at h))
]

found-update :
    (id : String) (f : User → User) (us : List User) {u : User}
    → ((w : User) → (f w).id ≡ w.id)
    → found id us ≡ ok u
    → found id (update_where (has_id id) f us) ≡ ok (f u)
found-update id f [] same h = absurd cc
found-update id f (w ∷ us) {u} same h = elim (Bool-cases (has_id id w)) [
  | inl here ↦
      let e : ◌≡◌ {A = Result Error User} (ok w) (ok u) = rw here at h in
      let still : has_id id (f w) ≡ true = ap (λ k. string_eq.beq k id) (same w) ∙ here in
      rw (here, still)
        (ap (λ (r : Result Error User). elim r [ ok a ↦ ok (f a) | err x ↦ err x ]) e)
  | inr other ↦ rw (other, other) (found-update id f us same (rw other at h))
]

-- The account that an update by id has changed.
pub update_by_id-get :
    (s : Store) (id : String) (f : User → User) (u : User)
    → ((w : User) → (f w).id ≡ w.id)
    → get s id ≡ ok u
    → (update_by_id s id f ≡ (record s { users = update_where (has_id id) f s.users }, ok tt))
      × (get (record s { users = update_where (has_id id) f s.users }) id ≡ ok (f u))
unfolding get update_by_id
update_by_id-get s id f u same h =
    (rw (found-there id s.users h) refl, found-update id f s.users same h)
