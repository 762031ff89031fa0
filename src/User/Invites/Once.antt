-- ===== src/User/Invites/Once.antt =====
-- What the two steps of a redemption read and write, and two redemptions that interleave.
use mathlib.Core.Path.{sym, ap, ◌∙◌}
use cogitator.Base.{
  ℕ, ◌≡◌, refl, true, not, ◌&&◌, inl, inr, List, [], ◌∷◌, arith, anyb, Bool-cases, String,
}
use cogitator.Base.Results.{Result, ok, err, ◌>>=◌}
use cogitator.Base.Texts.{Bytes, bytes_eq_instance}
use cogitator.Base.Rows.{first_where, update_where, anyb-update_where}
use cogitator.User.{InviteCode, Store, Error, code_not_found, code_redeemed, has_id, or_error}
use cogitator.User.Invites.{has_code, check_unused, read_invite, write_redeemed, redeemed_by_user}

-- What the first step answers on a table.
abbrev pub answer : Bytes → ℕ → List InviteCode → Result Error InviteCode
answer code now cs = or_error code_not_found (first_where (has_code code) cs) >>= λ c.
    check_unused now c c.redeemed_by

abbrev pub written : Bytes → String → List InviteCode → List InviteCode
written code id = update_where (has_code code) (redeemed_by_user id)

pub answer-written :
    (code : Bytes) (id : String) (later : ℕ) (cs : List InviteCode)
    → anyb (has_code code) cs ≡ true
    → answer code later (written code id cs) ≡ err code_redeemed
answer-written code id later [] h = absurd cc
answer-written code id later (c ∷ cs) h = elim (Bool-cases (has_code code c)) [
  | inl here ↦ rw (here, here) refl
  | inr other ↦ rw (other, other) (answer-written code id later cs (ground (arith, h, other)))
]

pub answer-there :
    (code : Bytes) (now : ℕ) (cs : List InviteCode) {c : InviteCode}
    → answer code now cs ≡ ok c
    → anyb (has_code code) cs ≡ true
answer-there code now [] h = absurd cc
answer-there code now (d ∷ cs) h = elim (Bool-cases (has_code code d)) [
  | inl here ↦ rw here refl
  | inr other ↦ rw other (answer-there code now cs (rw other at h))
]

-- After the second step the first one refuses the code, at any time.
pub read-written :
    (s : Store) (code : Bytes) (id : String) (now later : ℕ) {c : InviteCode}
    → read_invite s code now ≡ ok c
    → read_invite (record s { invites = written code id s.invites }) code later ≡ err code_redeemed
unfolding read_invite
read-written s code id now later h =
    answer-written code id later s.invites (answer-there code now s.invites h)

pub ok-injective {ℓ} : {A : Type ℓ} {a b : A} → ◌≡◌ {A = Result Error A} (ok a) (ok b) → a ≡ b
ok-injective h = cc h

pub write-ok :
    (s : Store) (code : Bytes) (id : String) (seen : Result Error InviteCode) {c : InviteCode}
    {s' : Store}
    → write_redeemed s code id seen ≡ (s', ok c)
    → (b : InviteCode) × (seen ≡ ok b)
      × (s' ≡ record s { invites = written code id s.invites })
      × (c ≡ redeemed_by_user id b)
unfolding write_redeemed
write-ok s code id (err e) h = absurd cc
write-ok s code id (ok b) {c} {s'} h =
    elim (Bool-cases (anyb (has_code code) s.invites && not (anyb (has_id id) s.users))) [
      | inl refused ↦ absurd (cc (rw refused at h))
      | inr done ↦
          let e : ◌≡◌ {A = Store × Result Error InviteCode}
              (record s { invites = written code id s.invites }, ok (redeemed_by_user id b))
              (s', ok c) =
            rw done at h in
          (b, refl, sym (ap (λ x. x.0) e), sym (ok-injective (ap (λ x. x.1) e)))
    ]

-- Two redemptions of one code whose first steps both come before the second steps both succeed,
-- for two accounts that are there; the code names the later one.
pub redeem-race :
    (s : Store) (code : Bytes) (a b : String) (now later : ℕ) (c d : InviteCode)
    → anyb (has_id a) s.users ≡ true
    → anyb (has_id b) s.users ≡ true
    → read_invite s code now ≡ ok c
    → read_invite s code later ≡ ok d
    → let first = write_redeemed s code a (read_invite s code now) in
      let second = write_redeemed first.0 code b (read_invite s code later) in
      (first.1 ≡ ok (redeemed_by_user a c)) × (second.1 ≡ ok (redeemed_by_user b d))
unfolding write_redeemed read_invite
redeem-race s code a b now later c d ha hb hc hd =
    let here : anyb (has_code code) s.invites ≡ true = answer-there code now s.invites hc in
    let still : anyb (has_code code) (written code a s.invites) ≡ true =
      anyb-update_where (has_code code) (has_code code) (redeemed_by_user a) s.invites (λ c. refl)
      ∙ here in
    rw (hc, hd, here, ha) (refl, rw (still, hb) refl)
