-- ===== src/Api/Auth/InviteLink.antt =====
-- server/internal/api/auth_handlers.go, parseInviteCode: an invite link carries
-- base64(<server>|<code>); a bare code is taken as it is.
use Prim.Native.Nat.{◌/◌, ◌%◌}
use cogitator.Base.{
  ℕ, ◌≡◌, refl, false, inl, inr, [], ◌∷◌, ◌++◌, Option, none, some, arith, ◌==◌, if◌then◌else◌, All,
  All-append, anyb, Bool-cases,
}
use cogitator.Base.Texts.{Bytes}
use cogitator.Base.Base64.{
  decode, decode_groups, encode, decode-encode, IsByte, three_bytes, sextet, is_line_end,
}
use cogitator.User.Invites.{generate_invite_code, hex_digit}

-- What stands after the last bar, if there is one.
unfoldable pub after_last_bar : Bytes → Option Bytes
after_last_bar [] = none
after_last_bar (c ∷ s) = elim (after_last_bar s) [
  | some tail ↦ some tail
  | none ↦ if c == b'|' then some s else none
]

abbrev pub or_whole : Bytes → Option Bytes → Bytes
or_whole s none = s
or_whole s (some tail) = tail

abbrev pub parsed : Bytes → Option Bytes → Bytes
unfolding after_last_bar
parsed s none = s
parsed s (some decoded) = or_whole s (after_last_bar decoded)

unfoldable pub parse_invite_code : Bytes → Bytes
unfolding decode after_last_bar
parse_invite_code s = parsed s (decode s)

last_bar :
    (server code : Bytes)
    → after_last_bar code ≡ none
    → after_last_bar (server ++ b'|' ∷ code) ≡ some code
unfolding after_last_bar
last_bar [] code h = rw h refl
last_bar (c ∷ server) code h = rw (last_bar server code h) refl

no_bar : (code : Bytes) → anyb (λ c. c == b'|') code ≡ false → after_last_bar code ≡ none
unfolding after_last_bar
no_bar [] h = refl
no_bar (c ∷ code) h = elim (Bool-cases (c == b'|')) [
  | inl bar ↦ absurd (ground (arith, h, bar))
  | inr other ↦ rw (no_bar code (ground (arith, h)), other) refl
]

-- An invite link gives the code that it was made with: of the base64 text of a server's address, a
-- bar and a code without a bar, all of bytes, the parser returns the code, whatever the address.
pub parse_invite_code-encode :
    (server code : Bytes)
    → All IsByte server
    → All IsByte code
    → anyb (λ c. c == b'|') code ≡ false
    → parse_invite_code (encode (server ++ b'|' ∷ code)) ≡ code
unfolding parse_invite_code
parse_invite_code-encode server code hs hc h =
    rw
      (
        decode-encode (server ++ b'|' ∷ code)
            (All-append IsByte server (b'|' ∷ code) hs (omega arith, hc)),
        last_bar server code (no_bar code h),
      )
      refl

three_bytes-none : (a b c d : Option ℕ) → three_bytes a b c d none ≡ none
three_bytes-none none b c d = refl
three_bytes-none (some a) none c d = refl
three_bytes-none (some a) (some b) none d = refl
three_bytes-none (some a) (some b) (some c) none = refl
three_bytes-none (some a) (some b) (some c) (some d) = refl

hex_digit_plain : (n : ℕ) → is_line_end (hex_digit n) ≡ false
hex_digit_plain n = ground arith

-- A code of the generator, as a user types it, is no base64 text, so the parser leaves it as it is.
pub parse_invite_code-generate :
    (a b c d e f : ℕ)
    → let code = generate_invite_code (a ∷ b ∷ c ∷ d ∷ e ∷ f ∷ []) in parse_invite_code code ≡ code
unfolding parse_invite_code generate_invite_code decode decode_groups
parse_invite_code-generate a b c d e f =
    rw
      (
        hex_digit_plain (a / 16),
        hex_digit_plain (a % 16),
        hex_digit_plain (b / 16),
        hex_digit_plain (b % 16),
        hex_digit_plain (c / 16),
        hex_digit_plain (c % 16),
        hex_digit_plain (d / 16),
        hex_digit_plain (d % 16),
      )
      (rw
        (three_bytes-none (sextet (hex_digit (a / 16))) (sextet (hex_digit (a % 16)))
          (sextet (hex_digit (b / 16))) (sextet (hex_digit (b % 16))))
        refl)
