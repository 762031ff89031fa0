-- ===== src/Api/Auth/Clients.antt =====
-- server/internal/api/authlimit.go, clientIP: the source address by which failures are counted.
use cogitator.Base.{
  ℕ, ◌≡◌, refl, Bool, true, false, not, ◌||◌, [], ◌∷◌, ◌++◌, Option, none, some, arith, ◌==◌, anyb,
  if◌then◌else◌,
}
use cogitator.Base.Texts.{Bytes, is_empty, trim_space}

-- The headers `Fly-Client-IP` and `X-Forwarded-For` (empty where absent), and the peer.
pub record Request : Type 0 where
  pub fly_client_ip : Bytes
  pub x_forwarded_for : Bytes
  pub remote_addr : Bytes

abbrev pub cons_fst : ℕ → Option (Bytes × Bytes) → Option (Bytes × Bytes)
cons_fst x none = none
cons_fst x (some (a, b)) = some (x ∷ a, b)

-- The text before and after the first, and the last, occurrence of a byte.
abbrev pub split_first : ℕ → Bytes → Option (Bytes × Bytes)
split_first c [] = none
split_first c (x ∷ s) = if x == c then some ([], s) else cons_fst x (split_first c s)

abbrev pub last_or : ℕ → ℕ → Bytes → Option (Bytes × Bytes) → Option (Bytes × Bytes)
last_or c x s (some (a, b)) = some (x ∷ a, b)
last_or c x s none = if x == c then some ([], s) else none

abbrev pub split_last : ℕ → Bytes → Option (Bytes × Bytes)
split_last c [] = none
split_last c (x ∷ s) = last_or c x s (split_last c s)

abbrev pub has : ℕ → Bytes → Bool
has c = anyb (λ x. x == c)

-- `net.SplitHostPort`, of which the code uses the host.
abbrev pub after_bracket : Bytes → Bytes → Bytes → Option Bytes
after_bracket rest host [] = none
after_bracket rest host (c ∷ port) =
    if not (c == b':') || has b':' port || has b'[' rest || has b']' port then none else some host

abbrev pub bracketed : Bytes → Option (Bytes × Bytes) → Option Bytes
bracketed rest none = none
bracketed rest (some (host, after)) = after_bracket rest host after

abbrev pub plain : Bytes → Option (Bytes × Bytes) → Option Bytes
plain s none = none
plain s (some (host, port)) = if has b':' host || has b'[' s || has b']' s then none else some host

abbrev pub split_host_port : Bytes → Option Bytes
split_host_port [] = none
split_host_port (c ∷ rest) =
    if c == b'['
    then bracketed rest (split_first b']' rest)
    else plain (c ∷ rest) (split_last b':' (c ∷ rest))

abbrev pub host_or : Bytes → Option Bytes → Bytes
host_or addr none = addr
host_or addr (some host) = if is_empty host then addr else host

abbrev pub peer : Request → Bytes
peer r = host_or r.remote_addr (split_host_port r.remote_addr)

-- What stands after the last comma, or the whole.
abbrev pub tail_or : Bytes → Option (Bytes × Bytes) → Bytes
tail_or s none = s
tail_or s (some (left, hop)) = hop

abbrev pub last_hop : Bytes → Bytes
last_hop s = tail_or s (split_last b',' s)

abbrev pub forwarded : Request → Bytes
forwarded r =
    if is_empty r.x_forwarded_for
    then peer r
    else let ip = trim_space (last_hop r.x_forwarded_for) in if is_empty ip then peer r else ip

unfoldable pub client_ip : Request → Bool → Bytes
client_ip r false = peer r
client_ip r true = let fly = trim_space r.fly_client_ip in if is_empty fly then forwarded r else fly

split_last-none : (c : ℕ) (s : Bytes) → has c s ≡ false → split_last c s ≡ none
split_last-none c [] h = refl
split_last-none c (x ∷ s) h = rw (split_last-none c s (ground (arith, h))) (ground (arith, h))

last_hop-append : (left hop : Bytes) → has b',' hop ≡ false → last_hop (left ++ b',' ∷ hop) ≡ hop
last_hop-append left hop h = rw (split left) refl
  where
    split : (left : Bytes) → split_last b',' (left ++ b',' ∷ hop) ≡ some (left, hop)
    split [] = rw (split_last-none b',' hop h) refl
    split (x ∷ left) = rw (split left) refl

not_empty : (left : Bytes) (c : ℕ) (hop : Bytes) → is_empty (left ++ c ∷ hop) ≡ false
not_empty [] c hop = refl
not_empty (x ∷ left) c hop = refl

-- Behind the proxy what a client writes into X-Forwarded-For in front of the hop that the proxy
-- appends changes nothing: the address is the one that the last hop alone gives. Without the proxy
-- no header changes the address.
pub client_ip-last_hop :
    (fly left hop remote other : Bytes)
    → has b',' hop ≡ false
    → (client_ip
          (record {
            fly_client_ip = fly;
            x_forwarded_for = left ++ b',' ∷ hop;
            remote_addr = remote;
          })
          true
        ≡ client_ip
            (record { fly_client_ip = fly; x_forwarded_for = hop; remote_addr = remote })
            true)
      × (client_ip
            (record { fly_client_ip = fly; x_forwarded_for = left; remote_addr = remote })
            false
          ≡ client_ip
              (record { fly_client_ip = other; x_forwarded_for = hop; remote_addr = remote })
              false)
unfolding client_ip
client_ip-last_hop fly left [] remote other h =
    rw (not_empty left b',' [], last_hop-append left [] h) (refl, refl)
client_ip-last_hop fly left (c ∷ hop) remote other h =
    rw
      (
        not_empty left b',' (c ∷ hop),
        last_hop-append left (c ∷ hop) h,
        split_last-none b',' (c ∷ hop) h,
      )
      (refl, refl)
