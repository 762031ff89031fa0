-- ===== src/Ratelimit/Tests.antt =====
-- Runs of the limiter on small inputs.
use cogitator.Base.{ℕ, ◌+◌, ◌-◌, ◌*◌, ◌≤◌, ◌≡◌, refl, ◌∷◌, [], List, arith}
use cogitator.Base.Eqs.{string_eq}
use cogitator.Base.Assoc
use cogitator.Ratelimit.{Bucket, Limiter, unit, allow, cleanup}
use cogitator.Ratelimit.Conformance.{serve, last_of, serve_conforms}
use cogitator.Ratelimit.Cleanup.{cleanup_unobservable}

abbrev one_token : Bucket
one_token = record { tokens = unit; last_check = 0 }

abbrev arrivals : List ℕ
arrivals = 5 ∷ 5 ∷ 30_000_000_005 ∷ []

serve_conforms_example :
    (serve 2 one_token arrivals).1 * unit + (serve 2 one_token arrivals).0.tokens
    ≤ unit + (last_of 2 0 arrivals - 0) * 2
serve_conforms_example = serve_conforms 2 one_token arrivals (omega arith)

abbrev two_addresses : Limiter
two_addresses = record {
  burst = 2;
  buckets = ("10.0.0.1", one_token) ∷ ("10.0.0.2", record { tokens = 7; last_check = 9 }) ∷ [];
}

cleanup_unobservable_example :
    ((allow (cleanup two_addresses 300_000_000_005) "10.0.0.1" 300_000_000_006).1
      ≡ (allow two_addresses "10.0.0.1" 300_000_000_006).1)
    × (Assoc.lookup "10.0.0.1"
          (allow (cleanup two_addresses 300_000_000_005) "10.0.0.1" 300_000_000_006).0.buckets
        ≡ Assoc.lookup "10.0.0.1" (allow two_addresses "10.0.0.1" 300_000_000_006).0.buckets)
unfolding Assoc.lookup
cleanup_unobservable_example =
    cleanup_unobservable two_addresses "10.0.0.1" 300_000_000_005 300_000_000_006 (refl, (refl, tt))
      (omega arith)
