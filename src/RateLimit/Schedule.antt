-- ===== src/RateLimit/Schedule.antt =====
-- rate_limit.rs: the limiter over schedules in which the requests of all tenants are interleaved,
-- and the burst at the edge of a window.
use Prim.Native.Nat.{min}
use backup_service.Common.{
  ℕ, ◌+◌, ◌-◌, ◌*◌, ◌≤◌, ◌<◌, ◌^◌, ◌≡◌, refl, some, List, [], ◌∷◌, ok, err, Result, arith,
  if◌then◌else◌, ◌==◌, length, All, insert,
}
use backup_service.Models.{Uuid}
use backup_service.RateLimit.{
  RateLimitConfig, Entry, Counters, RateLimitInfo, from_secs, bump, decide, check_and_increment,
}
use backup_service.RateLimit.Counting.{
  run, of_tenant, admitted, run-isolated, at, admitted-run_in_window, admitted-run_in_interval,
  count_of,
}

-- When the requests of a tenant come.
abbrev pub instants : Uuid → List (Uuid × ℕ) → List ℕ
instants tenant [] = []
instants tenant ((t, now) ∷ rs) =
    if t == tenant then now ∷ instants tenant rs else instants tenant rs

of_tenant-at :
    (tenant : Uuid) (rs : List (Uuid × ℕ)) → of_tenant tenant rs ≡ at tenant (instants tenant rs)
of_tenant-at tenant [] = refl
of_tenant-at tenant ((t, now) ∷ rs) = ground (arith, of_tenant-at tenant rs)

run-of_tenant-at :
    (config : RateLimitConfig) (tenant : Uuid) (rs : List (Uuid × ℕ)) (m : Counters)
    → of_tenant tenant (run config rs m) ≡ run config (at tenant (instants tenant rs)) m
run-of_tenant-at config tenant rs m = rw (run-isolated, of_tenant-at)

module _ (config : RateLimitConfig) (tenant : Uuid) (rs : List (Uuid × ℕ)) (m : Counters) where
  -- Let the limiter hold the entry `e` for a tenant. In a schedule of requests of many tenants in
  -- which those of the tenant all come before the window of `e` has run out and the counter does
  -- not wrap, exactly the lesser of their number and of `max_requests` less the count of `e` are
  -- admitted, whatever the other tenants do.
  pub window_quota :
      (e : Entry)
      → m tenant ≡ some e
      → All (λ now. now - e.since < from_secs config.window_secs) (instants tenant rs)
      → e.count + length (instants tenant rs) < 2 ^ 64
      → admitted (of_tenant tenant (run config rs m))
        ≡ min (length (instants tenant rs)) (config.max_requests - e.count)
  window_quota e found inside fits =
      rw run-of_tenant-at
        (admitted-run_in_window config tenant (instants tenant rs) e m found inside fits)

  -- In every schedule in which the requests of a tenant come within one interval as long as the
  -- window, at most twice `max_requests` of them are admitted, whatever entry the limiter holds,
  -- if the counter does not wrap.
  pub interval_quota :
      (a : ℕ)
      → All (λ now. (a ≤ now) × (now < a + from_secs config.window_secs)) (instants tenant rs)
      → count_of (m tenant) + length (instants tenant rs) + 1 < 2 ^ 64
      → admitted (of_tenant tenant (run config rs m)) ≤ 2 * config.max_requests
  interval_quota a inside fits =
      rw run-of_tenant-at
        (admitted-run_in_interval config tenant a (instants tenant rs) m inside fits)

abbrev pub remaining_of : Result RateLimitInfo (Unit {0}) → ℕ
remaining_of (ok info) = info.remaining
remaining_of (err _) = 0

remaining_of-decide :
    (config : RateLimitConfig) (e : Entry)
    → remaining_of (decide config e) ≡ config.max_requests - e.count
unfolding decide
remaining_of-decide config e = ground arith

insert_self : (k : Uuid) (e : Entry) (m : Counters) → insert k e m k ≡ some e
insert_self k e m = ground arith

-- The entry that a check leaves for its tenant.
abbrev pub counted : RateLimitConfig → Uuid → ℕ → Counters → Entry
counted config tenant now m = bump (m tenant) config now

-- The remaining number that a check reports, zero where it refuses, is kept: of the tenant's next
-- requests, while the window of the entry that the check left has not run out and the counter does
-- not wrap, exactly the lesser of their number and of that remaining number are admitted.
pub remaining_is_kept :
    (config : RateLimitConfig) (tenant : Uuid) (now : ℕ) (m : Counters) (rs : List (Uuid × ℕ))
    → All
        (λ t. t - (counted config tenant now m).since < from_secs config.window_secs)
        (instants tenant rs)
    → (counted config tenant now m).count + length (instants tenant rs) < 2 ^ 64
    → admitted (of_tenant tenant (run config rs (check_and_increment tenant config now m).1))
      ≡ min (length (instants tenant rs)) (remaining_of (check_and_increment tenant config now m).0)
unfolding check_and_increment
remaining_is_kept config tenant now m rs inside fits =
    let e = counted config tenant now m in
    rw remaining_of-decide
      (window_quota config tenant rs (insert tenant e m) e (insert_self tenant e m) inside fits)
