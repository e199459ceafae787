-- ===== src/Tests/Unit/RateLimit.antt =====
-- The tests of crates/backup-service/src/middleware/rate_limit.rs, at one instant.
use backup_service.Common.{
  ℕ, zero, suc, ◌≡◌, refl, Bool, true, false, not, ◌&&◌, Result, ok, err, is_ok, empty, ◌==◌,
}
use backup_service.Models.{Uuid}
use backup_service.RateLimit.{
  RateLimitConfig, RateLimitInfo, Counters, check_and_increment, bump, decide,
}

-- The counters after `n` checks of a tenant, and whether all of them were admitted.
abbrev checks : ℕ → Uuid → RateLimitConfig → Counters → Bool × Counters
checks zero tenant config counters = (true, counters)
checks (suc n) tenant config counters =
    let (result, counters') = check_and_increment tenant config 0 counters in
    let (admitted, counters'') = checks n tenant config counters' in
    (is_ok result && admitted, counters'')

abbrev remaining_is : ℕ → Result RateLimitInfo (Unit {0}) → Bool
remaining_is n (ok info) = info.remaining == n
remaining_is n (err e) = false

abbrev five : RateLimitConfig
five = record { max_requests = 5; window_secs = 60 }

abbrev three : RateLimitConfig
three = record { max_requests = 3; window_secs = 60 }

abbrev two : RateLimitConfig
two = record { max_requests = 2; window_secs = 60 }

abbrev allows_requests_under_limit : Uuid → Bool
allows_requests_under_limit tenant = (checks 5 tenant five empty).0

abbrev blocks_requests_over_limit : Uuid → Bool
blocks_requests_over_limit tenant =
    let (admitted, counters) = checks 3 tenant three empty in
    admitted && not (is_ok (check_and_increment tenant three 0 counters).0)

abbrev separate_tenants_have_separate_limits : Uuid → Uuid → Bool
separate_tenants_have_separate_limits tenant_a tenant_b =
    let (admitted, counters) = checks 2 tenant_a two empty in
    let (fourth, counters') = check_and_increment tenant_a two 0 counters in
    admitted && not (is_ok fourth) && is_ok (check_and_increment tenant_b two 0 counters').0

abbrev remaining_count_decreases : Uuid → Bool
remaining_count_decreases tenant =
    let (first, counters) = check_and_increment tenant five 0 empty in
    let (second, counters') = check_and_increment tenant five 0 counters in
    remaining_is 4 first && remaining_is 3 second

limiter-passes :
    allows_requests_under_limit 1
      && blocks_requests_over_limit 1
      && separate_tenants_have_separate_limits 1 2
      && remaining_count_decreases 1
    ≡ true
unfolding check_and_increment bump decide
limiter-passes = refl
