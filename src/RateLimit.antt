-- ===== src/RateLimit.antt =====
-- crates/backup-service/src/middleware/rate_limit.rs: the in-memory counters of
-- `InMemoryRateLimiter`. An `Instant` and a `Duration` are numbers of nanoseconds; the counter is a
-- `u64` and wraps as a release build does. One call holds the lock from its first to its last line,
-- so it is one step of the state.
pub mod Counting
pub mod Edge
pub mod Schedule
use backup_service.Common.{
  ℕ, ◌+◌, ◌-◌, ◌*◌, ◌%◌, ◌^◌, Bool, Option, Map, insert, Result, ok, err, leb, ltb, unwrap_or,
  if◌then◌else◌,
}
use backup_service.Models.{Uuid}

pub record RateLimitConfig : Type 0 where
  pub max_requests : ℕ
  pub window_secs : ℕ

-- `RateLimitConfig::default`
abbrev pub default : RateLimitConfig
default = record { max_requests = 100; window_secs = 60 }

-- `(u64, Instant)`
pub record Entry : Type 0 where
  pub count : ℕ
  pub since : ℕ

abbrev pub Counters : Type 0
Counters = Map Entry

pub record RateLimitInfo : Type 0 where
  pub limit : ℕ
  pub remaining : ℕ
  pub reset_secs : ℕ

abbrev pub from_secs : ℕ → ℕ
from_secs s = s * 1_000_000_000

-- `*counters.entry(tenant_id).or_insert((0, now))`
abbrev entry_or_insert : Option Entry → ℕ → Entry
entry_or_insert found now = unwrap_or found (record { count = 0; since = now })

-- `duration_since` is zero if the entry's instant is later.
abbrev reset_if_expired : Entry → ℕ → ℕ → Entry
reset_if_expired entry now window =
    if leb window (now - entry.since) then record { count = 0; since = now } else entry

-- The entry after `entry.0 += 1`.
unfoldable pub bump : Option Entry → RateLimitConfig → ℕ → Entry
bump found config now =
    let entry = reset_if_expired (entry_or_insert found now) now (from_secs config.window_secs) in
    record entry { count = (entry.count + 1) % 2 ^ 64 }

unfoldable pub decide : RateLimitConfig → Entry → Result RateLimitInfo (Unit {0})
decide config entry =
    if ltb config.max_requests entry.count
    then err tt
    else ok (record {
      limit = config.max_requests;
      remaining = config.max_requests - entry.count;
      reset_secs = config.window_secs;
    })

unfoldable pub check_and_increment :
    Uuid → RateLimitConfig → ℕ → Counters → Result RateLimitInfo (Unit {0}) × Counters
check_and_increment tenant_id config now counters =
    let entry = bump (counters tenant_id) config now in
    (decide config entry, insert tenant_id entry counters)
