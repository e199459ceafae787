-- ===== src/RateLimit/Counting.antt =====
-- rate_limit.rs: how many requests the limiter lets through, over any schedule of requests.
use Prim.Native.Nat.{min}
use backup_service.Common.{
  ℕ, ◌+◌, ◌-◌, ◌*◌, ◌≤◌, ◌<◌, ◌^◌, ◌≡◌, refl, Bool, Option, none, some, List, [], ◌∷◌, arith,
  if◌then◌else◌, insert, leb, ◌⊎◌, ◌==◌, select, length, All, is_ok, Bool-cases, inl, inr,
}
use backup_service.Models.{Uuid}
use backup_service.RateLimit.{
  RateLimitConfig, Entry, Counters, from_secs, bump, decide, check_and_increment,
}

-- The requests of a schedule, each a tenant and an instant, one after another; the verdicts.
unfoldable pub run : RateLimitConfig → List (Uuid × ℕ) → Counters → List (Uuid × Bool)
run config [] counters = []
run config ((tenant, now) ∷ rest) counters =
    let (verdict, counters') = check_and_increment tenant config now counters in
    (tenant, is_ok verdict) ∷ run config rest counters'

-- The requests, or the verdicts, of one tenant.
abbrev pub of_tenant {ℓ} : {A : Type ℓ} → Uuid → List (Uuid × A) → List (Uuid × A)
of_tenant tenant = select (λ r. r.0 == tenant)

abbrev pub admitted : List (Uuid × Bool) → ℕ
admitted [] = 0
admitted ((tenant, verdict) ∷ rest) = (if verdict then 1 else 0) + admitted rest

-- Two states of the counters that agree on a tenant give its requests the same verdicts, and the
-- requests of the other tenants make no difference, however they are interleaved.
run-of_tenant :
    (config : RateLimitConfig) (tenant : Uuid) (rs : List (Uuid × ℕ)) (m m' : Counters)
    → m tenant ≡ m' tenant
    → of_tenant tenant (run config rs m) ≡ run config (of_tenant tenant rs) m'
unfolding run check_and_increment
run-of_tenant config tenant [] m m' same = refl
run-of_tenant config tenant ((t, now) ∷ rs) m m' same =
    let entry = bump (m t) config now in
    let entry' = bump (m' t) config now in
    ground (
      arith,
      run-of_tenant config tenant rs (insert t entry m) (insert t entry' m'),
      run-of_tenant config tenant rs (insert t entry m) m',
    )

-- In every interleaving of requests the verdicts of a tenant are those of its own requests alone.
pub run-isolated :
    (config : RateLimitConfig) (tenant : Uuid) (rs : List (Uuid × ℕ)) (counters : Counters)
    → of_tenant tenant (run config rs counters) ≡ run config (of_tenant tenant rs) counters
run-isolated config tenant rs counters = run-of_tenant config tenant rs counters counters refl

-- Requests of one tenant at given instants.
abbrev pub at : Uuid → List ℕ → List (Uuid × ℕ)
at tenant [] = []
at tenant (now ∷ nows) = (tenant, now) ∷ at tenant nows

-- What one check does to an entry whose window has not run out.
pub check_in_window :
    (config : RateLimitConfig) (tenant : Uuid) (now : ℕ) (e : Entry) (m : Counters)
    → m tenant ≡ some e
    → now - e.since < from_secs config.window_secs
    → e.count + 1 < 2 ^ 64
    → bump (m tenant) config now ≡ record e { count = e.count + 1 }
unfolding bump
check_in_window config tenant now e m found fresh fits = ground arith

-- Within one window the requests are admitted until the count reaches `max_requests`.
pub admitted-run_in_window :
    (config : RateLimitConfig) (tenant : Uuid) (nows : List ℕ) (e : Entry) (m : Counters)
    → m tenant ≡ some e
    → All (λ now. now - e.since < from_secs config.window_secs) nows
    → e.count + length nows < 2 ^ 64
    → admitted (run config (at tenant nows) m) ≡ min (length nows) (config.max_requests - e.count)
unfolding run check_and_increment decide
admitted-run_in_window config tenant [] e m found fresh fits = omega arith
admitted-run_in_window config tenant (now ∷ nows) e m found (here, later) fits =
    let e' : Entry = record e { count = e.count + 1 } in
    let step = check_in_window config tenant now e m found here (omega arith) in
    rw step (ground (arith, admitted-run_in_window config tenant nows e' (insert tenant e' m)))

abbrev pub count_of : Option Entry → ℕ
count_of none = 0
count_of (some e) = e.count

-- A request that opens a window, and those that follow within it.
pub admitted-run_opening :
    (config : RateLimitConfig) (tenant : Uuid) (now : ℕ) (nows : List ℕ) (m : Counters)
    → bump (m tenant) config now ≡ record { count = 1; since = now }
    → All (λ t. t - now < from_secs config.window_secs) nows
    → length nows + 1 < 2 ^ 64
    → admitted (run config (at tenant (now ∷ nows)) m) ≡ min (length nows + 1) config.max_requests
unfolding run check_and_increment decide
admitted-run_opening config tenant now nows m opened inside fits =
    let e : Entry = record { count = 1; since = now } in
    rw opened (ground (arith, admitted-run_in_window config tenant nows e (insert tenant e m)))

All-shift :
    (a now w : ℕ) (nows : List ℕ)
    → a ≤ now
    → All (λ t. (a ≤ t) × (t < a + w)) nows
    → All (λ t. t - now < w) nows
All-shift a now w [] le h = tt
All-shift a now w (t ∷ nows) le (here, later) = (omega arith, All-shift a now w nows le later)

-- A request opens a window of its own, or is counted in the one that is open.
bump-cases :
    (config : RateLimitConfig) (o : Option Entry) (now : ℕ)
    → count_of o + 1 < 2 ^ 64
    → (bump o config now ≡ record { count = 1; since = now })
      ⊎ ((e : Entry) × (o ≡ some e) × (bump o config now ≡ record e { count = e.count + 1 }))
unfolding bump
bump-cases config none now fits = inl (ground arith)
bump-cases config (some e) now fits =
    elim (Bool-cases (leb (from_secs config.window_secs) (now - e.since))) [
      | inl expired ↦ inl (ground arith)
      | inr running ↦ inr (e, refl, ground arith)
    ]

module _ (config : RateLimitConfig) (tenant : Uuid) (a : ℕ) where
  interval_bound :
      (nows : List ℕ) (m : Counters)
      → All (λ t. (a ≤ t) × (t < a + from_secs config.window_secs)) nows
      → count_of (m tenant) + length nows + 1 < 2 ^ 64
      → admitted (run config (at tenant nows) m)
        ≤ config.max_requests - count_of (m tenant) + config.max_requests
  unfolding run check_and_increment decide
  interval_bound [] m inside fits = omega arith
  interval_bound (now ∷ nows) m (here, later) fits =
      elim (bump-cases config (m tenant) now (omega arith)) [
        | inl opened ↦
            let rest = All-shift a now (from_secs config.window_secs) nows here.0 later in
            omega (arith, admitted-run_opening config tenant now nows m opened rest (omega arith))
        | inr (e, found, step) ↦
            let e' : Entry = record e { count = e.count + 1 } in
            rw step (rw found (ground (arith, interval_bound nows (insert tenant e' m) later)))
      ]

pub admitted-run_in_interval :
    (config : RateLimitConfig) (tenant : Uuid) (a : ℕ) (nows : List ℕ) (m : Counters)
    → All (λ t. (a ≤ t) × (t < a + from_secs config.window_secs)) nows
    → count_of (m tenant) + length nows + 1 < 2 ^ 64
    → admitted (run config (at tenant nows) m) ≤ 2 * config.max_requests
admitted-run_in_interval config tenant a nows m inside fits =
    omega (arith, interval_bound config tenant a nows m inside fits)
