-- ===== src/RateLimit/Edge.antt =====
-- rate_limit.rs: the burst that a fixed window lets through at its edge.
use backup_service.Common.{
  ℕ, zero, suc, ◌+◌, ◌-◌, ◌*◌, ◌<◌, ◌^◌, ◌≡◌, refl, ap, some, List, [], ◌∷◌, ◌++◌, arith, length,
  All, insert, empty,
}
use backup_service.Models.{Uuid}
use backup_service.RateLimit.{
  RateLimitConfig, Entry, Counters, from_secs, bump, check_and_increment,
}
use backup_service.RateLimit.Counting.{run, admitted, at, admitted-run_opening, check_in_window}

abbrev pub repeat : ℕ → ℕ → List ℕ
repeat zero now = []
repeat (suc n) now = now ∷ repeat n now

length-repeat : (n now : ℕ) → length (repeat n now) ≡ n
length-repeat zero now = refl
length-repeat (suc n) now = ap suc (length-repeat n now)

All-repeat : (P : ℕ → Type 0) (n now : ℕ) → P now → All P (repeat n now)
All-repeat P zero now p = tt
All-repeat P (suc n) now p = (p, All-repeat P n now p)

-- The counters after requests of one tenant.
finish : RateLimitConfig → Uuid → List ℕ → Counters → Counters
finish config tenant [] m = m
finish config tenant (now ∷ nows) m =
    finish config tenant nows (check_and_increment tenant config now m).1

module _ (config : RateLimitConfig) (tenant : Uuid) where
  admitted-run_append :
      (xs ys : List ℕ) (m : Counters)
      → admitted (run config (at tenant (xs ++ ys)) m)
        ≡ admitted (run config (at tenant xs) m)
          + admitted (run config (at tenant ys) (finish config tenant xs m))
  unfolding run finish
  admitted-run_append [] ys m = omega arith
  admitted-run_append (now ∷ xs) ys m =
      omega (arith, admitted-run_append xs ys (check_and_increment tenant config now m).1)

  finish_in_window :
      (nows : List ℕ) (e : Entry) (m : Counters)
      → m tenant ≡ some e
      → All (λ now. now - e.since < from_secs config.window_secs) nows
      → e.count + length nows < 2 ^ 64
      → finish config tenant nows m tenant ≡ some (record e { count = e.count + length nows })
  unfolding finish check_and_increment
  finish_in_window [] e m found inside fits = ground arith
  finish_in_window (now ∷ nows) e m found (here, later) fits =
      let e' : Entry = record e { count = e.count + 1 } in
      let step = check_in_window config tenant now e m found here (omega arith) in
      rw step (ground (arith, finish_in_window nows e' (insert tenant e' m)))

  finish_opening :
      (now : ℕ) (nows : List ℕ) (m : Counters)
      → bump (m tenant) config now ≡ record { count = 1; since = now }
      → All (λ t. t - now < from_secs config.window_secs) nows
      → length nows + 1 < 2 ^ 64
      → finish config tenant (now ∷ nows) m tenant
        ≡ some (record { count = suc (length nows); since = now })
  unfolding finish check_and_increment
  finish_opening now nows m step inside fits =
      let e : Entry = record { count = 1; since = now } in
      rw step (ground (arith, finish_in_window nows e (insert tenant e m)))

-- One request opens a window, `k` come at its last instant and `k + 1` at the first of the next.
abbrev pub burst : RateLimitConfig → ℕ → ℕ → List ℕ
burst config k start =
    (start ∷ repeat k (start + from_secs config.window_secs - 1))
    ++ repeat (suc k) (start + from_secs config.window_secs)

module _ (config : RateLimitConfig) (tenant : Uuid) (k start : ℕ)
    (max : config.max_requests ≡ suc k) (opens : 0 < config.window_secs)
    (fits : k + 2 < 2 ^ 64) where
  abbrev opening : Entry
  opening = record { count = 1; since = start }

  opens_empty : bump (empty {V = Entry} tenant) config start ≡ opening
  unfolding bump
  opens_empty = ground arith

  abbrev first_window : List ℕ
  first_window = start ∷ repeat k (start + from_secs config.window_secs - 1)

  first_half : admitted (run config (at tenant first_window) empty) ≡ suc k
  first_half = omega (
    arith,
    length-repeat k (start + from_secs config.window_secs - 1),
    admitted-run_opening config tenant start (repeat k (start + from_secs config.window_secs - 1))
        empty opens_empty (All-repeat _ k _ (omega arith)) (rw length-repeat (omega arith)),
  )

  after_first :
      finish config tenant first_window empty tenant
      ≡ some (record { count = suc k; since = start })
  after_first =
      let late = start + from_secs config.window_secs - 1 in
      let left =
        finish_opening config tenant start (repeat k late) empty opens_empty
          (All-repeat _ k late (omega arith)) (rw length-repeat (omega arith)) in
      rw length-repeat at left

  reopens :
      bump
        (finish config tenant first_window empty tenant)
        config
        (start + from_secs config.window_secs)
      ≡ record { count = 1; since = start + from_secs config.window_secs }
  unfolding bump
  reopens = rw after_first (ground arith)

  second_half :
      admitted (
        run config
          (at tenant (repeat (suc k) (start + from_secs config.window_secs)))
          (finish config tenant first_window empty))
      ≡ suc k
  second_half =
      let edge = start + from_secs config.window_secs in
      omega (
        arith,
        length-repeat k edge,
        admitted-run_opening config tenant edge (repeat k edge)
            (finish config tenant first_window empty) reopens (All-repeat _ k edge (omega arith))
            (rw length-repeat (omega arith)),
      )

  -- For every window above zero and limit above zero and below 2 ^ 64 - 1, a limiter that has
  -- seen no request admits all of twice `max_requests` requests of one tenant, of which all but
  -- the first come within one nanosecond at the edge of the window.
  pub burst_at_edge :
      admitted (run config (at tenant (burst config k start)) empty) ≡ 2 * config.max_requests
  burst_at_edge =
      let split =
        admitted-run_append config tenant first_window
          (repeat (suc k) (start + from_secs config.window_secs)) empty in
      omega (arith, split, first_half, second_half)
