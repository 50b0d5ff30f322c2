-- ===== src/RateLimit/Window.antt =====
-- How many calls `rate_limit_allow` of Guardian/src/player.cpp lets through.
use nicechunk_guardian.Base.{
  ℕ, suc, ◌+◌, ◌-◌, ◌*◌, ◌%◌, ◌^◌, ◌≤◌, ◌<◌, ◌≡◌, false, List, [], ◌∷◌, arith, All, length, min,
  leb, if◌then◌else◌, Bool-cases, inl, inr,
}
use nicechunk_guardian.RateLimit.{RateWindow, sub64, rate_limit_allow}

-- The number of calls allowed of those at the given times, in order.
pub allowed : RateWindow → ℕ → List ℕ → ℕ
allowed w limit [] = 0
allowed w limit (t ∷ ts) =
    let r = rate_limit_allow t w limit in
    let rest = allowed r.0 limit ts in if r.1 then suc rest else rest

abbrev pub IsTime : ℕ → Type 0
IsTime t = t < 2 ^ 64

-- The times of a burst: from `a` on, for less than a second.
abbrev pub Within : ℕ → ℕ → Type 0
Within a t = (a ≤ t) × (t < a + 1000) × IsTime t

-- With a 16-bit limit and a count that is not above it, of the calls in the second after the window
-- began exactly the first are allowed, up to what is left of the limit.
pub allowed_same_window :
    (w : RateWindow) (limit : ℕ) (ts : List ℕ)
    → limit < 2 ^ 16
    → w.count ≤ limit
    → All (Within w.window_ms) ts
    → allowed w limit ts ≡ min (limit - w.count) (length ts)
unfolding allowed rate_limit_allow
allowed_same_window w limit [] hl hc h = omega arith
allowed_same_window w limit (t ∷ ts) hl hc h =
    let same : leb 1000 (sub64 t w.window_ms) ≡ false = ground arith in
    elim (Bool-cases (leb limit w.count)) [
      | inl full ↦ rw (same, full) (rw (allowed_same_window w limit ts hl hc h.1) (ground arith))
      | inr room ↦
          rw (same, room)
            (ground (
              arith,
              allowed_same_window (record w { count = (w.count + 1) % 2 ^ 16 }) limit ts hl
                  (ground arith) h.1,
            ))
    ]

-- Times that do not fall, from `a` on and before `b`.
abbrev pub Burst : ℕ → ℕ → List ℕ → Type 0
Burst a b [] = Unit {0}
Burst a b (t ∷ ts) = (a ≤ t) × (t < b) × Burst t b ts

Burst-Within :
    (w a b : ℕ) (ts : List ℕ) → w ≤ a → b ≤ w + 1000 → b ≤ 2 ^ 64 → Burst a b ts → All (Within w) ts
Burst-Within w a b [] hw hb h64 h = tt
Burst-Within w a b (t ∷ ts) hw hb h64 h =
    ((omega arith, omega arith, omega arith), Burst-Within w t b ts (omega arith) hb h64 h.2)

allowed_fresh :
    (t b limit : ℕ) (ts : List ℕ)
    → limit < 2 ^ 16
    → b ≤ t + 1000
    → b ≤ 2 ^ 64
    → Burst t b ts
    → (n : ℕ) → n ≤ limit
    → allowed (record { window_ms = t; count = n }) limit ts ≤ limit - n
allowed_fresh t b limit ts hl hb h64 h n hn = omega (
  arith,
  allowed_same_window (record { window_ms = t; count = n }) limit ts hl hn
      (Burst-Within t t b ts (omega arith) hb h64 h),
)

-- Of the calls of less than one second, the rest of the old window's limit and one more limit are
-- allowed at most.
allowed-Burst :
    (w : RateWindow) (a b limit : ℕ) (ts : List ℕ)
    → limit < 2 ^ 16
    → w.count ≤ limit
    → b ≤ a + 1000
    → b ≤ 2 ^ 64
    → Burst a b ts
    → allowed w limit ts ≤ (limit - w.count) + limit
unfolding allowed rate_limit_allow
allowed-Burst w a b limit [] hl hc hb h64 h = omega arith
allowed-Burst w a b limit (t ∷ ts) hl hc hb h64 h =
    elim (Bool-cases (leb 1000 (sub64 t w.window_ms))) [
      | inl reset ↦ elim (Bool-cases (leb limit 0)) [
        | inl full ↦
            rw (reset, full)
              (omega (arith, allowed_fresh t b limit ts hl (omega arith) h64 h.2 0 (omega arith)))
        | inr room ↦
            let one : 1 ≤ limit = ground arith in
            rw (reset, room)
              (omega (arith, allowed_fresh t b limit ts hl (omega arith) h64 h.2 1 one))
      ]
      | inr same ↦ elim (Bool-cases (leb limit w.count)) [
        | inl full ↦ rw (same, full) (allowed-Burst w t b limit ts hl hc (omega arith) h64 h.2)
        | inr room ↦
            let less : w.count + 1 ≤ limit = ground arith in
            let next : (w.count + 1) % 2 ^ 16 ≡ w.count + 1 = omega arith in
            rw (same, room, next)
              (omega (
                arith,
                allowed-Burst (record w { count = w.count + 1 }) t b limit ts hl less (omega arith)
                    h64 h.2,
              ))
      ]
    ]

-- With a 16-bit limit, a count that is not above it and a clock below 2^64, at most twice the limit
-- is allowed in any stretch of at most a second whose times do not fall.
pub allowed-le-twice :
    (w : RateWindow) (a b limit : ℕ) (ts : List ℕ)
    → limit < 2 ^ 16
    → w.count ≤ limit
    → b ≤ a + 1000
    → b ≤ 2 ^ 64
    → Burst a b ts
    → allowed w limit ts ≤ 2 * limit
allowed-le-twice w a b limit ts hl hc hb h64 h =
    omega (arith, allowed-Burst w a b limit ts hl hc hb h64 h)
