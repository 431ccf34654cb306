-- ===== src/TrafficGen/Slots.antt =====
-- The arithmetic of the pacing slots, where the clock and the window stay below 2^63 and the period is
-- not zero: no sum wraps.
use openmc.Common.{ℕ, ◌+◌, ◌-◌, ◌*◌, ◌/◌, ◌^◌, ◌≤◌, ◌<◌, ◌≡◌, arith}
use openmc.TrafficGen.{Options, World, ns_per_s, period_ns, deadline, slot_deadline}
use native.Mathlib.Nat.{div-mul-le_self, div-le_self, lt-div-mul-add, le-div_iff_mul-le}

-- The window, in nanoseconds.
abbrev pub window : Options → ℕ
window o = o.duracion * ns_per_s

-- The slots that begin inside the window, at most.
abbrev pub slot_bound : Options → ℕ
slot_bound o = window o / period_ns o + 1

-- The clock never reaches 2^63, nor does the end of the window, and the rate is at most one datagram
-- per nanosecond.
pub record Sane (w : World) (o : Options) (start : ℕ) : Type 0 where
  pub clock_bound : (n : ℕ) → w.clock n < 2 ^ 63
  pub window_bound : start + window o < 2 ^ 63
  pub rate_pos : 0 < o.pps
  pub rate_bound : o.pps ≤ ns_per_s

pub add_mul : (a b p : ℕ) → (a + b) * p ≡ a * p + b * p
add_mul a b p = omega arith

pub mul_mono : (a b p : ℕ) → a ≤ b → a * p ≤ b * p
mul_mono a b p h = grind arith

pub mul-lt_cancel : (a b p : ℕ) → a * p < b * p → a < b
mul-lt_cancel a b p h = grind arith

module _ (w : World) (o : Options) (start : ℕ) (s : Sane w o start) where
  pub period-pos : 0 < period_ns o
  unfolding period_ns
  period-pos = omega (
    arith,
    (le-div_iff_mul-le {k = o.pps} {x = 1} {y = ns_per_s} (s.rate_pos)).1
        (omega (arith, s.rate_bound)),
  )

  pub period-le : period_ns o ≤ ns_per_s
  unfolding period_ns
  period-le = div-le_self ns_per_s o.pps

  pub deadline_sum : deadline w o start ≡ start + window o
  deadline_sum = omega (arith, s.window_bound)

  pub slot_deadline_sum :
      (slot : ℕ)
      → slot * period_ns o < 2 ^ 63
      → slot_deadline w o start slot ≡ start + slot * period_ns o
  slot_deadline_sum slot h = omega (arith, s.window_bound, h)

  pub slot-le : (slot : ℕ) → slot ≤ slot * period_ns o
  slot-le slot = omega (arith, mul_mono 1 (period_ns o) slot period-pos)

  -- A slot that begins in the window is below the bound, and one at most at the bound begins less than
  -- a period after its end.
  pub slot-lt : (slot : ℕ) → slot * period_ns o < window o → slot < slot_bound o
  slot-lt slot h = mul-lt_cancel slot (slot_bound o) (period_ns o) (
      omega (
        arith,
        h,
        lt-div-mul-add {a = window o} {b = period_ns o} period-pos,
        add_mul (window o / period_ns o) 1 (period_ns o),
      ))

  pub bound_end : (slot : ℕ) → slot ≤ slot_bound o → slot * period_ns o ≤ window o + period_ns o
  bound_end slot h = omega (
    arith,
    mul_mono slot (slot_bound o) (period_ns o) h,
    div-mul-le_self (window o) (period_ns o),
    add_mul (window o / period_ns o) 1 (period_ns o),
  )

  pub skip_end :
      (slot now : ℕ)
      → start + slot * period_ns o ≤ now
      → start + (slot + (now - (start + slot * period_ns o)) / period_ns o) * period_ns o ≤ now
  skip_end slot now h = omega (
    arith,
    add_mul slot ((now - (start + slot * period_ns o)) / period_ns o) (period_ns o),
    div-mul-le_self (now - (start + slot * period_ns o)) (period_ns o),
  )
