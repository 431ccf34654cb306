-- ===== src/Common/Count.antt =====
-- Counted loops over the indices below a bound.
use Prim.Native.Nat.{ℕ, zero, suc, ◌+◌, ◌≤◌, ◌<◌}
use mathlib.Core.Path.{◌≡◌, refl}
use mathlib.Core.Bool.{Bool, true, false}
use native.Mathlib.Omega.{arith}
use openmc.Common.Tests.{ltb, if◌then◌else◌}
use openmc.Common.Lists.{update}

-- How many of the indices below `n` pass.
abbrev pub count_below : ℕ → (ℕ → Bool) → ℕ
count_below zero p = 0
count_below (suc n) p = let rest = count_below n p in if p n then suc rest else rest

-- Whether all of the indices below `n` pass.
abbrev pub all_below : ℕ → (ℕ → Bool) → Bool
all_below zero p = true
all_below (suc n) p = let rest = all_below n p in if p n then rest else false

pub all_below_sound : (n : ℕ) (p : ℕ → Bool) (k : ℕ) → all_below n p ≡ true → k < n → p k ≡ true
all_below_sound zero p k h lt = absurd (omega arith)
all_below_sound (suc n) p k h lt = ground (arith, all_below_sound n p k)

pub all_below_complete :
    (n : ℕ) (p : ℕ → Bool) → ((k : ℕ) → k < n → p k ≡ true) → all_below n p ≡ true
all_below_complete zero p h = refl
all_below_complete (suc n) p h =
    ground (arith, h n (omega arith), all_below_complete n p (λ k lt. h k (omega arith)))

pub all_below_refuted : (n : ℕ) (p : ℕ → Bool) (k : ℕ) → p k ≡ false → k < n → all_below n p ≡ false
all_below_refuted zero p k h lt = absurd (omega arith)
all_below_refuted (suc n) p k h lt = ground (arith, all_below_refuted n p k h)

-- A test that holds wherever another does passes where the other passes.
pub all_below_mono :
    (n : ℕ) (p q : ℕ → Bool)
    → ((k : ℕ) → p k ≡ true → k < n → q k ≡ true)
    → all_below n p ≡ true
    → all_below n q ≡ true
all_below_mono zero p q h a = refl
all_below_mono (suc n) p q h a =
    ground (arith, h n, all_below_mono n p q (λ k e lt. h k e (omega arith)))

pub count_below-zero :
    (n : ℕ) (p : ℕ → Bool) → ((k : ℕ) → k < n → p k ≡ false) → count_below n p ≡ 0
count_below-zero zero p h = refl
count_below-zero (suc n) p h =
    ground (arith, h n (omega arith), count_below-zero n p (λ k lt. h k (omega arith)))

pub count_below_zero-eq : (n : ℕ) (p : ℕ → Bool) (k : ℕ) → count_below n p ≡ 0 → k < n → p k ≡ false
count_below_zero-eq zero p k h lt = absurd (omega arith)
count_below_zero-eq (suc n) p k h lt = ground (arith, count_below_zero-eq n p k)

pub count_below-le : (n : ℕ) (p : ℕ → Bool) → count_below n p ≤ n
count_below-le zero p = omega arith
count_below-le (suc n) p = ground (arith, count_below-le n p)

pub count_below_ext :
    (n : ℕ) (p q : ℕ → Bool) → ((k : ℕ) → k < n → p k ≡ q k) → count_below n p ≡ count_below n q
count_below_ext zero p q h = refl
count_below_ext (suc n) p q h =
    ground (arith, h n (omega arith), count_below_ext n p q (λ k lt. h k (omega arith)))

pub all_below_ext :
    (n : ℕ) (p q : ℕ → Bool) → ((k : ℕ) → k < n → p k ≡ q k) → all_below n p ≡ all_below n q
all_below_ext zero p q h = refl
all_below_ext (suc n) p q h =
    ground (arith, h n (omega arith), all_below_ext n p q (λ k lt. h k (omega arith)))

pub count_below-update :
    (n i : ℕ) (f : ℕ → Bool)
    → f i ≡ false
    → count_below n (update f i true) ≡ count_below n f + (if ltb i n then 1 else 0)
count_below-update zero i f h = ground (arith)
count_below-update (suc n) i f h = ground (arith, h, count_below-update n i f h)
