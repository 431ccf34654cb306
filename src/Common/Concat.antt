-- ===== src/Common/Concat.antt =====
-- Lists one behind the other, and a table of one more stretch.
use Prim.Native.Nat.{ℕ, zero, suc, ◌+◌, ◌-◌}
use mathlib.Core.Path.{◌≡◌, refl, ap, ap₂, ◌∙◌}
use mathlib.Core.List.{List, [], ◌∷◌, ◌++◌}
use native.Mathlib.Omega.{arith}
use openmc.Common.Lists.{
  length, get_or, tabulate_from, tabulate, tabulate_from_ext, tabulate_from-get_or, blit,
  blit-before, tabulate_ext,
}

module _ {ℓ} {A : Type ℓ} where
  -- The lists one behind the other.
  abbrev pub join : List (List A) → List A
  join [] = []
  join (xs ∷ xss) = xs ++ join xss

  -- Each list has this length.
  abbrev pub AllLen : ℕ → List (List A) → Type 0
  AllLen len [] = len ≡ len
  AllLen len (xs ∷ xss) = (length xs ≡ len) × AllLen len xss

  pub append-nil : (xs : List A) → xs ++ [] ≡ xs
  append-nil [] = refl
  append-nil (x ∷ xs) = ap (◌∷◌ x) (append-nil xs)

  pub append_assoc : (xs ys zs : List A) → (xs ++ ys) ++ zs ≡ xs ++ (ys ++ zs)
  append_assoc [] ys zs = refl
  append_assoc (x ∷ xs) ys zs = ap (◌∷◌ x) (append_assoc xs ys zs)

  same_table : (i j m n : ℕ) (f : ℕ → A) → i ≡ j → m ≡ n → tabulate_from i m f ≡ tabulate_from j n f
  same_table i j m n f p q = ap₂ (λ k l. tabulate_from k l f) p q

  pub tabulate_from-append :
      (i m n : ℕ) (f : ℕ → A)
      → tabulate_from i (m + n) f ≡ tabulate_from i m f ++ tabulate_from (i + m) n f
  tabulate_from-append i zero n f = same_table i (i + 0) (0 + n) n f (omega arith) (omega arith)
  tabulate_from-append i (suc m) n f =
      same_table i i (suc m + n) (suc (m + n)) f refl (omega arith)
      ∙ ap (◌∷◌ (f i)) (
          tabulate_from-append (suc i) m n f
          ∙ ap (◌++◌ (tabulate_from (suc i) m f))
              (same_table (suc i + m) (i + suc m) n n f (omega arith) refl))

  written :
      (m : ℕ) (f : ℕ → A) (xs : List A) (d : A)
      → tabulate_from (0 + m) (length xs) (blit f m xs d) ≡ xs
  written m f xs d =
      ap (λ k. tabulate_from k (length xs) (blit f m xs d)) (omega arith)
      ∙ tabulate_from_ext m (length xs) (blit f m xs d) (λ k. get_or xs (k - m) d)
          (λ k a b. ground (arith, a, b))
      ∙ tabulate_from-get_or m xs d

  -- A list written behind what a table covers.
  pub tabulate-blit :
      (m : ℕ) (f : ℕ → A) (xs : List A) (d : A)
      → tabulate (m + length xs) (blit f m xs d) ≡ tabulate m f ++ xs
  tabulate-blit m f xs d =
      tabulate_from-append 0 m (length xs) (blit f m xs d)
      ∙ ap (λ l. l ++ tabulate_from (0 + m) (length xs) (blit f m xs d))
          (tabulate_ext m _ f (λ k h. blit-before f m xs d k h))
      ∙ ap (λ l. tabulate m f ++ l) (written m f xs d)
