-- ===== src/Common/Lists.antt =====
-- Lists measured and indexed by native numbers, byte arrays as functions from the index, and
-- counted loops over a range.
use Prim.Native.Nat.{ℕ, zero, suc, ◌+◌, ◌-◌, ◌*◌, ◌≤◌, ◌<◌}
use mathlib.Core.Path.{◌≡◌, refl, ap, sym, ◌∙◌}
use mathlib.Core.List.{List, [], ◌∷◌, ◌++◌, map}
use native.Mathlib.Omega.{arith}
use openmc.Common.Tests.{◌==◌, ltb, leb, if◌then◌else◌}

module _ {ℓ} {A : Type ℓ} where
  abbrev pub length : List A → ℕ
  length [] = 0
  length (x ∷ xs) = suc (length xs)

  abbrev pub get_or : List A → ℕ → A → A
  get_or [] i d = d
  get_or (x ∷ xs) zero d = x
  get_or (x ∷ xs) (suc i) d = get_or xs i d

  abbrev pub take : ℕ → List A → List A
  take zero xs = []
  take (suc n) [] = []
  take (suc n) (x ∷ xs) = x ∷ take n xs

  abbrev pub drop : ℕ → List A → List A
  drop zero xs = xs
  drop (suc n) [] = []
  drop (suc n) (x ∷ xs) = drop n xs

  -- `f i ∷ f (i + 1) ∷ …`, with `n` entries
  abbrev pub tabulate_from : ℕ → ℕ → (ℕ → A) → List A
  tabulate_from i zero f = []
  tabulate_from i (suc n) f = f i ∷ tabulate_from (suc i) n f

  abbrev pub tabulate : ℕ → (ℕ → A) → List A
  tabulate n f = tabulate_from 0 n f

  -- An array with one entry written.
  abbrev pub update : (ℕ → A) → ℕ → A → ℕ → A
  update f i v k = if k == i then v else f k

  -- `memcpy` of a list to offset `off` of an array.
  abbrev pub blit : (ℕ → A) → ℕ → List A → A → ℕ → A
  blit f off xs d k =
      if leb off k then (if ltb k (off + length xs) then get_or xs (k - off) d else f k) else f k

  pub update_self : (f : ℕ → A) (i : ℕ) (v : A) → update f i v i ≡ v
  update_self f i v = ground arith

  pub length-append : (xs ys : List A) → length (xs ++ ys) ≡ length xs + length ys
  length-append [] ys = omega arith
  length-append (x ∷ xs) ys = omega (arith, length-append xs ys)

  pub get_or-append_left :
      (xs ys : List A) (i : ℕ) (d : A) → i < length xs → get_or (xs ++ ys) i d ≡ get_or xs i d
  get_or-append_left [] ys i d h = absurd (omega arith)
  get_or-append_left (x ∷ xs) ys zero d h = refl
  get_or-append_left (x ∷ xs) ys (suc i) d h = get_or-append_left xs ys i d (omega arith)

  pub get_or-append_right :
      (xs ys : List A) (i : ℕ) (d : A) → get_or (xs ++ ys) (length xs + i) d ≡ get_or ys i d
  get_or-append_right [] ys i d = ap (λ k. get_or ys k d) eq
    where
      eq : 0 + i ≡ i
      eq = omega arith
  get_or-append_right (x ∷ xs) ys i d =
      ap (λ k. get_or (x ∷ xs ++ ys) k d) eq ∙ get_or-append_right xs ys i d
    where
      eq : suc (length xs) + i ≡ suc (length xs + i)
      eq = omega arith

  pub take_all : (n : ℕ) (xs : List A) → n ≡ length xs → take n xs ≡ xs
  take_all zero [] h = refl
  take_all zero (x ∷ xs) h = absurd (omega arith)
  take_all (suc n) [] h = absurd (omega arith)
  take_all (suc n) (x ∷ xs) h = ap (◌∷◌ x) (take_all n xs (omega arith))

  -- What `blit` wrote, and what it left.
  pub blit-inside :
      (f : ℕ → A) (off : ℕ) (xs : List A) (d : A) (j : ℕ)
      → j < length xs
      → blit f off xs d (off + j) ≡ get_or xs j d
  blit-inside f off xs d j h = ground (arith, ap (λ k. get_or xs k d) eq)
    where
      eq : off + j - off ≡ j
      eq = omega arith

  pub blit-before :
      (f : ℕ → A) (off : ℕ) (xs : List A) (d : A) (k : ℕ) → k < off → blit f off xs d k ≡ f k
  blit-before f off xs d k h = ground arith

  pub length-tabulate_from : (i n : ℕ) (f : ℕ → A) → length (tabulate_from i n f) ≡ n
  length-tabulate_from i zero f = refl
  length-tabulate_from i (suc n) f = ap suc (length-tabulate_from (suc i) n f)

  pub length-tabulate : (n : ℕ) (f : ℕ → A) → length (tabulate n f) ≡ n
  length-tabulate n f = length-tabulate_from 0 n f

  pub get_or-tabulate_from :
      (i n : ℕ) (f : ℕ → A) (j : ℕ) (d : A) → j < n → get_or (tabulate_from i n f) j d ≡ f (i + j)
  get_or-tabulate_from i zero f j d h = absurd (omega arith)
  get_or-tabulate_from i (suc n) f zero d h = ap f (omega arith)
  get_or-tabulate_from i (suc n) f (suc j) d h =
      ground (arith, get_or-tabulate_from (suc i) n f j d (omega arith), ap f eq)
    where
      eq : suc i + j ≡ i + suc j
      eq = omega arith

  pub get_or-tabulate :
      (n : ℕ) (f : ℕ → A) (j : ℕ) (d : A) → j < n → get_or (tabulate n f) j d ≡ f j
  get_or-tabulate n f j d h = ground (arith, get_or-tabulate_from 0 n f j d h, ap f eq)
    where
      eq : 0 + j ≡ j
      eq = omega arith

  -- A table depends only on the values in its range.
  pub tabulate_from_ext :
      (i n : ℕ) (f g : ℕ → A)
      → ((k : ℕ) → i ≤ k → k < i + n → f k ≡ g k)
      → tabulate_from i n f ≡ tabulate_from i n g
  tabulate_from_ext i zero f g h = refl
  tabulate_from_ext i (suc n) f g h = ground (
    arith,
    h i (omega arith) (omega arith),
    tabulate_from_ext (suc i) n f g (λ k a b. h k (omega arith) (omega arith)),
  )

  pub tabulate_ext :
      (n : ℕ) (f g : ℕ → A) → ((k : ℕ) → k < n → f k ≡ g k) → tabulate n f ≡ tabulate n g
  tabulate_ext n f g h = tabulate_from_ext 0 n f g (λ k a b. h k (omega arith))

  -- A list is the table of its entries.
  pub tabulate_from-get_or :
      (i : ℕ) (xs : List A) (d : A) → tabulate_from i (length xs) (λ k. get_or xs (k - i) d) ≡ xs
  tabulate_from-get_or i [] d = refl
  tabulate_from-get_or i (x ∷ xs) d =
      ground (arith, ap (λ k. get_or (x ∷ xs) k d) eq, rest, tabulate_from-get_or (suc i) xs d)
    where
      eq : i - i ≡ 0
      eq = omega arith

      shift : (k : ℕ) → suc i ≤ k → get_or (x ∷ xs) (k - i) d ≡ get_or xs (k - suc i) d
      shift k h = ap (λ m. get_or (x ∷ xs) m d) step
        where
          step : k - i ≡ suc (k - suc i)
          step = omega arith

      rest :
          tabulate_from (suc i) (length xs) (λ k. get_or (x ∷ xs) (k - i) d)
          ≡ tabulate_from (suc i) (length xs) (λ k. get_or xs (k - suc i) d)
      rest = tabulate_from_ext (suc i) (length xs) _ _ (λ k a b. shift k a)

  pub tabulate-get_or : (xs : List A) (d : A) → tabulate (length xs) (λ k. get_or xs k d) ≡ xs
  tabulate-get_or xs d =
      tabulate_ext (length xs) (λ k. get_or xs k d) (λ k. get_or xs (k - 0) d)
        (λ k h. ap (λ m. get_or xs m d) (omega arith))
      ∙ tabulate_from-get_or 0 xs d

module _ {ℓ κ} {A : Type ℓ} {B : Type κ} (f : A → B) where
  pub length-map : (xs : List A) → length (map f xs) ≡ length xs
  length-map [] = refl
  length-map (x ∷ xs) = ap suc (length-map xs)

  pub get_or-map :
      (xs : List A) (i : ℕ) (a : A) (b : B)
      → i < length xs
      → get_or (map f xs) i b ≡ f (get_or xs i a)
  get_or-map [] i a b h = absurd (omega arith)
  get_or-map (x ∷ xs) zero a b h = refl
  get_or-map (x ∷ xs) (suc i) a b h = get_or-map xs i a b (omega arith)

  -- `map` entry by entry, the number of entries given
  pub tabulate-map :
      (n : ℕ) (xs : List A) (a : A) (b : B)
      → length xs ≡ n
      → tabulate n (λ i. f (get_or xs i a)) ≡ map f xs
  tabulate-map n xs a b e =
      tabulate_ext n (λ i. f (get_or xs i a)) (λ i. get_or (map f xs) i b)
        (λ i h. sym (get_or-map xs i a b (omega arith)))
      ∙ ap (λ k. tabulate k (λ i. get_or (map f xs) i b)) (sym (length-map xs ∙ e))
      ∙ tabulate-get_or (map f xs) b

-- Row-major offsets: a cell of an earlier row lies before the next row.
pub cell-lt : (i n j t : ℕ) → i < n → j < t → i * t + j < n * t
cell-lt i n j t h k = grind arith
