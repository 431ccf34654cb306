-- ===== src/RsReceiver/Columns.antt =====
-- The loop of edge_receiver_rs.c that copies a column back: which bytes it takes from the codeword.
use openmc.Common.{
  ℕ, zero, suc, ◌+◌, ◌<◌, ◌≡◌, refl, ◌∙◌, inl, inr, Bool, true, false, ◌||◌, List, [], ◌∷◌, ◌==◌,
  length, get_or, if◌then◌else◌, arith, ◌⊎◌, ◌≤◌, subst, sym, ap, ap₂, lt→ltb,
}
use openmc.RsHost.{k_data}
use openmc.RsReceiver.Process.{
  ℤ, pos, negsuc, Decoded, copy_byte, copy_back, absent_from, eras_pos, codeword, decode_columns,
}
use openmc.RsReceiver.{GenState}
use openmc.Env.{Env}

abbrev is_pos : ℕ → ℤ → Bool
is_pos i (pos idx) = i == idx
is_pos i (negsuc m) = false

-- One of the `n` elements from `e` on is `i`.
abbrev pub reported : ℕ → ℕ → (ℕ → ℤ) → ℕ → Bool
reported e zero positions i = false
reported e (suc n) positions i = is_pos i (positions e) || reported (suc e) n positions i

copied_byte :
    (z : ℤ) (d : Decoded) (column : ℕ → ℕ) (i : ℕ)
    → i < k_data
    → copy_byte z d column i ≡ (if is_pos i z then get_or d.symbols i 0 else column i)
copied_byte (pos idx) d column i lt = ground arith
copied_byte (negsuc m) d column i lt = refl

pub copy_back-lem :
    (e n : ℕ) (d : Decoded) (column : ℕ → ℕ) (i : ℕ)
    → i < k_data
    → copy_back e n d column i
      ≡ (if reported e n d.positions i then get_or d.symbols i 0 else column i)
unfolding copy_back
copy_back-lem e zero d column i lt = refl
copy_back-lem e (suc n) d column i lt =
    copy_back-lem (suc e) n d _ i lt ∙ ground (arith, copied_byte (d.positions e) d column i lt)

kept_byte :
    (z : ℤ) (d : Decoded) (column : ℕ → ℕ) (i : ℕ) → k_data ≤ i → copy_byte z d column i ≡ column i
kept_byte (pos idx) d column i le = ground arith
kept_byte (negsuc m) d column i le = refl

pub copy_back-outside :
    (e n : ℕ) (d : Decoded) (column : ℕ → ℕ) (i : ℕ)
    → k_data ≤ i
    → copy_back e n d column i ≡ column i
unfolding copy_back
copy_back-outside e zero d column i le = refl
copy_back-outside e (suc n) d column i le =
    copy_back-outside (suc e) n d _ i le ∙ kept_byte (d.positions e) d column i le

-- The array holds the list, from the element `e` on.
abbrev pub Holds : ℕ → List ℕ → (ℕ → ℤ) → Type 0
Holds e xs positions = (k : ℕ) → k < length xs → positions (e + k) ≡ pos (get_or xs k 0)

pub unchanged-Holds : (xs : List ℕ) → Holds 0 xs (λ e. pos (get_or xs e 0))
unchanged-Holds xs k lt = ap (λ n. pos (get_or xs n 0)) same
  where
    same : 0 + k ≡ k
    same = omega arith

abbrev among : ℕ → List ℕ → Bool
among i [] = false
among i (x ∷ xs) = (i == x) || among i xs

le-cases : (a i : ℕ) → a ≤ i → (a ≡ i) ⊎ (a < i)
le-cases a i le = ground arith

among-here :
    (i n : ℕ) (present : ℕ → Bool)
    → present i ≡ false
    → among i (absent_from i (suc n) present) ≡ true
among-here i n present lost = ground arith

among-absent :
    (i a n : ℕ) (present : ℕ → Bool)
    → present i ≡ false
    → a ≤ i
    → i < a + n
    → among i (absent_from a n present) ≡ true
among-absent i a zero present lost le lt = absurd (omega arith)
among-absent i a (suc n) present lost le lt = elim (le-cases a i le) [
  | inl e ↦
      subst (λ b. among i (absent_from b (suc n) present) ≡ true) (sym e)
        (among-here i n present lost)
  | inr up ↦ ground (arith, among-absent i (suc a) n present lost up (omega (arith, lt)))
]

later-Holds :
    (e x : ℕ) (xs : List ℕ) (positions : ℕ → ℤ)
    → Holds e (x ∷ xs) positions
    → Holds (suc e) xs positions
later-Holds e x xs positions h k lt = ap positions (next e k) ∙ h (suc k) (omega (arith, lt))
  where
    next : (e k : ℕ) → suc e + k ≡ e + suc k
    next e k = omega arith

reported-among :
    (i e : ℕ) (xs : List ℕ) (positions : ℕ → ℤ)
    → Holds e xs positions
    → reported e (length xs) positions i ≡ among i xs
reported-among i e [] positions h = refl
reported-among i e (x ∷ xs) positions h =
    ap₂ (λ z b. is_pos i z || b) first
      (reported-among i (suc e) xs positions (later-Holds e x xs positions h))
  where
    same : e + 0 ≡ e
    same = omega arith

    first : positions e ≡ pos x
    first = ap positions (sym same) ∙ h 0 (omega arith)

-- An array that holds the indices that are not there reports each of them.
pub reported-absent :
    (present : ℕ → Bool) (positions : ℕ → ℤ) (i : ℕ)
    → Holds 0 (absent_from 0 k_data present) positions
    → i < k_data
    → present i ≡ false
    → reported 0 (length (absent_from 0 k_data present)) positions i ≡ true
reported-absent present positions i h lt lost =
    reported-among i 0 (absent_from 0 k_data present) positions h
    ∙ among-absent i 0 k_data present lost (omega arith) (omega arith)

pub either : (b : Bool) {x y z : ℕ} → x ≡ z → y ≡ z → (if b then x else y) ≡ z
either true p q = p
either false p q = q

module _ (env : Env) (decode_rs : List ℕ → List ℕ → Decoded) where
  -- One byte of the entry behind the loop over the columns.
  pub decode_columns-cell :
      (r : ℕ) (gs : GenState) (i j : ℕ)
      → i < k_data
      → j < gs.original_len
      → (decode_columns env decode_rs r gs).rows i j ≡ (
          if reported 0
            (length (eras_pos gs))
            (decode_rs (codeword r gs j) (eras_pos gs)).positions
            i
          then get_or (decode_rs (codeword r gs j) (eras_pos gs)).symbols i 0
          else gs.rows i j)
  unfolding decode_columns
  decode_columns-cell r gs i j hi hj = rw (lt→ltb _ _ hj) (
      copy_back-lem 0 (length (eras_pos gs)) (decode_rs (codeword r gs j) (eras_pos gs))
        (λ k. gs.rows k j) i hi)
