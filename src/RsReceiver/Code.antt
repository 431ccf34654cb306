-- ===== src/RsReceiver/Code.antt =====
-- What the theorems on edge_receiver_rs.c take of the code: the decoder, and genuine fragments.
use openmc.Common.{
  ℕ, zero, suc, ◌*◌, ◌<◌, ◌≤◌, ◌≡◌, Bool, true, false, not, arith, if◌then◌else◌, List, [], ◌∷◌,
  ◌++◌, length, get_or, tabulate, count_below, get_or-map,
}
use openmc.RsHost.{k_data}
use openmc.RsHost.Parity.{column_of}
use openmc.RsReceiver.{GenState}
use openmc.RsReceiver.Process.{Decoded, absent_from}
use openmc.RsReceiver.Columns.{reported}

-- How many data packets are missing.
abbrev pub missing : (ℕ → Bool) → ℕ
missing present = count_below k_data (λ i. not (present i))

-- A word of the code with the erased data symbols set to zero.
abbrev pub erased_word : (List ℕ → List ℕ) → ℕ → List ℕ → (ℕ → Bool) → List ℕ
erased_word encode_rs r symbols present =
    tabulate k_data (λ i. if present i then get_or symbols i 0 else 0)
    ++ tabulate r (λ p. get_or (encode_rs symbols) p 0)

abbrev pub AllBytes : List ℕ → Type 0
AllBytes xs = (i : ℕ) → get_or xs i 0 < 256

-- What libfec documents, in the form in which the receiver uses it: a word of eight data symbols and
-- `r` parity symbols with e wrong symbols and f positions given as erased is corrected where
-- 2 * e + f is at most `r`. The wrong symbols are the missing ones, which were set to zero. Each is
-- counted both as wrong and as given, three times altogether, so that the hypothesis does not depend
-- on whether libfec counts the positions from the first data symbol, as the receiver does, or from the
-- first symbol of the unshortened word of 255, in which the positions then name padding.
pub record Corrects (encode_rs : List ℕ → List ℕ) (decode_rs : List ℕ → List ℕ → Decoded) (r : ℕ)
    : Type 0 where
  pub corrects :
      (symbols : List ℕ) (present : ℕ → Bool) (i : ℕ)
      → length symbols ≡ k_data
      → AllBytes symbols
      → 3 * missing present ≤ r
      → i < k_data
      → get_or
          (decode_rs
            (erased_word encode_rs r symbols present)
            (absent_from 0 k_data present)).symbols
          i
          0
        ≡ get_or symbols i 0

-- What the receiver relies on when it reads `eras_pos` after such a call: each position that it gave is
-- still among the elements that it reads, wherever the call put it and whatever else it wrote.
pub record Reports (encode_rs : List ℕ → List ℕ) (decode_rs : List ℕ → List ℕ → Decoded) (r : ℕ)
    : Type 0 where
  pub reports :
      (symbols : List ℕ) (present : ℕ → Bool) (i : ℕ)
      → length symbols ≡ k_data
      → AllBytes symbols
      → 3 * missing present ≤ r
      → i < k_data
      → present i ≡ false
      → reported 0
          (length (absent_from 0 k_data present))
          (decode_rs
            (erased_word encode_rs r symbols present)
            (absent_from 0 k_data present)).positions
          i
        ≡ true

-- The entry holds the fragments of these eight packets, as far as they are there, and all parity.
pub record Genuine (encode_rs : List ℕ → List ℕ) (r : ℕ) (packets : List (List ℕ)) (gs : GenState)
    : Type 0 where
  pub number : length packets ≡ k_data
  pub lens : (i : ℕ) → i < k_data → length (get_or packets i []) ≡ gs.original_len
  pub bytes : (i : ℕ) → AllBytes (get_or packets i [])
  pub rows_ok :
      (i j : ℕ)
      → i < k_data
      → j < gs.original_len
      → gs.data_present i ≡ true
      → gs.rows i j ≡ get_or (get_or packets i []) j 0
  pub parity_ok :
      (p j : ℕ)
      → p < r
      → j < gs.original_len
      → gs.parity p j ≡ get_or (encode_rs (column_of packets j)) p 0

pub get_or-column :
    (packets : List (List ℕ)) (i j : ℕ)
    → i < length packets
    → get_or (column_of packets j) i 0 ≡ get_or (get_or packets i []) j 0
get_or-column packets i j lt = get_or-map (λ p. get_or p j 0) packets i [] 0 lt

pub column-bytes :
    (packets : List (List ℕ)) (j : ℕ)
    → ((i : ℕ) → AllBytes (get_or packets i []))
    → AllBytes (column_of packets j)
column-bytes [] j h i = omega arith
column-bytes (p ∷ ps) j h zero = h 0 j
column-bytes (p ∷ ps) j h (suc i) = column-bytes ps j (λ k. h (suc k)) i
