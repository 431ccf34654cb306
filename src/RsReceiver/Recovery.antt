-- ===== src/RsReceiver/Recovery.antt =====
-- What the destination gets for lost packets from `try_decode_generation` of edge_receiver_rs.c.
use openmc.Common.{
  ℕ, ◌<◌, ◌≤◌, ◌≡◌, inl, inr, true, arith, if◌then◌else◌, Bool-cases, ◌∙◌, List, get_or, tabulate,
  tabulate_ext, get_or-append_left, length-tabulate, get_or-tabulate, ap, refl,
}
use openmc.Env.{Env, emit}
use openmc.RsHost.{k_data}
use openmc.RsReceiver.{GenState, Ctx, row, ip_hdr_size}
use openmc.RsReceiver.Process.{
  Decoded, eras_pos, codeword, decode_columns, can_decode, try_decode_generation,
}
use openmc.RsReceiver.Columns.{Holds, either, reported-absent, decode_columns-cell}
use openmc.RsReceiver.Recover.{missing_packets}
use openmc.RsReceiver.Decoder.{decode-forwards}

-- The packet that a missing index stands for if the decoder leaves the erased zeros.
abbrev pub or_zeros : GenState → ℕ → List ℕ
or_zeros gs i = if gs.data_present i then row gs i else tabulate gs.original_len (λ j. 0)

module _ (env : Env) (encode_rs : List ℕ → List ℕ) (decode_rs : List ℕ → List ℕ → Decoded) where
  -- The decoder gives up on each column, and leaves the codeword and `eras_pos` as they were.
  abbrev pub GivesUp : Ctx → Type 0
  GivesUp c =
      (j : ℕ)
      → let d = decode_rs (codeword c.rc.parity_symbols c.gs j) (eras_pos c.gs) in
        (d.failed ≡ true)
        × (d.symbols ≡ codeword c.rc.parity_symbols c.gs j)
        × Holds 0 (eras_pos c.gs) d.positions

  codeword-data :
      (c : Ctx) (i j : ℕ)
      → i < k_data
      → get_or (codeword c.rc.parity_symbols c.gs j) i 0
        ≡ (if c.gs.data_present i then c.gs.rows i j else 0)
  codeword-data c i j hi =
      get_or-append_left shown (tabulate c.rc.parity_symbols (λ p. c.gs.parity p j)) i 0 (
        omega
          (arith, length-tabulate k_data (λ k. if c.gs.data_present k then c.gs.rows k j else 0)))
      ∙ get_or-tabulate k_data (λ k. if c.gs.data_present k then c.gs.rows k j else 0) i 0 hi
    where
      shown : List ℕ
      shown = tabulate k_data (λ k. if c.gs.data_present k then c.gs.rows k j else 0)

  zero-cell :
      (c : Ctx) (i j : ℕ)
      → GivesUp c
      → i < k_data
      → j < c.gs.original_len
      → (decode_columns env decode_rs c.rc.parity_symbols c.gs).rows i j
        ≡ (if c.gs.data_present i then c.gs.rows i j else 0)
  zero-cell c i j up hi hj =
      decode_columns-cell env decode_rs c.rc.parity_symbols c.gs i j hi hj
      ∙ elim (Bool-cases (c.gs.data_present i)) [
        | inl there ↦ rw there (either _ (kept ∙ rw there refl) refl)
        | inr lost ↦ rw (reported-absent c.gs.data_present _ i (up j).2 hi lost) kept
      ]
    where
      kept :
          get_or (decode_rs (codeword c.rc.parity_symbols c.gs j) (eras_pos c.gs)).symbols i 0
          ≡ (if c.gs.data_present i then c.gs.rows i j else 0)
      kept = ap (λ w. get_or w i 0) (up j).1 ∙ codeword-data c i j hi

  zero-row :
      (c : Ctx) (i : ℕ)
      → GivesUp c
      → i < k_data
      → row (decode_columns env decode_rs c.rc.parity_symbols c.gs) i ≡ or_zeros c.gs i
  unfolding decode_columns
  zero-row c i up hi =
      tabulate_ext c.gs.original_len
        ((decode_columns env decode_rs c.rc.parity_symbols c.gs).rows i)
        (λ j. if c.gs.data_present i then c.gs.rows i j else 0) (λ j hj. zero-cell c i j up hi hj)
      ∙ split
    where
      split :
          tabulate c.gs.original_len (λ j. if c.gs.data_present i then c.gs.rows i j else 0)
          ≡ or_zeros c.gs i
      split = elim (Bool-cases (c.gs.data_present i)) [
        | inl there ↦ simp there
        | inr lost ↦ simp lost
      ]

  -- When decoding of packets of at least an IP header is tried and the decoder reports failure on each
  -- column, leaving the codeword and `eras_pos` as they were, the receiver nevertheless hands a packet
  -- of zero bytes to the raw socket for each missing packet and marks the decoding as a success.
  pub try_decode_generation-GivesUp :
      (c : Ctx)
      → GivesUp c
      → can_decode env decode_rs c ≡ true
      → ip_hdr_size ≤ c.gs.original_len
      → ((try_decode_generation env decode_rs c).rc.output
          ≡ emit env c.rc.sends
              (missing_packets 0 k_data c.gs.data_present (or_zeros c.gs))
              c.rc.output)
        × ((try_decode_generation env decode_rs c).gs.decode_succeeded ≡ true)
  try_decode_generation-GivesUp c up ready le =
      let done =
        decode-forwards env encode_rs decode_rs (or_zeros c.gs) c ready le
          (λ i h. zero-row c i up h) in
      (done.0, done.2)
