-- ===== src/RsReceiver/AnyDecoder.antt =====
-- `try_decode_generation` of edge_receiver_rs.c whatever the decoder answers: what it writes, and what
-- the destination gets.
use openmc.Common.{
  ℕ, ◌<◌, ◌≤◌, ◌≡◌, ◌⊎◌, refl, inl, inr, true, if◌then◌else◌, Bool-cases, List, length, get_or,
  tabulate, tabulate_ext, arith,
}
use openmc.Env.{Env, emit}
use openmc.RsHost.{k_data}
use openmc.RsReceiver.{GenState, Ctx, row, ip_hdr_size}
use openmc.RsReceiver.Process.{
  Decoded, eras_pos, codeword, decode_columns, can_decode, try_decode_generation,
}
use openmc.RsReceiver.Columns.{reported, copy_back-outside, decode_columns-cell}
use openmc.RsReceiver.Recover.{missing_packets}
use openmc.RsReceiver.Decoder.{decode-rows, decode-forwards}

module _ (env : Env) (decode_rs : List ℕ → List ℕ → Decoded) where
  -- What the decoder makes of a column.
  abbrev answer : Ctx → ℕ → Decoded
  answer c j = decode_rs (codeword c.rc.parity_symbols c.gs j) (eras_pos c.gs)

  -- The packet that stands for a missing index: a byte that the decoder reports among the positions
  -- that are read is the decoder's, any other is the byte that was there.
  abbrev pub left_packet : Ctx → ℕ → List ℕ
  left_packet c i = tabulate c.gs.original_len (λ j.
      if reported 0 (length (eras_pos c.gs)) (answer c j).positions i
      then get_or (answer c j).symbols i 0
      else c.gs.rows i j)

  columns-outside :
      (r : ℕ) (gs : GenState) (i j : ℕ)
      → (k_data ≤ i) ⊎ (gs.original_len ≤ j)
      → (decode_columns env decode_rs r gs).rows i j ≡ gs.rows i j
  unfolding decode_columns
  columns-outside r gs i j (inl above) = ground (
    arith,
    copy_back-outside 0 (length (eras_pos gs)) (decode_rs (codeword r gs j) (eras_pos gs))
        (λ k. gs.rows k j) i above,
  )
  columns-outside r gs i j (inr behind) = ground (arith, behind)

  -- Whatever the decoder answers, in particular whatever it leaves in `eras_pos`: a byte in a row
  -- above the eight data packets or behind the length of the generation is not written.
  pub try_decode_generation-outside :
      (c : Ctx) (i j : ℕ)
      → (k_data ≤ i) ⊎ (c.gs.original_len ≤ j)
      → (try_decode_generation env decode_rs c).gs.rows i j ≡ c.gs.rows i j
  try_decode_generation-outside c i j out = elim (Bool-cases (can_decode env decode_rs c)) [
    | inl ready ↦
        rw (decode-rows env (λ w. w) decode_rs c ready)
          (columns-outside c.rc.parity_symbols c.gs i j out)
    | inr no_attempt ↦ unfold try_decode_generation in rw no_attempt refl
  ]

  -- Whatever the decoder answers, failures included: when decoding is tried on packets of at least an
  -- IP header, one packet for each missing index is handed to the raw socket, in the order of the
  -- indices and marked as repaired; its bytes are those of the decoder where it reports the index
  -- among the positions that are read, and those that the entry had before otherwise; and the decoding
  -- is marked as a success.
  pub try_decode_generation-forwards :
      (c : Ctx)
      → can_decode env decode_rs c ≡ true
      → ip_hdr_size ≤ c.gs.original_len
      → ((try_decode_generation env decode_rs c).rc.output
          ≡ emit env c.rc.sends
              (missing_packets 0 k_data c.gs.data_present (left_packet c))
              c.rc.output)
        × ((try_decode_generation env decode_rs c).gs.decode_succeeded ≡ true)
  try_decode_generation-forwards c ready le =
      let done = decode-forwards env (λ w. w) decode_rs (left_packet c) c ready le left in
      (done.0, done.2)
    where
      left :
          (i : ℕ)
          → i < k_data
          → row (decode_columns env decode_rs c.rc.parity_symbols c.gs) i ≡ left_packet c i
      left i hi =
          unfold decode_columns in
          tabulate_ext c.gs.original_len
            ((decode_columns env decode_rs c.rc.parity_symbols c.gs).rows i) _
            (λ j hj. decode_columns-cell env decode_rs c.rc.parity_symbols c.gs i j hi hj)
