-- ===== src/RsReceiver/Decoder.antt =====
-- The decoder of edge_receiver_rs.c over a code that corrects erasures, and over one that gives up.
use openmc.Common.{
  ℕ, ◌*◌, ◌<◌, ◌≤◌, ◌≡◌, refl, inl, inr, true, arith, if◌then◌else◌, Bool-cases, ◌∙◌, List, [],
  ◌++◌, sym, ap, ap₂, length, get_or, tabulate, tabulate_ext, tabulate-get_or, length-map,
}
use openmc.Env.{Env, emit}
use openmc.RsHost.{k_data}
use openmc.RsHost.Parity.{column_of}
use openmc.RsReceiver.{GenState, Ctx, row, ip_hdr_size}
use openmc.RsReceiver.Process.{
  Decoded, absent_from, codeword, decode_columns, forward_repaired, can_decode,
  try_decode_generation, count_consumed, run_decoder,
}
use openmc.RsReceiver.Loops.{forward_repaired-Same}
use openmc.RsReceiver.Inv.{decoded, repaired}
use openmc.RsReceiver.Preserve.{try-succeeded}
use openmc.RsReceiver.Code.{
  Corrects, Reports, Genuine, missing, erased_word, get_or-column, column-bytes,
}
use openmc.RsReceiver.Columns.{reported, either, decode_columns-cell}
use openmc.RsReceiver.Recover.{missing_packets, forward_repaired-output}

module _ (env : Env) (encode_rs : List ℕ → List ℕ) (decode_rs : List ℕ → List ℕ → Decoded) where
  codeword-Genuine :
      (r : ℕ) (packets : List (List ℕ)) (gs : GenState) (j : ℕ)
      → Genuine encode_rs r packets gs
      → j < gs.original_len
      → codeword r gs j ≡ erased_word encode_rs r (column_of packets j) gs.data_present
  codeword-Genuine r packets gs j g lt =
      ap₂ ◌++◌
        (tabulate_ext k_data (λ i. if gs.data_present i then gs.rows i j else 0)
          (λ i. if gs.data_present i then get_or (column_of packets j) i 0 else 0) data_symbol)
        (tabulate_ext r (λ p. gs.parity p j) (λ p. get_or (encode_rs (column_of packets j)) p 0)
          (λ p h. g.parity_ok p j h lt))
    where
      data_symbol :
          (i : ℕ)
          → i < k_data
          → (if gs.data_present i then gs.rows i j else 0)
            ≡ (if gs.data_present i then get_or (column_of packets j) i 0 else 0)
      data_symbol i h = elim (Bool-cases (gs.data_present i)) [
        | inl there ↦
            rw there
              (g.rows_ok i j h lt there ∙ sym (get_or-column packets i j (omega (arith, g.number))))
        | inr lost ↦ rw lost
      ]

  -- The bytes that the loop over the columns leaves.
  decode_columns-Genuine :
      (r : ℕ) (packets : List (List ℕ)) (gs : GenState) (i j : ℕ)
      → Corrects encode_rs decode_rs r
      → Reports encode_rs decode_rs r
      → Genuine encode_rs r packets gs
      → 3 * missing gs.data_present ≤ r
      → i < k_data
      → j < gs.original_len
      → (decode_columns env decode_rs r gs).rows i j ≡ get_or (get_or packets i []) j 0
  decode_columns-Genuine r packets gs i j code rep g few hi hj =
      decode_columns-cell env decode_rs r gs i j hi hj
      ∙ rw (codeword-Genuine r packets gs j g hj) choice
    where
      symbols : List ℕ
      symbols = column_of packets j

      len : length symbols ≡ k_data
      len = length-map (λ p. get_or p j 0) packets ∙ g.number

      d : Decoded
      d =
          decode_rs (erased_word encode_rs r symbols gs.data_present)
            (absent_from 0 k_data gs.data_present)

      right : get_or d.symbols i 0 ≡ get_or (get_or packets i []) j 0
      right =
          code.corrects symbols gs.data_present i len (column-bytes packets j g.bytes) few hi
          ∙ get_or-column packets i j (omega (arith, g.number))

      choice :
          (if reported 0 (length (absent_from 0 k_data gs.data_present)) d.positions i
            then get_or d.symbols i 0
            else gs.rows i j)
          ≡ get_or (get_or packets i []) j 0
      choice = elim (Bool-cases (gs.data_present i)) [
        | inl there ↦ either _ right (g.rows_ok i j hi hj there)
        | inr lost ↦
            simp
              (rep.reports symbols gs.data_present i len (column-bytes packets j g.bytes) few hi
                lost)
              right
      ]

  pub decode_columns-row :
      (r : ℕ) (packets : List (List ℕ)) (gs : GenState) (i : ℕ)
      → Corrects encode_rs decode_rs r
      → Reports encode_rs decode_rs r
      → Genuine encode_rs r packets gs
      → 3 * missing gs.data_present ≤ r
      → i < k_data
      → row (decode_columns env decode_rs r gs) i ≡ get_or packets i []
  decode_columns-row r packets gs i code rep g few hi =
      ap (λ n. tabulate n ((decode_columns env decode_rs r gs).rows i)) same_len
      ∙ tabulate_ext (length (get_or packets i [])) _ _ (λ j h.
        decode_columns-Genuine r packets gs i j code rep g few hi (omega (arith, g.lens i hi)))
      ∙ tabulate-get_or (get_or packets i []) 0
    where
      same_len : (decode_columns env decode_rs r gs).original_len ≡ length (get_or packets i [])
      same_len = unfold decode_columns in sym (g.lens i hi)

  -- Counting the parity symbols marks the entry, and reads nothing of the packets.
  count_consumed-lem :
      (c : Ctx)
      → ((count_consumed env decode_rs c).gs
          ≡ record c.gs { decode_attempted = true; parity_consumed_counted = true })
        × ((count_consumed env decode_rs c).rc.sends ≡ c.rc.sends)
        × ((count_consumed env decode_rs c).rc.output ≡ c.rc.output)
        × ((count_consumed env decode_rs c).rc.parity_symbols ≡ c.rc.parity_symbols)
  unfolding count_consumed
  count_consumed-lem c = ground arith

  decoded-gs :
      (c : Ctx)
      → (decoded env decode_rs c).gs
        ≡ decode_columns env decode_rs c.rc.parity_symbols
            (record c.gs { decode_attempted = true; parity_consumed_counted = true })
  unfolding decoded run_decoder
  decoded-gs c =
      ap₂ (decode_columns env decode_rs) (count_consumed-lem c).3 (count_consumed-lem c).0

  decoded-rc :
      (c : Ctx)
      → ((decoded env decode_rs c).rc.sends ≡ c.rc.sends)
        × ((decoded env decode_rs c).rc.output ≡ c.rc.output)
  unfolding decoded run_decoder
  decoded-rc c = ((count_consumed-lem c).1, (count_consumed-lem c).2)

  decoded-lem :
      (c : Ctx)
      → ((decoded env decode_rs c).gs.rows
          ≡ (decode_columns env decode_rs c.rc.parity_symbols c.gs).rows)
        × ((decoded env decode_rs c).gs.original_len ≡ c.gs.original_len)
        × ((decoded env decode_rs c).gs.data_present ≡ c.gs.data_present)
        × ((decoded env decode_rs c).rc.sends ≡ c.rc.sends)
        × ((decoded env decode_rs c).rc.output ≡ c.rc.output)
  unfolding decode_columns
  decoded-lem c = (
    ap (λ g. g.rows) (decoded-gs c),
    ap (λ g. g.original_len) (decoded-gs c),
    ap (λ g. g.data_present) (decoded-gs c),
    (decoded-rc c).0,
    (decoded-rc c).1,
  )

  -- The rows behind a decoding that is carried out are those that the columns left.
  pub decode-rows :
      (c : Ctx)
      → can_decode env decode_rs c ≡ true
      → (try_decode_generation env decode_rs c).gs.rows
        ≡ (decode_columns env decode_rs c.rc.parity_symbols c.gs).rows
  decode-rows c ready = rw (try-succeeded env decode_rs c ready) (
      unfold repaired in
      ((forward_repaired-Same env decode_rs 0 k_data (decoded env decode_rs c)).rows
        ∙ (decoded-lem c).0))

  -- What a decoding that is carried out sends and keeps, the rows that it leaves being known.
  pub decode-forwards :
      (packet : ℕ → List ℕ) (c : Ctx)
      → can_decode env decode_rs c ≡ true
      → ip_hdr_size ≤ c.gs.original_len
      → ((i : ℕ)
          → i < k_data
          → row (decode_columns env decode_rs c.rc.parity_symbols c.gs) i ≡ packet i)
      → ((try_decode_generation env decode_rs c).rc.output
          ≡ emit env c.rc.sends (missing_packets 0 k_data c.gs.data_present packet) c.rc.output)
        × ((i : ℕ) → i < k_data → row (try_decode_generation env decode_rs c).gs i ≡ packet i)
        × ((try_decode_generation env decode_rs c).gs.decode_succeeded ≡ true)
  decode-forwards packet c ready le rows =
      rw (try-succeeded env decode_rs c ready) (unfold repaired in (output, kept_rows, refl))
    where
      d : Ctx
      d = decoded env decode_rs c

      d_row : (i : ℕ) → i < k_data → row d.gs i ≡ packet i
      d_row i h =
          ap₂ (λ n f. tabulate n (f i)) (decoded-lem c).1 (decoded-lem c).0
          ∙ unfold decode_columns in rows i h

      output :
          (forward_repaired env decode_rs 0 k_data d).rc.output
          ≡ emit env c.rc.sends (missing_packets 0 k_data c.gs.data_present packet) c.rc.output
      output =
          forward_repaired-output env decode_rs 0 k_data packet d (omega (arith, (decoded-lem c).1))
            (λ k h. d_row k (omega arith))
          ∙ ground (arith, decoded-lem c)

      kept_rows :
          (i : ℕ) → i < k_data → row (forward_repaired env decode_rs 0 k_data d).gs i ≡ packet i
      kept_rows i h =
          let same = forward_repaired-Same env decode_rs 0 k_data d in
          ap₂ (λ n f. tabulate n (f i)) same.original_len same.rows ∙ d_row i h
