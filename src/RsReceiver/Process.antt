-- ===== src/RsReceiver/Process.antt =====
-- `try_decode_generation` and `process_generation` of edge_receiver_rs.c. `decode_rs` stands for
-- `decode_rs_char` of libfec, a parameter: from a codeword and the positions of the erasures it gives
-- whether it gave the codeword up, and the codeword and the array of positions after the call, since
-- it writes both. The array `eras_pos` has eight elements; that the call may write more of them is
-- not modelled, and no byte of the entry is read through the elements from `no_eras` on.
use openmc.Common.{
  ℕ, zero, suc, ◌+◌, ◌/◌, Bool, true, false, ◌&&◌, not, List, [], ◌∷◌, ◌++◌, ltb, leb, ◌==◌,
  if◌then◌else◌, get_or, length, tabulate, count_below, all_below, update, add64, sub64,
}
use openmc.Env.{Env}
use openmc.RsHost.{k_data}
use openmc.RsReceiver.{GenState, Ctx, deliver}

-- The C type `int`: `negsuc n` is -(n + 1).
pub data ℤ : Type 0 where
  pos : ℕ → ℤ
  negsuc : ℕ → ℤ

-- `positions e` is `eras_pos[e]` after the call.
pub record Decoded : Type 0 where
  pub failed : Bool
  pub symbols : List ℕ
  pub positions : ℕ → ℤ

-- The indices below `i + n` and not below `i` that fail the test.
abbrev pub absent_from : ℕ → ℕ → (ℕ → Bool) → List ℕ
absent_from i zero p = []
absent_from i (suc n) p = let rest = absent_from (suc i) n p in if p i then rest else i ∷ rest

abbrev pub eras_pos : GenState → List ℕ
eras_pos gs = absent_from 0 k_data gs.data_present

-- Column `j` as it is handed to the decoder.
abbrev pub codeword : ℕ → GenState → ℕ → List ℕ
codeword r gs j =
    tabulate k_data (λ i. if gs.data_present i then gs.rows i j else 0)
    ++ tabulate r (λ p. gs.parity p j)

-- One round of the loop that copies a column back: only a data symbol is copied.
abbrev pub copy_byte : ℤ → Decoded → (ℕ → ℕ) → ℕ → ℕ
copy_byte (pos idx) d column =
    if ltb idx k_data then update column idx (get_or d.symbols idx 0) else column
copy_byte (negsuc m) d column = column

-- That loop, over `n` elements of `eras_pos` from `e` on, as they are after the call.
unfoldable pub copy_back : ℕ → ℕ → Decoded → (ℕ → ℕ) → ℕ → ℕ
copy_back e zero d column = column
copy_back e (suc n) d column = copy_back (suc e) n d (copy_byte (d.positions e) d column)

module _ (env : Env) (decode_rs : List ℕ → List ℕ → Decoded) where
  open env use {clock}

  -- The loop over the columns, each of which is read and written by its own round: what the decoder
  -- left is copied back whether or not it reported a failure.
  unfoldable pub decode_columns : ℕ → GenState → GenState
  unfolding copy_back
  decode_columns r gs = record gs {
    rows = λ i j.
        let eras = eras_pos gs in
        if ltb j gs.original_len
        then copy_back 0 (length eras) (decode_rs (codeword r gs j) eras) (λ k. gs.rows k j) i
        else gs.rows i j;
  }

  -- Received packets that were not forwarded: `n` indices from `i` on.
  unfoldable pub forward_received : ℕ → ℕ → Ctx → Ctx
  forward_received i zero c = c
  forward_received i (suc n) c =
      forward_received (suc i) n
        (if c.gs.data_present i && not (c.gs.data_forwarded i) then deliver env i true c else c)

  -- Packets that were missing before the decoder ran.
  unfoldable pub forward_repaired : ℕ → ℕ → Ctx → Ctx
  forward_repaired i zero c = c
  forward_repaired i (suc n) c =
      forward_repaired (suc i) n (if c.gs.data_present i then c else deliver env i false c)

  -- The guards: something not forwarded, something missing, every parity symbol there.
  unfoldable pub can_decode : Ctx → Bool
  can_decode c =
      c.gs.in_use
      && (ltb 0 c.gs.original_len
          && (ltb 0 c.rc.parity_symbols
              && (not (count_below k_data (λ i. not (c.gs.data_forwarded i)) == 0)
                  && (not (count_below k_data (λ i. not (c.gs.data_present i)) == 0)
                      && all_below c.rc.parity_symbols c.gs.parity_present))))

  unfoldable pub count_consumed : Ctx → Ctx
  count_consumed c =
      if c.gs.parity_consumed_counted
      then record c { gs = record c.gs { decode_attempted = true } }
      else record {
        gs = record c.gs { decode_attempted = true; parity_consumed_counted = true };
        rc = record c.rc {
          counters = record c.rc.counters {
            total_parity_consumed = add64 c.rc.counters.total_parity_consumed c.rc.parity_symbols;
          };
        };
      }

  -- The columns between two readings of the clock.
  unfoldable pub run_decoder : Ctx → Ctx
  unfolding decode_columns
  run_decoder c = record {
    gs = decode_columns c.rc.parity_symbols c.gs;
    rc = record c.rc {
      reads = c.rc.reads + 2;
      gs_stats = record c.rc.gs_stats {
        dec_calls = add64 c.rc.gs_stats.dec_calls 1;
        dec_time_ns =
            add64 c.rc.gs_stats.dec_time_ns (sub64 (clock (c.rc.reads + 1)) (clock c.rc.reads));
      };
    };
  }

  unfoldable pub mark_succeeded : Ctx → Ctx
  mark_succeeded c =
      if count_below k_data (λ i. not (c.gs.data_present i)) == 0
      then record c { gs = record c.gs { decode_succeeded = true } }
      else c

  unfoldable pub try_decode_generation : Ctx → Ctx
  unfolding can_decode
  try_decode_generation c =
      if can_decode c
      then mark_succeeded (forward_repaired 0 k_data (run_decoder (count_consumed c)))
      else c

  -- The class that a finished generation is counted in.
  unfoldable pub count_class : Ctx → Ctx
  count_class c =
      let k = c.rc.counters in
      let failed : Ctx = record c {
        rc = record c.rc {
          counters = record k { generations_decode_failed = add64 k.generations_decode_failed 1 };
        };
      } in
      if count_below k_data (λ i. not (c.gs.data_present i)) == 0
      then (if not c.gs.decode_attempted
          then record c {
            rc = record c.rc {
              counters = record k { generations_no_loss = add64 k.generations_no_loss 1 };
            };
          }
          else if c.gs.decode_succeeded
          then record c {
            rc = record c.rc {
              counters = record k { generations_repaired = add64 k.generations_repaired 1 };
            };
          }
          else failed)
      else failed

  unfoldable pub count_latency : Ctx → Ctx
  count_latency c =
      let s = c.rc.gs_stats in
      let latency = sub64 c.gs.last_fwd_ns c.gs.first_rx_ns in
      let timed = not (c.gs.first_rx_ns == 0) && not (c.gs.last_fwd_ns == 0) in
      record c {
        rc = record c.rc {
          gs_stats = record s {
            total_gen_latency_ns =
                (if timed then add64 s.total_gen_latency_ns latency else s.total_gen_latency_ns);
            completed_generations =
                (if timed then add64 s.completed_generations 1 else s.completed_generations);
            total_useful_bytes = add64 s.total_useful_bytes c.gs.useful_bytes;
          };
        };
      }

  unfoldable pub write_block_row : Ctx → Ctx
  write_block_row c =
      let timed =
        not (c.gs.first_rx_ns == 0)
        && (not (c.gs.last_fwd_ns == 0) && leb c.gs.first_rx_ns c.gs.last_fwd_ns) in
      if c.rc.metrics_open
      then record c {
        rc = record c.rc {
          block_rows =
              record {
                block_id = c.gs.gen_id;
                first_symbol_rx_ns = c.gs.first_rx_ns;
                last_original_delivery_ns = c.gs.last_fwd_ns;
                block_latency_us =
                    (if timed then sub64 c.gs.last_fwd_ns c.gs.first_rx_ns / 1000 else 0);
                decode_required = c.gs.decode_attempted;
                decode_success = c.gs.decode_succeeded;
                completed = count_below k_data (λ i. not (c.gs.data_present i)) == 0;
                useful_bytes = c.gs.useful_bytes;
              }
              ∷ c.rc.block_rows;
        };
      }
      else c

  unfoldable pub report : Ctx → Ctx
  report c = write_block_row (count_latency (count_class c))

  -- The end of `process_generation`.
  unfoldable pub finish_generation : Ctx → Ctx
  finish_generation c =
      if all_below k_data c.gs.data_forwarded
      then (if c.gs.stats_reported
          then record c { gs = record c.gs { completed = true } }
          else report (record c { gs = record c.gs { completed = true; stats_reported = true } }))
      else c

  unfoldable pub process_generation : Ctx → Ctx
  process_generation c =
      if c.gs.in_use && ltb 0 c.gs.original_len
      then finish_generation (try_decode_generation (forward_received 0 k_data c))
      else c
