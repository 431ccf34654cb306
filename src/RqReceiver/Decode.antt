-- ===== src/RqReceiver/Decode.antt =====
-- `finalize_block` and `try_decode_and_forward` of edge_receiver_rq.c.
use openmc.Common.{
  ℕ, zero, suc, ◌+◌, ◌-◌, ◌*◌, ◌/◌, Bool, true, false, ◌&&◌, not, Option, none, some, List, ◌∷◌,
  ltb, leb, ◌==◌, if◌then◌else◌, length, tabulate, update, all_below, add64, sub64,
}
use openmc.Env.{Env}
use openmc.RsReceiver.{application_payload_bytes}
use openmc.RqReceiver.{
  Codec, RqBlockDec, RqReceiver, BlockCtx, blank, mark_block_completed, forwards,
  forward_ip_packet_counted,
}

-- Whether every packet of the block was forwarded.
unfoldable pub all_forwarded : RqBlockDec → Bool
all_forwarded b = all_below b.symbol_count b.forwarded

unfoldable pub count_class : BlockCtx → RqReceiver
count_class c =
    let n = c.rc.counters in
    let n' = record n { total_generations = add64 n.total_generations 1 } in
    if all_forwarded c.b && not c.b.used_fec
    then record c.rc { counters = record n' { gens_no_loss = add64 n'.gens_no_loss 1 } }
    else if all_forwarded c.b && c.b.used_fec
    then record c.rc { counters = record n' { gens_repaired = add64 n'.gens_repaired 1 } }
    else record c.rc { counters = record n' { gens_decode_fail = add64 n'.gens_decode_fail 1 } }

unfoldable pub count_block : RqBlockDec → RqReceiver → RqReceiver
count_block b rc =
    let timed =
      if not (b.first_rx_ns == 0) && not (b.last_fwd_ns == 0)
      then record rc.gs_stats {
        total_gen_latency_ns =
            add64 rc.gs_stats.total_gen_latency_ns (sub64 b.last_fwd_ns b.first_rx_ns);
        completed_generations = add64 rc.gs_stats.completed_generations 1;
      }
      else rc.gs_stats in
    record rc {
      gs_stats = record timed {
        total_useful_bytes = add64 timed.total_useful_bytes b.useful_bytes;
      };
    }

unfoldable pub write_block_row : RqBlockDec → RqReceiver → RqReceiver
write_block_row b rc =
    let latency_us =
      if not (b.first_rx_ns == 0) && (not (b.last_fwd_ns == 0) && leb b.first_rx_ns b.last_fwd_ns)
      then (b.last_fwd_ns - b.first_rx_ns) / 1000
      else 0 in
    if rc.metrics_open
    then record rc {
      block_rows =
          record {
            block_id = b.block_id;
            first_symbol_rx_ns = b.first_rx_ns;
            last_original_delivery_ns = b.last_fwd_ns;
            block_latency_us = latency_us;
            decode_required = b.decode_attempted;
            decode_success = b.decoded;
            completed = all_forwarded b;
            useful_bytes = b.useful_bytes;
          }
          ∷ rc.block_rows;
    }
    else rc

-- The callers pass a block in use.
unfoldable pub finalize_block : BlockCtx → BlockCtx
finalize_block c = record {
  b = blank;
  rc = write_block_row c.b (count_block c.b (mark_block_completed c.b.block_id (count_class c)));
}

-- Packet `i` of the bytes at `dec`.
abbrev pub dec_row : RqBlockDec → (ℕ → ℕ) → ℕ → List ℕ
dec_row b dec i = tabulate b.symbol_size (λ j. dec (i * b.symbol_size + j))

-- The test before `rq_decode`.
unfoldable pub must_decode : RqBlockDec → Bool
must_decode b =
    b.has_rq
    && (not b.decoded
        && (ltb b.forwarded_count b.symbol_count && leb b.symbol_count (length b.esis)))

-- The redundancy that a decoding took, counted once.
unfoldable pub count_consumed : BlockCtx → BlockCtx
count_consumed c = if c.b.parity_consumed_counted then c else record {
  b = record c.b { parity_consumed_counted = true };
  rc = record c.rc {
    counters = record c.rc.counters {
      total_parity_consumed =
          (if ltb c.b.nsrc_unique c.b.symbol_count
            then add64 c.rc.counters.total_parity_consumed (c.b.symbol_count - c.b.nsrc_unique)
            else c.rc.counters.total_parity_consumed);
    };
  };
}

module _ (env : Env) (codec : Codec) where
  open env use {clock}
  open codec use {rq_decode}

  -- The marks after packet `idx` left.
  unfoldable pub mark_forwarded : ℕ → List ℕ → ℕ → BlockCtx → BlockCtx
  mark_forwarded idx pkt len c = record {
    b = record c.b {
      forwarded = update c.b.forwarded idx true;
      forwarded_count = suc c.b.forwarded_count;
      useful_bytes = add64 c.b.useful_bytes (application_payload_bytes pkt len);
      last_fwd_ns = clock c.rc.reads;
    };
    rc = record c.rc { reads = suc c.rc.reads };
  }

  -- A decoded packet that was not forwarded yet.
  unfoldable pub forward_decoded : (ℕ → ℕ) → ℕ → BlockCtx → BlockCtx
  forward_decoded dec i c =
      let pkt = dec_row c.b dec i in
      let len = c.b.symbol_size in
      let c' = record c { rc = forward_ip_packet_counted env pkt len false c.rc } in
      if c.b.forwarded i
      then c
      else if forwards env len c.rc
      then mark_forwarded i pkt len (record c' { b = record c.b { used_fec = true } })
      else c'

  -- The packets from `i` on, `n` of them.
  unfoldable pub forward_all : (ℕ → ℕ) → ℕ → ℕ → BlockCtx → BlockCtx
  forward_all dec i zero c = c
  forward_all dec i (suc n) c = forward_all dec (suc i) n (forward_decoded dec i c)

  -- The counters of one call of `rq_decode`, which succeeded or not.
  unfoldable pub time_decode : Bool → BlockCtx → BlockCtx
  time_decode ok c =
      let t = sub64 (clock (suc c.rc.reads)) (clock c.rc.reads) in
      let s = record c.rc.gs_stats {
        dec_attempts = add64 c.rc.gs_stats.dec_attempts 1;
        dec_attempt_time_ns = add64 c.rc.gs_stats.dec_attempt_time_ns t;
      } in
      record {
        b = record c.b { decode_attempted = true };
        rc = record c.rc {
          reads = c.rc.reads + 2;
          gs_stats =
              (if ok
                then record s {
                  dec_calls = add64 s.dec_calls 1;
                  dec_time_ns = add64 s.dec_time_ns t;
                }
                else s);
        };
      }

  unfoldable pub set_decoded : BlockCtx → BlockCtx
  set_decoded c = record c { b = record c.b { decoded = true } }

  unfoldable pub finish_decode : Option (ℕ → ℕ) → BlockCtx → BlockCtx
  finish_decode none c = time_decode false c
  finish_decode (some dec) c =
      set_decoded (forward_all dec 0 c.b.symbol_count (count_consumed (time_decode true c)))

  unfoldable pub try_decode_and_forward : BlockCtx → BlockCtx
  try_decode_and_forward c =
      if must_decode c.b
      then finish_decode
          (rq_decode c.b.block_bytes c.b.symbol_size
            (tabulate (length c.b.esis * c.b.symbol_size) c.b.enc) c.b.esis)
          c
      else c
