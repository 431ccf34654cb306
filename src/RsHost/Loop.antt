-- ===== src/RsHost/Loop.antt =====
-- The NFQUEUE callback, the receive loop and the start of `main` in openmc_rs.c.
use openmc.Common.{
  ℕ, suc, true, false, Option, none, some, List, [], ◌∷◌, ◌==◌, if◌then◌else◌, add64,
}
use openmc.Env.{Env}
use openmc.RsHost.{Host, GenerationState, Stats, handle_ip_packet, flush_generation}

abbrev no_stats : Stats
no_stats = record {
  pkts_intercepted = 0;
  pkts_forwarded = 0;
  pkts_original = 0;
  bytes_forwarded = 0;
  bytes_original = 0;
  generations_completed = 0;
  enc_calls = 0;
  enc_time_ns = 0;
  nfq_pkts = 0;
  nfq_latency_ns = 0;
}

abbrev no_generation : GenerationState
no_generation = record { gen_id = 0; count = 0; original_len = 0; data_buf = λ k. 0 }

-- The globals when the receive loop starts: the codec exists unless `--repairs 0` was given.
unfoldable pub boot : ℕ → Host
boot repairs = record {
  cur_gen = no_generation;
  pending_gen = no_generation;
  pending_rs = false;
  rs_dropped = 0;
  parity_symbols = repairs;
  rs = (if repairs == 0 then false else true);
  stats = no_stats;
  t_start_ns = 0;
  t_end_ns = 0;
  reads = 0;
  sends = 0;
  wire = [];
}

module _ (env : Env) (encode_rs : List ℕ → List ℕ) where
  open env use {clock}

  -- The times and the count that the callback keeps before it looks at the payload.
  unfoldable pub note_interception : Host → Host
  note_interception h = record h {
    reads = suc h.reads;
    t_start_ns = (if h.t_start_ns == 0 then clock h.reads else h.t_start_ns);
    t_end_ns = clock h.reads;
    stats = record h.stats { pkts_intercepted = add64 h.stats.pkts_intercepted 1 };
  }

  -- The payload is `none` where `nfq_get_payload` fails. The verdict is NF_DROP in either case.
  unfoldable pub nfq_cb : Option (List ℕ) → Host → Host
  unfolding note_interception
  nfq_cb none h = note_interception h
  nfq_cb (some pkt) h = handle_ip_packet env encode_rs pkt (clock h.reads) (note_interception h)

  -- `nfq_handle_packet`: the callback for each packet of one received buffer.
  unfoldable pub nfq_handle_packet : List (Option (List ℕ)) → Host → Host
  nfq_handle_packet [] h = h
  nfq_handle_packet (p ∷ ps) h = nfq_handle_packet ps (nfq_cb p h)

  unfoldable pub flush_pending : Host → Host
  flush_pending h =
      if h.pending_rs
      then (let h' = flush_generation env encode_rs h.pending_gen h in
          record h' { pending_rs = false })
      else h

  -- The receive loop over the buffers that `recv` delivers until it is stopped.
  unfoldable pub receive_loop : List (List (Option (List ℕ))) → Host → Host
  receive_loop [] h = h
  receive_loop (batch ∷ rest) h = receive_loop rest (flush_pending (nfq_handle_packet batch h))
