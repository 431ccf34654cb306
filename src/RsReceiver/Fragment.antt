-- ===== src/RsReceiver/Fragment.antt =====
-- `handle_fragment` of edge_receiver_rs.c, and its receive loop.
use openmc.Common.{
  ℕ, suc, ◌-◌, Bool, true, ◌||◌, List, [], ◌∷◌, ltb, leb, ◌==◌, if◌then◌else◌, get_or, length, drop,
  update, add64,
}
use openmc.Env.{Env}
use openmc.Wire.{FecFragmentHdr, fec_hdr_size, decode_fec_hdr}
use openmc.RsHost.{k_data, max_pkt_len}
use openmc.RsReceiver.{Receiver, Ctx, cleared, get_gen_state, store_gen}
use openmc.RsReceiver.Process.{Decoded, process_generation}

-- The globals when the receive loop starts.
unfoldable pub boot : ℕ → Bool → Receiver
boot repairs metrics_open = record {
  gens = λ slot. cleared;
  gs_stats = record {
    pkts_received = 0;
    pkts_forwarded = 0;
    pkts_original = 0;
    bytes_forwarded = 0;
    bytes_original = 0;
    dec_calls = 0;
    dec_time_ns = 0;
    experiment_start_ns = 0;
    experiment_end_ns = 0;
    total_useful_bytes = 0;
    total_gen_latency_ns = 0;
    completed_generations = 0;
  };
  counters = record {
    total_generations = 0;
    generations_repaired = 0;
    generations_decode_failed = 0;
    generations_no_loss = 0;
    total_data_fragments = 0;
    total_parity_fragments = 0;
    total_parity_consumed = 0;
  };
  parity_symbols = repairs;
  metrics_open = metrics_open;
  reads = 0;
  sends = 0;
  output = [];
  block_rows = [];
}

-- `memcpy(gs->data[index], payload, original_len)`
abbrev pub copy_row : (ℕ → ℕ → ℕ) → ℕ → List ℕ → ℕ → ℕ → ℕ → ℕ
copy_row rows index payload len i j =
    if i == index then (if ltb j len then get_or payload j 0 else rows i j) else rows i j

unfoldable pub add_data : ℕ → List ℕ → Ctx → Ctx
add_data index payload c = if c.gs.data_present index then c else record {
  gs = record c.gs {
    rows = copy_row c.gs.rows index payload c.gs.original_len;
    data_present = update c.gs.data_present index true;
  };
  rc = record c.rc {
    counters = record c.rc.counters {
      total_data_fragments = add64 c.rc.counters.total_data_fragments 1;
    };
  };
}

unfoldable pub add_parity : ℕ → List ℕ → Ctx → Ctx
add_parity p payload c = if c.gs.parity_present p then c else record {
  gs = record c.gs {
    parity = copy_row c.gs.parity p payload c.gs.original_len;
    parity_present = update c.gs.parity_present p true;
  };
  rc = record c.rc {
    counters = record c.rc.counters {
      total_parity_fragments = add64 c.rc.counters.total_parity_fragments 1;
    };
  };
}

-- The lengths that are refused: a short payload, an empty packet, one that is too long.
unfoldable pub bad_length : FecFragmentHdr → List ℕ → Bool
bad_length hdr payload =
    ltb (length payload) hdr.original_len
    || ((hdr.original_len == 0) || ltb max_pkt_len hdr.original_len)

module _ (env : Env) (decode_rs : List ℕ → List ℕ → Decoded) where
  open env use {clock}

  unfoldable pub note_arrival : Receiver → Receiver
  note_arrival rc = record rc {
    reads = suc rc.reads;
    gs_stats = record rc.gs_stats {
      experiment_start_ns =
          (if rc.gs_stats.experiment_start_ns == 0
            then clock rc.reads
            else rc.gs_stats.experiment_start_ns);
      experiment_end_ns = clock rc.reads;
      pkts_received = add64 rc.gs_stats.pkts_received 1;
    };
  }

  unfoldable pub stamp_first : Ctx → Ctx
  stamp_first c =
      if c.gs.first_rx_ns == 0
      then record {
        gs = record c.gs { first_rx_ns = clock c.rc.reads };
        rc = record c.rc { reads = suc c.rc.reads };
      }
      else c

  -- The length of a generation is that of its first fragment; another length resets it.
  unfoldable pub match_length : FecFragmentHdr → Ctx → Ctx
  match_length hdr c =
      if c.gs.original_len == 0
      then record c { gs = record c.gs { original_len = hdr.original_len } }
      else if c.gs.original_len == hdr.original_len
      then c
      else record {
        gs = record cleared {
          first_rx_ns = clock c.rc.reads;
          in_use = true;
          gen_id = hdr.gen_id;
          original_len = hdr.original_len;
        };
        rc = record c.rc {
          reads = suc c.rc.reads;
          counters = record c.rc.counters {
            total_generations = add64 c.rc.counters.total_generations 1;
          };
        };
      }

  -- The entry of the fragment's generation, ready for the fragment.
  unfoldable pub find_generation : FecFragmentHdr → Receiver → Ctx
  find_generation hdr rc = match_length hdr (stamp_first (get_gen_state hdr.gen_id rc))

  unfoldable pub dispatch_fragment : FecFragmentHdr → List ℕ → Ctx → Ctx
  dispatch_fragment hdr payload c =
      if hdr.type == 0
      then (if leb k_data hdr.index
          then c
          else process_generation env decode_rs (add_data hdr.index payload c))
      else if hdr.type == 1
      then (if ltb hdr.index k_data
          then c
          else if leb c.rc.parity_symbols (hdr.index - k_data)
          then c
          else process_generation env decode_rs (add_parity (hdr.index - k_data) payload c))
      else c

  unfoldable pub accept_fragment : FecFragmentHdr → List ℕ → Receiver → Receiver
  accept_fragment hdr payload rc =
      if bad_length hdr payload
      then rc
      else store_gen hdr.gen_id (dispatch_fragment hdr payload (find_generation hdr rc))

  -- The payload is what follows the header; bytes beyond `original_len` are ignored.
  unfoldable pub handle_fragment : List ℕ → Receiver → Receiver
  handle_fragment buf rc =
      if ltb (length buf) fec_hdr_size
      then note_arrival rc
      else accept_fragment (decode_fec_hdr buf) (drop fec_hdr_size buf) (note_arrival rc)

  -- The receive loop over the datagrams that the two sockets deliver until it is stopped.
  unfoldable pub receive_loop : List (List ℕ) → Receiver → Receiver
  receive_loop [] rc = rc
  receive_loop (buf ∷ rest) rc = receive_loop rest (handle_fragment buf rc)
