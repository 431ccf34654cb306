-- ===== src/RqReceiver/Symbol.antt =====
-- `handle_rq_symbol` and the receive loop of edge_receiver_rq.c.
use openmc.Common.{
  ℕ, suc, ◌+◌, ◌-◌, ◌*◌, Bool, true, false, ◌||◌, ◌&&◌, not, List, [], ◌∷◌, ◌++◌, ltb, leb, ◌==◌,
  if◌then◌else◌, get_or, length, take, drop, update, add16, add64,
}
use openmc.Env.{Env}
use openmc.Wire.{RqDataHdr, rq_hdr_size, decode_rq_hdr}
use openmc.RqReceiver.{
  Codec, RqReceiver, BlockCtx, max_syms_per_block, is_block_completed, has_esi, store_block,
  get_block, forwards, forward_ip_packet_counted,
}
use openmc.RqReceiver.Decode.{all_forwarded, finalize_block, mark_forwarded, try_decode_and_forward}

-- K for a header that says `k`.
unfoldable pub block_k : ℕ → ℕ → ℕ
block_k block_size k =
    let k' = if k == 0 then block_size else k in if ltb block_size k' then block_size else k'

module _ (env : Env) (codec : Codec) where
  open env use {clock}
  open codec use {rq_init}

  unfoldable pub note_arrival : RqReceiver → RqReceiver
  note_arrival rc = record rc {
    reads = suc rc.reads;
    gs_stats = record rc.gs_stats {
      experiment_start_ns =
          (if rc.gs_stats.experiment_start_ns == 0
            then clock rc.reads
            else rc.gs_stats.experiment_start_ns);
      experiment_end_ns = clock rc.reads;
      pkts_received = add64 rc.gs_stats.pkts_received 1;
    };
  }

  unfoldable pub count_fragment : Bool → RqReceiver → RqReceiver
  count_fragment is_src rc = record rc {
    counters =
        (if is_src
          then record rc.counters {
            total_data_fragments = add64 rc.counters.total_data_fragments 1;
          }
          else record rc.counters {
            total_parity_fragments = add64 rc.counters.total_parity_fragments 1;
          });
  }

  unfoldable pub stamp_first : BlockCtx → BlockCtx
  stamp_first c =
      if c.b.first_rx_ns == 0
      then record {
        b = record c.b { first_rx_ns = clock c.rc.reads };
        rc = record c.rc { reads = suc c.rc.reads };
      }
      else c

  -- The first symbol fixes K and T, and makes the RaptorQ object and the memory for the symbols.
  unfoldable pub init_block : RqDataHdr → BlockCtx → BlockCtx
  init_block hdr c =
      let k = block_k c.rc.block_size hdr.k in
      if c.b.has_rq then c else record c {
        b = record c.b {
          symbol_count = k;
          symbol_size = hdr.symbol_len;
          block_bytes = k * hdr.symbol_len;
          has_rq = rq_init (k * hdr.symbol_len) hdr.symbol_len;
          enc = λ j. 0;
          esis = [];
          forwarded_count = 0;
          nsrc_unique = 0;
          npar_unique = 0;
          parity_consumed_counted = false;
        };
      }

  -- A symbol with a new identifier is counted, and stored while there is room.
  unfoldable pub count_unique : RqDataHdr → BlockCtx → BlockCtx
  count_unique hdr c =
      if hdr.is_source == 0
      then record c { b = record c.b { npar_unique = add16 c.b.npar_unique 1 } }
      else record c { b = record c.b { nsrc_unique = add16 c.b.nsrc_unique 1 } }

  unfoldable pub store_symbol : RqDataHdr → List ℕ → BlockCtx → BlockCtx
  store_symbol hdr symbol c =
      let base = length c.b.esis * c.b.symbol_size in
      if ltb (length c.b.esis) max_syms_per_block
      then record c {
        b = record c.b {
          enc = (λ k.
              if leb base k && ltb k (base + hdr.symbol_len)
              then get_or symbol (k - base) 0
              else c.b.enc k);
          esis = c.b.esis ++ hdr.esi ∷ [];
        };
      }
      else c

  -- A source packet that was not forwarded yet leaves at once.
  unfoldable pub forward_source : RqDataHdr → List ℕ → BlockCtx → BlockCtx
  forward_source hdr symbol c =
      let pkt = take hdr.symbol_len symbol in
      let c' = record c { rc = forward_ip_packet_counted env pkt hdr.symbol_len true c.rc } in
      if (hdr.is_source == 0) || leb c.b.symbol_count hdr.esi
      then c
      else if c.b.forwarded hdr.esi
      then c
      else if forwards env hdr.symbol_len c.rc
      then mark_forwarded env codec hdr.esi pkt hdr.symbol_len
          (record c' { b = record c.b { have_source = update c.b.have_source hdr.esi true } })
      else c'

  unfoldable pub finish_if_complete : BlockCtx → BlockCtx
  finish_if_complete c = if all_forwarded c.b then finalize_block c else c

  -- From the label `maybe_forward_and_finish` on.
  unfoldable pub maybe_forward_and_finish : RqDataHdr → List ℕ → BlockCtx → BlockCtx
  maybe_forward_and_finish hdr symbol c =
      finish_if_complete (try_decode_and_forward env codec (forward_source hdr symbol c))

  -- A new symbol of a completed block is stored and goes no further.
  unfoldable pub take_symbol : RqDataHdr → List ℕ → BlockCtx → BlockCtx
  take_symbol hdr symbol c =
      let stored = store_symbol hdr symbol (count_unique hdr c) in
      if has_esi c.b hdr.esi
      then maybe_forward_and_finish hdr symbol c
      else if is_block_completed hdr.block_id c.rc
      then stored
      else maybe_forward_and_finish hdr symbol stored

  unfoldable pub find_block : RqDataHdr → RqReceiver → BlockCtx
  find_block hdr rc = init_block hdr (stamp_first (get_block hdr.block_id rc))

  unfoldable pub accept_symbol : RqDataHdr → List ℕ → RqReceiver → RqReceiver
  accept_symbol hdr symbol rc =
      if ltb (length symbol) hdr.symbol_len || (hdr.symbol_len == 0)
      then rc
      else store_block hdr.block_id (take_symbol hdr symbol (find_block hdr rc))

  unfoldable pub handle_rq_symbol : List ℕ → RqReceiver → RqReceiver
  handle_rq_symbol buf rc =
      let hdr = decode_rq_hdr buf in
      if ltb (length buf) rq_hdr_size
      then note_arrival rc
      else accept_symbol hdr (drop rq_hdr_size buf)
          (count_fragment (not (hdr.is_source == 0)) (note_arrival rc))

  -- The receive loop over the datagrams that the two sockets deliver until it is stopped.
  unfoldable pub receive_loop : List (List ℕ) → RqReceiver → RqReceiver
  receive_loop [] rc = rc
  receive_loop (buf ∷ rest) rc = receive_loop rest (handle_rq_symbol buf rc)
