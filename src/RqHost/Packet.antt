-- ===== src/RqHost/Packet.antt =====
-- `handle_ip_packet` of openmc_rq.c, step by step.
use openmc.Common.{
  ℕ, zero, suc, ◌*◌, ◌%◌, ◌^◌, Bool, true, false, ◌||◌, not, Option, none, some, List, ltb, leb,
  ◌==◌, if◌then◌else◌, length, tabulate, add64, sub64,
}
use openmc.Env.{Env}
use openmc.Decision.{DecisionOps}
use openmc.RqHost.{
  RqHost, RqCodec, max_pkt_len, guarded_block_size, set_block, alloc_new_block, close_block,
  abandon_block, needs_block, store_source, send_rq_symbol, count_encode, count_repair,
}

module _ {S M : Type 0} (env : Env) (codec : RqCodec) (ops : DecisionOps S M) where
  open env use {clock}
  open codec use {calloc_ok, rq_init, rq_encode, rq_symbol, rq_pid2esi}
  open ops use {choose_iface, decide_repairs, decide_block_size}

  -- K, T and F are set before the memory is asked for.
  unfoldable pub size_block : ℕ → ℕ → ℕ → RqHost S M → RqHost S M
  size_block i k len h =
      set_block i (record (h.blocks i) { k = k; t = len % 2 ^ 16; f = k * (len % 2 ^ 16) })
        (record h { allocs = suc h.allocs })

  -- A block that got its memory and its RaptorQ object.
  unfoldable pub open_block : ℕ → RqHost S M → RqHost S M
  open_block i h =
      let b = h.blocks i in
      let reps =
        decide_repairs
          (record {
            block_id = b.block_id;
            k = b.k;
            repairs_planned = 0;
            repairs_sent = 0;
            data_sent_bytes = 0;
          })
          h.decision in
      record (set_block i
        (record b {
          has_rq = true;
          has_data = true;
          data_buf = λ j. 0;
          num_source = 0;
          repairs_to_send = reps;
        })
        h) { current_block = some i }

  -- A new block for packets of length `len`; the test tells whether there is one.
  unfoldable pub start_block : ℕ → RqHost S M → RqHost S M × Bool
  start_block len h =
      let i = (alloc_new_block h).0 in
      let k = guarded_block_size h.block_size (decide_block_size h.decision) in
      let h' = size_block i k len (alloc_new_block h).1 in
      if not (calloc_ok h.allocs)
      then (abandon_block i h', false)
      else if not (rq_init (k * (len % 2 ^ 16)) (len % 2 ^ 16))
      then (abandon_block i h', false)
      else (open_block i h', true)

  unfoldable pub ensure_block : ℕ → RqHost S M → RqHost S M × Bool
  ensure_block len h = if needs_block h then start_block len h else (h, true)

  -- The source symbol leaves at once, by the interface that the engine chooses.
  unfoldable pub send_source : ℕ → ℕ → List ℕ → ℕ → RqHost S M → RqHost S M
  send_source i index pkt t_nfq h =
      let b = h.blocks i in
      let choice =
        choose_iface (record { block_id = b.block_id; sym_index = index; is_source = true })
          h.decision in
      let h' =
        send_rq_symbol env b.block_id b.k index b.t 1 pkt choice.1
          (record h { decision = choice.0; reads = suc h.reads }) in
      record h' {
        stats = record h'.stats {
          nfq_pkts = add64 h'.stats.nfq_pkts 1;
          nfq_latency_ns = add64 h'.stats.nfq_latency_ns (sub64 (clock h.reads) t_nfq);
        };
      }

  -- One repair symbol of block `i`.
  unfoldable pub send_repair : ℕ → RqHost S M → RqHost S M
  send_repair i h =
      let b = h.blocks i in
      let symbol = rq_symbol b.f b.t (tabulate b.f b.data_buf) h.symbols in
      let esi = rq_pid2esi symbol.pid in
      let choice =
        choose_iface (record { block_id = b.block_id; sym_index = esi; is_source = false })
          h.decision in
      send_rq_symbol env b.block_id b.k esi b.t 0 symbol.sym choice.1
        (record (count_repair env h) { decision = choice.0 })

  unfoldable pub send_repairs : ℕ → ℕ → RqHost S M → RqHost S M
  send_repairs i zero h = h
  send_repairs i (suc n) h = send_repairs i n (send_repair i h)

  -- A full block is encoded, its repair symbols leave, and it is closed.
  unfoldable pub complete_block : ℕ → RqHost S M → RqHost S M
  complete_block i h =
      let b = h.blocks i in
      let h' = count_encode env h in
      let sent =
        if rq_encode b.f b.t (tabulate b.f b.data_buf)
        then send_repairs i b.repairs_to_send h'
        else h' in
      if b.num_source == b.k
      then close_block i (record sent {
        stats = record sent.stats { blocks_completed = add64 sent.stats.blocks_completed 1 };
      })
      else h

  unfoldable pub accept_source : ℕ → List ℕ → ℕ → RqHost S M → RqHost S M
  accept_source i pkt t_nfq h =
      complete_block i (send_source i (h.blocks i).num_source pkt t_nfq (store_source i pkt h))

  -- The packet with the block that was found for it: a packet of another length closes the block and
  -- is handled `again`.
  unfoldable pub use_block :
      (RqHost S M → Option (RqHost S M)) → List ℕ → ℕ → RqHost S M × Bool → Option (RqHost S M)
  use_block again pkt t_nfq (h, ok) = if not ok then some h else elim h.current_block [
    | none ↦ some h
    | some i ↦
        (if not (length pkt % 2 ^ 16 == (h.blocks i).t)
          then again (close_block i h)
          else if leb (h.blocks i).k (h.blocks i).num_source
          then some h
          else some (accept_source i pkt t_nfq h))
  ]

  -- The call of itself after a change of length takes fuel; `none` means that it ran out.
  unfoldable pub handle_ip_packet : ℕ → List ℕ → ℕ → RqHost S M → Option (RqHost S M)
  handle_ip_packet zero pkt t_nfq h = none
  handle_ip_packet (suc fuel) pkt t_nfq h =
      if (length pkt == 0) || ltb max_pkt_len (length pkt)
      then some h
      else use_block (λ h'. handle_ip_packet fuel pkt t_nfq h') pkt t_nfq
          (ensure_block (length pkt) h)
