-- ===== src/RqHost.antt =====
-- The RaptorQ processing host, src/processing_host/openmc_rq.c: its state and `handle_ip_packet` with
-- what it calls. The decision engine is behind its interface `DecisionOps`.
pub mod Packet
pub mod Loop
pub mod Inv
pub mod Sent
pub mod Working
pub mod Fill
pub mod Opened
pub mod Block
pub mod Start
pub mod Preserve
pub mod Policy
mod Tests
use openmc.Common.{
  ℕ, suc, ◌+◌, ◌*◌, ◌%◌, ◌^◌, Bool, true, false, ◌||◌, Option, none, some, List, [], ◌∷◌, ◌++◌, ltb,
  leb, ◌==◌, if◌then◌else◌, length, take, tabulate, update, blit, add16, add64, sub64,
}
use openmc.Env.{Env}
use openmc.Wire.{encode_rq_hdr}
use openmc.Decision.{Iface, DecisionOps}

abbrev pub max_pkt_len : ℕ
max_pkt_len = 1500

abbrev pub max_blocks : ℕ
max_blocks = 1024

-- A repair symbol of lcrq: its identifier `rq_pid_t` and its bytes.
pub record RqSymbol : Type 0 where
  pub pid : ℕ
  pub sym : List ℕ

-- The C library and lcrq. `calloc_ok` tells of the n-th call whether memory was given, `rq_init`
-- whether an object for F bytes in symbols of T bytes was made, `rq_encode` whether the bytes were
-- encoded; `rq_symbol` is the n-th random symbol drawn, for F, T and the bytes encoded.
pub record RqCodec : Type 0 where
  pub calloc_ok : ℕ → Bool
  pub rq_init : ℕ → ℕ → Bool
  pub rq_encode : ℕ → ℕ → List ℕ → Bool
  pub rq_symbol : ℕ → ℕ → List ℕ → ℕ → RqSymbol
  pub rq_pid2esi : ℕ → ℕ

-- `struct stats`
pub record RqHostStats : Type 0 where
  pub pkts_intercepted : ℕ
  pub pkts_forwarded : ℕ
  pub pkts_original : ℕ
  pub bytes_forwarded : ℕ
  pub bytes_original : ℕ
  pub blocks_completed : ℕ
  pub enc_calls : ℕ
  pub enc_time_ns : ℕ
  pub repair_calls : ℕ
  pub repair_time_ns : ℕ
  pub nfq_pkts : ℕ
  pub nfq_latency_ns : ℕ

-- `k`, `t` and `f` are K, T and F; `has_rq` and `has_data` tell whether the pointers are not NULL, and
-- `data_buf` is the memory at `data`.
pub record RqBlockEnc : Type 0 where
  pub in_use : Bool
  pub block_id : ℕ
  pub k : ℕ
  pub t : ℕ
  pub f : ℕ
  pub num_source : ℕ
  pub repairs_to_send : ℕ
  pub has_rq : Bool
  pub has_data : Bool
  pub data_buf : ℕ → ℕ

-- A datagram and the interface that it left by.
pub record SentSymbol : Type 0 where
  pub iface : Iface
  pub bytes : List ℕ

-- The globals. `current_block` is the slot of the table that the pointer is to; `overwritten` counts
-- the warnings on a block that was overwritten; `reads`, `sends`, `allocs` and `symbols` count the
-- calls of the clock, `sendto`, `calloc` and `rq_symbol`; `wire` holds what was sent, newest first.
pub record RqHost (S M : Type 0) : Type 0 where
  pub blocks : ℕ → RqBlockEnc
  pub next_block_id : ℕ
  pub current_block : Option ℕ
  pub decision : S
  pub current_metrics : M
  pub block_size : ℕ
  pub stats : RqHostStats
  pub t_start_ns : ℕ
  pub t_end_ns : ℕ
  pub pkt_counter : ℕ
  pub overwritten : ℕ
  pub reads : ℕ
  pub sends : ℕ
  pub allocs : ℕ
  pub symbols : ℕ
  pub wire : List SentSymbol

-- `memset(b, 0, sizeof(*b))`
abbrev pub no_block : RqBlockEnc
no_block = record {
  in_use = false;
  block_id = 0;
  k = 0;
  t = 0;
  f = 0;
  num_source = 0;
  repairs_to_send = 0;
  has_rq = false;
  has_data = false;
  data_buf = λ j. 0;
}

-- The guard on the block size that the engine decides.
unfoldable pub guarded_block_size : ℕ → ℕ → ℕ
guarded_block_size block_size k_dec =
    if (k_dec == 0) || ltb block_size k_dec then block_size else k_dec

module _ {S M : Type 0} where
  abbrev pub set_block : ℕ → RqBlockEnc → RqHost S M → RqHost S M
  set_block i b h = record h { blocks = update h.blocks i b }

  -- The slot of the new block, and the state with it.
  unfoldable pub alloc_new_block : RqHost S M → ℕ × RqHost S M
  alloc_new_block h =
      let id = h.next_block_id in
      let i = id % max_blocks in
      (
        i,
        record h {
          next_block_id = add16 id 1;
          overwritten = (if (h.blocks i).in_use then suc h.overwritten else h.overwritten);
          blocks = update h.blocks i (record no_block { in_use = true; block_id = id });
        },
      )

  -- Both places that free a block and forget it.
  unfoldable pub close_block : ℕ → RqHost S M → RqHost S M
  close_block i h = record h {
    blocks =
        update h.blocks i
          (record (h.blocks i) { in_use = false; has_rq = false; has_data = false });
    current_block = none;
  }

  -- A failed `calloc` or `rq_init`: the slot is free again, and no block is current.
  unfoldable pub abandon_block : ℕ → RqHost S M → RqHost S M
  abandon_block i h = record h {
    blocks = update h.blocks i (record (h.blocks i) { in_use = false; has_data = false });
    current_block = none;
  }

  -- `!current_block || current_block->num_source >= current_block->K`
  unfoldable pub needs_block : RqHost S M → Bool
  needs_block h = elim h.current_block [
    | none ↦ true
    | some i ↦ leb (h.blocks i).k (h.blocks i).num_source
  ]

  -- The copy of a packet of the block's length into the block.
  unfoldable pub store_source : ℕ → List ℕ → RqHost S M → RqHost S M
  store_source i pkt h =
      let b = h.blocks i in
      set_block i
        (record b {
          data_buf = blit b.data_buf (b.num_source * b.t) pkt 0;
          num_source = suc b.num_source;
        })
        h

  unfoldable pub send_rq_symbol : Env → ℕ → ℕ → ℕ → ℕ → ℕ → List ℕ → Iface → RqHost S M → RqHost S M
  send_rq_symbol env block_id k esi t is_source symbol iface h =
      let bytes =
        encode_rq_hdr (record {
          block_id = block_id;
          k = k;
          esi = esi;
          symbol_len = t;
          is_source = is_source;
          reserved = 0;
        })
        ++ take t symbol in
      let s = h.stats in
      if ltb max_pkt_len t
      then h
      else if env.send_ok h.sends
      then record h {
        sends = suc h.sends;
        wire = record { iface = iface; bytes = bytes } ∷ h.wire;
        stats = record s {
          pkts_forwarded = add64 s.pkts_forwarded 1;
          bytes_forwarded = add64 s.bytes_forwarded t;
          pkts_original = (if is_source == 0 then s.pkts_original else add64 s.pkts_original 1);
          bytes_original = (if is_source == 0 then s.bytes_original else add64 s.bytes_original t);
        };
      }
      else record h { sends = suc h.sends }

  unfoldable pub count_encode : Env → RqHost S M → RqHost S M
  count_encode env h = record h {
    reads = h.reads + 2;
    stats = record h.stats {
      enc_calls = add64 h.stats.enc_calls 1;
      enc_time_ns = add64 h.stats.enc_time_ns (sub64 (env.clock (suc h.reads)) (env.clock h.reads));
    };
  }

  unfoldable pub count_repair : Env → RqHost S M → RqHost S M
  count_repair env h = record h {
    reads = h.reads + 2;
    symbols = suc h.symbols;
    stats = record h.stats {
      repair_calls = add64 h.stats.repair_calls 1;
      repair_time_ns =
          add64 h.stats.repair_time_ns (sub64 (env.clock (suc h.reads)) (env.clock h.reads));
    };
  }
