-- ===== src/RqReceiver.antt =====
-- The RaptorQ edge receiver, src/edge_receiver/edge_receiver_rq.c: its state, the table of blocks, the
-- list of completed blocks, and the forwarding of one packet.
pub mod Decode
pub mod Symbol
pub mod Inv
pub mod Preserve
pub mod Late
pub mod Stored
pub mod LateLoop
pub mod Bounds
pub mod Recovery
mod Tests
use openmc.Common.{
  ℕ, suc, ◌+◌, ◌*◌, ◌%◌, Bool, true, false, ◌||◌, not, Option, List, [], ◌∷◌, ◌++◌, ltb, ◌==◌,
  if◌then◌else◌, length, update, add64,
}
use openmc.Env.{Env}
use openmc.RsReceiver.{Forwarded, BlockRow}

abbrev pub max_blocks : ℕ
max_blocks = 1024

abbrev pub max_syms_per_block : ℕ
max_syms_per_block = 40

abbrev pub ip_hdr_size : ℕ
ip_hdr_size = 20

-- The RaptorQ library. `rq_init` tells whether an object for a block of F bytes in symbols of T bytes
-- was made; `rq_decode`, with F, T, the bytes of the stored symbols and their identifiers, yields the
-- source bytes or an error.
pub record Codec : Type 0 where
  pub rq_init : ℕ → ℕ → Bool
  pub rq_decode : ℕ → ℕ → List ℕ → List ℕ → Option (ℕ → ℕ)

pub record RqStats : Type 0 where
  pub pkts_received : ℕ
  pub pkts_forwarded : ℕ
  pub pkts_original : ℕ
  pub bytes_forwarded : ℕ
  pub bytes_original : ℕ
  pub dec_calls : ℕ
  pub dec_time_ns : ℕ
  pub dec_attempts : ℕ
  pub dec_attempt_time_ns : ℕ
  pub experiment_start_ns : ℕ
  pub experiment_end_ns : ℕ
  pub total_useful_bytes : ℕ
  pub total_gen_latency_ns : ℕ
  pub completed_generations : ℕ

-- The counters `g_total_generations` to `g_total_parity_consumed`.
pub record RqCounters : Type 0 where
  pub total_generations : ℕ
  pub gens_no_loss : ℕ
  pub gens_repaired : ℕ
  pub gens_decode_fail : ℕ
  pub total_data_fragments : ℕ
  pub total_parity_fragments : ℕ
  pub total_parity_consumed : ℕ

-- `symbol_count` and `symbol_size` are K and T, `block_bytes` is F; `has_rq` tells whether `rq` is not
-- NULL. `enc` is the memory from `enc` on, byte by byte, without its end. `esis` holds the identifiers
-- in the order of their storing, so that `nesi` is its length. `dec` is written and read within one
-- call, and is no field.
pub record RqBlockDec : Type 0 where
  pub in_use : Bool
  pub block_id : ℕ
  pub symbol_count : ℕ
  pub symbol_size : ℕ
  pub block_bytes : ℕ
  pub has_rq : Bool
  pub enc : ℕ → ℕ
  pub esis : List ℕ
  pub have_source : ℕ → Bool
  pub forwarded : ℕ → Bool
  pub forwarded_count : ℕ
  pub decoded : Bool
  pub decode_attempted : Bool
  pub used_fec : Bool
  pub nsrc_unique : ℕ
  pub npar_unique : ℕ
  pub parity_consumed_counted : Bool
  pub first_rx_ns : ℕ
  pub last_fwd_ns : ℕ
  pub useful_bytes : ℕ

-- The globals. `completed_blocks` holds the first `g_completed_count` entries of the array.
pub record RqReceiver : Type 0 where
  pub blocks : ℕ → RqBlockDec
  pub completed_blocks : List ℕ
  pub gs_stats : RqStats
  pub counters : RqCounters
  pub block_size : ℕ
  pub metrics_open : Bool
  pub reads : ℕ
  pub sends : ℕ
  pub output : List Forwarded
  pub block_rows : List BlockRow

-- `memset(b, 0, sizeof(*b))`
abbrev pub blank : RqBlockDec
blank = record {
  in_use = false;
  block_id = 0;
  symbol_count = 0;
  symbol_size = 0;
  block_bytes = 0;
  has_rq = false;
  enc = λ k. 0;
  esis = [];
  have_source = λ i. false;
  forwarded = λ i. false;
  forwarded_count = 0;
  decoded = false;
  decode_attempted = false;
  used_fec = false;
  nsrc_unique = 0;
  npar_unique = 0;
  parity_consumed_counted = false;
  first_rx_ns = 0;
  last_fwd_ns = 0;
  useful_bytes = 0;
}

-- Whether a number stands in a list: the loops of `is_block_completed` and `has_esi`.
abbrev pub holds : ℕ → List ℕ → Bool
holds x [] = false
holds x (y ∷ ys) = let rest = holds x ys in if y == x then true else rest

unfoldable pub is_block_completed : ℕ → RqReceiver → Bool
is_block_completed block_id rc = holds block_id rc.completed_blocks

unfoldable pub mark_block_completed : ℕ → RqReceiver → RqReceiver
mark_block_completed block_id rc =
    if ltb (length rc.completed_blocks) max_blocks
    then record rc { completed_blocks = rc.completed_blocks ++ block_id ∷ [] }
    else rc

unfoldable pub has_esi : RqBlockDec → ℕ → Bool
has_esi b esi = holds esi b.esis

-- The pointer `b` into the table is the pair of the block and the rest of the state; `store_block`
-- ends its use.
pub record BlockCtx : Type 0 where
  pub b : RqBlockDec
  pub rc : RqReceiver

unfoldable pub store_block : ℕ → BlockCtx → RqReceiver
store_block block_id c = record c.rc { blocks = update c.rc.blocks (block_id % max_blocks) c.b }

unfoldable pub get_block : ℕ → RqReceiver → BlockCtx
get_block block_id rc =
    let b = rc.blocks (block_id % max_blocks) in
    if not b.in_use
    then record { b = record blank { in_use = true; block_id = block_id }; rc = rc }
    else if not (b.block_id == block_id)
    then record { b = record blank { in_use = true; block_id = block_id }; rc = rc }
    else record { b = b; rc = rc }

module _ (env : Env) where
  open env use {send_ok}

  -- The return value is 0 where the test holds.
  unfoldable pub forwards : ℕ → RqReceiver → Bool
  forwards len rc = if ltb len ip_hdr_size then false else send_ok rc.sends

  unfoldable pub forward_ip_packet_counted : List ℕ → ℕ → Bool → RqReceiver → RqReceiver
  forward_ip_packet_counted pkt len is_orig rc =
      if ltb len ip_hdr_size
      then rc
      else if send_ok rc.sends
      then record rc {
        sends = suc rc.sends;
        output = record { bytes = pkt; is_original = is_orig } ∷ rc.output;
        gs_stats = record rc.gs_stats {
          pkts_forwarded = add64 rc.gs_stats.pkts_forwarded 1;
          bytes_forwarded = add64 rc.gs_stats.bytes_forwarded len;
          pkts_original =
              (if is_orig then add64 rc.gs_stats.pkts_original 1 else rc.gs_stats.pkts_original);
          bytes_original =
              (if is_orig
                then add64 rc.gs_stats.bytes_original len
                else rc.gs_stats.bytes_original);
        };
      }
      else record rc { sends = suc rc.sends }
