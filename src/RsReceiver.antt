-- ===== src/RsReceiver.antt =====
-- The Reed-Solomon edge receiver, src/edge_receiver/edge_receiver_rs.c: its state, the table of
-- generations, and the forwarding of one packet.
pub mod Process
pub mod Columns
pub mod Fragment
pub mod Loops
pub mod Inv
pub mod Preserve
pub mod Report
pub mod Table
pub mod Safety
pub mod Recover
pub mod Code
pub mod Decoder
pub mod Recovery
pub mod AnyDecoder
mod Tests
use openmc.Common.{
  ℕ, suc, ◌+◌, ◌-◌, ◌*◌, ◌%◌, Bool, true, false, ◌||◌, not, List, ◌∷◌, ltb, ◌==◌, if◌then◌else◌,
  get_or, tabulate, update, add64,
}
use openmc.Env.{Env}
use openmc.Wire.{get_u16}

abbrev pub max_gens : ℕ
max_gens = 256

-- `sizeof(struct iphdr)` and `sizeof(struct udphdr)`
abbrev pub ip_hdr_size : ℕ
ip_hdr_size = 20

abbrev pub udp_hdr_size : ℕ
udp_hdr_size = 8

abbrev pub ipproto_udp : ℕ
ipproto_udp = 17

pub record GsStats : Type 0 where
  pub pkts_received : ℕ
  pub pkts_forwarded : ℕ
  pub pkts_original : ℕ
  pub bytes_forwarded : ℕ
  pub bytes_original : ℕ
  pub dec_calls : ℕ
  pub dec_time_ns : ℕ
  pub experiment_start_ns : ℕ
  pub experiment_end_ns : ℕ
  pub total_useful_bytes : ℕ
  pub total_gen_latency_ns : ℕ
  pub completed_generations : ℕ

-- The counters `g_total_generations` to `g_total_parity_consumed`.
pub record Counters : Type 0 where
  pub total_generations : ℕ
  pub generations_repaired : ℕ
  pub generations_decode_failed : ℕ
  pub generations_no_loss : ℕ
  pub total_data_fragments : ℕ
  pub total_parity_fragments : ℕ
  pub total_parity_consumed : ℕ

-- `rows` and `parity` are the arrays `data` and `parity`, as functions from the two indices.
pub record GenState : Type 0 where
  pub in_use : Bool
  pub gen_id : ℕ
  pub original_len : ℕ
  pub rows : ℕ → ℕ → ℕ
  pub data_present : ℕ → Bool
  pub data_forwarded : ℕ → Bool
  pub parity : ℕ → ℕ → ℕ
  pub parity_present : ℕ → Bool
  pub completed : Bool
  pub stats_reported : Bool
  pub decode_attempted : Bool
  pub decode_succeeded : Bool
  pub parity_consumed_counted : Bool
  pub first_rx_ns : ℕ
  pub last_fwd_ns : ℕ
  pub useful_bytes : ℕ

-- A packet that left by the raw socket, and whether it was received or repaired.
pub record Forwarded : Type 0 where
  pub bytes : List ℕ
  pub is_original : Bool

-- A line of the block metrics file.
pub record BlockRow : Type 0 where
  pub block_id : ℕ
  pub first_symbol_rx_ns : ℕ
  pub last_original_delivery_ns : ℕ
  pub block_latency_us : ℕ
  pub decode_required : Bool
  pub decode_success : Bool
  pub completed : Bool
  pub useful_bytes : ℕ

-- The globals. `output` and `block_rows` are what the raw socket and the metrics file took, newest
-- first; `reads` and `sends` count the clock readings and the calls of `sendto`.
pub record Receiver : Type 0 where
  pub gens : ℕ → GenState
  pub gs_stats : GsStats
  pub counters : Counters
  pub parity_symbols : ℕ
  pub metrics_open : Bool
  pub reads : ℕ
  pub sends : ℕ
  pub output : List Forwarded
  pub block_rows : List BlockRow

-- `memset(gs, 0, sizeof(*gs))`
abbrev pub cleared : GenState
cleared = record {
  in_use = false;
  gen_id = 0;
  original_len = 0;
  rows = λ i j. 0;
  data_present = λ i. false;
  data_forwarded = λ i. false;
  parity = λ p j. 0;
  parity_present = λ p. false;
  completed = false;
  stats_reported = false;
  decode_attempted = false;
  decode_succeeded = false;
  parity_consumed_counted = false;
  first_rx_ns = 0;
  last_fwd_ns = 0;
  useful_bytes = 0;
}

-- The pointer `gs` into the table is the pair of the entry and the rest of the state; `store_gen`
-- ends its use.
pub record Ctx : Type 0 where
  pub gs : GenState
  pub rc : Receiver

unfoldable pub store_gen : ℕ → Ctx → Receiver
store_gen gen_id c = record c.rc { gens = update c.rc.gens (gen_id % max_gens) c.gs }

unfoldable pub get_gen_state : ℕ → Receiver → Ctx
get_gen_state gen_id rc =
    let gs = rc.gens (gen_id % max_gens) in
    if not gs.in_use || not (gs.gen_id == gen_id)
    then record {
      gs = record cleared { in_use = true; gen_id = gen_id; original_len = 0 };
      rc = record rc {
        counters = record rc.counters { total_generations = add64 rc.counters.total_generations 1 };
      };
    }
    else record { gs = gs; rc = rc }

-- The UDP payload of an IPv4 packet, `len` bytes of which are there. `ihl` is the low half of the
-- first byte.
unfoldable pub udp_payload_bytes : List ℕ → ℕ → ℕ → ℕ
udp_payload_bytes pkt ip_header_len ip_total_len =
    if ltb ip_total_len (ip_header_len + udp_hdr_size)
    then 0
    else (let udp_len = get_u16 pkt (ip_header_len + 4) in
        let max_udp_len = ip_total_len - ip_header_len in
        (if ltb udp_len udp_hdr_size || ltb max_udp_len udp_len then max_udp_len else udp_len)
        - udp_hdr_size)

unfoldable pub application_payload_bytes : List ℕ → ℕ → ℕ
unfolding udp_payload_bytes
application_payload_bytes pkt len =
    let ip_header_len = (get_or pkt 0 0 % 16) * 4 in
    let tot_len = get_u16 pkt 2 in
    let ip_total_len = if (tot_len == 0) || ltb len tot_len then len else tot_len in
    if ltb len ip_hdr_size
    then 0
    else if ltb ip_header_len ip_hdr_size || ltb len ip_header_len
    then 0
    else if get_or pkt 9 0 == ipproto_udp
    then udp_payload_bytes pkt ip_header_len ip_total_len
    else 0

-- Packet `i` of a generation.
abbrev pub row : GenState → ℕ → List ℕ
row gs i = tabulate gs.original_len (gs.rows i)

module _ (env : Env) where
  open env use {clock, send_ok}

  -- `len` is the length of the packet in every call.
  unfoldable pub forward_ip_packet : List ℕ → ℕ → Bool → Receiver → Receiver
  forward_ip_packet pkt len is_original rc =
      if len == 0
      then rc
      else if ltb len ip_hdr_size
      then rc
      else if send_ok rc.sends
      then record rc {
        sends = suc rc.sends;
        output = record { bytes = pkt; is_original = is_original } ∷ rc.output;
        gs_stats = record rc.gs_stats {
          pkts_forwarded = add64 rc.gs_stats.pkts_forwarded 1;
          bytes_forwarded = add64 rc.gs_stats.bytes_forwarded len;
          pkts_original =
              (if is_original
                then add64 rc.gs_stats.pkts_original 1
                else rc.gs_stats.pkts_original);
          bytes_original =
              (if is_original
                then add64 rc.gs_stats.bytes_original len
                else rc.gs_stats.bytes_original);
        };
      }
      else record rc { sends = suc rc.sends }

  -- The body of both forwarding loops: packet `i` is sent, marked, and its payload and the time kept.
  unfoldable pub deliver : ℕ → Bool → Ctx → Ctx
  unfolding forward_ip_packet
  deliver i is_original c =
      let rc' = forward_ip_packet (row c.gs i) c.gs.original_len is_original c.rc in
      record {
        gs = record c.gs {
          data_present = update c.gs.data_present i true;
          data_forwarded = update c.gs.data_forwarded i true;
          useful_bytes =
              add64 c.gs.useful_bytes (application_payload_bytes (row c.gs i) c.gs.original_len);
          last_fwd_ns = clock rc'.reads;
        };
        rc = record rc' { reads = suc rc'.reads };
      }
