-- ===== src/RqReceiver/Tests.antt =====
-- Runs of the RaptorQ edge receiver at fixed inputs. The codec of the tests takes the stored bytes as
-- the source bytes.
use openmc.Common.{
  ℕ, ◌+◌, ◌*◌, ◌≡◌, refl, true, false, some, List, [], ◌∷◌, ◌++◌, get_or, length, tabulate, ◌==◌,
  arith,
}
use openmc.Env.{Env}
use openmc.Wire.{RqDataHdr, encode_rq_hdr, decode_rq_hdr}
use openmc.RqReceiver.{
  Codec, RqReceiver, BlockCtx, blank, max_syms_per_block, is_block_completed, mark_block_completed,
  has_esi, get_block, store_block, forward_ip_packet_counted, forwards,
}
use openmc.RqReceiver.Decode.{
  all_forwarded, must_decode, try_decode_and_forward, finalize_block, count_class, count_block,
  write_block_row, mark_forwarded,
}
use openmc.RqReceiver.Symbol.{
  store_symbol, find_block, accept_symbol, handle_rq_symbol, receive_loop, note_arrival,
  count_fragment, stamp_first, block_k, init_block, count_unique, forward_source,
  finish_if_complete, maybe_forward_and_finish, take_symbol,
}
use openmc.RqReceiver.Inv.{RqOk, blank-BlockOk}
use openmc.RqReceiver.Preserve.{receive_loop-RqOk}
use openmc.RqReceiver.Bounds.{store_symbol-inside, store_symbol-outside}
use openmc.RqReceiver.LateLoop.{Late, receive_loop-Late}
use openmc.RqReceiver.Recovery.{with_missing, try_decode_and_forward-delivers}

abbrev steady : Env
steady = record { clock = λ n. 1000 * (n + 1); send_ok = λ n. true }

abbrev plain : Codec
plain = record { rq_init = λ f t. true; rq_decode = λ f t bytes esis. some (λ k. get_or bytes k 0) }

abbrev start : RqReceiver
start = record {
  blocks = λ slot. blank;
  completed_blocks = [];
  gs_stats = record {
    pkts_received = 0;
    pkts_forwarded = 0;
    pkts_original = 0;
    bytes_forwarded = 0;
    bytes_original = 0;
    dec_calls = 0;
    dec_time_ns = 0;
    dec_attempts = 0;
    dec_attempt_time_ns = 0;
    experiment_start_ns = 0;
    experiment_end_ns = 0;
    total_useful_bytes = 0;
    total_gen_latency_ns = 0;
    completed_generations = 0;
  };
  counters = record {
    total_generations = 0;
    gens_no_loss = 0;
    gens_repaired = 0;
    gens_decode_fail = 0;
    total_data_fragments = 0;
    total_parity_fragments = 0;
    total_parity_consumed = 0;
  };
  block_size = 2;
  metrics_open = true;
  reads = 0;
  sends = 0;
  output = [];
  block_rows = [];
}

start-RqOk : RqOk 2 start
start-RqOk = record {
  table = λ slot. blank-BlockOk 2 0 false;
  config = refl;
  classes = refl;
  failures = refl;
  completed = omega arith;
}

-- Packet `i` of a block, twenty bytes.
abbrev packet : ℕ → List ℕ
packet i = tabulate 20 (λ j. i + j)

abbrev header : ℕ → ℕ → RqDataHdr
header esi is_source = record {
  block_id = 7;
  k = 2;
  esi = esi;
  symbol_len = 20;
  is_source = is_source;
  reserved = 0;
}

abbrev datagram : ℕ → ℕ → List ℕ → List ℕ
datagram esi is_source symbol = encode_rq_hdr (header esi is_source) ++ symbol

abbrev traffic : List (List ℕ)
traffic = datagram 0 1 (packet 0) ∷ datagram 5 0 (packet 1) ∷ []

receive_loop-RqOk_example : RqOk 2 (receive_loop steady plain traffic start)
receive_loop-RqOk_example = receive_loop-RqOk steady plain 2 traffic start start-RqOk

-- A block of two packets, both of whose symbols are stored and the first of which has left.
abbrev waiting : BlockCtx
waiting = record {
  b = record blank {
    in_use = true;
    block_id = 7;
    symbol_count = 2;
    symbol_size = 20;
    block_bytes = 40;
    has_rq = true;
    enc = λ k. k;
    esis = 0 ∷ 1 ∷ [];
    forwarded = λ i. i == 0;
    forwarded_count = 1;
  };
  rc = start;
}

abbrev block_packets : List (List ℕ)
block_packets = tabulate 20 (λ j. j) ∷ tabulate 20 (λ j. 20 + j) ∷ []

try_decode_and_forward-delivers_example :
    ((try_decode_and_forward steady plain waiting).rc.output
      ≡ with_missing (λ i. i == 0) 0 block_packets [])
    × (all_forwarded ((try_decode_and_forward steady plain waiting).b) ≡ true)
unfolding must_decode
try_decode_and_forward-delivers_example =
    try_decode_and_forward-delivers steady plain (λ n. refl) waiting
      (λ k. get_or (tabulate 40 (λ j. j)) k 0) block_packets refl (omega arith) refl refl
      (refl, (refl, tt))

-- The block has the room for 39 symbols taken, and a symbol of 21 bytes arrives.
abbrev crowded : BlockCtx
crowded = record waiting { b = record waiting.b { esis = tabulate 39 (λ i. i) } }

store_symbol-outside_example :
    (store_symbol steady plain (record (header 39 0) { symbol_len = 21 }) (packet 0) crowded).b.enc
      (max_syms_per_block * 20)
    ≡ get_or (packet 0) 20 0
store_symbol-outside_example =
    store_symbol-outside steady plain (record (header 39 0) { symbol_len = 21 }) (packet 0) crowded
      refl (omega arith)

store_symbol-inside_example :
    (store_symbol steady plain (header 39 0) (packet 0) crowded).b.enc 800 ≡ 800
store_symbol-inside_example =
    store_symbol-inside steady plain (header 39 0) (packet 0) crowded 800 (omega arith)
      (omega arith)

-- The block 7 is on the list, and its entry was cleared.
abbrev after : RqReceiver
after = record start { completed_blocks = 7 ∷ [] }

-- A source symbol and two repair symbols.
abbrev late_bufs : List (List ℕ)
late_bufs = datagram 0 1 (packet 0) ∷ datagram 5 0 (packet 1) ∷ datagram 6 0 (packet 2) ∷ []

receive_loop-Late_example : Late late_bufs after (receive_loop steady plain late_bufs after)
unfolding is_block_completed decode_rq_hdr encode_rq_hdr
receive_loop-Late_example =
    receive_loop-Late steady plain 7 late_bufs after refl
      (refl, refl, refl, (refl, refl, refl, (refl, refl, refl, tt)))

abbrev delivered : List (List ℕ) → ℕ
delivered bufs = length ((receive_loop steady plain bufs start).output)

abbrev both : List (List ℕ)
both = datagram 0 1 (packet 0) ∷ datagram 1 1 (packet 1) ∷ []

-- A block of two packets is delivered; a late copy of its first packet is not, the next copy is.
late_copies :
    (delivered both ≡ 2)
    × (delivered (both ++ datagram 0 1 (packet 0) ∷ []) ≡ 2)
    × (delivered (both ++ datagram 0 1 (packet 0) ∷ datagram 0 1 (packet 0) ∷ []) ≡ 3)
unfolding receive_loop handle_rq_symbol accept_symbol find_block get_block stamp_first init_block
    block_k note_arrival count_fragment take_symbol has_esi is_block_completed store_symbol
    count_unique maybe_forward_and_finish forward_source forwards forward_ip_packet_counted
    mark_forwarded try_decode_and_forward must_decode finish_if_complete all_forwarded
    finalize_block count_class mark_block_completed count_block write_block_row store_block
    decode_rq_hdr encode_rq_hdr
late_copies = (refl, refl, refl)
