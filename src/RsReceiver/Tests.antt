-- ===== src/RsReceiver/Tests.antt =====
-- Runs of the Reed-Solomon edge receiver at fixed inputs. The code is the repetition of the eight
-- data symbols, eight repair symbols to a block.
use openmc.Common.{
  ℕ, ◌+◌, ◌≡◌, refl, inl, true, false, not, ◌&&◌, ◌*◌, List, [], ◌∷◌, ◌++◌, arith, ◌==◌, ltb,
  get_or, tabulate, if◌then◌else◌,
}
use openmc.Env.{Env, emit}
use openmc.Wire.{encode_fec_hdr, decode_fec_hdr}
use openmc.RsReceiver.{GenState, Ctx, cleared, get_gen_state, store_gen, deliver}
use openmc.RsReceiver.Process.{
  pos, negsuc, Decoded, can_decode, try_decode_generation, forward_received, forward_repaired,
  count_consumed, run_decoder, mark_succeeded, finish_generation, process_generation,
}
use openmc.RsReceiver.Fragment.{
  boot, add_data, bad_length, note_arrival, stamp_first, match_length, find_generation,
  dispatch_fragment, accept_fragment, handle_fragment, receive_loop,
}
use openmc.RsReceiver.Safety.{receive_loop-TableOk}
use openmc.RsReceiver.Table.{TableOk}
use openmc.RsReceiver.Recover.{missing_packets}
use openmc.RsReceiver.Columns.{unchanged-Holds}
use openmc.RsReceiver.AnyDecoder.{
  left_packet, try_decode_generation-outside, try_decode_generation-forwards,
}
use openmc.RsReceiver.Recovery.{or_zeros, try_decode_generation-GivesUp}

-- Each reading of the clock is one second on; every datagram is sent.
abbrev steady : Env
steady = record { clock = λ n. 1_000_000_000 * (n + 1); send_ok = λ n. true }

abbrev repeat_encode : List ℕ → List ℕ
repeat_encode symbols = symbols

abbrev repeat_decode : List ℕ → List ℕ → Decoded
repeat_decode word eras = record {
  failed = false;
  symbols = tabulate 8 (λ i. get_or word (8 + i) 0);
  positions = λ e. pos (get_or eras e 0);
}

abbrev stuck_decode : List ℕ → List ℕ → Decoded
stuck_decode word eras = record {
  failed = true;
  symbols = word;
  positions = λ e. pos (get_or eras e 0);
}

-- Eight packets of twenty bytes, the fourth of which was lost.
abbrev packet : ℕ → List ℕ
packet i = tabulate 20 (λ j. i)

abbrev packets : List (List ℕ)
packets = tabulate 8 packet

abbrev lossy : GenState
lossy = record cleared {
  in_use = true;
  gen_id = 5;
  original_len = 20;
  rows = λ i j. if i == 3 then 0 else i;
  data_present = λ i. ltb i 8 && not (i == 3);
  data_forwarded = λ i. ltb i 8 && not (i == 3);
  parity = λ p j. p;
  parity_present = λ p. ltb p 8;
}

abbrev lossy_ctx : Ctx
lossy_ctx = record { gs = lossy; rc = unfold boot in boot 8 false }

-- The one lost packet is what is sent.
recovered_output :
    (try_decode_generation steady repeat_decode lossy_ctx).rc.output
    ≡ record { bytes = packet 3; is_original = false } ∷ []
unfolding boot can_decode try_decode_generation forward_repaired run_decoder count_consumed
    mark_succeeded deliver
recovered_output = refl

stuck_ready : can_decode steady stuck_decode lossy_ctx ≡ true
unfolding can_decode boot
stuck_ready = refl

try_decode_generation-GivesUp_example :
    ((try_decode_generation steady stuck_decode lossy_ctx).rc.output
      ≡ emit steady 0 (missing_packets 0 8 lossy.data_present (or_zeros lossy)) [])
    × ((try_decode_generation steady stuck_decode lossy_ctx).gs.decode_succeeded ≡ true)
unfolding boot
try_decode_generation-GivesUp_example =
    try_decode_generation-GivesUp steady repeat_encode stuck_decode lossy_ctx
      (λ j. (refl, refl, unchanged-Holds (3 ∷ []))) stuck_ready (omega arith)

-- A decoder that answers with a position behind the table and a negative one.
abbrev wild_decode : List ℕ → List ℕ → Decoded
wild_decode word eras = record {
  failed = false;
  symbols = word;
  positions = λ e. if e == 0 then pos 200 else negsuc 0;
}

wild_ready : can_decode steady wild_decode lossy_ctx ≡ true
unfolding can_decode boot
wild_ready = refl

try_decode_generation-outside_example :
    (try_decode_generation steady wild_decode lossy_ctx).gs.rows 200 0 ≡ 200
try_decode_generation-outside_example =
    try_decode_generation-outside steady wild_decode lossy_ctx 200 0 (inl (omega arith))

try_decode_generation-forwards_example :
    ((try_decode_generation steady wild_decode lossy_ctx).rc.output
      ≡ emit steady 0
          (missing_packets 0 8 lossy.data_present (left_packet steady wild_decode lossy_ctx))
          [])
    × ((try_decode_generation steady wild_decode lossy_ctx).gs.decode_succeeded ≡ true)
unfolding boot
try_decode_generation-forwards_example =
    try_decode_generation-forwards steady wild_decode lossy_ctx wild_ready (omega arith)

-- A data fragment of a packet of twenty bytes.
abbrev fragment : ℕ → ℕ → List ℕ
fragment gen i =
    encode_fec_hdr (record { gen_id = gen; index = i; type = 0; original_len = 20; reserved = 0 })
    ++ packet i

receive_loop-TableOk_example :
    TableOk
      (receive_loop steady stuck_decode (fragment 5 0 ∷ fragment 5 0 ∷ (1 ∷ []) ∷ []) (boot 2 true))
receive_loop-TableOk_example =
    receive_loop-TableOk steady stuck_decode 2 true (fragment 5 0 ∷ fragment 5 0 ∷ (1 ∷ []) ∷ [])

-- A fragment, the same again, and one that is too short: one packet is sent.
duplicate_run :
    (receive_loop steady stuck_decode
      (fragment 5 0 ∷ fragment 5 0 ∷ (1 ∷ []) ∷ [])
      (boot 2 true)).output
    ≡ record { bytes = packet 0; is_original = true } ∷ []
unfolding receive_loop boot handle_fragment accept_fragment dispatch_fragment find_generation
    get_gen_state stamp_first match_length note_arrival bad_length add_data process_generation
    forward_received try_decode_generation can_decode finish_generation deliver store_gen
    decode_fec_hdr encode_fec_hdr
duplicate_run = refl
