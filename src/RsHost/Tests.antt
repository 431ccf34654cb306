-- ===== src/RsHost/Tests.antt =====
-- Runs of the Reed-Solomon processing host at fixed inputs. The encoder is the repetition of the
-- data symbols.
use openmc.Common.{
  ℕ, zero, suc, ◌+◌, ◌*◌, ◌≤◌, ◌<◌, ◌≡◌, ◌⊎◌, refl, inr, true, false, List, [], ◌∷◌, some, none,
  arith, get_or, tabulate, length, ap, get_or-tabulate, Option,
}
use openmc.Env.{Env, emit}
use openmc.Wire.{encode_fec_hdr}
use openmc.RsHost.{
  GenerationState, path_a, path_b, fragment_datagram, fragment_path, start_generation,
  overflow_generation, store_packet, complete_generation, send_fragment, send_parity,
  flush_generation, send_original, accept_packet, handle_ip_packet,
}
use openmc.RsHost.Loop.{
  boot, note_interception, nfq_cb, nfq_handle_packet, flush_pending, receive_loop,
}
use openmc.RsHost.Inv.{IsValid, IsBadLength}
use openmc.RsHost.Forward.{handle_ip_packet-IsValid, handle_ip_packet-wire}
use openmc.RsHost.Collect.{Collector, Holds, add_packet}
use openmc.RsHost.Refine.{Completed, handle_ip_packet-Completed}
use openmc.RsHost.Parity.{parity_datagrams, flush_generation-wire}
use openmc.RsHost.Queue.{boot-IsValid, receive_loop-no_drop}

abbrev steady : Env
steady = record { clock = λ n. 1_000_000_000 * (n + 1); send_ok = λ n. true }

abbrev repeat_encode : List ℕ → List ℕ
repeat_encode symbols = symbols

abbrev packet : ℕ → List ℕ
packet i = 2 * i ∷ (2 * i + 1) ∷ []

abbrev batch : List (Option (List ℕ))
batch = tabulate 8 (λ i. some (packet i))

boot_two-IsValid : IsValid (boot 2)
boot_two-IsValid = boot-IsValid 2 (omega arith)

handle_ip_packet-IsValid_example :
    IsValid (handle_ip_packet steady repeat_encode (packet 0) 7 (boot 2))
handle_ip_packet-IsValid_example =
    handle_ip_packet-IsValid steady repeat_encode (packet 0) 7 (boot 2) boot_two-IsValid

handle_ip_packet-wire_example :
    (IsBadLength 2 × (handle_ip_packet steady repeat_encode (packet 0) 7 (boot 2) ≡ boot 2))
    ⊎ ((0 < 2)
        × (2 ≤ 1500)
        × (0 < 8)
        × ((handle_ip_packet steady repeat_encode (packet 0) 7 (boot 2)).wire
            ≡ fragment_datagram 1 0 0 2 (packet 0) ∷ []))
unfolding boot
handle_ip_packet-wire_example =
    handle_ip_packet-wire steady repeat_encode (packet 0) 7 (boot 2) boot_two-IsValid

abbrev empty : Collector
empty = record { gen = 0; packets = [] }

boot-Holds : Holds (boot 2).cur_gen empty
unfolding boot
boot-Holds = record {
  id = refl;
  number = refl;
  lens = λ i h. absurd (omega arith);
  bytes = λ i j h k. absurd (omega arith);
}

handle_ip_packet-Completed_example :
    Completed
      (boot 2)
      (handle_ip_packet steady repeat_encode (packet 0) 7 (boot 2))
      (add_packet (packet 0) empty)
handle_ip_packet-Completed_example =
    handle_ip_packet-Completed steady repeat_encode (packet 0) 7 (boot 2) empty boot_two-IsValid
      boot-Holds (omega arith) (omega arith)

-- Eight packets of two bytes.
abbrev full : GenerationState
full = record { gen_id = 1; count = 8; original_len = 2; data_buf = λ k. k }

abbrev full_packets : Collector
full_packets = record { gen = 1; packets = tabulate 8 packet }

full-Holds : Holds full full_packets
full-Holds = record {
  id = refl;
  number = refl;
  lens = λ i lt. ap length (get_or-tabulate 8 packet i [] lt);
  bytes = cell;
}
  where
    cell : (i j : ℕ) → i < 8 → j < 2 → i * 2 + j ≡ get_or (get_or full_packets.packets i []) j 0
    cell i zero hi hj = omega (arith, ap (λ p. get_or p 0 0) (get_or-tabulate 8 packet i [] hi))
    cell i (suc zero) hi hj =
        omega (arith, ap (λ p. get_or p 1 0) (get_or-tabulate 8 packet i [] hi))
    cell i (suc (suc j)) hi hj = absurd (omega arith)

flush_generation-wire_example :
    ((flush_generation steady repeat_encode full (boot 2)).wire
      ≡ emit steady 0 (parity_datagrams repeat_encode 1 (tabulate 8 packet) 2 0 2) [])
    × ((flush_generation steady repeat_encode full (boot 2)).stats.generations_completed ≡ 1)
unfolding boot
flush_generation-wire_example =
    flush_generation-wire steady repeat_encode full full_packets (boot 2) full-Holds (omega arith)
      (omega arith) (inr refl)

receive_loop-no_drop_example :
    ((receive_loop steady repeat_encode (batch ∷ (none ∷ []) ∷ batch ∷ []) (boot 2)).rs_dropped ≡ 0)
    × IsValid (receive_loop steady repeat_encode (batch ∷ (none ∷ []) ∷ batch ∷ []) (boot 2))
    × ((receive_loop steady repeat_encode (batch ∷ (none ∷ []) ∷ batch ∷ []) (boot 2)).pending_rs
        ≡ false)
receive_loop-no_drop_example =
    receive_loop-no_drop steady repeat_encode 2 (batch ∷ (none ∷ []) ∷ batch ∷ []) (omega arith)
      (omega arith)

-- The last three of the ten datagrams of one generation: its eighth packet, then two repair symbols.
generation_run :
    (receive_loop steady repeat_encode (batch ∷ []) (boot 2)).wire
    ≡ record { path = path_b; bytes = 0 ∷ 1 ∷ 9 ∷ 1 ∷ 0 ∷ 2 ∷ 0 ∷ 0 ∷ 2 ∷ 3 ∷ [] }
      ∷ record { path = path_a; bytes = 0 ∷ 1 ∷ 8 ∷ 1 ∷ 0 ∷ 2 ∷ 0 ∷ 0 ∷ 0 ∷ 1 ∷ [] }
      ∷ (receive_loop steady repeat_encode (batch ∷ []) (boot 0)).wire
unfolding receive_loop boot nfq_handle_packet nfq_cb note_interception handle_ip_packet
    accept_packet start_generation overflow_generation store_packet send_original
    complete_generation flush_pending flush_generation send_parity send_fragment encode_fec_hdr
    fragment_path
generation_run = refl
