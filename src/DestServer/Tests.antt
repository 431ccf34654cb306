-- ===== src/DestServer/Tests.antt =====
-- Runs of the destination server at fixed inputs: sixteen packets are expected.
use openmc.Common.{ℕ, ◌+◌, ◌≡◌, refl, not, List, [], ◌∷◌, ◌++◌, tabulate, count_below, arith}
use openmc.DestServer.{
  Summary, Server, run_reset, note_seq, total_space, missing_from, missing_sample, full_blocks,
  partial_blocks, empty_blocks, print_run_summary, start_run, select_run, summarise_if_complete,
  count_datagram, handle_datagram, receive_loop, finish, boot,
}
use openmc.DestServer.Inv.{ServerOk, receive_loop-ServerOk, print_run_summary-missing}

abbrev datagram : ℕ → ℕ → List ℕ
datagram rid seq = rid ∷ 0 ∷ 0 ∷ 0 ∷ seq ∷ 0 ∷ 0 ∷ 0 ∷ []

-- Run 5: the numbers 0 to 8, number 3 twice.
abbrev traffic : List (List ℕ)
traffic = tabulate 9 (λ i. datagram 5 i) ++ datagram 5 3 ∷ []

receive_loop-ServerOk_example : ServerOk 16 (receive_loop 16 traffic (boot 16))
receive_loop-ServerOk_example = receive_loop-ServerOk 16 traffic (omega arith)

abbrev counted : Server
counted = receive_loop 16 traffic (boot 16)

counted-ServerOk : ServerOk 16 counted
counted-ServerOk = receive_loop-ServerOk 16 traffic (omega arith)

print_run_summary-missing_example :
    (x : Summary) × ((print_run_summary 16 counted).summaries ≡ x ∷ counted.summaries)
    × (x.missing ≡ count_below 16 (λ k. not (counted.seen k)))
    × (x.full + x.partial + x.empty ≡ 2)
print_run_summary-missing_example =
    print_run_summary-missing 16 counted (omega arith) counted-ServerOk

-- One block of eight is full, the other has one packet; seven are missing.
final_summary :
    (finish 16 counted).summaries
    ≡ record {
      run_id = 5;
      matched = 10;
      uniques = 9;
      dups = 1;
      seq_min = 0;
      seq_max = 8;
      missing = 7;
      sample = 9 ∷ 10 ∷ 11 ∷ 12 ∷ 13 ∷ 14 ∷ 15 ∷ [];
      full = 1;
      partial = 1;
      empty = 0;
    }
      ∷ []
unfolding finish receive_loop boot run_reset handle_datagram select_run start_run count_datagram
    note_seq summarise_if_complete print_run_summary total_space missing_sample missing_from
    full_blocks partial_blocks empty_blocks
final_summary = refl
