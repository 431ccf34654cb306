-- ===== src/DestServer.antt =====
-- The destination server, src/applications/destination_server.c: the tracking of sequence numbers,
-- the change of run, the summaries and the receive loop. `expected` is zero where the option is zero
-- or negative. Datagrams are what `recvfrom` left in the buffer; calls of it that fail change nothing.
pub mod Inv
mod Tests
use openmc.Common.{
  ℕ, zero, suc, ◌+◌, ◌-◌, ◌*◌, ◌/◌, ◌%◌, ◌^◌, Bool, true, false, ◌&&◌, not, List, [], ◌∷◌, ltb, leb,
  ◌==◌, if◌then◌else◌, get_or, length, take, update, count_below, add32, add64,
}

abbrev pub seen_cap_default : ℕ
seen_cap_default = 1_048_576

abbrev pub uint32_max : ℕ
uint32_max = 2 ^ 32 - 1

-- What `print_run_summary` prints; `sample` is the list of missing numbers, where it is
-- printed. Where there are no blocks of eight the line on them is not printed, and its numbers are zero.
pub record Summary : Type 0 where
  pub run_id : ℕ
  pub matched : ℕ
  pub uniques : ℕ
  pub dups : ℕ
  pub seq_min : ℕ
  pub seq_max : ℕ
  pub missing : ℕ
  pub sample : List ℕ
  pub full : ℕ
  pub partial : ℕ
  pub empty : ℕ

-- The globals and the variables of the loop; `summaries` holds what was printed, newest first.
pub record Server : Type 0 where
  pub seen : ℕ → Bool
  pub seen_cap : ℕ
  pub uniques : ℕ
  pub dups : ℕ
  pub min_seq : ℕ
  pub max_seq : ℕ
  pub current_run_id : ℕ
  pub have_run : Bool
  pub summary_emitted : Bool
  pub matched : ℕ
  pub summaries : List Summary

unfoldable pub run_reset : ℕ → Server → Server
run_reset cap s = record s {
  seen = λ k. false;
  seen_cap = (if cap == 0 then seen_cap_default else cap);
  uniques = 0;
  dups = 0;
  min_seq = uint32_max;
  max_seq = 0;
}

unfoldable pub note_seq : ℕ → Server → Server
note_seq seq s =
    if leb s.seen_cap seq
    then s
    else if s.seen seq
    then record s { dups = add64 s.dups 1 }
    else record s {
      seen = update s.seen seq true;
      uniques = add64 s.uniques 1;
      min_seq = (if ltb seq s.min_seq then seq else s.min_seq);
      max_seq = (if ltb s.max_seq seq then seq else s.max_seq);
    }

-- The numbers that the summary is about: `expected`, or those up to the largest seen.
unfoldable pub total_space : ℕ → Server → ℕ
total_space expected s = if expected == 0 then add32 s.max_seq 1 else expected

-- The missing numbers from `i` on, `n` of them looked at.
unfoldable pub missing_from : ℕ → ℕ → Server → List ℕ
missing_from i zero s = []
missing_from i (suc n) s =
    let rest = missing_from (suc i) n s in
    if ltb i s.seen_cap && not (s.seen i) then i ∷ rest else rest

unfoldable pub missing_sample : ℕ → Server → List ℕ
missing_sample expected s = take 16 (missing_from 0 (total_space expected s) s)

-- How many packets of block `b` were seen.
abbrev pub block_count : Server → ℕ → ℕ
block_count s b = count_below 8 (λ i. ltb (b * 8 + i) s.seen_cap && s.seen (b * 8 + i))

unfoldable pub full_blocks : ℕ → Server → ℕ
full_blocks expected s = count_below (expected / 8) (λ b. block_count s b == 8)

unfoldable pub empty_blocks : ℕ → Server → ℕ
empty_blocks expected s = count_below (expected / 8) (λ b. block_count s b == 0)

unfoldable pub partial_blocks : ℕ → Server → ℕ
partial_blocks expected s =
    count_below (expected / 8) (λ b. not (block_count s b == 0) && not (block_count s b == 8))

-- `missing` is an `int` in the source, and is not negative where the unique numbers lie in the space.
unfoldable pub print_run_summary : ℕ → Server → Server
print_run_summary expected s =
    let missing = total_space expected s - s.uniques in
    record s {
      summaries =
          record {
            run_id = s.current_run_id;
            matched = s.matched;
            uniques = s.uniques;
            dups = s.dups;
            seq_min = (if s.min_seq == uint32_max then 0 else s.min_seq);
            seq_max = s.max_seq;
            missing = missing;
            sample = (if missing == 0 then [] else missing_sample expected s);
            full = full_blocks expected s;
            partial = partial_blocks expected s;
            empty = empty_blocks expected s;
          }
          ∷ s.summaries;
    }

-- A `uint32_t` that `memcpy` took from the buffer, on a little-endian machine.
abbrev pub read_u32 : List ℕ → ℕ → ℕ
read_u32 buf i =
    get_or buf i 0
    + (get_or buf (i + 1) 0 * 256
        + (get_or buf (i + 2) 0 * 65536 + get_or buf (i + 3) 0 * 16777216))

unfoldable pub start_run : ℕ → ℕ → Server → Server
start_run expected rid s =
    run_reset expected
      (record s { current_run_id = rid; have_run = true; matched = 0; summary_emitted = false })

-- A new run identifier with number 0 changes the run, and the first header starts one.
unfoldable pub select_run : ℕ → ℕ → ℕ → Server → Server
select_run expected rid seq s =
    if not s.have_run
    then start_run expected rid s
    else if not (rid == s.current_run_id) && (seq == 0)
    then start_run expected rid s
    else s

unfoldable pub summarise_if_complete : ℕ → Server → Server
summarise_if_complete expected s =
    if not (expected == 0) && (leb expected s.uniques && not s.summary_emitted)
    then record (print_run_summary expected s) { summary_emitted = true }
    else s

unfoldable pub count_datagram : ℕ → ℕ → ℕ → Server → Server
count_datagram expected rid seq s =
    if rid == s.current_run_id
    then summarise_if_complete expected (note_seq seq (record s { matched = add64 s.matched 1 }))
    else s

-- One datagram.
unfoldable pub handle_datagram : ℕ → List ℕ → Server → Server
handle_datagram expected buf s =
    if ltb (length buf) 8
    then s
    else count_datagram expected (read_u32 buf 0) (read_u32 buf 4)
        (select_run expected (read_u32 buf 0) (read_u32 buf 4) s)

-- The receive loop, until it is stopped.
unfoldable pub receive_loop : ℕ → List (List ℕ) → Server → Server
receive_loop expected [] s = s
receive_loop expected (buf ∷ rest) s = receive_loop expected rest (handle_datagram expected buf s)

-- The summary at the end.
unfoldable pub finish : ℕ → Server → Server
finish expected s = if s.have_run && not s.summary_emitted then print_run_summary expected s else s

-- The variables before the loop.
unfoldable pub boot : ℕ → Server
boot expected = run_reset expected (record {
  seen = λ k. false;
  seen_cap = 0;
  uniques = 0;
  dups = 0;
  min_seq = uint32_max;
  max_seq = 0;
  current_run_id = 0;
  have_run = false;
  summary_emitted = false;
  matched = 0;
  summaries = [];
})
