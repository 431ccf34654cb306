-- ===== src/DestServer/Inv.antt =====
-- What the destination server's counters and summaries say of the sequence numbers it saw.
use openmc.Common.{
  ℕ, zero, suc, ◌+◌, ◌/◌, ◌^◌, ◌≤◌, ◌<◌, ◌≡◌, refl, inl, inr, Bool, true, false, ◌&&◌, not,
  Bool-cases, List, [], ◌∷◌, ltb, leb, ◌==◌, if◌then◌else◌, length, count_below, count_below-le,
  count_below-update, count_below-zero, subst, sym, arith,
}
use openmc.DestServer.{
  Summary, Server, seen_cap_default, run_reset, note_seq, total_space, block_count, full_blocks,
  empty_blocks, partial_blocks, print_run_summary, start_run, select_run, summarise_if_complete,
  count_datagram, handle_datagram, receive_loop, boot,
}

-- The summaries of a complete run: nothing is missing.
abbrev pub AllComplete : List Summary → Type 0
AllComplete [] = Unit
AllComplete (x ∷ xs) = (x.missing ≡ 0) × AllComplete xs

-- The unique numbers are those marked below the capacity, all between the smallest and the largest.
pub record ServerOk (expected : ℕ) (s : Server) : Type 0 where
  pub capacity : s.seen_cap ≡ (if expected == 0 then seen_cap_default else expected)
  pub counted : s.uniques ≡ count_below s.seen_cap s.seen
  pub smallest : (k : ℕ) → k < s.seen_cap → s.seen k ≡ true → s.min_seq ≤ k
  pub largest : (k : ℕ) → k < s.seen_cap → s.seen k ≡ true → k ≤ s.max_seq
  pub complete : AllComplete s.summaries

reset-ServerOk :
    (expected : ℕ) (s : Server) → AllComplete s.summaries → ServerOk expected (run_reset expected s)
unfolding run_reset
reset-ServerOk expected s c = record {
  capacity = refl;
  counted = sym (count_below-zero ((run_reset expected s).seen_cap) (λ k. false) (λ k lt. refl));
  smallest = λ k lt h. absurd (ground (arith, h));
  largest = λ k lt h. absurd (ground (arith, h));
  complete = c;
}

cap-lt : (expected : ℕ) (s : Server) → expected < 2 ^ 31 → ServerOk expected s → s.seen_cap < 2 ^ 31
cap-lt expected s lt p = ground (arith, lt, p.capacity)

note-ServerOk :
    (expected seq : ℕ) (s : Server)
    → expected < 2 ^ 31
    → ServerOk expected s
    → ServerOk expected (note_seq seq s)
unfolding note_seq
note-ServerOk expected seq s lt p = elim (Bool-cases (leb s.seen_cap seq)) [
  | inl out ↦ simp out p
  | inr inside ↦ simp inside (elim (Bool-cases (s.seen seq)) [
    | inl old ↦ simp old (record {
      capacity = p.capacity;
      counted = p.counted;
      smallest = p.smallest;
      largest = p.largest;
      complete = p.complete;
    })
    | inr new ↦ simp new (record {
      capacity = p.capacity;
      counted = ground (
        arith,
        inside,
        p.counted,
        cap-lt expected s lt p,
        count_below-le s.seen_cap s.seen,
        count_below-update s.seen_cap seq s.seen new,
      );
      smallest = λ k h e. ground (arith, p.smallest k h, e);
      largest = λ k h e. ground (arith, p.largest k h, e);
      complete = p.complete;
    })
  ])
]

-- A summary printed when the unique numbers reach `expected` misses nothing.
summary-ServerOk :
    (expected : ℕ) (s : Server)
    → ServerOk expected s
    → ServerOk expected (summarise_if_complete expected s)
unfolding summarise_if_complete print_run_summary total_space
summary-ServerOk expected s p =
    elim (Bool-cases (not (expected == 0) && (leb expected s.uniques && not s.summary_emitted))) [
      | inl e ↦ simp e (record {
        capacity = p.capacity;
        counted = p.counted;
        smallest = p.smallest;
        largest = p.largest;
        complete = (ground (arith, e), p.complete);
      })
      | inr e ↦ simp e p
    ]

start-ServerOk :
    (expected rid : ℕ) (s : Server)
    → AllComplete s.summaries
    → ServerOk expected (start_run expected rid s)
unfolding start_run
start-ServerOk expected rid s c = reset-ServerOk expected _ c

select-ServerOk :
    (expected rid seq : ℕ) (s : Server)
    → ServerOk expected s
    → ServerOk expected (select_run expected rid seq s)
unfolding select_run
select-ServerOk expected rid seq s p = elim (Bool-cases s.have_run) [
  | inr e ↦ simp e (start-ServerOk expected rid s p.complete)
  | inl e ↦ simp e (elim (Bool-cases (not (rid == s.current_run_id) && (seq == 0))) [
    | inl d ↦ simp d (start-ServerOk expected rid s p.complete)
    | inr d ↦ simp d p
  ])
]

matched-ServerOk :
    (expected m : ℕ) (s : Server)
    → ServerOk expected s
    → ServerOk expected (record s { matched = m })
matched-ServerOk expected m s p = record {
  capacity = p.capacity;
  counted = p.counted;
  smallest = p.smallest;
  largest = p.largest;
  complete = p.complete;
}

count-ServerOk :
    (expected rid seq : ℕ) (s : Server)
    → expected < 2 ^ 31
    → ServerOk expected s
    → ServerOk expected (count_datagram expected rid seq s)
unfolding count_datagram
count-ServerOk expected rid seq s lt p = elim (Bool-cases (rid == s.current_run_id)) [
  | inl e ↦ simp e (
      summary-ServerOk expected _
        (note-ServerOk expected seq _ lt (matched-ServerOk expected _ s p)))
  | inr e ↦ simp e p
]

handle-ServerOk :
    (expected : ℕ) (buf : List ℕ) (s : Server)
    → expected < 2 ^ 31
    → ServerOk expected s
    → ServerOk expected (handle_datagram expected buf s)
unfolding handle_datagram
handle-ServerOk expected buf s lt p = elim (Bool-cases (ltb (length buf) 8)) [
  | inl e ↦ simp e p
  | inr e ↦ simp e (count-ServerOk expected _ _ _ lt (select-ServerOk expected _ _ s p))
]

loop-ServerOk :
    (expected : ℕ) (bufs : List (List ℕ)) (s : Server)
    → expected < 2 ^ 31
    → ServerOk expected s
    → ServerOk expected (receive_loop expected bufs s)
unfolding receive_loop
loop-ServerOk expected [] s lt p = p
loop-ServerOk expected (buf ∷ rest) s lt p =
    loop-ServerOk expected rest _ lt (handle-ServerOk expected buf s lt p)

-- From the start of the program, whatever datagrams arrive, where `expected` is an `int`: the number
-- of unique packets is the number of marks below the capacity, every number seen lies between the
-- smallest and the largest that are reported, and every summary that is printed while the loop runs
-- reports no missing packet.
pub receive_loop-ServerOk :
    (expected : ℕ) (bufs : List (List ℕ))
    → expected < 2 ^ 31
    → ServerOk expected (receive_loop expected bufs (boot expected))
unfolding boot
receive_loop-ServerOk expected bufs lt =
    loop-ServerOk expected bufs _ lt (reset-ServerOk expected _ tt)

count_below-not : (n : ℕ) (p : ℕ → Bool) → count_below n p + count_below n (λ k. not (p k)) ≡ n
count_below-not zero p = refl
count_below-not (suc n) p = ground (arith, count_below-not n p)

-- The three classes of blocks by their number of packets.
count_below-classes :
    (n : ℕ) (f : ℕ → ℕ)
    → count_below n (λ b. f b == 8)
        + count_below n (λ b. not (f b == 0) && not (f b == 8))
        + count_below n (λ b. f b == 0)
      ≡ n
count_below-classes zero f = refl
count_below-classes (suc n) f = ground (arith, count_below-classes n f)

-- Where `expected` is positive and the counters are right, the summary that is printed gives as
-- missing how many of the expected numbers were not seen, and its full, partial and empty blocks add
-- up to the blocks of eight.
pub print_run_summary-missing :
    (expected : ℕ) (s : Server)
    → 0 < expected
    → ServerOk expected s
    → (x : Summary) × ((print_run_summary expected s).summaries ≡ x ∷ s.summaries)
      × (x.missing ≡ count_below expected (λ k. not (s.seen k)))
      × (x.full + x.partial + x.empty ≡ expected / 8)
unfolding print_run_summary total_space full_blocks partial_blocks empty_blocks
print_run_summary-missing expected s pos p = (
  _,
  refl,
  ground (
    arith,
    pos,
    p.counted,
    subst (λ n. count_below n s.seen ≡ count_below expected s.seen) (sym cap) refl,
    count_below-not expected s.seen,
  ),
  count_below-classes (expected / 8) (block_count s),
)
  where
    cap : s.seen_cap ≡ expected
    cap = ground (arith, pos, p.capacity)
