-- ===== src/TrafficGen/Pacing.antt =====
-- What the sending loop of traffic_generator.c keeps, whatever the clock, the sleeps and the socket
-- answer: the numbering, the budget, the window and the account of the slots.
use openmc.Common.{
  ℕ, suc, ◌+◌, ◌-◌, ◌/◌, ◌%◌, ◌^◌, ◌≤◌, ◌<◌, ◌≡◌, refl, inl, inr, Bool-cases, List, [], ◌∷◌, length,
  ltb, ◌==◌, leb-false, arith,
}
use openmc.TrafficGen.{
  Options, target, World, Emitted, Gen, Exit, Outcome, again, stop, and_then, or_else_stop, fresh,
  deadline, slot_deadline, period_ns, check_window, skip_slots, note_late, skip_expired, note_send,
  send_datagram, sleep_and_send, round, pacing_loop,
}

-- The datagrams, newest first, are numbered from 0.
abbrev pub Numbered : List Emitted → Type 0
Numbered [] = Unit
Numbered (e ∷ es) = (e.seq ≡ length es) × Numbered es

-- Each datagram was sent after a reading of the clock before `limit`.
abbrev pub AllBefore : ℕ → List Emitted → Type 0
AllBefore limit [] = Unit
AllBefore limit (e ∷ es) = (e.at_ns < limit) × AllBefore limit es

-- `P` holds if the round goes on, `Q` if the loop ends.
abbrev pub OutcomeAll : (Gen → Type 0) → (Exit → Gen → Type 0) → Outcome → Type 0
OutcomeAll P Q (again g) = P g
OutcomeAll P Q (stop e g) = Q e g

pub and_then-All :
    (P : Gen → Type 0) (R : Gen → Type 0) (Q : Exit → Gen → Type 0) (out : Outcome)
    (f : Gen → Outcome)
    → OutcomeAll P Q out
    → ((g : Gen) → P g → OutcomeAll R Q (f g))
    → OutcomeAll R Q (and_then out f)
and_then-All P R Q (again g) f h k = k g h
and_then-All P R Q (stop e g) f h k = h

pub or_else_stop-All :
    (P : Gen → Type 0) (Q : Exit → Gen → Type 0) (out : Outcome) (f : Gen → Exit × Gen)
    → OutcomeAll P Q out
    → ((g : Gen) → P g → Q ((f g).0) ((f g).1))
    → Q ((or_else_stop out f).0) ((or_else_stop out f).1)
or_else_stop-All P Q (again g) f h k = k g h
or_else_stop-All P Q (stop e g) f h k = h

pub target-lt : (o : Options) → target o < 2 ^ 32
unfolding target
target-lt o = omega arith

-- The invariant of the loop.
pub record Paced (w : World) (o : Options) (start : ℕ) (g : Gen) : Type 0 where
  pub same : g.seq ≡ g.sent
  pub number : length g.log ≡ g.sent
  pub budget : g.sent ≤ target o
  pub numbered : Numbered g.log
  pub in_window : AllBefore (deadline w o start) g.log
  pub slots : g.nominal_slot ≡ (g.sent + g.missed_nominal_slots + g.sleep_error_count) % 2 ^ 64

module _ (w : World) (o : Options) (start : ℕ) where
  abbrev Ready : Gen → Type 0
  Ready g = Paced w o start g × (g.sent < target o)

  abbrev Kept : Exit → Gen → Type 0
  Kept e g = Paced w o start g

  check_window-Paced :
      (g : Gen) → Paced w o start g → OutcomeAll Ready Kept (check_window w o start g)
  unfolding check_window
  check_window-Paced g p = ground (arith, p)

  skip_slots-Paced : (k : ℕ) (g : Gen) → Ready g → OutcomeAll Ready Kept (skip_slots w o start k g)
  unfolding skip_slots
  skip_slots-Paced k g p = ground (arith, p)

  note_late-Ready : (k : ℕ) (g : Gen) → Ready g → Ready (note_late w o start k g)
  unfolding note_late
  note_late-Ready k g p = ground (arith, p)

  read-Ready : (g : Gen) → Ready g → Ready (record g { reads = suc g.reads })
  read-Ready g p = ground (arith, p)

  skip_expired-Paced : (g : Gen) → Ready g → OutcomeAll Ready Kept (skip_expired w o start g)
  unfolding skip_expired
  skip_expired-Paced g p =
      let g' = record g { reads = suc g.reads } in
      let late = w.clock g.reads - slot_deadline w o start g.nominal_slot in
      let p' = read-Ready g p in
      let pl = note_late-Ready late g' p' in
      let ps = skip_slots-Paced (late / period_ns o) (note_late w o start late g') pl in
      elim (Bool-cases (ltb (slot_deadline w o start g.nominal_slot) (w.clock g.reads))) [
        | inl e ↦ rw e (elim (Bool-cases (period_ns o == 0)) [
          | inl z ↦ rw z (pl.0)
          | inr n ↦
              rw n
                (elim (Bool-cases (late / period_ns o == 0)) [ inl q ↦ rw q pl | inr q ↦ rw q ps ])
        ])
        | inr e ↦ rw e p'
      ]

  send_datagram-Paced :
      (g : Gen) → Ready g → OutcomeAll (Paced w o start) Kept (send_datagram w o start g)
  unfolding send_datagram note_send
  send_datagram-Paced g p =
      ground (arith, p, leb-false (deadline w o start) (w.clock g.reads), target-lt o)

  sleep_and_send-Paced :
      (g : Gen) → Ready g → OutcomeAll (Paced w o start) Kept (sleep_and_send w o start g)
  unfolding sleep_and_send
  sleep_and_send-Paced g p =
      ground (arith, p, send_datagram-Paced (record g { sleeps = suc g.sleeps }))

  round-Paced :
      (g : Gen) → Paced w o start g → OutcomeAll (Paced w o start) Kept (round w o start g)
  unfolding round
  round-Paced g p =
      and_then-All Ready (Paced w o start) Kept (check_window w o start g) _
        (check_window-Paced g p)
        (λ a ra.
          and_then-All Ready (Paced w o start) Kept (skip_expired w o start a)
            (sleep_and_send w o start) (skip_expired-Paced a ra) sleep_and_send-Paced)

  loop-Paced :
      (fuel : ℕ) (g : Gen) → Paced w o start g → Paced w o start ((pacing_loop w o start fuel g).1)
  unfolding pacing_loop
  loop-Paced ℕ.zero g p = p
  loop-Paced (suc fuel) g p =
      or_else_stop-All (Paced w o start) Kept (round w o start g) (pacing_loop w o start fuel)
        (round-Paced g p) (loop-Paced fuel)

  fresh-Paced : (reads : ℕ) → Paced w o start (fresh reads)
  unfolding fresh
  fresh-Paced reads = record {
    same = refl;
    number = refl;
    budget = omega arith;
    numbered = tt;
    in_window = tt;
    slots = refl;
  }

  -- However long the loop has run and whatever the clock, the sleeps and the socket answered: the
  -- datagrams sent carry the sequence numbers 0, 1, 2, ... without gap or repetition, there are as
  -- many as `sent` says and at most `target` of them, each was sent after a reading of the clock that
  -- lay before the experiment's deadline, and the current slot is, modulo 2^64, the number of
  -- datagrams sent, of slots missed and of sleeps that failed.
  pub pacing_loop-Paced :
      (fuel reads : ℕ) → Paced w o start ((pacing_loop w o start fuel (fresh reads)).1)
  pacing_loop-Paced fuel reads = loop-Paced fuel (fresh reads) (fresh-Paced reads)
