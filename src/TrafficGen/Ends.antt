-- ===== src/TrafficGen/Ends.antt =====
-- The sending loop of traffic_generator.c ends, without a division by zero, and sends at most one
-- datagram in a slot.
use openmc.Common.{
  ℕ, suc, ◌+◌, ◌-◌, ◌*◌, ◌/◌, ◌^◌, ◌≤◌, ◌<◌, ◌≡◌, ◌⊎◌, inl, inr, Bool-cases, List, [], ◌∷◌, ltb,
  ◌==◌, ltb→lt, pos→ne, arith,
}
use openmc.TrafficGen.{
  Options, World, Emitted, Gen, Exit, window_over, budget_spent, slots_over, send_failed, fresh,
  period_ns, check_window, skip_slots, note_late, skip_expired, note_send, send_datagram,
  sleep_and_send, round, pacing_loop,
}
use openmc.TrafficGen.Pacing.{OutcomeAll, and_then-All, or_else_stop-All}
use openmc.TrafficGen.Slots.{
  Sane, window, slot_bound, period-pos, period-le, slot_deadline_sum, slot-le, slot-lt, bound_end,
  skip_end,
}

-- The slots of the datagrams, newest first, fall from below `limit`.
abbrev pub Falling : ℕ → List Emitted → Type 0
Falling limit [] = Unit
Falling limit (e ∷ es) = (e.slot < limit) × Falling e.slot es

pub Falling-mono : (a b : ℕ) (log : List Emitted) → a ≤ b → Falling a log → Falling b log
Falling-mono a b [] le f = tt
Falling-mono a b (e ∷ es) le f = (omega (arith, f.0), f.1)

-- `k` more rounds are enough.
record Open (o : Options) (k : ℕ) (g : Gen) : Type 0 where
  bound : g.nominal_slot ≤ slot_bound o
  fuel : slot_bound o < g.nominal_slot + k
  falling : Falling g.nominal_slot g.log

-- The loop is left by one of its own breaks.
abbrev pub IsBreak : Exit → Type 0
IsBreak e = (e ≡ window_over) ⊎ (e ≡ budget_spent) ⊎ (e ≡ slots_over) ⊎ (e ≡ send_failed)

record Ended (e : Exit) (g : Gen) : Type 0 where
  pub reason : IsBreak e
  pub falling : Falling g.nominal_slot g.log

module _ (w : World) (o : Options) (start : ℕ) (s : Sane w o start) where
  abbrev Ready : ℕ → Gen → Type 0
  Ready k g = Open o k g × (g.nominal_slot * period_ns o < window o)

  check_window-Ready :
      (k : ℕ) (g : Gen) → Open o k g → OutcomeAll (Ready k) Ended (check_window w o start g)
  unfolding check_window
  check_window-Ready k g p = ground (
    arith,
    p,
    s.window_bound,
    period-le w o start s,
    bound_end w o start s g.nominal_slot p.bound,
  )

  skip_slots-Ready :
      (k now : ℕ) (g : Gen)
      → Ready k g
      → start + g.nominal_slot * period_ns o < now
      → now < 2 ^ 63
      → OutcomeAll
          (Ready k)
          Ended
          (skip_slots w o start ((now - (start + g.nominal_slot * period_ns o)) / period_ns o) g)
  unfolding skip_slots
  skip_slots-Ready k now g p late lt =
      let slot = g.nominal_slot + (now - (start + g.nominal_slot * period_ns o)) / period_ns o in
      ground (
        arith,
        p,
        s.window_bound,
        late,
        lt,
        slot-le w o start s slot,
        skip_end w o start s g.nominal_slot now (omega (arith, late)),
        slot-lt w o start s slot,
        Falling-mono g.nominal_slot slot g.log (omega arith) p.0.falling,
      )

  note_late-Ready : (k late : ℕ) (g : Gen) → Ready k g → Ready k (note_late w o start late g)
  unfolding note_late
  note_late-Ready k late g p = ground (arith, p)

  read-Ready : (k : ℕ) (g : Gen) → Ready k g → Ready k (record g { reads = suc g.reads })
  read-Ready k g p = ground (arith, p)

  send_datagram-Open :
      (k : ℕ) (g : Gen) → Ready (suc k) g → OutcomeAll (Open o k) Ended (send_datagram w o start g)
  unfolding send_datagram note_send
  send_datagram-Open k g p = ground (
    arith,
    p,
    s.window_bound,
    slot-le w o start s g.nominal_slot,
    slot-lt w o start s g.nominal_slot p.1,
    Falling-mono g.nominal_slot (suc g.nominal_slot) g.log (omega arith) p.0.falling,
  )

  sleep_and_send-Open :
      (k : ℕ) (g : Gen) → Ready (suc k) g → OutcomeAll (Open o k) Ended (sleep_and_send w o start g)
  unfolding sleep_and_send
  sleep_and_send-Open k g p = ground (
    arith,
    p,
    s.window_bound,
    slot-le w o start s g.nominal_slot,
    slot-lt w o start s g.nominal_slot p.1,
    Falling-mono g.nominal_slot (suc g.nominal_slot) g.log (omega arith) p.0.falling,
    send_datagram-Open k (record g { sleeps = suc g.sleeps }),
  )

  skip_expired-Ready :
      (k : ℕ) (g : Gen) → Ready k g → OutcomeAll (Ready k) Ended (skip_expired w o start g)
  unfolding skip_expired
  skip_expired-Ready k g p =
      let g' = record g { reads = suc g.reads } in
      let now = w.clock g.reads in
      let late = now - (start + g.nominal_slot * period_ns o) in
      let p' = read-Ready k g p in
      let pl = note_late-Ready k late g' p' in
      let nz = pos→ne (period_ns o) (period-pos w o start s) in
      rw (slot_deadline_sum w o start s g.nominal_slot (omega (arith, p.1, s.window_bound)))
        (elim (Bool-cases (ltb (start + g.nominal_slot * period_ns o) now)) [
          | inl e ↦ rw e (
              rw nz (elim (Bool-cases (late / period_ns o == 0)) [
                | inl q ↦ rw q pl
                | inr q ↦ rw q (
                    skip_slots-Ready k now (note_late w o start late g') pl (ltb→lt _ _ e)
                      (s.clock_bound g.reads))
              ]))
          | inr e ↦ rw e p'
        ])

  round-Open :
      (k : ℕ) (g : Gen) → Open o (suc k) g → OutcomeAll (Open o k) Ended (round w o start g)
  unfolding round
  round-Open k g p =
      and_then-All (Ready (suc k)) (Open o k) Ended (check_window w o start g) _
        (check_window-Ready (suc k) g p)
        (λ a ra.
          and_then-All (Ready (suc k)) (Open o k) Ended (skip_expired w o start a)
            (sleep_and_send w o start) (skip_expired-Ready (suc k) a ra) (sleep_and_send-Open k))

  loop-Ended :
      (fuel : ℕ) (g : Gen)
      → Open o fuel g
      → Ended ((pacing_loop w o start fuel g).0) ((pacing_loop w o start fuel g).1)
  unfolding pacing_loop
  loop-Ended ℕ.zero g p = absurd (omega (arith, p.bound, p.fuel))
  loop-Ended (suc fuel) g p =
      or_else_stop-All (Open o fuel) Ended (round w o start g) (pacing_loop w o start fuel)
        (round-Open fuel g p) (loop-Ended fuel)

  fresh-Open : (fuel reads : ℕ) → slot_bound o < fuel → Open o fuel (fresh reads)
  unfolding fresh
  fresh-Open fuel reads lt = record { bound = omega arith; fuel = omega (arith, lt); falling = tt }

-- Where the clock and the end of the window stay below 2^63 and the rate is between 1 and 10^9 per
-- second: with one round more than the slots that begin in the window, counted by `slot_bound`, the
-- loop is left by one of its own breaks, so never by a division by a period of zero, and the slots of
-- the datagrams sent rise strictly, so that no slot sends twice, however late the sleeps return and
-- whether or not they fail.
pub pacing_loop-IsBreak :
    (w : World) (o : Options) (start fuel reads : ℕ)
    → Sane w o start
    → slot_bound o < fuel
    → IsBreak ((pacing_loop w o start fuel (fresh reads)).0)
      × Falling
          ((pacing_loop w o start fuel (fresh reads)).1.nominal_slot)
          ((pacing_loop w o start fuel (fresh reads)).1.log)
pacing_loop-IsBreak w o start fuel reads s lt =
    let e = loop-Ended w o start s fuel (fresh reads) (fresh-Open w o start s fuel reads lt) in
    (e.reason, e.falling)
