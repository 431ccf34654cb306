-- ===== src/TrafficGen.antt =====
-- The traffic generator, src/applications/traffic_generator.c: the checks on its options, the nominal
-- target, and the paced sending loop. The clock, `clock_nanosleep` and `sendto` are functions from the
-- number of the call. `int` options are natural numbers here: zero stands for every value that the
-- checks `<= 0` refuse.
pub mod Pacing
pub mod Ends
pub mod Slots
pub mod Scheduler
pub mod Diagnostics
pub mod Tests
use openmc.Common.{
  ℕ, suc, ◌+◌, ◌-◌, ◌*◌, ◌/◌, ◌%◌, ◌^◌, Bool, ◌||◌, Option, none, some, List, ◌∷◌, ltb, leb, ◌==◌,
  if◌then◌else◌, add32, add64, sub64,
}

abbrev pub ns_per_s : ℕ
ns_per_s = 1_000_000_000

abbrev pub ns_per_us : ℕ
ns_per_us = 1000

abbrev pub ns_per_ms : ℕ
ns_per_ms = 1_000_000

pub record Options : Type 0 where
  pub tam_payload : ℕ
  pub pps : ℕ
  pub duracion : ℕ

-- `return 1` of the three checks is `none`.
unfoldable pub check_options : Options → Option Options
check_options o =
    if ltb o.tam_payload 8 || ltb 1472 o.tam_payload
    then none
    else if o.pps == 0
    then none
    else if o.duracion == 0
    then none
    else some o

-- The nominal number of datagrams, a multiple of eight, as a `uint32_t`.
unfoldable pub target : Options → ℕ
target o = let raw = (o.pps * o.duracion) % 2 ^ 64 in (raw - raw % 8) % 2 ^ 32

unfoldable pub period_ns : Options → ℕ
period_ns o = ns_per_s / o.pps

pub record World : Type 0 where
  pub clock : ℕ → ℕ
  -- the result of the n-th `clock_nanosleep`
  pub sleep_rc : ℕ → ℕ
  -- whether the n-th `sendto` took the whole payload
  pub sent_all : ℕ → Bool

-- A datagram: the sequence number in its header, its pacing slot and the last reading of the clock
-- before it was sent. The slot and the time are not in the packet.
pub record Emitted : Type 0 where
  pub seq : ℕ
  pub slot : ℕ
  pub at_ns : ℕ

-- The variables of the loop; `reads`, `sleeps` and `sends` count the calls, `log` holds what was
-- handed to `sendto` and taken, newest first.
pub record Gen : Type 0 where
  pub sent : ℕ
  pub seq : ℕ
  pub nominal_slot : ℕ
  pub missed_nominal_slots : ℕ
  pub pacing_overrun_events : ℕ
  pub deadline_late_count : ℕ
  pub deadline_lateness_total_ns : ℕ
  pub deadline_lateness_max_ns : ℕ
  pub sendto_total_ns : ℕ
  pub sendto_max_ns : ℕ
  pub sendto_over_100us : ℕ
  pub sendto_over_1ms : ℕ
  pub sendto_over_10ms : ℕ
  pub sleep_error_count : ℕ
  pub reads : ℕ
  pub sleeps : ℕ
  pub sends : ℕ
  pub log : List Emitted

-- How the loop is left. `div_by_zero` is the division by a period of zero.
pub data Exit : Type 0 where
  window_over budget_spent slots_over send_failed div_by_zero out_of_fuel : Exit

pub data Outcome : Type 0 where
  again : Gen → Outcome
  stop : Exit → Gen → Outcome

abbrev pub and_then : Outcome → (Gen → Outcome) → Outcome
and_then (again g) f = f g
and_then (stop e g) f = stop e g

abbrev pub or_else_stop : Outcome → (Gen → Exit × Gen) → Exit × Gen
or_else_stop (again g) f = f g
or_else_stop (stop e g) f = (e, g)

-- The variables before the loop, `reads` readings of the clock having been made.
unfoldable pub fresh : ℕ → Gen
fresh reads = record {
  sent = 0;
  seq = 0;
  nominal_slot = 0;
  missed_nominal_slots = 0;
  pacing_overrun_events = 0;
  deadline_late_count = 0;
  deadline_lateness_total_ns = 0;
  deadline_lateness_max_ns = 0;
  sendto_total_ns = 0;
  sendto_max_ns = 0;
  sendto_over_100us = 0;
  sendto_over_1ms = 0;
  sendto_over_10ms = 0;
  sleep_error_count = 0;
  reads = reads;
  sleeps = 0;
  sends = 0;
  log = List.[];
}

module _ (w : World) (o : Options) (start : ℕ) where
  open w use {clock, sleep_rc, sent_all}

  -- `experiment_deadline_ns`
  abbrev pub deadline : ℕ
  deadline = add64 start ((o.duracion * ns_per_s) % 2 ^ 64)

  abbrev pub slot_deadline : ℕ → ℕ
  slot_deadline slot = add64 start ((slot * period_ns o) % 2 ^ 64)

  -- The three ways to end before a slot is waited for. The clock is read once.
  unfoldable pub check_window : Gen → Outcome
  check_window g =
      let g' = record g { reads = suc g.reads } in
      if leb deadline (clock g.reads)
      then stop window_over g'
      else if leb (target o) g.sent
      then stop budget_spent g'
      else if leb deadline (slot_deadline g.nominal_slot)
      then stop slots_over g'
      else again g'

  -- Slots whose whole period has passed are skipped.
  unfoldable pub skip_slots : ℕ → Gen → Outcome
  skip_slots periods_late g =
      let g' = record g {
        pacing_overrun_events = add64 g.pacing_overrun_events 1;
        missed_nominal_slots = add64 g.missed_nominal_slots periods_late;
        nominal_slot = add64 g.nominal_slot periods_late;
      } in
      if leb deadline (slot_deadline g'.nominal_slot) then stop slots_over g' else again g'

  unfoldable pub note_late : ℕ → Gen → Gen
  note_late lateness g = record g {
    deadline_late_count = add64 g.deadline_late_count 1;
    deadline_lateness_total_ns = add64 g.deadline_lateness_total_ns lateness;
    deadline_lateness_max_ns =
        (if ltb g.deadline_lateness_max_ns lateness then lateness else g.deadline_lateness_max_ns);
  }

  unfoldable pub skip_expired : Gen → Outcome
  unfolding note_late
  skip_expired g =
      let now = clock g.reads in
      let g' = record g { reads = suc g.reads } in
      let lateness = now - slot_deadline g.nominal_slot in
      if ltb (slot_deadline g.nominal_slot) now
      then (if period_ns o == 0
          then stop div_by_zero (note_late lateness g')
          else if lateness / period_ns o == 0
          then again (note_late lateness g')
          else skip_slots (lateness / period_ns o) (note_late lateness g'))
      else again g'

  -- The counters of one `sendto` that took `d` nanoseconds.
  unfoldable pub note_send : ℕ → Gen → Gen
  note_send d g = record g {
    sendto_total_ns = add64 g.sendto_total_ns d;
    sendto_max_ns = (if ltb g.sendto_max_ns d then d else g.sendto_max_ns);
    sendto_over_100us =
        (if ltb (100 * ns_per_us) d then add64 g.sendto_over_100us 1 else g.sendto_over_100us);
    sendto_over_1ms = (if ltb ns_per_ms d then add64 g.sendto_over_1ms 1 else g.sendto_over_1ms);
    sendto_over_10ms =
        (if ltb (10 * ns_per_ms) d then add64 g.sendto_over_10ms 1 else g.sendto_over_10ms);
  }

  -- The last check of the window, and the send between two readings.
  unfoldable pub send_datagram : Gen → Outcome
  unfolding note_send
  send_datagram g =
      let now = clock g.reads in
      if leb deadline now
      then stop window_over (record g { reads = suc g.reads })
      else (let g' =
            note_send (sub64 (clock (g.reads + 2)) (clock (g.reads + 1)))
              (record g { reads = g.reads + 3; sends = suc g.sends }) in
          if sent_all g.sends
          then again (record g' {
            sent = add32 g'.sent 1;
            seq = add32 g'.seq 1;
            nominal_slot = add64 g'.nominal_slot 1;
            log = record { seq = g'.seq; slot = g'.nominal_slot; at_ns = now } ∷ g'.log;
          })
          else stop send_failed g')

  -- A sleep that fails gives the slot up.
  unfoldable pub sleep_and_send : Gen → Outcome
  unfolding send_datagram
  sleep_and_send g =
      let g' = record g { sleeps = suc g.sleeps } in
      if sleep_rc g.sleeps == 0
      then send_datagram g'
      else again (record g' {
        sleep_error_count = add64 g'.sleep_error_count 1;
        nominal_slot = add64 g'.nominal_slot 1;
      })

  -- One round of the loop.
  unfoldable pub round : Gen → Outcome
  round g = and_then (check_window g) (λ a. and_then (skip_expired a) sleep_and_send)

  unfoldable pub pacing_loop : ℕ → Gen → Exit × Gen
  pacing_loop ℕ.zero g = (out_of_fuel, g)
  pacing_loop (suc fuel) g = or_else_stop (round g) (λ g'. pacing_loop fuel g')
