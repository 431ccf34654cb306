-- ===== src/TrafficGen/Tests.antt =====
-- Runs of the traffic generator at fixed inputs: four datagrams a second for four seconds.
use openmc.Common.{◌+◌, ◌*◌, ◌<◌, ◌%◌, ◌≡◌, refl, true, arith, ◌==◌, if◌then◌else◌, length}
use openmc.TrafficGen.{
  Options, check_options, target, World, fresh, pacing_loop, period_ns, check_window, skip_slots,
  note_late, skip_expired, note_send, send_datagram, sleep_and_send, round,
}
use openmc.TrafficGen.Pacing.{Paced, pacing_loop-Paced}
use openmc.TrafficGen.Slots.{Sane, slot_bound}
use openmc.TrafficGen.Ends.{IsBreak, Falling, pacing_loop-IsBreak}
use openmc.Common.{some, none, Option, List, [], ◌∷◌, ℕ, false, inl}
use openmc.TrafficGen.{ns_per_s}
use openmc.TrafficGen.Scheduler.{
  SchedulerSnapshot, ProcSelf, empty_snapshot, read_self_schedstat, StatusKey, voluntary,
  nonvoluntary, timespec_to_ns, ns_to_timespec, read_process_cpu_time, scan_status,
  scan_status_lines, read_self_status, take_scheduler_snapshot, scheduler_deltas,
}
use openmc.TrafficGen.Diagnostics.{
  timespec_to_ns-ns_to_timespec, IsExclusive, StatusOk, take_scheduler_snapshot-status, IsBoth,
  IsCount, IsWords, scheduler_deltas_exact,
}

abbrev options : Options
options = record { tam_payload = 100; pps = 4; duracion = 4 }

-- A clock that moves by 0.03 s between readings, up to an hour; the third sleep fails.
abbrev world : World
world = record {
  clock = λ n. (1_000_000_000 + n * 30_000_000) % 3_600_000_000_000;
  sleep_rc = λ n. if n == 2 then 4 else 0;
  sent_all = λ n. true;
}

options_pass : (check_options options ≡ some options) × (target options ≡ 16)
unfolding check_options target
options_pass = (refl, refl)

short_payload : check_options (record options { tam_payload = 7 }) ≡ none
unfolding check_options
short_payload = refl

world-Sane : Sane world options 1_000_000_000
world-Sane = record {
  clock_bound = λ n. omega arith;
  window_bound = omega arith;
  rate_pos = omega arith;
  rate_bound = omega arith;
}

pacing_loop-Paced_example :
    Paced world options 1_000_000_000 ((pacing_loop world options 1_000_000_000 18 (fresh 1)).1)
pacing_loop-Paced_example = pacing_loop-Paced world options 1_000_000_000 18 1

options-fuel : slot_bound options < 18
unfolding period_ns
options-fuel = omega arith

pacing_loop-IsBreak_example :
    IsBreak ((pacing_loop world options 1_000_000_000 18 (fresh 1)).0)
    × Falling
        ((pacing_loop world options 1_000_000_000 18 (fresh 1)).1.nominal_slot)
        ((pacing_loop world options 1_000_000_000 18 (fresh 1)).1.log)
pacing_loop-IsBreak_example =
    pacing_loop-IsBreak world options 1_000_000_000 18 1 world-Sane options-fuel

-- Fifteen datagrams, one slot lost to the sleep that failed.
paced_run :
    let g = (pacing_loop world options 1_000_000_000 18 (fresh 1)).1 in
    (g.sent ≡ 15) × (g.sleep_error_count ≡ 1) × (length g.log ≡ 15)
unfolding pacing_loop round check_window skip_expired skip_slots note_late sleep_and_send
    send_datagram note_send target period_ns fresh
paced_run = (refl, refl, refl)

timespec_to_ns-ns_to_timespec_example :
    (timespec_to_ns (ns_to_timespec 2_500_000_001) ≡ 2_500_000_001)
    × ((ns_to_timespec 2_500_000_001).1 < ns_per_s)
timespec_to_ns-ns_to_timespec_example = timespec_to_ns-ns_to_timespec 2_500_000_001 (omega arith)

-- A line of the runs: the first byte stands for the format, the second for the value.
abbrev status_scan : StatusKey → List ℕ → Option ℕ
status_scan k (x ∷ y ∷ []) =
    if x == elim k [ voluntary ↦ 1 | nonvoluntary ↦ 2 ] then some y else none
status_scan k _ = none

status_scan-IsExclusive : IsExclusive status_scan
status_scan-IsExclusive [] = inl refl
status_scan-IsExclusive (x ∷ []) = inl refl
status_scan-IsExclusive (x ∷ y ∷ []) = ground arith
status_scan-IsExclusive (x ∷ y ∷ z ∷ r) = inl refl

abbrev status_lines : List (List ℕ)
status_lines = (9 ∷ []) ∷ (2 ∷ 5 ∷ []) ∷ (1 ∷ 3 ∷ []) ∷ (1 ∷ 4 ∷ []) ∷ []

abbrev proc_self : ProcSelf
proc_self = record {
  schedstat = some (100 ∷ 200 ∷ []);
  status = some status_lines;
  process_cpu = some (1, 5);
}

take_scheduler_snapshot-status_example :
    StatusOk status_scan (some status_lines) (take_scheduler_snapshot status_scan proc_self)
take_scheduler_snapshot-status_example =
    take_scheduler_snapshot-status status_scan proc_self status_scan-IsExclusive

abbrev snapshot_at : ℕ → SchedulerSnapshot
snapshot_at n = record {
  sched_runtime_ns = n;
  sched_wait_ns = 2 * n;
  sched_slices = n;
  voluntary_ctxt_switches = n;
  nonvoluntary_ctxt_switches = n;
  process_cpu_ns = 3 * n;
  schedstat_valid = true;
  status_valid = true;
  process_cpu_valid = true;
}

-- The first snapshot has lower counts, apart from the slices, and no valid process clock.
abbrev snapshot_before : SchedulerSnapshot
snapshot_before = record (snapshot_at 1) { sched_slices = 6; process_cpu_valid = false }

snapshot_four-IsWords : IsWords (snapshot_at 4)
snapshot_four-IsWords = record {
  runtime = omega arith;
  wait = omega arith;
  slices = omega arith;
  voluntary_word = omega arith;
  nonvoluntary_word = omega arith;
  cpu = omega arith;
}

scheduler_deltas_exact_example :
    let d = scheduler_deltas snapshot_before (snapshot_at 4) in
    let sched = d.scheduler_delta_valid in
    let status = d.context_switch_delta_valid in
    (IsBoth true true sched)
    × (IsBoth true true status)
    × (IsBoth false true d.process_cpu_delta_valid)
    × (IsCount sched 1 4 d.runtime_ns)
    × (IsCount sched 2 8 d.wait_ns)
    × (IsCount sched 6 4 d.slices)
    × (IsCount status 1 4 d.voluntary_switches)
    × (IsCount status 1 4 d.nonvoluntary_switches)
    × (IsCount d.process_cpu_delta_valid 3 12 d.cpu_ns)
scheduler_deltas_exact_example =
    scheduler_deltas_exact snapshot_before (snapshot_at 4) snapshot_four-IsWords

-- Two counts of schedstat are not three: that part of the snapshot is not valid.
snapshot_run : take_scheduler_snapshot status_scan proc_self ≡ record empty_snapshot {
  voluntary_ctxt_switches = 4;
  nonvoluntary_ctxt_switches = 5;
  status_valid = true;
  process_cpu_ns = 1_000_000_005;
  process_cpu_valid = true;
}
unfolding take_scheduler_snapshot read_self_status scan_status_lines scan_status
    read_process_cpu_time read_self_schedstat timespec_to_ns
snapshot_run = refl
