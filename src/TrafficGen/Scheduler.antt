-- ===== src/TrafficGen/Scheduler.antt =====
-- The scheduler diagnostics and the time helpers of src/applications/traffic_generator.c: two snapshots
-- of /proc/self and the process clock, and the differences that the report prints.
use openmc.Common.{
  ℕ, ◌+◌, ◌*◌, ◌/◌, ◌%◌, ◌^◌, Bool, true, false, ◌&&◌, Option, none, some, List, [], ◌∷◌, leb,
  if◌then◌else◌, sub64,
}
use openmc.TrafficGen.{ns_per_s}

pub record SchedulerSnapshot : Type 0 where
  pub sched_runtime_ns : ℕ
  pub sched_wait_ns : ℕ
  pub sched_slices : ℕ
  pub voluntary_ctxt_switches : ℕ
  pub nonvoluntary_ctxt_switches : ℕ
  pub process_cpu_ns : ℕ
  pub schedstat_valid : Bool
  pub status_valid : Bool
  pub process_cpu_valid : Bool

-- What the system gives for one snapshot: the numbers that `fscanf` read from schedstat, the lines of
-- status, and the process clock in seconds and nanoseconds; `none` where the call failed.
pub record ProcSelf : Type 0 where
  pub schedstat : Option (List ℕ)
  pub status : Option (List (List ℕ))
  pub process_cpu : Option (ℕ × ℕ)

-- `memset(snapshot, 0, sizeof(*snapshot))`
abbrev pub empty_snapshot : SchedulerSnapshot
empty_snapshot = record {
  sched_runtime_ns = 0;
  sched_wait_ns = 0;
  sched_slices = 0;
  voluntary_ctxt_switches = 0;
  nonvoluntary_ctxt_switches = 0;
  process_cpu_ns = 0;
  schedstat_valid = false;
  status_valid = false;
  process_cpu_valid = false;
}

unfoldable pub read_self_schedstat : Option (List ℕ) → SchedulerSnapshot → SchedulerSnapshot
read_self_schedstat (some (runtime_ns ∷ wait_ns ∷ slices ∷ [])) s = record s {
  sched_runtime_ns = runtime_ns;
  sched_wait_ns = wait_ns;
  sched_slices = slices;
  schedstat_valid = true;
}
read_self_schedstat _ s = s

-- The two formats `voluntary_ctxt_switches: %lu` and `nonvoluntary_ctxt_switches: %lu`.
pub data StatusKey : Type 0 where
  voluntary nonvoluntary : StatusKey

-- The snapshot during the loop, with what was found so far.
pub record StatusScan : Type 0 where
  pub snapshot : SchedulerSnapshot
  pub got_voluntary : Bool
  pub got_nonvoluntary : Bool

unfoldable pub timespec_to_ns : ℕ × ℕ → ℕ
timespec_to_ns (sec, nsec) = (sec * ns_per_s + nsec) % 2 ^ 64

unfoldable pub ns_to_timespec : ℕ → ℕ × ℕ
ns_to_timespec ns = (ns / ns_per_s, ns % ns_per_s)

unfoldable pub read_process_cpu_time : Option (ℕ × ℕ) → SchedulerSnapshot → SchedulerSnapshot
read_process_cpu_time none s = s
read_process_cpu_time (some ts) s = record s {
  process_cpu_ns = timespec_to_ns ts;
  process_cpu_valid = true;
}

module _ (scan : StatusKey → List ℕ → Option ℕ) where
  -- One line of status.
  unfoldable pub scan_status : List ℕ → StatusScan → StatusScan
  scan_status line v = elim (scan voluntary line) [
    | some x ↦ record v {
      snapshot = record v.snapshot { voluntary_ctxt_switches = x };
      got_voluntary = true;
    }
    | none ↦ elim (scan nonvoluntary line) [
      | some x ↦ record v {
        snapshot = record v.snapshot { nonvoluntary_ctxt_switches = x };
        got_nonvoluntary = true;
      }
      | none ↦ v
    ]
  ]

  unfoldable pub scan_status_lines : List (List ℕ) → StatusScan → StatusScan
  scan_status_lines [] v = v
  scan_status_lines (line ∷ rest) v = scan_status_lines rest (scan_status line v)

  -- Values that were read stay in the snapshot where one of the two is missing.
  unfoldable pub read_self_status : Option (List (List ℕ)) → SchedulerSnapshot → SchedulerSnapshot
  read_self_status none s = s
  read_self_status (some lines) s =
      let v =
        scan_status_lines lines
          (record { snapshot = s; got_voluntary = false; got_nonvoluntary = false }) in
      if v.got_voluntary && v.got_nonvoluntary
      then record v.snapshot { status_valid = true }
      else v.snapshot

  unfoldable pub take_scheduler_snapshot : ProcSelf → SchedulerSnapshot
  take_scheduler_snapshot p =
      read_process_cpu_time p.process_cpu
        (read_self_status p.status (read_self_schedstat p.schedstat empty_snapshot))

unfoldable pub delta_u64 : ℕ → ℕ → ℕ
delta_u64 end start = if leb start end then sub64 end start else 0

-- What the report is made of; each flag tells whether its line says "unavailable".
pub record SchedulerDeltas : Type 0 where
  pub runtime_ns : ℕ
  pub wait_ns : ℕ
  pub slices : ℕ
  pub voluntary_switches : ℕ
  pub nonvoluntary_switches : ℕ
  pub cpu_ns : ℕ
  pub scheduler_delta_valid : Bool
  pub context_switch_delta_valid : Bool
  pub process_cpu_delta_valid : Bool

abbrev if_valid : Bool → ℕ → ℕ
if_valid b n = if b then n else 0

unfoldable pub scheduler_deltas : SchedulerSnapshot → SchedulerSnapshot → SchedulerDeltas
scheduler_deltas start end =
    let sched = start.schedstat_valid && end.schedstat_valid in
    let status = start.status_valid && end.status_valid in
    let cpu = start.process_cpu_valid && end.process_cpu_valid in
    record {
      runtime_ns = if_valid sched (delta_u64 end.sched_runtime_ns start.sched_runtime_ns);
      wait_ns = if_valid sched (delta_u64 end.sched_wait_ns start.sched_wait_ns);
      slices = if_valid sched (delta_u64 end.sched_slices start.sched_slices);
      voluntary_switches =
          if_valid status (delta_u64 end.voluntary_ctxt_switches start.voluntary_ctxt_switches);
      nonvoluntary_switches =
          if_valid status
            (delta_u64 end.nonvoluntary_ctxt_switches start.nonvoluntary_ctxt_switches);
      cpu_ns = if_valid cpu (delta_u64 end.process_cpu_ns start.process_cpu_ns);
      scheduler_delta_valid = sched;
      context_switch_delta_valid = status;
      process_cpu_delta_valid = cpu;
    }
