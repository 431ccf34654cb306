-- ===== src/TrafficGen/Diagnostics.antt =====
-- What a snapshot holds of /proc/self/status, in the traffic generator.
use openmc.Common.{
  ℕ, ◌+◌, ◌^◌, ◌≤◌, ◌<◌, ◌≡◌, ◌⊎◌, inl, inr, refl, Bool, Bool-cases, true, false, ◌&&◌, Option,
  none, some, List, [], ◌∷◌, ◌∙◌, ap, arith, if◌then◌else◌,
}
use openmc.TrafficGen.{ns_per_s}
use openmc.TrafficGen.Scheduler.{
  SchedulerSnapshot, ProcSelf, empty_snapshot, read_self_schedstat, StatusKey, voluntary,
  nonvoluntary, StatusScan, timespec_to_ns, ns_to_timespec, read_process_cpu_time, scan_status,
  scan_status_lines, read_self_status, take_scheduler_snapshot, delta_u64, scheduler_deltas,
}

-- A time of the monotonic clock that is taken apart for `clock_nanosleep` is put together again as it
-- was, with fewer nanoseconds than a second has.
pub timespec_to_ns-ns_to_timespec :
    (ns : ℕ)
    → ns < 2 ^ 64
    → (timespec_to_ns (ns_to_timespec ns) ≡ ns) × ((ns_to_timespec ns).1 < ns_per_s)
unfolding timespec_to_ns ns_to_timespec
timespec_to_ns-ns_to_timespec ns lt = (omega (arith, lt), omega arith)

-- The fields that come from status.
abbrev Same : SchedulerSnapshot → SchedulerSnapshot → Type 0
Same s s' =
    (s'.status_valid ≡ s.status_valid)
    × (s'.voluntary_ctxt_switches ≡ s.voluntary_ctxt_switches)
    × (s'.nonvoluntary_ctxt_switches ≡ s.nonvoluntary_ctxt_switches)

schedstat-Same :
    (numbers : Option (List ℕ)) (s : SchedulerSnapshot) → Same s (read_self_schedstat numbers s)
unfolding read_self_schedstat
schedstat-Same none s = (refl, refl, refl)
schedstat-Same (some []) s = (refl, refl, refl)
schedstat-Same (some (a ∷ [])) s = (refl, refl, refl)
schedstat-Same (some (a ∷ b ∷ [])) s = (refl, refl, refl)
schedstat-Same (some (a ∷ b ∷ c ∷ [])) s = (refl, refl, refl)
schedstat-Same (some (a ∷ b ∷ c ∷ d ∷ r)) s = (refl, refl, refl)

cpu-Same : (ts : Option (ℕ × ℕ)) (s : SchedulerSnapshot) → Same s (read_process_cpu_time ts s)
unfolding read_process_cpu_time
cpu-Same none s = (refl, refl, refl)
cpu-Same (some ts) s = (refl, refl, refl)

module _ (scan : StatusKey → List ℕ → Option ℕ) where
  -- The last value that a line gives for a key, and whether one does.
  abbrev pub last_count : StatusKey → List (List ℕ) → ℕ → ℕ
  last_count k [] x = x
  last_count k (line ∷ rest) x = last_count k rest (elim (scan k line) [ some y ↦ y | none ↦ x ])

  abbrev pub seen : StatusKey → List (List ℕ) → Bool → Bool
  seen k [] b = b
  seen k (line ∷ rest) b = seen k rest (elim (scan k line) [ some y ↦ true | none ↦ b ])

  -- A line fits one format at most.
  abbrev pub IsExclusive : Type 0
  IsExclusive = (line : List ℕ) → (scan voluntary line ≡ none) ⊎ (scan nonvoluntary line ≡ none)

  abbrev scanned : List (List ℕ) → StatusScan → StatusScan
  scanned lines v = record {
    snapshot = record v.snapshot {
      voluntary_ctxt_switches = last_count voluntary lines v.snapshot.voluntary_ctxt_switches;
      nonvoluntary_ctxt_switches =
          last_count nonvoluntary lines v.snapshot.nonvoluntary_ctxt_switches;
    };
    got_voluntary = seen voluntary lines v.got_voluntary;
    got_nonvoluntary = seen nonvoluntary lines v.got_nonvoluntary;
  }

  scan_status-last :
      (line : List ℕ) (v : StatusScan)
      → IsExclusive
      → scan_status scan line v ≡ scanned (line ∷ []) v
  unfolding scan_status
  scan_status-last line v ex = ground (arith, ex line)

  scan_status_lines-last :
      (lines : List (List ℕ)) (v : StatusScan)
      → IsExclusive
      → scan_status_lines scan lines v ≡ scanned lines v
  unfolding scan_status_lines
  scan_status_lines-last [] v ex = refl
  scan_status_lines-last (line ∷ rest) v ex =
      rw (scan_status-last line v ex) (scan_status_lines-last rest _ ex)

  read_self_status-last :
      (lines : List (List ℕ)) (s : SchedulerSnapshot)
      → IsExclusive
      → (s.status_valid ≡ false
          → (read_self_status scan (some lines) s).status_valid
            ≡ (seen voluntary lines false && seen nonvoluntary lines false))
        × ((read_self_status scan (some lines) s).voluntary_ctxt_switches
            ≡ last_count voluntary lines s.voluntary_ctxt_switches)
        × ((read_self_status scan (some lines) s).nonvoluntary_ctxt_switches
            ≡ last_count nonvoluntary lines s.nonvoluntary_ctxt_switches)
  unfolding read_self_status
  read_self_status-last lines s ex =
      rw
        (scan_status_lines-last lines
          (record { snapshot = s; got_voluntary = false; got_nonvoluntary = false }) ex)
        (elim (Bool-cases (seen voluntary lines false && seen nonvoluntary lines false)) [
          | inl both ↦ simp both (λ e. refl, refl, refl)
          | inr missing ↦ simp missing (λ e. e, refl, refl)
        ])

  -- What a snapshot has to hold of the context switches.
  abbrev pub StatusOk : Option (List (List ℕ)) → SchedulerSnapshot → Type 0
  StatusOk none s =
      (s.status_valid ≡ false)
      × (s.voluntary_ctxt_switches ≡ 0)
      × (s.nonvoluntary_ctxt_switches ≡ 0)
  StatusOk (some lines) s =
      (s.status_valid ≡ (seen voluntary lines false && seen nonvoluntary lines false))
      × (s.voluntary_ctxt_switches ≡ last_count voluntary lines 0)
      × (s.nonvoluntary_ctxt_switches ≡ last_count nonvoluntary lines 0)

  read-StatusOk :
      (status : Option (List (List ℕ))) (s : SchedulerSnapshot)
      → IsExclusive
      → Same empty_snapshot s
      → StatusOk status (read_self_status scan status s)
  read-StatusOk none s ex before = unfold read_self_status in before
  read-StatusOk (some lines) s ex before =
      let read = read_self_status-last lines s ex in
      (
        read.0 before.0,
        read.1 ∙ ap (last_count voluntary lines) before.1,
        read.2 ∙ ap (last_count nonvoluntary lines) before.2,
      )

  Same-StatusOk :
      (status : Option (List (List ℕ))) (s s' : SchedulerSnapshot)
      → Same s s'
      → StatusOk status s
      → StatusOk status s'
  Same-StatusOk none s s' same ok = (same.0 ∙ ok.0, same.1 ∙ ok.1, same.2 ∙ ok.2)
  Same-StatusOk (some lines) s s' same ok = (same.0 ∙ ok.0, same.1 ∙ ok.1, same.2 ∙ ok.2)

  -- Where a line of /proc/self/status fits one format at most, whatever the other two sources of the
  -- snapshot answer: if the file cannot be opened, the context switches of a snapshot are not valid
  -- and zero; otherwise they are valid exactly if the file gives both counts, and each count is the
  -- last value that the file gives for it, and zero where it gives none.
  pub take_scheduler_snapshot-status :
      (p : ProcSelf) → IsExclusive → StatusOk p.status (take_scheduler_snapshot scan p)
  unfolding take_scheduler_snapshot
  take_scheduler_snapshot-status p ex =
      let s = read_self_schedstat p.schedstat empty_snapshot in
      Same-StatusOk p.status (read_self_status scan p.status s)
        (read_process_cpu_time p.process_cpu (read_self_status scan p.status s))
        (cpu-Same p.process_cpu (read_self_status scan p.status s))
        (read-StatusOk p.status s ex (schedstat-Same p.schedstat empty_snapshot))

-- The difference of two counts: what it rose by, or 0 where it fell.
abbrev pub IsDelta : ℕ → ℕ → ℕ → Type 0
IsDelta start end d = ((start ≤ end) × (start + d ≡ end)) ⊎ ((end < start) × (d ≡ 0))

-- The flag of a part of the report: both snapshots have the part.
abbrev pub IsBoth : Bool → Bool → Bool → Type 0
IsBoth start end flag =
    ((start ≡ true) × (end ≡ true) × (flag ≡ true))
    ⊎ (((start ≡ false) ⊎ (end ≡ false)) × (flag ≡ false))

-- A count of a part of the report: a difference where the part is valid, and 0 where it is not.
abbrev pub IsCount : Bool → ℕ → ℕ → ℕ → Type 0
IsCount flag start end d = ((flag ≡ true) × IsDelta start end d) ⊎ ((flag ≡ false) × (d ≡ 0))

-- The counts are `uint64_t`.
pub record IsWords (s : SchedulerSnapshot) : Type 0 where
  pub runtime : s.sched_runtime_ns < 2 ^ 64
  pub wait : s.sched_wait_ns < 2 ^ 64
  pub slices : s.sched_slices < 2 ^ 64
  pub voluntary_word : s.voluntary_ctxt_switches < 2 ^ 64
  pub nonvoluntary_word : s.nonvoluntary_ctxt_switches < 2 ^ 64
  pub cpu : s.process_cpu_ns < 2 ^ 64

IsBoth-lem : (x y : Bool) → IsBoth x y (x && y)
IsBoth-lem true true = inl (refl, refl, refl)
IsBoth-lem true false = inr (inr refl, refl)
IsBoth-lem false y = inr (inl refl, refl)

delta_u64-IsDelta : (end start : ℕ) → end < 2 ^ 64 → IsDelta start end (delta_u64 end start)
unfolding delta_u64
delta_u64-IsDelta end start lt = ground arith

IsCount-lem :
    (flag : Bool) (end start : ℕ)
    → end < 2 ^ 64
    → IsCount flag start end (if flag then delta_u64 end start else 0)
IsCount-lem true end start lt = inl (refl, delta_u64-IsDelta end start lt)
IsCount-lem false end start lt = inr (refl, refl)

-- Of any two snapshots with counts of 64 bits: a part of the report is valid exactly if it is valid in
-- both; a count of a valid part is what has to be added to the first snapshot's count to give the
-- second's, and 0 where the count fell; and a count of a part that is not valid is 0.
pub scheduler_deltas_exact :
    (a b : SchedulerSnapshot)
    → IsWords b
    → let d = scheduler_deltas a b in
      let sched = d.scheduler_delta_valid in
      let status = d.context_switch_delta_valid in
      (IsBoth a.schedstat_valid b.schedstat_valid sched)
      × (IsBoth a.status_valid b.status_valid status)
      × (IsBoth a.process_cpu_valid b.process_cpu_valid d.process_cpu_delta_valid)
      × (IsCount sched a.sched_runtime_ns b.sched_runtime_ns d.runtime_ns)
      × (IsCount sched a.sched_wait_ns b.sched_wait_ns d.wait_ns)
      × (IsCount sched a.sched_slices b.sched_slices d.slices)
      × (IsCount status a.voluntary_ctxt_switches b.voluntary_ctxt_switches d.voluntary_switches)
      × (IsCount status a.nonvoluntary_ctxt_switches b.nonvoluntary_ctxt_switches
          d.nonvoluntary_switches)
      × (IsCount d.process_cpu_delta_valid a.process_cpu_ns b.process_cpu_ns d.cpu_ns)
unfolding scheduler_deltas
scheduler_deltas_exact a b w = (
  IsBoth-lem a.schedstat_valid b.schedstat_valid,
  IsBoth-lem a.status_valid b.status_valid,
  IsBoth-lem a.process_cpu_valid b.process_cpu_valid,
  IsCount-lem _ b.sched_runtime_ns a.sched_runtime_ns w.runtime,
  IsCount-lem _ b.sched_wait_ns a.sched_wait_ns w.wait,
  IsCount-lem _ b.sched_slices a.sched_slices w.slices,
  IsCount-lem _ b.voluntary_ctxt_switches a.voluntary_ctxt_switches w.voluntary_word,
  IsCount-lem _ b.nonvoluntary_ctxt_switches a.nonvoluntary_ctxt_switches w.nonvoluntary_word,
  IsCount-lem _ b.process_cpu_ns a.process_cpu_ns w.cpu,
)
