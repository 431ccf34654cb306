-- ===== src/Decision/Tests.antt =====
-- Runs of the decision engine at fixed metrics, in millionths.
use openmc.Common.{
  ◌⊎◌, ℕ, ◌*◌, ◌≤◌, ◌≡◌, ◌≢◌, refl, inl, true, Option, some, none, List, [], ◌∷◌, ◌==◌,
  if◌then◌else◌, arith,
}
use openmc.Double.{IsOrdered, Micro, micro}
use openmc.Decision.{
  BlockMeta, Metrics, policy_quality, policy_adaptive, AdaptiveDecision, QualityDecision, iface_a,
  no_metrics, quality_choose_iface, adaptive_decide_repairs, adaptive_choose_iface,
  adaptive_score_link, lcg, decide_repairs, update_link_metrics, create_engine,
}
use openmc.Decision.Sources.{
  Key, loss_a, loss_b, rtt_a, rtt_b, source_file, next_metrics, next_metrics-last, IsUsable,
  IsRefused, complete_metrics, IsExclusive, fetch_metrics_from_file, scan_lines, scan_line,
}
use openmc.Decision.Bounds.{create_engine-IsTuned, decide_repairs_bounds}
use openmc.Decision.Choice.{
  quality_choose_iface-alternates, adaptive_decide_repairs_mono, quality_decide_repairs_inverted,
}

abbrev percent : ℕ → ℕ → Metrics Micro
percent a b = record {
  a = record { loss = some (a * 10_000); rtt_ms = some 20_000_000 };
  b = record { loss = some (b * 10_000); rtt_ms = some 40_000_000 };
}

abbrev blk : BlockMeta
blk = record { block_id = 1; k = 8; repairs_planned = 0; repairs_sent = 0; data_sent_bytes = 0 }

decide_repairs_bounds_example :
    (1 ≤ decide_repairs blk (create_engine {W = Micro} policy_adaptive 8 4 7))
    × (decide_repairs blk (create_engine {W = Micro} policy_adaptive 8 4 7) ≤ 4)
decide_repairs_bounds_example =
    decide_repairs_bounds 8 4 blk (create_engine policy_adaptive 8 4 7)
      (create_engine-IsTuned Micro 8 4 policy_adaptive 7) (omega arith)

abbrev quality : QualityDecision Micro
quality = record {
  metrics = no_metrics;
  rr_counter = 4_294_967_295;
  base_k = 8;
  min_repairs = 2;
  max_repairs = 4;
}

quality_choose_iface-alternates_example :
    (quality_choose_iface (quality_choose_iface quality).0).1 ≢ (quality_choose_iface quality).1
quality_choose_iface-alternates_example = quality_choose_iface-alternates quality refl refl

Micro-IsOrdered : IsOrdered Micro
Micro-IsOrdered = record { le_trans = trans }
  where
    trans : (x y z : Micro) → micro.le x y ≡ true → micro.le y z ≡ true → micro.le x z ≡ true
    trans x y z p q = ground arith

abbrev adaptive : AdaptiveDecision Micro
adaptive = record {
  metrics = no_metrics;
  rand_state = 7;
  base_k = 8;
  min_repairs = 1;
  max_repairs = 4;
}

adaptive_decide_repairs_mono_example :
    adaptive_decide_repairs (record adaptive { metrics = percent 0 1 })
    ≤ adaptive_decide_repairs (record adaptive { metrics = percent 2 3 })
adaptive_decide_repairs_mono_example =
    adaptive_decide_repairs_mono adaptive (percent 0 1) (percent 2 3) Micro-IsOrdered refl

-- Half a percent and three percent of loss: two of four, and four repair symbols.
adaptive_run :
    (adaptive_decide_repairs (record adaptive { metrics = percent 0 1 }) ≡ 2)
    × (adaptive_decide_repairs (record adaptive { metrics = percent 2 3 }) ≡ 4)
    × (adaptive_decide_repairs adaptive ≡ 1)
unfolding adaptive_decide_repairs
adaptive_run = (refl, refl, refl)

abbrev nearly_clean : Metrics Micro
nearly_clean = record {
  a = record { loss = some 1000; rtt_ms = some 20_000_000 };
  b = record { loss = some 1000; rtt_ms = some 40_000_000 };
}

quality_decide_repairs_inverted_example :
    (decide_repairs blk (update_link_metrics nearly_clean (create_engine policy_quality 8 1 7)) ≡ 2)
    × (decide_repairs blk (update_link_metrics (percent 3 3) (create_engine policy_quality 8 1 7))
        ≡ 1)
quality_decide_repairs_inverted_example =
    quality_decide_repairs_inverted 8 7 blk nearly_clean (percent 3 3) refl refl refl refl refl

-- A line of the runs: the first byte stands for the format, the second for the value.
abbrev scan : Key → List ℕ → Option Micro
scan k (x ∷ y ∷ []) =
    if x == elim k [ loss_a ↦ 1 | loss_b ↦ 2 | rtt_a ↦ 3 | rtt_b ↦ 4 ] then some (some y) else none
scan k _ = none

scan-IsExclusive : IsExclusive scan
scan-IsExclusive [] = (inl refl, inl refl, inl refl, inl refl, inl refl, inl refl)
scan-IsExclusive (x ∷ []) = (inl refl, inl refl, inl refl, inl refl, inl refl, inl refl)
scan-IsExclusive (x ∷ y ∷ []) = ground arith
scan-IsExclusive (x ∷ y ∷ z ∷ r) = (inl refl, inl refl, inl refl, inl refl, inl refl, inl refl)

abbrev metrics_file : List (List ℕ)
metrics_file =
    (1 ∷ 10 ∷ []) ∷ (4 ∷ 40 ∷ []) ∷ (9 ∷ []) ∷ (2 ∷ 20 ∷ []) ∷ (1 ∷ 11 ∷ []) ∷ (3 ∷ 30 ∷ []) ∷ []

next_metrics-last_example :
    (next_metrics scan source_file 1 none no_metrics ≡ no_metrics)
    × ((((k : Key) → IsUsable scan metrics_file k)
          × (next_metrics scan source_file 1 (some metrics_file) no_metrics ≡ record {
            a = record { loss = some 11; rtt_ms = some 30 };
            b = record { loss = some 20; rtt_ms = some 40 };
          }))
        ⊎ (((k : Key) × IsRefused scan metrics_file k)
            × (next_metrics scan source_file 1 (some metrics_file) no_metrics ≡ no_metrics)))
next_metrics-last_example = next_metrics-last scan 1 metrics_file no_metrics scan-IsExclusive refl

metrics_run : next_metrics scan source_file 1 (some metrics_file) no_metrics ≡ record {
  a = record { loss = some 11; rtt_ms = some 30 };
  b = record { loss = some 20; rtt_ms = some 40 };
}
unfolding next_metrics fetch_metrics_from_file scan_lines scan_line complete_metrics
metrics_run = refl

-- With the link B far worse the adaptive engine prefers A.
adaptive_choice : (adaptive_choose_iface (record adaptive { metrics = percent 0 50 })).1 ≡ iface_a
unfolding adaptive_choose_iface adaptive_score_link lcg
adaptive_choice = refl
