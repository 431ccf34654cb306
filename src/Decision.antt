-- ===== src/Decision.antt =====
-- The decision engine of src/processing_host/openmc_rq.c: `struct decision_ops` and its three
-- implementations, the choice between them, and the sources of the link metrics. The casts from
-- `struct decision_ops *` to the struct of an implementation are a data type with a constructor for each.
pub mod Sources
pub mod Bounds
pub mod Choice
mod Tests
use openmc.Common.{
  ℕ, suc, ◌+◌, ◌*◌, ◌/◌, ◌%◌, ◌^◌, Bool, true, false, ◌&&◌, ltb, ◌==◌, if◌then◌else◌, add32,
}
use openmc.Double.{Double}

-- `gw_iface_t`
pub data Iface : Type 0 where
  iface_a iface_b : Iface

-- `gw_policy_t`
pub data Policy : Type 0 where
  policy_default policy_quality policy_adaptive : Policy

pub record FragmentMeta : Type 0 where
  pub block_id : ℕ
  pub sym_index : ℕ
  pub is_source : Bool

pub record BlockMeta : Type 0 where
  pub block_id : ℕ
  pub k : ℕ
  pub repairs_planned : ℕ
  pub repairs_sent : ℕ
  pub data_sent_bytes : ℕ

-- The function pointers of `struct decision_ops`, over the state S of an engine and metrics M.
pub record DecisionOps (S M : Type 0) : Type 0 where
  pub choose_iface : FragmentMeta → S → S × Iface
  pub decide_repairs : BlockMeta → S → ℕ
  pub decide_block_size : S → ℕ
  pub update_link_metrics : M → S → S

pub record LinkMetrics (W : Type 0) : Type 0 where
  pub loss : W
  pub rtt_ms : W

pub record Metrics (W : Type 0) : Type 0 where
  pub a : LinkMetrics W
  pub b : LinkMetrics W

pub record DefaultDecision (W : Type 0) : Type 0 where
  pub fixed_k : ℕ
  pub fixed_repairs : ℕ
  pub metrics : Metrics W

pub record QualityDecision (W : Type 0) : Type 0 where
  pub metrics : Metrics W
  pub rr_counter : ℕ
  pub base_k : ℕ
  pub min_repairs : ℕ
  pub max_repairs : ℕ

pub record AdaptiveDecision (W : Type 0) : Type 0 where
  pub metrics : Metrics W
  pub rand_state : ℕ
  pub base_k : ℕ
  pub min_repairs : ℕ
  pub max_repairs : ℕ

pub data Engine (W : Type 0) : Type 0 where
  of_default : DefaultDecision W → Engine W
  of_quality : QualityDecision W → Engine W
  of_adaptive : AdaptiveDecision W → Engine W

unfoldable pub default_choose_iface : FragmentMeta → Iface
default_choose_iface frag = if frag.sym_index % 2 == 1 then iface_b else iface_a

-- The generator of the adaptive engine.
unfoldable pub lcg : ℕ → ℕ
lcg x = (x * 1103515245 + 12345) % 2 ^ 32

-- `max_rep` of `main`: at least two where `--repairs 0` was given.
abbrev pub max_rep : ℕ → ℕ
max_rep repairs = if ltb 0 repairs then repairs else 2

module _ {W : Type 0} ⦃d : Double W⦄ where
  open d use {lit, of_nat, add, mul, div, le, lt, eq}

  -- `memset` of the metrics to zero bytes.
  abbrev pub no_metrics : Metrics W
  no_metrics = record {
    a = record { loss = lit 0 0; rtt_ms = lit 0 0 };
    b = record { loss = lit 0 0; rtt_ms = lit 0 0 };
  }

  abbrev pub avg_loss : Metrics W → W
  avg_loss m = mul (lit 5 1) (add m.a.loss m.b.loss)

  unfoldable pub quality_choose_iface : QualityDecision W → QualityDecision W × Iface
  quality_choose_iface qd =
      if eq qd.metrics.a.loss (lit 0 0) && eq qd.metrics.b.loss (lit 0 0)
      then (
        record qd { rr_counter = add32 qd.rr_counter 1 },
        (if qd.rr_counter % 2 == 1 then iface_b else iface_a),
      )
      else if le qd.metrics.a.loss qd.metrics.b.loss
      then (qd, iface_a)
      else (qd, iface_b)

  unfoldable pub quality_decide_repairs : QualityDecision W → ℕ
  quality_decide_repairs qd =
      if le (avg_loss qd.metrics) (lit 0 0)
      then (qd.min_repairs + qd.max_repairs) / 2
      else if lt (avg_loss qd.metrics) (lit 5 3)
      then qd.min_repairs
      else if lt (avg_loss qd.metrics) (lit 2 2)
      then (qd.min_repairs + qd.max_repairs) / 2
      else qd.max_repairs

  unfoldable pub quality_decide_block_size : QualityDecision W → ℕ
  quality_decide_block_size qd =
      if le (avg_loss qd.metrics) (lit 0 0)
      then qd.base_k
      else if lt (avg_loss qd.metrics) (lit 1 2)
      then (qd.base_k * 2) % 2 ^ 16
      else qd.base_k

  unfoldable pub adaptive_score_link : LinkMetrics W → W
  adaptive_score_link m =
      let loss = if lt m.loss (lit 1 4) then lit 1 4 else m.loss in
      let rtt = if lt m.rtt_ms (lit 1 0) then lit 1 0 else m.rtt_ms in
      div (lit 1 0) (add (mul loss (lit 100 0)) rtt)

  -- Both fallbacks draw a bit; otherwise 24 bits of the generator are compared with the share of A.
  unfoldable pub adaptive_choose_iface : AdaptiveDecision W → AdaptiveDecision W × Iface
  unfolding lcg
  adaptive_choose_iface ad =
      let s_a = adaptive_score_link ad.metrics.a in
      let s_b = adaptive_score_link ad.metrics.b in
      let r = lcg ad.rand_state in
      let ad' = record ad { rand_state = r } in
      if le s_a (lit 0 0) && le s_b (lit 0 0)
      then (ad', (if r % 2 == 1 then iface_b else iface_a))
      else if le (add s_a s_b) (lit 0 0)
      then (ad', (if r % 2 == 1 then iface_b else iface_a))
      else (
        ad',
        (if lt (div (of_nat (r % 2 ^ 24)) (of_nat (2 ^ 24))) (div s_a (add s_a s_b))
            then iface_a
            else iface_b),
      )

  unfoldable pub adaptive_decide_repairs : AdaptiveDecision W → ℕ
  adaptive_decide_repairs ad =
      let swapped = ltb ad.max_repairs ad.min_repairs in
      let min_r = if swapped then ad.max_repairs else ad.min_repairs in
      let max_r = if swapped then ad.min_repairs else ad.max_repairs in
      if le (avg_loss ad.metrics) (lit 1 3)
      then min_r
      else if le (avg_loss ad.metrics) (lit 1 2)
      then (min_r + max_r) / 2
      else max_r

  unfoldable pub adaptive_decide_block_size : AdaptiveDecision W → ℕ
  adaptive_decide_block_size ad =
      if le (avg_loss ad.metrics) (lit 2 3) then (ad.base_k * 2) % 2 ^ 16 else ad.base_k

  -- The calls through the function pointers.
  unfoldable pub choose_iface : FragmentMeta → Engine W → Engine W × Iface
  choose_iface frag (of_default st) = (of_default st, default_choose_iface frag)
  choose_iface frag (of_quality qd) =
      (of_quality (quality_choose_iface qd).0, (quality_choose_iface qd).1)
  choose_iface frag (of_adaptive ad) =
      (of_adaptive (adaptive_choose_iface ad).0, (adaptive_choose_iface ad).1)

  unfoldable pub decide_repairs : BlockMeta → Engine W → ℕ
  decide_repairs blk (of_default st) = st.fixed_repairs
  decide_repairs blk (of_quality qd) = quality_decide_repairs qd
  decide_repairs blk (of_adaptive ad) = adaptive_decide_repairs ad

  unfoldable pub decide_block_size : Engine W → ℕ
  decide_block_size (of_default st) = st.fixed_k
  decide_block_size (of_quality qd) = quality_decide_block_size qd
  decide_block_size (of_adaptive ad) = adaptive_decide_block_size ad

  unfoldable pub update_link_metrics : Metrics W → Engine W → Engine W
  update_link_metrics m (of_default st) = of_default (record st { metrics = m })
  update_link_metrics m (of_quality qd) = of_quality (record qd { metrics = m })
  update_link_metrics m (of_adaptive ad) = of_adaptive (record ad { metrics = m })

  abbrev pub decision_ops : DecisionOps (Engine W) (Metrics W)
  decision_ops = record {
    choose_iface = choose_iface;
    decide_repairs = decide_repairs;
    decide_block_size = decide_block_size;
    update_link_metrics = update_link_metrics;
  }

  -- The engine that `main` creates; `calloc` is taken to succeed.
  unfoldable pub create_engine : Policy → ℕ → ℕ → ℕ → Engine W
  create_engine policy_default block_size repairs seed =
      of_default (record { fixed_k = block_size; fixed_repairs = repairs; metrics = no_metrics })
  create_engine policy_quality block_size repairs seed = of_quality (record {
    metrics = no_metrics;
    rr_counter = 0;
    base_k = block_size;
    min_repairs = 2;
    max_repairs = max_rep repairs;
  })
  create_engine policy_adaptive block_size repairs seed = of_adaptive (record {
    metrics = no_metrics;
    rand_state = seed;
    base_k = block_size;
    min_repairs = 1;
    max_repairs = max_rep repairs;
  })
