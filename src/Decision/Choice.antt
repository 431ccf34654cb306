-- ===== src/Decision/Choice.antt =====
-- How the engines of openmc_rq.c answer to the link metrics.
use openmc.Common.{ℕ, ◌≤◌, ◌≡◌, ◌≢◌, true, false, arith}
use openmc.Double.{Double, IsOrdered}
use openmc.Decision.{
  BlockMeta, Metrics, policy_quality, QualityDecision, AdaptiveDecision, avg_loss,
  quality_choose_iface, quality_decide_repairs, adaptive_decide_repairs, decide_repairs,
  create_engine, update_link_metrics,
}

module _ {W : Type 0} ⦃d : Double W⦄ where
  open d use {lit, le, lt, eq}

  -- Without metrics, both losses being zero, two packets in a row leave by different interfaces.
  pub quality_choose_iface-alternates :
      (qd : QualityDecision W)
      → eq qd.metrics.a.loss (lit 0 0) ≡ true
      → eq qd.metrics.b.loss (lit 0 0) ≡ true
      → (quality_choose_iface (quality_choose_iface qd).0).1 ≢ (quality_choose_iface qd).1
  unfolding quality_choose_iface
  quality_choose_iface-alternates qd a b same = ground (arith, same)

  -- With a higher mean loss the adaptive engine decides no fewer repair symbols.
  pub adaptive_decide_repairs_mono :
      (ad : AdaptiveDecision W) (m m' : Metrics W)
      → IsOrdered W
      → le (avg_loss m) (avg_loss m') ≡ true
      → adaptive_decide_repairs (record ad { metrics = m })
        ≤ adaptive_decide_repairs (record ad { metrics = m' })
  unfolding adaptive_decide_repairs
  adaptive_decide_repairs_mono ad m m' o h = ground (
    arith,
    h,
    o.le_trans (avg_loss m) (avg_loss m') (lit 1 3),
    o.le_trans (avg_loss m) (avg_loss m') (lit 1 2),
  )

  -- Made for one repair symbol, the quality engine decides two on a good network, whose mean loss is
  -- positive and below 0.005, and one on a bad network, whose mean loss is 0.02 or more.
  pub quality_decide_repairs_inverted :
      (bs seed : ℕ) (blk : BlockMeta) (good bad : Metrics W)
      → le (avg_loss good) (lit 0 0) ≡ false
      → lt (avg_loss good) (lit 5 3) ≡ true
      → le (avg_loss bad) (lit 0 0) ≡ false
      → lt (avg_loss bad) (lit 5 3) ≡ false
      → lt (avg_loss bad) (lit 2 2) ≡ false
      → (decide_repairs blk (update_link_metrics good (create_engine policy_quality bs 1 seed)) ≡ 2)
        × (decide_repairs blk (update_link_metrics bad (create_engine policy_quality bs 1 seed))
            ≡ 1)
  unfolding create_engine update_link_metrics decide_repairs quality_decide_repairs
  quality_decide_repairs_inverted bs seed blk good bad g0 g1 b0 b1 b2 = ground arith
