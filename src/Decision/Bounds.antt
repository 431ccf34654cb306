-- ===== src/Decision/Bounds.antt =====
-- What the three engines of openmc_rq.c keep of the command line, and the bounds of their decisions.
use openmc.Common.{ℕ, ◌*◌, ◌^◌, ◌≤◌, ◌<◌, ◌≡◌, refl, ◌⊎◌, ltb, if◌then◌else◌, arith}
use openmc.Double.{Double}
use openmc.Decision.{
  FragmentMeta, BlockMeta, Metrics, Policy, policy_default, policy_quality, policy_adaptive, Engine,
  of_default, of_quality, of_adaptive, QualityDecision, AdaptiveDecision, max_rep,
  quality_choose_iface, quality_decide_repairs, quality_decide_block_size, adaptive_choose_iface,
  adaptive_decide_repairs, adaptive_decide_block_size, choose_iface, decide_repairs,
  decide_block_size, update_link_metrics, create_engine,
}

-- The configuration that an engine was made for.
abbrev pub IsTuned : {W : Type 0} → ℕ → ℕ → Engine W → Type 0
IsTuned bs repairs (of_default st) = (st.fixed_k ≡ bs) × (st.fixed_repairs ≡ repairs)
IsTuned bs repairs (of_quality qd) =
    (qd.base_k ≡ bs) × (qd.min_repairs ≡ 2) × (qd.max_repairs ≡ max_rep repairs)
IsTuned bs repairs (of_adaptive ad) =
    (ad.base_k ≡ bs) × (ad.min_repairs ≡ 1) × (ad.max_repairs ≡ max_rep repairs)

pub create_engine-IsTuned :
    (W : Type 0) ⦃d : Double W⦄ (bs repairs : ℕ) (p : Policy) (seed : ℕ)
    → IsTuned bs repairs (create_engine {W = W} p bs repairs seed)
unfolding create_engine
create_engine-IsTuned W bs repairs policy_default seed = (refl, refl)
create_engine-IsTuned W bs repairs policy_quality seed = (refl, refl, refl)
create_engine-IsTuned W bs repairs policy_adaptive seed = (refl, refl, refl)

module _ {W : Type 0} ⦃d : Double W⦄ (bs repairs : ℕ) where
  quality_choose-kept :
      (qd : QualityDecision W)
      → ((quality_choose_iface qd).0.base_k ≡ qd.base_k)
        × ((quality_choose_iface qd).0.min_repairs ≡ qd.min_repairs)
        × ((quality_choose_iface qd).0.max_repairs ≡ qd.max_repairs)
  unfolding quality_choose_iface
  quality_choose-kept qd = ground arith

  adaptive_choose-kept :
      (ad : AdaptiveDecision W)
      → ((adaptive_choose_iface ad).0.base_k ≡ ad.base_k)
        × ((adaptive_choose_iface ad).0.min_repairs ≡ ad.min_repairs)
        × ((adaptive_choose_iface ad).0.max_repairs ≡ ad.max_repairs)
  unfolding adaptive_choose_iface
  adaptive_choose-kept ad = ground arith

  pub choose_iface-IsTuned :
      (frag : FragmentMeta) (e : Engine W)
      → IsTuned bs repairs e
      → IsTuned bs repairs ((choose_iface frag e).0)
  unfolding choose_iface
  choose_iface-IsTuned frag (of_default st) t = t
  choose_iface-IsTuned frag (of_quality qd) t = ground (arith, quality_choose-kept qd, t)
  choose_iface-IsTuned frag (of_adaptive ad) t = ground (arith, adaptive_choose-kept ad, t)

  pub update_link_metrics-IsTuned :
      (m : Metrics W) (e : Engine W)
      → IsTuned bs repairs e
      → IsTuned bs repairs (update_link_metrics m e)
  unfolding update_link_metrics
  update_link_metrics-IsTuned m (of_default st) t = t
  update_link_metrics-IsTuned m (of_quality qd) t = t
  update_link_metrics-IsTuned m (of_adaptive ad) t = t

  -- An engine made for R repair symbols, whatever the metrics and the choices since: with R at least
  -- one it decides at least one and at most the larger of R and two.
  pub decide_repairs_bounds :
      (blk : BlockMeta) (e : Engine W)
      → IsTuned bs repairs e
      → 0 < repairs
      → (1 ≤ decide_repairs blk e) × (decide_repairs blk e ≤ (if ltb repairs 2 then 2 else repairs))
  unfolding decide_repairs quality_decide_repairs adaptive_decide_repairs
  decide_repairs_bounds blk (of_default st) t pos = ground (arith, t)
  decide_repairs_bounds blk (of_quality qd) t pos = ground (arith, t)
  decide_repairs_bounds blk (of_adaptive ad) t pos = ground (arith, t)

  pub decide_repairs-le :
      (blk : BlockMeta) (e : Engine W)
      → IsTuned bs repairs e
      → repairs ≤ 32
      → decide_repairs blk e ≤ 32
  unfolding decide_repairs quality_decide_repairs adaptive_decide_repairs
  decide_repairs-le blk (of_default st) t le = ground (arith, t)
  decide_repairs-le blk (of_quality qd) t le = ground (arith, t)
  decide_repairs-le blk (of_adaptive ad) t le = ground (arith, t)

  -- The block size decided is the base or twice the base.
  pub decide_block_size-cases :
      (e : Engine W)
      → IsTuned bs repairs e
      → bs < 2 ^ 15
      → (decide_block_size e ≡ bs) ⊎ (decide_block_size e ≡ bs * 2)
  unfolding decide_block_size quality_decide_block_size adaptive_decide_block_size
  decide_block_size-cases (of_default st) t lt = ground (arith, t)
  decide_block_size-cases (of_quality qd) t lt = ground (arith, t)
  decide_block_size-cases (of_adaptive ad) t lt = ground (arith, t)
