-- ===== src/RqReceiver/Late.antt =====
-- Symbols of a completed block of edge_receiver_rq.c.
use openmc.Common.{
  ℕ, ◌≡◌, ap, refl, ◌∙◌, inl, inr, true, false, ◌||◌, Bool-cases, List, ltb, ◌==◌, length, arith,
}
use openmc.Env.{Env}
use openmc.Wire.{RqDataHdr}
use openmc.RqReceiver.{
  Codec, RqReceiver, holds, BlockCtx, is_block_completed, has_esi, store_block, get_block,
}
use openmc.RqReceiver.Symbol.{
  stamp_first, init_block, count_unique, store_symbol, take_symbol, find_block, accept_symbol,
}

-- Nothing was sent or completed in between, and the global counters stayed.
pub record Quiet (rc rc' : RqReceiver) : Type 0 where
  pub output : rc'.output ≡ rc.output
  pub sends : rc'.sends ≡ rc.sends
  pub counters : rc'.counters ≡ rc.counters
  pub completed : rc'.completed_blocks ≡ rc.completed_blocks

module _ (env : Env) (codec : Codec) where
  pub find-Quiet : (hdr : RqDataHdr) (rc : RqReceiver) → Quiet rc ((find_block env codec hdr rc).rc)
  unfolding find_block init_block stamp_first get_block
  find-Quiet hdr rc = ground arith

  store-Quiet :
      (hdr : RqDataHdr) (symbol : List ℕ) (c : BlockCtx)
      → Quiet c.rc ((store_symbol env codec hdr symbol (count_unique env codec hdr c)).rc)
  unfolding store_symbol count_unique
  store-Quiet hdr symbol c = ground arith

  take-Quiet :
      (hdr : RqDataHdr) (symbol : List ℕ) (c : BlockCtx)
      → is_block_completed hdr.block_id c.rc ≡ true
      → has_esi c.b hdr.esi ≡ false
      → Quiet c.rc ((take_symbol env codec hdr symbol c).rc)
  unfolding take_symbol
  take-Quiet hdr symbol c done new = simp new (simp done (store-Quiet hdr symbol c))

  pub still-completed :
      (hdr : RqDataHdr) (rc : RqReceiver)
      → is_block_completed hdr.block_id rc ≡ true
      → is_block_completed hdr.block_id ((find_block env codec hdr rc).rc) ≡ true
  unfolding is_block_completed
  still-completed hdr rc done = ap (holds hdr.block_id) ((find-Quiet hdr rc).completed) ∙ done

  -- A new symbol of a completed block: `Quiet` leaves out what was counted before the symbol is
  -- looked at, and the block's own numbers of symbols.
  pub accept_symbol-Quiet :
      (hdr : RqDataHdr) (symbol : List ℕ) (rc : RqReceiver)
      → is_block_completed hdr.block_id rc ≡ true
      → has_esi ((find_block env codec hdr rc).b) hdr.esi ≡ false
      → Quiet rc (accept_symbol env codec hdr symbol rc)
  unfolding accept_symbol store_block
  accept_symbol-Quiet hdr symbol rc done new =
      let f = find-Quiet hdr rc in
      let t =
        take-Quiet hdr symbol (find_block env codec hdr rc) (still-completed hdr rc done) new in
      elim (Bool-cases (ltb (length symbol) hdr.symbol_len || (hdr.symbol_len == 0))) [
        | inl e ↦ simp e (record { output = refl; sends = refl; counters = refl; completed = refl })
        | inr e ↦ simp e (record {
          output = t.output ∙ f.output;
          sends = t.sends ∙ f.sends;
          counters = t.counters ∙ f.counters;
          completed = t.completed ∙ f.completed;
        })
      ]
