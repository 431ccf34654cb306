-- ===== src/RqReceiver/Bounds.antt =====
-- The memory for the stored symbols of a block of edge_receiver_rq.c: 40 symbols of T bytes.
use openmc.Common.{
  ℕ, ◌+◌, ◌-◌, ◌*◌, ◌≤◌, ◌<◌, ◌≡◌, refl, ap, lt→ltb, subst, List, ltb, get_or, length, Bool-cases,
  inl, inr, ltb→lt, arith,
}
use openmc.Env.{Env}
use openmc.Wire.{RqDataHdr}
use openmc.RqReceiver.{Codec, BlockCtx, max_syms_per_block}
use openmc.RqReceiver.Symbol.{store_symbol}

row_end : (n k t : ℕ) → n < k → n * t + t ≤ k * t
row_end n k t lt = grind arith

row_last : (n k t : ℕ) → n + 1 ≡ k → n * t + t ≡ k * t
row_last n k t e = subst (λ m. n * t + t ≡ m * t) e (omega arith)

row_gap : (base end t : ℕ) → base + t ≡ end → end - base ≡ t
row_gap base end t e = omega arith

module _ (env : Env) (codec : Codec) where
  -- A symbol that is no longer than the block's T changes nothing from the end of the memory of 40
  -- symbols on.
  pub store_symbol-inside :
      (hdr : RqDataHdr) (symbol : List ℕ) (c : BlockCtx) (k : ℕ)
      → hdr.symbol_len ≤ c.b.symbol_size
      → max_syms_per_block * c.b.symbol_size ≤ k
      → (store_symbol env codec hdr symbol c).b.enc k ≡ c.b.enc k
  unfolding store_symbol
  store_symbol-inside hdr symbol c k le far =
      elim (Bool-cases (ltb (length c.b.esis) max_syms_per_block)) [
        | inl e ↦ simp e (
            ground (
              arith,
              le,
              far,
              row_end (length c.b.esis) max_syms_per_block c.b.symbol_size (ltb→lt _ _ e),
            ))
        | inr e ↦ simp e refl
      ]

  -- A symbol that is longer than the block's T, stored as the fortieth, writes its byte T right behind
  -- the end of the memory of 40 symbols.
  pub store_symbol-outside :
      (hdr : RqDataHdr) (symbol : List ℕ) (c : BlockCtx)
      → length c.b.esis + 1 ≡ max_syms_per_block
      → c.b.symbol_size < hdr.symbol_len
      → (store_symbol env codec hdr symbol c).b.enc (max_syms_per_block * c.b.symbol_size)
        ≡ get_or symbol c.b.symbol_size 0
  unfolding store_symbol
  store_symbol-outside hdr symbol c full long =
      let base = row_last (length c.b.esis) max_syms_per_block c.b.symbol_size full in
      let last =
        row_gap (length c.b.esis * c.b.symbol_size) (max_syms_per_block * c.b.symbol_size)
          c.b.symbol_size base in
      simp (lt→ltb (length c.b.esis) max_syms_per_block (omega (arith, full)))
        (ground (arith, base, long, ap (λ k. get_or symbol k 0) last))
