-- ===== src/RqReceiver/Stored.antt =====
-- The identifiers that the table of edge_receiver_rq.c holds for a block that was completed.
use openmc.Common.{
  ℕ, ◌%◌, ◌≡◌, ◌∙◌, ap, inl, inr, true, false, ◌||◌, ◌&&◌, Bool-cases, List, [], ◌∷◌, ◌++◌, ltb,
  ◌==◌, length, if◌then◌else◌, arith,
}
use openmc.Env.{Env}
use openmc.Wire.{RqDataHdr}
use openmc.RqReceiver.{
  Codec, RqReceiver, max_blocks, holds, BlockCtx, is_block_completed, has_esi, store_block,
  get_block,
}
use openmc.RqReceiver.Symbol.{
  stamp_first, init_block, count_unique, store_symbol, take_symbol, find_block, accept_symbol,
}
use openmc.RqReceiver.Late.{still-completed}

-- The identifiers that the table has stored for a block.
abbrev pub stored_esis : ℕ → RqReceiver → List ℕ
stored_esis id rc =
    let b = rc.blocks (id % max_blocks) in
    if b.in_use && ((b.block_id == id) && b.has_rq) then b.esis else []

holds-append :
    (x y : ℕ) (ys : List ℕ) → holds x ys ≡ false → (y == x) ≡ false → holds x (ys ++ y ∷ []) ≡ false
holds-append x y [] h e = ground arith
holds-append x y (z ∷ ys) h e = ground (arith, holds-append x y ys)

module _ (env : Env) (codec : Codec) where
  find-esis :
      (hdr : RqDataHdr) (rc : RqReceiver)
      → ((find_block env codec hdr rc).b.esis ≡ stored_esis hdr.block_id rc)
        × ((find_block env codec hdr rc).rc.blocks ≡ rc.blocks)
  unfolding find_block init_block stamp_first get_block
  find-esis hdr rc = ground arith

  pub find-new :
      (hdr : RqDataHdr) (rc : RqReceiver)
      → has_esi ((find_block env codec hdr rc).b) hdr.esi
        ≡ holds hdr.esi (stored_esis hdr.block_id rc)
  unfolding has_esi
  find-new hdr rc = ap (holds hdr.esi) (find-esis hdr rc).0

  take-esis :
      (hdr : RqDataHdr) (symbol : List ℕ) (c : BlockCtx) (e : ℕ)
      → has_esi c.b hdr.esi ≡ false
      → is_block_completed hdr.block_id c.rc ≡ true
      → holds e c.b.esis ≡ false
      → (hdr.esi == e) ≡ false
      → holds e ((take_symbol env codec hdr symbol c).b.esis) ≡ false
  unfolding take_symbol store_symbol count_unique
  take-esis hdr symbol c e new done h ne =
      simp (new, done) (ground (arith, holds-append e hdr.esi c.b.esis h ne))

  pub accept-esis :
      (hdr : RqDataHdr) (symbol : List ℕ) (rc : RqReceiver) (e : ℕ)
      → is_block_completed hdr.block_id rc ≡ true
      → holds hdr.esi (stored_esis hdr.block_id rc) ≡ false
      → holds e (stored_esis hdr.block_id rc) ≡ false
      → (hdr.esi == e) ≡ false
      → holds e (stored_esis hdr.block_id (accept_symbol env codec hdr symbol rc)) ≡ false
  unfolding accept_symbol store_block
  accept-esis hdr symbol rc e done new h ne =
      let c = find_block env codec hdr rc in
      let taken =
        take-esis hdr symbol c e (find-new hdr rc ∙ new) (still-completed env codec hdr rc done)
          (ap (holds e) (find-esis hdr rc).0 ∙ h) ne in
      elim (Bool-cases (ltb (length symbol) hdr.symbol_len || (hdr.symbol_len == 0))) [
        | inl short ↦ simp short h
        | inr long ↦ simp long (ground (arith, taken))
      ]
