-- ===== src/Link/Step.antt =====
-- One source symbol of a block that is received in order, in edge_receiver_rq.c.
use openmc.Common.{
  ℕ, suc, ◌≤◌, ◌<◌, ◌≡◌, refl, ap, subst, ◌∙◌, true, false, List, [], ◌∷◌, leb, length,
  length-append, take, update, all_below, all_below_complete, all_below_refuted, leb-false, arith,
}
use openmc.Env.{Env}
use openmc.Wire.{RqDataHdr}
use openmc.RqReceiver.{
  Codec, RqReceiver, RqBlockDec, BlockCtx, holds, is_block_completed, has_esi, forwards,
  forward_ip_packet_counted,
}
use openmc.RqReceiver.Decode.{
  all_forwarded, must_decode, try_decode_and_forward, finalize_block, mark_forwarded,
}
use openmc.RqReceiver.Symbol.{
  count_unique, store_symbol, forward_source, finish_if_complete, maybe_forward_and_finish,
  take_symbol,
}
use openmc.RqReceiver.Inv.{holds-append}
use openmc.Link.Passed.{Passed, Passed-trans, packet, finalize-Passed}

-- Block `id` of `bs` symbols of length `len`, with the symbols below `s` stored and the packets below
-- `m` forwarded.
pub record Partly (id bs len m s : ℕ) (b : RqBlockDec) : Type 0 where
  pub used : b.in_use ≡ true
  pub id_is : b.block_id ≡ id
  pub k_is : b.symbol_count ≡ bs
  pub len_is : b.symbol_size ≡ len
  pub object : b.has_rq ≡ true
  pub stored : length b.esis ≡ s
  pub fresh : (e : ℕ) → s ≤ e → holds e b.esis ≡ false
  pub count : b.forwarded_count ≡ m
  pub below : (i : ℕ) → i < m → b.forwarded i ≡ true
  pub above : (i : ℕ) → m ≤ i → b.forwarded i ≡ false

-- The header of source symbol `m`.
pub record IsSource (id bs len m : ℕ) (hdr : RqDataHdr) : Type 0 where
  pub id_is : hdr.block_id ≡ id
  pub k_is : hdr.k ≡ bs
  pub esi_is : hdr.esi ≡ m
  pub len_is : hdr.symbol_len ≡ len
  pub source : hdr.is_source ≡ 1

module _ (env : Env) (codec : Codec) (id bs len : ℕ) (bs_le : bs ≤ 8) (len_min : 20 ≤ len)
    (sends : (n : ℕ) → env.send_ok n ≡ true) where
  store-Partly :
      (m : ℕ) (hdr : RqDataHdr) (symbol : List ℕ) (c : BlockCtx)
      → Partly id bs len m m c.b
      → IsSource id bs len m hdr
      → m < bs
      → Partly id bs len m
          (suc m)
          ((store_symbol env codec hdr symbol (count_unique env codec hdr c)).b)
  unfolding store_symbol count_unique
  store-Partly m hdr symbol c v s lt = record {
    used = ground (arith, v.used);
    id_is = ground (arith, v.id_is);
    k_is = ground (arith, v.k_is);
    len_is = ground (arith, v.len_is);
    object = ground (arith, v.object);
    stored = ground (arith, v.stored, bs_le, lt, length-append c.b.esis (hdr.esi ∷ []));
    fresh = λ e le.
        ground (arith, v.stored, bs_le, lt, holds-append e hdr.esi c.b.esis, v.fresh e, s.esi_is);
    count = ground (arith, v.count);
    below = λ i h. ground (arith, v.below i h);
    above = λ i h. ground (arith, v.above i h);
  }

  store-rc :
      (hdr : RqDataHdr) (symbol : List ℕ) (c : BlockCtx)
      → (store_symbol env codec hdr symbol (count_unique env codec hdr c)).rc ≡ c.rc
  unfolding store_symbol count_unique
  store-rc hdr symbol c = ground arith

  sent-Passed :
      (p : List ℕ) (rc : RqReceiver)
      → Passed rc (forward_ip_packet_counted env p len true rc) (packet p ∷ [])
        × ((forward_ip_packet_counted env p len true rc).completed_blocks ≡ rc.completed_blocks)
  unfolding forward_ip_packet_counted
  sent-Passed p rc = ground (arith, len_min, sends rc.sends)

  will_forward : (rc : RqReceiver) → forwards env len rc ≡ true
  unfolding forwards
  will_forward rc = ground (arith, len_min, sends rc.sends)

  abbrev marked : ℕ → List ℕ → BlockCtx → BlockCtx
  marked m p c = mark_forwarded env codec m p len (record {
    b = record c.b { have_source = update c.b.have_source m true };
    rc = forward_ip_packet_counted env p len true c.rc;
  })

  forward-marked :
      (m : ℕ) (hdr : RqDataHdr) (symbol : List ℕ) (c : BlockCtx)
      → Partly id bs len m (suc m) c.b
      → IsSource id bs len m hdr
      → m < bs
      → forward_source env codec hdr symbol c ≡ marked m (take len symbol) c
  unfolding forward_source
  forward-marked m hdr symbol c v s lt =
      let room : leb bs m ≡ false = leb-false bs m lt in
      simp (s.source, s.esi_is, s.len_is, v.k_is, room, v.above m (omega arith), will_forward c.rc)
        refl

  marked-Partly :
      (m t : ℕ) (p : List ℕ) (c : BlockCtx)
      → Partly id bs len m t c.b
      → Partly id bs len (suc m) t ((marked m p c).b)
  unfolding mark_forwarded
  marked-Partly m t p c v = record {
    used = v.used;
    id_is = v.id_is;
    k_is = v.k_is;
    len_is = v.len_is;
    object = v.object;
    stored = v.stored;
    fresh = v.fresh;
    count = omega (arith, v.count);
    below = λ i h. ground (arith, v.below i, h);
    above = λ i h. ground (arith, v.above i, h);
  }

  marked-Passed :
      (m : ℕ) (p : List ℕ) (c : BlockCtx)
      → Passed c.rc ((marked m p c).rc) (packet p ∷ [])
        × ((marked m p c).rc.completed_blocks ≡ c.rc.completed_blocks)
  unfolding mark_forwarded
  marked-Passed m p c =
      let r = sent-Passed p c.rc in (record { output = r.0.output; config = r.0.config }, r.1)

  -- With no symbol missing there is nothing to decode.
  nothing_to_decode :
      (m : ℕ) (c : BlockCtx) → Partly id bs len m m c.b → try_decode_and_forward env codec c ≡ c
  unfolding try_decode_and_forward must_decode
  nothing_to_decode m c v = ground (arith, v.count, v.k_is, v.stored)

  more_to_come :
      (m : ℕ) (c : BlockCtx)
      → Partly id bs len m m c.b
      → m < bs
      → finish_if_complete env codec c ≡ c
  unfolding finish_if_complete all_forwarded
  more_to_come m c v lt =
      let rest : all_below c.b.symbol_count c.b.forwarded ≡ false =
        all_below_refuted c.b.symbol_count c.b.forwarded m (v.above m (omega arith))
          (omega (arith, v.k_is, lt)) in
      simp rest refl

  all_there :
      (c : BlockCtx)
      → Partly id bs len bs bs c.b
      → finish_if_complete env codec c ≡ finalize_block c
  unfolding finish_if_complete all_forwarded
  all_there c v =
      let rest : all_below c.b.symbol_count c.b.forwarded ≡ true =
        all_below_complete c.b.symbol_count c.b.forwarded
          (λ k h. v.below k (omega (arith, h, v.k_is))) in
      simp rest refl

  -- Where the identifier is new and the block not completed.
  take-new :
      (hdr : RqDataHdr) (symbol : List ℕ) (c : BlockCtx)
      → has_esi c.b hdr.esi ≡ false
      → is_block_completed hdr.block_id c.rc ≡ false
      → take_symbol env codec hdr symbol c
        ≡ finish_if_complete env codec (
            try_decode_and_forward env codec (
              forward_source env codec hdr symbol
                (store_symbol env codec hdr symbol (count_unique env codec hdr c))))
  unfolding take_symbol maybe_forward_and_finish
  take-new hdr symbol c new more = simp new (simp more refl)

  new_esi :
      (m : ℕ) (hdr : RqDataHdr) (b : RqBlockDec)
      → Partly id bs len m m b
      → IsSource id bs len m hdr
      → has_esi b hdr.esi ≡ false
  unfolding has_esi
  new_esi m hdr b v s = rw s.esi_is (v.fresh m (omega arith))

  -- After symbol `m` was stored and its packet forwarded.
  abbrev pub after : ℕ → RqDataHdr → List ℕ → BlockCtx → BlockCtx
  after m hdr symbol c =
      marked m (take len symbol) (store_symbol env codec hdr symbol (count_unique env codec hdr c))

  pub after-Partly :
      (m : ℕ) (hdr : RqDataHdr) (symbol : List ℕ) (c : BlockCtx)
      → Partly id bs len m m c.b
      → IsSource id bs len m hdr
      → m < bs
      → Partly id bs len (suc m) (suc m) ((after m hdr symbol c).b)
  after-Partly m hdr symbol c v s lt =
      marked-Partly m (suc m) (take len symbol) _ (store-Partly m hdr symbol c v s lt)

  pub after-Passed :
      (m : ℕ) (hdr : RqDataHdr) (symbol : List ℕ) (c : BlockCtx)
      → Passed c.rc ((after m hdr symbol c).rc) (packet (take len symbol) ∷ [])
        × ((after m hdr symbol c).rc.completed_blocks ≡ c.rc.completed_blocks)
  after-Passed m hdr symbol c =
      subst
        (λ rc.
          Passed rc ((after m hdr symbol c).rc) (packet (take len symbol) ∷ [])
          × ((after m hdr symbol c).rc.completed_blocks ≡ rc.completed_blocks))
        (store-rc hdr symbol c)
        (marked-Passed m (take len symbol)
          (store_symbol env codec hdr symbol (count_unique env codec hdr c)))

  take-after :
      (m : ℕ) (hdr : RqDataHdr) (symbol : List ℕ) (c : BlockCtx)
      → Partly id bs len m m c.b
      → IsSource id bs len m hdr
      → m < bs
      → is_block_completed id c.rc ≡ false
      → take_symbol env codec hdr symbol c ≡ finish_if_complete env codec (after m hdr symbol c)
  take-after m hdr symbol c v s lt more =
      take-new hdr symbol c (new_esi m hdr c.b v s) (rw s.id_is more)
      ∙ ap (λ x. finish_if_complete env codec (try_decode_and_forward env codec x))
          (forward-marked m hdr symbol _ (store-Partly m hdr symbol c v s lt) s lt)
      ∙ ap (finish_if_complete env codec)
          (nothing_to_decode (suc m) (after m hdr symbol c) (after-Partly m hdr symbol c v s lt))

  -- A symbol before the last one.
  pub take-more :
      (m : ℕ) (hdr : RqDataHdr) (symbol : List ℕ) (c : BlockCtx)
      → Partly id bs len m m c.b
      → IsSource id bs len m hdr
      → suc m < bs
      → is_block_completed id c.rc ≡ false
      → take_symbol env codec hdr symbol c ≡ after m hdr symbol c
  take-more m hdr symbol c v s lt more =
      take-after m hdr symbol c v s (omega (arith, lt)) more
      ∙ more_to_come (suc m) _ (after-Partly m hdr symbol c v s (omega (arith, lt))) lt

  -- The last symbol.
  pub take-last :
      (m : ℕ) (hdr : RqDataHdr) (symbol : List ℕ) (c : BlockCtx)
      → Partly id bs len m m c.b
      → IsSource id bs len m hdr
      → suc m ≡ bs
      → is_block_completed id c.rc ≡ false
      → Passed c.rc ((take_symbol env codec hdr symbol c).rc) (packet (take len symbol) ∷ [])
  take-last m hdr symbol c v s last more =
      let d = after m hdr symbol c in
      let full =
        subst (λ n. Partly id bs len n n d.b) last
          (after-Partly m hdr symbol c v s (omega (arith, last))) in
      rw (take-after m hdr symbol c v s (omega (arith, last)) more, all_there d full)
        (Passed-trans c.rc d.rc _ (packet (take len symbol) ∷ []) []
          ((after-Passed m hdr symbol c).0) (finalize-Passed d))
