-- ===== src/Link/Find.antt =====
-- A symbol that arrives at edge_receiver_rq.c finds the entry of its block.
use openmc.Common.{
  ℕ, ◌*◌, ◌%◌, ◌^◌, ◌≤◌, ◌<◌, ◌≡◌, ◌⊎◌, refl, sym, ap, subst, ◌∙◌, true, false, ◌||◌, List, [],
  ◌++◌, ltb, ◌==◌, length, update_self, arith,
}
use openmc.Env.{Env}
use openmc.Wire.{RqDataHdr, encode_rq_hdr}
use openmc.Wire.Roundtrip.{decode-encode_rq_hdr}
use openmc.RsReceiver.{Forwarded}
use openmc.RqReceiver.{
  Codec, RqReceiver, BlockCtx, blank, max_blocks, is_block_completed, holds, store_block, get_block,
}
use openmc.RqReceiver.Symbol.{
  block_k, note_arrival, count_fragment, stamp_first, init_block, take_symbol, find_block,
  accept_symbol, handle_rq_symbol,
}
use openmc.RqReceiver.Late.{find-Quiet}
use openmc.RqHost.Sent.{symbol_datagram}
use openmc.Link.Step.{Partly, IsSource}
use openmc.Link.Passed.{Passed}

-- The block's entry of the table holds the first `m` packets.
pub record Awaiting (id bs len m : ℕ) (rc : RqReceiver) : Type 0 where
  pub block : Partly id bs len m m (rc.blocks (id % max_blocks))
  pub config : rc.block_size ≡ bs
  pub not_done : is_block_completed id rc ≡ false

-- The entry is free or of another block, and the block was not completed before.
pub record Free (id bs : ℕ) (rc : RqReceiver) : Type 0 where
  pub slot :
      ((rc.blocks (id % max_blocks)).in_use ≡ false)
      ⊎ (((rc.blocks (id % max_blocks)).block_id == id) ≡ false)
  pub config : rc.block_size ≡ bs
  pub not_done : is_block_completed id rc ≡ false

-- What the theorems on a whole block take: sizes in range, sends that succeed, an object that is given.
pub record Lossless (env : Env) (codec : Codec) (id bs len : ℕ) : Type 0 where
  pub id_lt : id < 2 ^ 16
  pub bs_le : bs ≤ 8
  pub len_min : 20 ≤ len
  pub len_le : len ≤ 1500
  pub sends : (n : ℕ) → env.send_ok n ≡ true
  pub object : codec.rq_init (bs * len) len ≡ true

module _ (env : Env) (codec : Codec) (id bs len : ℕ) (l : Lossless env codec id bs len) where
  abbrev pub header : ℕ → RqDataHdr
  header m = record {
    block_id = id;
    k = bs;
    esi = m;
    symbol_len = len;
    is_source = 1;
    reserved = 0;
  }

  pub header-IsSource : (m : ℕ) → IsSource id bs len m (header m)
  header-IsSource m = record {
    id_is = refl;
    k_is = refl;
    esi_is = refl;
    len_is = refl;
    source = refl;
  }

  pub find-Awaiting :
      (m : ℕ) (rc : RqReceiver)
      → Awaiting id bs len m rc
      → Partly id bs len m m ((find_block env codec (header m) rc).b)
  unfolding find_block init_block stamp_first get_block
  find-Awaiting m rc v = record {
    used = ground (arith, v.block.used, v.block.id_is, v.block.object);
    id_is = ground (arith, v.block.used, v.block.id_is, v.block.object);
    k_is = ground (arith, v.block.used, v.block.id_is, v.block.object, v.block.k_is);
    len_is = ground (arith, v.block.used, v.block.id_is, v.block.object, v.block.len_is);
    object = ground (arith, v.block.used, v.block.id_is, v.block.object);
    stored = ground (arith, v.block.used, v.block.id_is, v.block.object, v.block.stored);
    fresh = λ e le. ground (arith, v.block.used, v.block.id_is, v.block.object, v.block.fresh e le);
    count = ground (arith, v.block.used, v.block.id_is, v.block.object, v.block.count);
    below = λ i h. ground (arith, v.block.used, v.block.id_is, v.block.object, v.block.below i h);
    above = λ i h. ground (arith, v.block.used, v.block.id_is, v.block.object, v.block.above i h);
  }

  get-Free :
      (rc : RqReceiver)
      → Free id bs rc
      → get_block id rc ≡ record { b = record blank { in_use = true; block_id = id }; rc = rc }
  unfolding get_block
  get-Free rc v = ground (arith, v.slot)

  block_k_self : 0 < bs → block_k bs bs ≡ bs
  unfolding block_k
  block_k_self pos = ground (arith, pos)

  pub find-Free :
      (rc : RqReceiver)
      → Free id bs rc
      → 0 < bs
      → Partly id bs len 0 0 ((find_block env codec (header 0) rc).b)
  unfolding find_block init_block stamp_first
  find-Free rc v pos = rw (get-Free rc v) (
      let k : block_k rc.block_size bs ≡ bs = ap (λ n. block_k n bs) v.config ∙ block_k_self pos in
      record {
        used = ground arith;
        id_is = ground arith;
        k_is = ground (arith, k);
        len_is = ground arith;
        object = ground (arith, k, l.object);
        stored = ground arith;
        fresh = λ e le. ground arith;
        count = ground arith;
        below = λ i h. absurd (omega (arith, h));
        above = λ i h. ground arith;
      })

  pub find-config :
      (hdr : RqDataHdr) (rc : RqReceiver)
      → (find_block env codec hdr rc).rc.block_size ≡ rc.block_size
  unfolding find_block init_block stamp_first get_block
  find-config hdr rc = ground arith

  -- What arrives is counted first.
  abbrev pub arrived : RqReceiver → RqReceiver
  arrived rc = count_fragment env codec true (note_arrival env codec rc)

  pub arrived-Awaiting :
      (m : ℕ) (rc : RqReceiver) → Awaiting id bs len m rc → Awaiting id bs len m (arrived rc)
  unfolding note_arrival count_fragment is_block_completed
  arrived-Awaiting m rc v = record { block = v.block; config = v.config; not_done = v.not_done }

  pub arrived-Free : (rc : RqReceiver) → Free id bs rc → Free id bs (arrived rc)
  unfolding note_arrival count_fragment is_block_completed
  arrived-Free rc v = record { slot = v.slot; config = v.config; not_done = v.not_done }

  arrived-Passed : (rc : RqReceiver) → Passed rc (arrived rc) []
  unfolding note_arrival count_fragment
  arrived-Passed rc = record { output = refl; config = refl }

  pub handle-source :
      (m : ℕ) (p : List ℕ) (rc : RqReceiver)
      → m < bs
      → length p ≡ len
      → handle_rq_symbol env codec (symbol_datagram id bs m len 1 p) rc
        ≡ store_block id
            (take_symbol env codec (header m) p (find_block env codec (header m) (arrived rc)))
  unfolding handle_rq_symbol accept_symbol
  handle-source m p rc lt e =
      let r = decode-encode_rq_hdr (header m) p (record {
        block_id = l.id_lt;
        k = omega (arith, l.bs_le);
        esi = omega (arith, l.bs_le, lt);
        symbol_len = omega (arith, l.len_le);
        is_source = omega arith;
        reserved = omega arith;
      }) in
      let whole : ltb (length (encode_rq_hdr (header m) ++ p)) 12 ≡ false = ground (arith, r.2) in
      let fits : (ltb (length p) len || (len == 0)) ≡ false = ground (arith, e, l.len_min) in
      simp (whole, r.0, r.1, fits) refl

  -- What the entry of the block has when symbol `m` arrives.
  pub record Found (m : ℕ) (rc : RqReceiver) : Type 0 where
    pub block : Partly id bs len m m ((find_block env codec (header m) rc).b)
    pub config : rc.block_size ≡ bs
    pub not_done : is_block_completed id rc ≡ false

  abbrev pub context : ℕ → RqReceiver → BlockCtx
  context m rc = find_block env codec (header m) (arrived rc)

  pub context-not_done :
      (m : ℕ) (rc : RqReceiver)
      → is_block_completed id (arrived rc) ≡ false
      → is_block_completed id ((context m rc).rc) ≡ false
  unfolding is_block_completed
  context-not_done m rc e =
      ap (holds id) ((find-Quiet env codec (header m) (arrived rc)).completed) ∙ e

  pub stored-Awaiting :
      (m : ℕ) (d : BlockCtx)
      → Partly id bs len m m d.b
      → d.rc.block_size ≡ bs
      → is_block_completed id d.rc ≡ false
      → Awaiting id bs len m (store_block id d)
  unfolding store_block is_block_completed
  stored-Awaiting m d v config e = record {
    block = subst (Partly id bs len m m) (sym (update_self d.rc.blocks (id % max_blocks) d.b)) v;
    config = config;
    not_done = e;
  }

  pub stored-Passed :
      (m : ℕ) (rc : RqReceiver) (d : BlockCtx) (ps : List Forwarded)
      → Passed ((context m rc).rc) d.rc ps
      → Passed rc (store_block id d) ps
  unfolding store_block
  stored-Passed m rc d ps v = record {
    output =
        v.output
        ∙ ap (λ log. ps ++ log)
            ((find-Quiet env codec (header m) (arrived rc)).output ∙ (arrived-Passed rc).output);
    config = v.config ∙ find-config (header m) (arrived rc) ∙ (arrived-Passed rc).config;
  }

  pub still_not_done :
      (c d : BlockCtx)
      → d.rc.completed_blocks ≡ c.rc.completed_blocks
      → is_block_completed id c.rc ≡ false
      → is_block_completed id d.rc ≡ false
  unfolding is_block_completed
  still_not_done c d same e = ap (holds id) same ∙ e
