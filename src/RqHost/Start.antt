-- ===== src/RqHost/Start.antt =====
-- What a packet finds in the RaptorQ processing host when it asks for a block.
use openmc.Common.{
  ℕ, ◌*◌, ◌%◌, ◌^◌, ◌≤◌, ◌<◌, ◌≡◌, refl, subst, sym, ap, ◌∙◌, inl, inr, ◌⊎◌, Bool, true, false,
  none, Bool-cases, arith,
}
use openmc.Env.{Env}
use openmc.Decision.{BlockMeta, DecisionOps}
use openmc.RqHost.{
  RqHost, RqCodec, max_pkt_len, max_blocks, guarded_block_size, alloc_new_block, abandon_block,
}
use openmc.RqHost.Packet.{size_block, open_block, start_block}
use openmc.RqHost.Inv.{EngineLaws, OpenOk, CurrentOk, HostOk}
use openmc.RqHost.Working.{Working}

-- No block is current and none is in use.
pub record Idle (S M : Type 0) (Good : S → Type 0) (bs : ℕ) (h : RqHost S M) : Type 0 where
  pub config : h.block_size ≡ bs
  pub good : Good h.decision
  pub current : h.current_block ≡ none
  pub used : (j : ℕ) → (h.blocks j).in_use ≡ false
  pub never : h.overwritten ≡ 0

module _ {S M : Type 0} (env : Env) (codec : RqCodec) (ops : DecisionOps S M) (Good : S → Type 0)
    (bs most : ℕ) (laws : EngineLaws S M ops Good bs most) (bs_pos : 0 < bs) where
  pub Idle-HostOk : (h : RqHost S M) → Idle S M Good bs h → HostOk S M Good bs most h
  Idle-HostOk h w = record {
    config = w.config;
    good = w.good;
    current = subst (λ c. CurrentOk bs most c h.blocks) (sym w.current) w.used;
    never = w.never;
  }

  pub sized-k :
      (h : RqHost S M)
      → Idle S M Good bs h
      → guarded_block_size h.block_size (ops.decide_block_size h.decision) ≡ bs
  sized-k h w =
      ap (λ n. guarded_block_size n (ops.decide_block_size h.decision)) w.config
      ∙ laws.size h.decision w.good

  -- A slot that was taken and given up again.
  abandon-Idle :
      (k len : ℕ) (h : RqHost S M)
      → Idle S M Good bs h
      → Idle S M Good bs (
          abandon_block
            ((alloc_new_block h).0)
            (size_block env codec ops ((alloc_new_block h).0) k len (alloc_new_block h).1))
  unfolding abandon_block alloc_new_block size_block
  abandon-Idle k len h w = record {
    config = w.config;
    good = w.good;
    current = refl;
    used = λ j. ground (arith, w.used j);
    never = ground (arith, w.never, w.used (h.next_block_id % max_blocks));
  }

  open-repairs :
      (i : ℕ) (h : RqHost S M)
      → Good h.decision
      → ((open_block env codec ops i h).blocks i).repairs_to_send ≤ most
  unfolding open_block
  open-repairs i h g =
      let blk : BlockMeta = record {
        block_id = (h.blocks i).block_id;
        k = (h.blocks i).k;
        repairs_planned = 0;
        repairs_sent = 0;
        data_sent_bytes = 0;
      } in
      ground (arith, laws.repairs blk h.decision g)

  -- A slot that was taken and opened.
  pub open-Working :
      (k len : ℕ) (h : RqHost S M)
      → Idle S M Good bs h
      → k ≡ bs
      → 0 < len
      → len ≤ max_pkt_len
      → Working S M Good bs (OpenOk bs most) ((alloc_new_block h).0) (
          open_block env codec ops
            ((alloc_new_block h).0)
            (size_block env codec ops ((alloc_new_block h).0) k len (alloc_new_block h).1))
  unfolding open_block alloc_new_block size_block
  open-Working k len h w e pos le = record {
    config = w.config;
    good = w.good;
    current = refl;
    block = record {
      room = ground (arith, e, bs_pos);
      size = ground (arith, e);
      len_pos = ground (arith, pos, le);
      len_le = ground (arith, le);
      bytes = ground arith;
      memory = ground arith;
      object = ground arith;
      repairs =
          open-repairs ((alloc_new_block h).0)
            (size_block env codec ops ((alloc_new_block h).0) k len (alloc_new_block h).1) w.good;
    };
    used = λ j. ground (arith, w.used j);
    never = ground (arith, w.never, w.used (h.next_block_id % max_blocks));
  }

  pub open-len :
      (k len : ℕ) (h : RqHost S M)
      → len ≤ max_pkt_len
      → ((open_block env codec ops
            ((alloc_new_block h).0)
            (size_block env codec ops ((alloc_new_block h).0) k len (alloc_new_block h).1)).blocks
          ((alloc_new_block h).0)).t
        ≡ len
  unfolding open_block alloc_new_block size_block
  open-len k len h le = ground (arith, le)

  -- What a packet finds when a block was asked for: none, or a fresh one for its length.
  unfoldable pub Started : ℕ → RqHost S M × Bool → Type 0
  Started len (h, ok) =
      ((ok ≡ false) × Idle S M Good bs h)
      ⊎ ((ok ≡ true)
          × ((i : ℕ) × Working S M Good bs (OpenOk bs most) i h × ((h.blocks i).t ≡ len)))

  pub start-Started :
      (len : ℕ) (h : RqHost S M)
      → Idle S M Good bs h
      → 0 < len
      → len ≤ max_pkt_len
      → Started len (start_block env codec ops len h)
  unfolding start_block Started
  start-Started len h w pos le =
      let k = guarded_block_size h.block_size (ops.decide_block_size h.decision) in
      let gone = abandon-Idle k len h w in
      elim (Bool-cases (codec.calloc_ok h.allocs)) [
        | inr e ↦ simp e (inl (refl, gone))
        | inl e ↦ simp e (elim (Bool-cases (codec.rq_init (k * (len % 2 ^ 16)) (len % 2 ^ 16))) [
          | inr q ↦ simp q (inl (refl, gone))
          | inl q ↦ simp q (
              inr (
                refl,
                (
                  (alloc_new_block h).0,
                  open-Working k len h w (sized-k h w) pos le,
                  open-len k len h le,
                ),
              ))
        ])
      ]
