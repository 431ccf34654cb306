-- ===== src/RqHost/Working.antt =====
-- A block of the RaptorQ processing host that is being filled: storing, sending and completion.
use openmc.Common.{
  ℕ, ◌*◌, ◌≤◌, ◌<◌, ◌≡◌, refl, subst, sym, ap, ◌∙◌, inl, inr, true, some, Bool-cases, List, ◌==◌,
  tabulate, arith,
}
use openmc.Env.{Env}
use openmc.Decision.{DecisionOps}
use openmc.RqHost.{
  RqHost, RqHostStats, RqBlockEnc, RqCodec, max_pkt_len, close_block, store_source, count_encode,
}
use openmc.RqHost.Packet.{complete_block, accept_source}
use openmc.RqHost.Inv.{
  EngineLaws, OpenOk, CurrentOk, HostOk, Frame, send_source-Frame, send_repairs-Frame,
}

-- The block after its next packet was copied.
pub record StoredOk (bs most : ℕ) (b : RqBlockEnc) : Type 0 where
  pub room : b.num_source ≤ b.k
  pub size : b.k ≡ bs
  pub len_pos : 0 < b.t
  pub len_le : b.t ≤ max_pkt_len
  pub bytes : b.f ≡ b.k * b.t
  pub memory : b.has_data ≡ true
  pub object : b.has_rq ≡ true
  pub repairs : b.repairs_to_send ≤ most

-- The state with block `i` current, and what is known of that block.
pub record Working (S M : Type 0) (Good : S → Type 0) (bs : ℕ) (P : RqBlockEnc → Type 0) (i : ℕ)
    (h : RqHost S M) : Type 0 where
  pub config : h.block_size ≡ bs
  pub good : Good h.decision
  pub current : h.current_block ≡ some i
  pub block : P (h.blocks i)
  pub used : (j : ℕ) → (h.blocks j).in_use ≡ (i == j)
  pub never : h.overwritten ≡ 0

module _ {S M : Type 0} (env : Env) (codec : RqCodec) (ops : DecisionOps S M) (Good : S → Type 0)
    (bs most : ℕ) (laws : EngineLaws S M ops Good bs most) (bs_pos : 0 < bs) where
  pub Working-Frame :
      (P : RqBlockEnc → Type 0) (i : ℕ) (h h' : RqHost S M)
      → Working S M Good bs P i h
      → Frame S M Good h h'
      → Working S M Good bs P i h'
  Working-Frame P i h h' w f = record {
    config = f.config ∙ w.config;
    good = f.good;
    current = f.current ∙ w.current;
    block = subst (λ bl. P (bl i)) (sym f.blocks) w.block;
    used = λ j. ap (λ bl. (bl j).in_use) f.blocks ∙ w.used j;
    never = f.never ∙ w.never;
  }

  close-HostOk :
      (P : RqBlockEnc → Type 0) (i : ℕ) (h : RqHost S M)
      → Working S M Good bs P i h
      → HostOk S M Good bs most (close_block i h)
  unfolding close_block
  close-HostOk P i h w = record {
    config = w.config;
    good = w.good;
    current = λ j. ground (arith, w.used j);
    never = w.never;
  }

  pub Working-HostOk :
      (i : ℕ) (h : RqHost S M)
      → Working S M Good bs (OpenOk bs most) i h
      → HostOk S M Good bs most h
  Working-HostOk i h w = record {
    config = w.config;
    good = w.good;
    current = subst (λ c. CurrentOk bs most c h.blocks) (sym w.current) (w.block, w.used);
    never = w.never;
  }

  pub encoded-Frame : (h : RqHost S M) → Good h.decision → Frame S M Good h (count_encode env h)
  unfolding count_encode
  encoded-Frame h g = record {
    config = refl;
    blocks = refl;
    current = refl;
    never = refl;
    good = g;
  }

  counted :
      (h : RqHost S M) (s : RqHostStats) {P : RqBlockEnc → Type 0} {i : ℕ}
      → Working S M Good bs P i h
      → Working S M Good bs P i (record h { stats = s })
  counted h s w = record {
    config = w.config;
    good = w.good;
    current = w.current;
    block = w.block;
    used = w.used;
    never = w.never;
  }

  complete-HostOk :
      (i : ℕ) (h : RqHost S M)
      → Working S M Good bs (StoredOk bs most) i h
      → HostOk S M Good bs most (complete_block env codec ops i h)
  unfolding complete_block
  complete-HostOk i h w =
      let b = h.blocks i in
      let h' = count_encode env h in
      let f = encoded-Frame h w.good in
      let r = send_repairs-Frame env codec ops Good bs most laws i b.repairs_to_send h' f.good in
      elim (Bool-cases (b.num_source == b.k)) [
        | inl full ↦
            simp full (elim (Bool-cases (codec.rq_encode b.f b.t (tabulate b.f b.data_buf))) [
              | inl e ↦ simp e (
                  close-HostOk (StoredOk bs most) i _
                    (counted _ _ (Working-Frame _ i h' _ (Working-Frame _ i h h' w f) r)))
              | inr e ↦
                  simp e
                    (close-HostOk (StoredOk bs most) i _ (counted _ _ (Working-Frame _ i h h' w f)))
            ])
        | inr more ↦ simp more (
            Working-HostOk i h (record {
              config = w.config;
              good = w.good;
              current = w.current;
              block = ground (arith, w.block, more);
              used = w.used;
              never = w.never;
            }))
      ]

  pub store-Working :
      (i : ℕ) (pkt : List ℕ) (h : RqHost S M)
      → Working S M Good bs (OpenOk bs most) i h
      → Working S M Good bs (StoredOk bs most) i (store_source i pkt h)
  unfolding store_source
  store-Working i pkt h w = record {
    config = w.config;
    good = w.good;
    current = w.current;
    block = ground (arith, w.block);
    used = λ j. ground (arith, w.used j, w.used i);
    never = w.never;
  }

  pub accept-HostOk :
      (i : ℕ) (pkt : List ℕ) (t_nfq : ℕ) (h : RqHost S M)
      → Working S M Good bs (OpenOk bs most) i h
      → HostOk S M Good bs most (accept_source env codec ops i pkt t_nfq h)
  unfolding accept_source
  accept-HostOk i pkt t_nfq h w =
      let s = store-Working i pkt h w in
      let f =
        send_source-Frame env codec ops Good bs most laws i (h.blocks i).num_source pkt t_nfq
          (store_source i pkt h) s.good in
      complete-HostOk i _ (Working-Frame (StoredOk bs most) i _ _ s f)
