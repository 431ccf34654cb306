-- ===== src/RqHost/Inv.antt =====
-- What holds of the RaptorQ processing host between two packets, and the laws of a decision engine that
-- it takes.
use openmc.Common.{
  ℕ, zero, suc, ◌*◌, ◌≤◌, ◌<◌, ◌≡◌, refl, subst, sym, ◌∙◌, true, false, Option, none, some, List,
  ◌==◌, arith,
}
use openmc.Env.{Env}
use openmc.Decision.{FragmentMeta, BlockMeta, Iface, DecisionOps}
use openmc.RqHost.{
  RqHost, RqBlockEnc, RqCodec, max_pkt_len, guarded_block_size, send_rq_symbol, count_repair,
}
use openmc.RqHost.Packet.{send_source, send_repair, send_repairs}

-- An engine in a state that is `Good` stays in one, lets the guard give the block size `bs`, and
-- decides at most `most` repair symbols.
pub record EngineLaws (S M : Type 0) (ops : DecisionOps S M) (Good : S → Type 0) (bs most : ℕ)
    : Type 0 where
  pub chosen : (frag : FragmentMeta) (s : S) → Good s → Good (ops.choose_iface frag s).0
  pub updated : (m : M) (s : S) → Good s → Good (ops.update_link_metrics m s)
  pub size : (s : S) → Good s → guarded_block_size bs (ops.decide_block_size s) ≡ bs
  pub repairs : (blk : BlockMeta) (s : S) → Good s → ops.decide_repairs blk s ≤ most

-- The current block has room for a packet.
pub record OpenOk (bs most : ℕ) (b : RqBlockEnc) : Type 0 where
  pub room : b.num_source < b.k
  pub size : b.k ≡ bs
  pub len_pos : 0 < b.t
  pub len_le : b.t ≤ max_pkt_len
  pub bytes : b.f ≡ b.k * b.t
  pub memory : b.has_data ≡ true
  pub object : b.has_rq ≡ true
  pub repairs : b.repairs_to_send ≤ most

-- The current block is the only one in use.
abbrev pub CurrentOk : ℕ → ℕ → Option ℕ → (ℕ → RqBlockEnc) → Type 0
CurrentOk bs most none blocks = (j : ℕ) → (blocks j).in_use ≡ false
CurrentOk bs most (some i) blocks =
    OpenOk bs most (blocks i) × ((j : ℕ) → (blocks j).in_use ≡ (i == j))

pub record HostOk (S M : Type 0) (Good : S → Type 0) (bs most : ℕ) (h : RqHost S M) : Type 0 where
  pub config : h.block_size ≡ bs
  pub good : Good h.decision
  pub current : CurrentOk bs most h.current_block h.blocks
  pub never : h.overwritten ≡ 0

-- What sending leaves alone.
pub record Frame (S M : Type 0) (Good : S → Type 0) (h h' : RqHost S M) : Type 0 where
  pub config : h'.block_size ≡ h.block_size
  pub blocks : h'.blocks ≡ h.blocks
  pub current : h'.current_block ≡ h.current_block
  pub never : h'.overwritten ≡ h.overwritten
  pub good : Good h'.decision

module _ {S M : Type 0} where
  pub send-same :
      (env : Env) (block_id k esi t is_source : ℕ) (symbol : List ℕ) (iface : Iface)
      (h : RqHost S M)
      → let h' = send_rq_symbol env block_id k esi t is_source symbol iface h in
        (h'.block_size ≡ h.block_size)
        × (h'.blocks ≡ h.blocks)
        × (h'.current_block ≡ h.current_block)
        × (h'.overwritten ≡ h.overwritten)
        × (h'.decision ≡ h.decision)
  unfolding send_rq_symbol
  send-same env block_id k esi t is_source symbol iface h = ground arith

module _ {S M : Type 0} (env : Env) (codec : RqCodec) (ops : DecisionOps S M) (Good : S → Type 0)
    (bs most : ℕ) (laws : EngineLaws S M ops Good bs most) where
  -- A send after the engine went on to the state `s`.
  sent-Frame :
      (block_id k esi t is_source : ℕ) (symbol : List ℕ) (iface : Iface) (h : RqHost S M)
      → Good h.decision
      → Frame S M Good h (send_rq_symbol env block_id k esi t is_source symbol iface h)
  sent-Frame block_id k esi t is_source symbol iface h g =
      let e = send-same env block_id k esi t is_source symbol iface h in
      record {
        config = e.0;
        blocks = e.1;
        current = e.2;
        never = e.3;
        good = subst Good (sym e.4) g;
      }

  pub send_source-Frame :
      (i index : ℕ) (pkt : List ℕ) (t_nfq : ℕ) (h : RqHost S M)
      → Good h.decision
      → Frame S M Good h (send_source env codec ops i index pkt t_nfq h)
  unfolding send_source
  send_source-Frame i index pkt t_nfq h g =
      let b = h.blocks i in
      let frag : FragmentMeta = record {
        block_id = b.block_id;
        sym_index = index;
        is_source = true;
      } in
      let choice = ops.choose_iface frag h.decision in
      let f =
        sent-Frame b.block_id b.k index b.t 1 pkt choice.1
          (record h { decision = choice.0; reads = suc h.reads }) (laws.chosen frag h.decision g) in
      record {
        config = f.config;
        blocks = f.blocks;
        current = f.current;
        never = f.never;
        good = f.good;
      }

  pub send_repair-Frame :
      (i : ℕ) (h : RqHost S M) → Good h.decision → Frame S M Good h (send_repair env codec ops i h)
  unfolding send_repair count_repair
  send_repair-Frame i h g =
      let f = sent-Frame _ _ _ _ 0 _ _ _ (laws.chosen _ h.decision g) in
      record {
        config = f.config;
        blocks = f.blocks;
        current = f.current;
        never = f.never;
        good = f.good;
      }

  pub send_repairs-Frame :
      (i n : ℕ) (h : RqHost S M)
      → Good h.decision
      → Frame S M Good h (send_repairs env codec ops i n h)
  unfolding send_repairs
  send_repairs-Frame i zero h g = record {
    config = refl;
    blocks = refl;
    current = refl;
    never = refl;
    good = g;
  }
  send_repairs-Frame i (suc n) h g =
      let f = send_repair-Frame i h g in
      let r = send_repairs-Frame i n (send_repair env codec ops i h) f.good in
      record {
        config = r.config ∙ f.config;
        blocks = r.blocks ∙ f.blocks;
        current = r.current ∙ f.current;
        never = r.never ∙ f.never;
        good = r.good;
      }
