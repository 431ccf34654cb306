-- ===== src/RqHost/Policy.antt =====
-- The decision engine of openmc_rq.c meets the laws that the packet handler takes, and the receive loop
-- with it.
use openmc.Common.{ℕ, ◌^◌, ◌≤◌, ◌<◌, ◌≡◌, refl, Option, none, some, List, [], ◌∷◌, add64, arith}
use openmc.Env.{Env}
use openmc.Double.{Double}
use openmc.Decision.{
  DecisionOps, Metrics, Policy, Engine, no_metrics, decide_block_size, decision_ops, create_engine,
}
use openmc.Decision.Sources.{MetricsSource, Key, next_metrics}
use openmc.Decision.Bounds.{
  IsTuned, create_engine-IsTuned, choose_iface-IsTuned, update_link_metrics-IsTuned,
  decide_repairs-le, decide_block_size-cases,
}
use openmc.RqHost.{RqHost, RqCodec, guarded_block_size}
use openmc.RqHost.Inv.{EngineLaws, HostOk}
use openmc.RqHost.Preserve.{Done, handle_ip_packet-Done}
use openmc.RqHost.Loop.{
  ◌>>=◌, boot, Received, note_interception, nfq_cb, nfq_handle_packet, gateway_update_metrics,
  receive_loop,
}

-- For a configured block size of at least one and below 2^15, and an engine that was made for it,
-- whatever the policy, the metrics and the choices so far: the block size that the engine decides is,
-- behind the guard, the configured one; the sizes that the quality and the adaptive policy double are
-- refused by the guard.
pub decide_block_size-guarded :
    (W : Type 0) ⦃d : Double W⦄ (bs repairs : ℕ) (e : Engine W)
    → IsTuned bs repairs e
    → 0 < bs
    → bs < 2 ^ 15
    → guarded_block_size bs (decide_block_size e) ≡ bs
unfolding guarded_block_size
decide_block_size-guarded W bs repairs e t pos lt =
    ground (arith, decide_block_size-cases bs repairs e t lt, pos)

pub decision-EngineLaws :
    (W : Type 0) ⦃d : Double W⦄ (bs repairs : ℕ)
    → 0 < bs
    → bs < 2 ^ 15
    → repairs ≤ 32
    → EngineLaws (Engine W) (Metrics W) decision_ops (IsTuned bs repairs) bs 32
decision-EngineLaws W bs repairs pos lt le = record {
  chosen = λ frag e t. choose_iface-IsTuned bs repairs frag e t;
  updated = λ m e t. update_link_metrics-IsTuned bs repairs m e t;
  size = λ e t. decide_block_size-guarded W bs repairs e t pos lt;
  repairs = λ blk e t. decide_repairs-le bs repairs blk e t le;
}

module _ {S M : Type 0} (env : Env) (codec : RqCodec) (ops : DecisionOps S M) (Good : S → Type 0)
    (bs most : ℕ) (laws : EngineLaws S M ops Good bs most) (bs_pos : 0 < bs) where
  bind-Done :
      (o : Option (RqHost S M)) (f : RqHost S M → Option (RqHost S M))
      → Done env codec ops Good bs most laws bs_pos o
      → ((h : RqHost S M)
          → HostOk S M Good bs most h
          → Done env codec ops Good bs most laws bs_pos (f h))
      → Done env codec ops Good bs most laws bs_pos (o >>= f)
  bind-Done o f (h, e, v) k = rw e (k h v)

  note-HostOk :
      (h : RqHost S M)
      → HostOk S M Good bs most h
      → HostOk S M Good bs most (note_interception env codec ops h)
  unfolding note_interception
  note-HostOk h v = record {
    config = v.config;
    good = v.good;
    current = v.current;
    never = v.never;
  }

  cb-Done :
      (p : Option (List ℕ)) (h : RqHost S M)
      → HostOk S M Good bs most h
      → Done env codec ops Good bs most laws bs_pos (nfq_cb env codec ops p h)
  unfolding nfq_cb
  cb-Done none h v = (note_interception env codec ops h, refl, note-HostOk h v)
  cb-Done (some pkt) h v =
      handle_ip_packet-Done env codec ops Good bs most laws bs_pos pkt (env.clock h.reads) _
        (note-HostOk h v)

  pub batch-Done :
      (ps : List (Option (List ℕ))) (h : RqHost S M)
      → HostOk S M Good bs most h
      → Done env codec ops Good bs most laws bs_pos (nfq_handle_packet env codec ops ps h)
  unfolding nfq_handle_packet
  batch-Done [] h v = (h, refl, v)
  batch-Done (p ∷ ps) h v =
      bind-Done (nfq_cb env codec ops p h) (λ h'. nfq_handle_packet env codec ops ps h')
        (cb-Done p h v) (λ h' v'. batch-Done ps h' v')

  update-HostOk :
      (m : M) (h : RqHost S M)
      → HostOk S M Good bs most h
      → HostOk S M Good bs most (gateway_update_metrics env codec ops m h)
  unfolding gateway_update_metrics
  update-HostOk m h v = record {
    config = v.config;
    good = laws.updated m h.decision v.good;
    current = v.current;
    never = v.never;
  }

module _ {W : Type 0} ⦃d : Double W⦄ (env : Env) (codec : RqCodec) (scan : Key → List ℕ → Option W)
    (source : MetricsSource) (bs repairs : ℕ) (bs_pos : 0 < bs) (bs_lt : bs < 2 ^ 15)
    (repairs_le : repairs ≤ 32) where
  loop-Done :
      (rs : List Received) (h : RqHost (Engine W) (Metrics W))
      → HostOk (Engine W) (Metrics W) (IsTuned bs repairs) bs 32 h
      → (h' : RqHost (Engine W) (Metrics W)) × (receive_loop env codec decision_ops scan source rs h
          ≡ some h')
        × HostOk (Engine W) (Metrics W) (IsTuned bs repairs) bs 32 h'
  unfolding receive_loop
  loop-Done [] h v = (h, refl, v)
  loop-Done (r ∷ rest) h v =
      let laws = decision-EngineLaws W bs repairs bs_pos bs_lt repairs_le in
      let m = next_metrics scan source (add64 h.pkt_counter 1) r.file h.current_metrics in
      bind-Done env codec decision_ops (IsTuned bs repairs) bs 32 laws bs_pos _
        (λ h'. receive_loop env codec decision_ops scan source rest h')
        (batch-Done env codec decision_ops (IsTuned bs repairs) bs 32 laws bs_pos r.packets _
          (update-HostOk env codec decision_ops (IsTuned bs repairs) bs 32 laws bs_pos m h v))
        (λ h' v'. loop-Done rest h' v')

  pub boot-HostOk :
      (p : Policy) (seed : ℕ)
      → HostOk
          (Engine W)
          (Metrics W)
          (IsTuned bs repairs)
          bs
          32
          (boot bs (create_engine p bs repairs seed) no_metrics)
  unfolding boot
  boot-HostOk p seed = record {
    config = refl;
    good = create_engine-IsTuned W bs repairs p seed;
    current = λ j. refl;
    never = refl;
  }

  -- From the start of the program, for every policy, seed, source of metrics and configuration with a
  -- block size of at least one and below 2^15 and at most 32 repair symbols, and whatever packets
  -- arrive, memory is refused or sends fail: every packet is handled with at most one call of the
  -- handler to itself, no block in use is ever overwritten, and at each wait for a buffer at most the
  -- current block is in use; it has the configured K, room for a packet, its memory and at most 32
  -- repair symbols to send.
  pub receive_loop-HostOk :
      (p : Policy) (seed : ℕ) (rs : List Received)
      → (h : RqHost (Engine W) (Metrics W)) × (receive_loop env codec decision_ops scan source rs
            (boot bs (create_engine p bs repairs seed) no_metrics)
          ≡ some h)
        × HostOk (Engine W) (Metrics W) (IsTuned bs repairs) bs 32 h
  receive_loop-HostOk p seed rs = loop-Done rs _ (boot-HostOk p seed)
