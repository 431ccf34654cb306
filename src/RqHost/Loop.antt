-- ===== src/RqHost/Loop.antt =====
-- The NFQUEUE callback, the receive loop and the start of `main` in openmc_rq.c.
use openmc.Common.{ℕ, suc, Option, none, some, List, [], ◌∷◌, ◌==◌, if◌then◌else◌, add64}
use openmc.Env.{Env}
use openmc.Double.{Double}
use openmc.Decision.{DecisionOps, Metrics}
use openmc.Decision.Sources.{MetricsSource, Key, next_metrics}
use openmc.RqHost.{RqHost, RqHostStats, RqCodec, no_block}
use openmc.RqHost.Packet.{handle_ip_packet}

-- A chain of calls that may run out of fuel.
infixl 5 ◌>>=◌
abbrev pub ◌>>=◌ : {A B : Type 0} → Option A → (A → Option B) → Option B
none >>= f = none
some a >>= f = f a

abbrev no_stats : RqHostStats
no_stats = record {
  pkts_intercepted = 0;
  pkts_forwarded = 0;
  pkts_original = 0;
  bytes_forwarded = 0;
  bytes_original = 0;
  blocks_completed = 0;
  enc_calls = 0;
  enc_time_ns = 0;
  repair_calls = 0;
  repair_time_ns = 0;
  nfq_pkts = 0;
  nfq_latency_ns = 0;
}

-- The globals when the receive loop starts, with the engine that was created.
unfoldable pub boot : {S M : Type 0} → ℕ → S → M → RqHost S M
boot block_size engine metrics = record {
  blocks = λ i. no_block;
  next_block_id = 1;
  current_block = none;
  decision = engine;
  current_metrics = metrics;
  block_size = block_size;
  stats = no_stats;
  t_start_ns = 0;
  t_end_ns = 0;
  pkt_counter = 0;
  overwritten = 0;
  reads = 0;
  sends = 0;
  allocs = 0;
  symbols = 0;
  wire = [];
}

-- What one buffer of the receive loop brings: the lines of the metrics file at that time, if it could
-- be opened, and the payload of each packet, `none` where `nfq_get_payload` fails.
pub record Received : Type 0 where
  pub file : Option (List (List ℕ))
  pub packets : List (Option (List ℕ))

-- A packet is handled with fuel for one call of itself.
abbrev pub fuel : ℕ
fuel = 2

module _ {S M : Type 0} (env : Env) (codec : RqCodec) (ops : DecisionOps S M) where
  open env use {clock}
  open ops use {update_link_metrics}

  unfoldable pub note_interception : RqHost S M → RqHost S M
  note_interception h = record h {
    reads = suc h.reads;
    t_start_ns = (if h.t_start_ns == 0 then clock h.reads else h.t_start_ns);
    t_end_ns = clock h.reads;
    stats = record h.stats { pkts_intercepted = add64 h.stats.pkts_intercepted 1 };
  }

  unfoldable pub nfq_cb : Option (List ℕ) → RqHost S M → Option (RqHost S M)
  nfq_cb none h = some (note_interception h)
  nfq_cb (some pkt) h =
      handle_ip_packet env codec ops fuel pkt (clock h.reads) (note_interception h)

  -- `nfq_handle_packet`: the callback for each packet of one received buffer.
  unfoldable pub nfq_handle_packet : List (Option (List ℕ)) → RqHost S M → Option (RqHost S M)
  nfq_handle_packet [] h = some h
  nfq_handle_packet (p ∷ ps) h = nfq_cb p h >>= λ h'. nfq_handle_packet ps h'

  -- `gateway_update_metrics`, after `g_current_metrics` was set to `m`.
  unfoldable pub gateway_update_metrics : M → RqHost S M → RqHost S M
  gateway_update_metrics m h = record h {
    pkt_counter = add64 h.pkt_counter 1;
    current_metrics = m;
    decision = update_link_metrics m h.decision;
  }

module _ {S W : Type 0} ⦃d : Double W⦄ (env : Env) (codec : RqCodec)
    (ops : DecisionOps S (Metrics W)) (scan : Key → List ℕ → Option W)
    (source : MetricsSource) where
  -- The receive loop over the buffers that `recv` delivers until it is stopped.
  unfoldable pub receive_loop : List Received → RqHost S (Metrics W) → Option (RqHost S (Metrics W))
  receive_loop [] h = some h
  receive_loop (r ∷ rest) h =
      let m = next_metrics scan source (add64 h.pkt_counter 1) r.file h.current_metrics in
      nfq_handle_packet env codec ops r.packets (gateway_update_metrics env codec ops m h) >>= λ h'.
      receive_loop rest h'
