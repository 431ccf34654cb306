-- ===== src/RqHost/Tests.antt =====
-- Runs of the RaptorQ processing host at fixed inputs. The codec of the tests repeats the first bytes
-- of the block as its repair symbols.
use openmc.Common.{
  ℕ, ◌+◌, ◌*◌, ◌≡◌, refl, true, Option, some, none, List, [], ◌∷◌, ◌++◌, take, arith,
}
use openmc.Env.{Env}
use openmc.Double.{Micro, micro}
use openmc.Decision.{
  Metrics, Engine, policy_quality, policy_adaptive, iface_a, iface_b, no_metrics,
  update_link_metrics, decide_block_size, decision_ops, create_engine, choose_iface,
  quality_choose_iface, decide_repairs, quality_decide_repairs, quality_decide_block_size,
}
use openmc.Decision.Sources.{Key, source_synthetic, next_metrics, set_synthetic_metrics}
use openmc.Decision.Bounds.{IsTuned, create_engine-IsTuned}
use openmc.Wire.{encode_rq_hdr}
use openmc.RqHost.{
  RqCodec, RqHost, SentSymbol, guarded_block_size, alloc_new_block, close_block, needs_block,
  store_source, send_rq_symbol, count_encode, count_repair,
}
use openmc.RqHost.Packet.{
  size_block, open_block, start_block, ensure_block, send_source, send_repair, send_repairs,
  complete_block, accept_source, use_block, handle_ip_packet,
}
use openmc.RqHost.Loop.{
  boot, Received, receive_loop, nfq_handle_packet, nfq_cb, note_interception,
  gateway_update_metrics,
}
use openmc.RqHost.Inv.{EngineLaws, HostOk}
use openmc.RqHost.Sent.{source_datagrams, repair_datagrams}
use openmc.RqHost.Opened.{plan_of}
use openmc.RqHost.Block.{Delivered, nfq_handle_packet-Delivered}
use openmc.RqHost.Policy.{
  decide_block_size-guarded, decision-EngineLaws, boot-HostOk, receive_loop-HostOk,
}

abbrev steady : Env
steady = record { clock = λ n. 1000 * (n + 1); send_ok = λ n. true }

abbrev codec : RqCodec
codec = record {
  calloc_ok = λ n. true;
  rq_init = λ f t. true;
  rq_encode = λ f t bytes. true;
  rq_symbol = λ f t bytes n. record { pid = 100 + n; sym = take t bytes };
  rq_pid2esi = λ pid. pid;
}

abbrev no_scan : Key → List ℕ → Option Micro
no_scan k line = none

decide_block_size-guarded_example :
    guarded_block_size 8 (decide_block_size (create_engine {W = Micro} policy_adaptive 8 4 7)) ≡ 8
decide_block_size-guarded_example =
    decide_block_size-guarded Micro 8 4 (create_engine policy_adaptive 8 4 7)
      (create_engine-IsTuned Micro 8 4 policy_adaptive 7) (omega arith) (omega arith)

-- Two packets of a block of two, then one of another length; the second buffer has an empty packet.
abbrev buffers : List Received
buffers =
    record { file = none; packets = some (69 ∷ 1 ∷ []) ∷ none ∷ some (69 ∷ 2 ∷ []) ∷ [] }
    ∷ record { file = none; packets = some (69 ∷ []) ∷ some [] ∷ [] }
    ∷ []

receive_loop-HostOk_example :
    (h : RqHost (Engine Micro) (Metrics Micro)) × (receive_loop steady codec decision_ops no_scan
        source_synthetic buffers
        (boot 2 (create_engine policy_quality 2 1 7) no_metrics)
      ≡ some h)
    × HostOk (Engine Micro) (Metrics Micro) (IsTuned 2 1) 2 32 h
receive_loop-HostOk_example =
    receive_loop-HostOk steady codec no_scan source_synthetic 2 1 (omega arith) (omega arith)
      (omega arith) policy_quality 7 buffers

abbrev sent_bytes : Option (RqHost (Engine Micro) (Metrics Micro)) → List SentSymbol
sent_bytes none = []
sent_bytes (some h) = h.wire

-- The block of two leaves by A and B in turn with one repair symbol, and the third packet opens
-- block 2.
wire_run :
    sent_bytes (
      receive_loop steady codec decision_ops no_scan source_synthetic buffers
        (boot 2 (create_engine policy_quality 2 1 7) no_metrics))
    ≡ record { iface = iface_b; bytes = 0 ∷ 2 ∷ 0 ∷ 2 ∷ 0 ∷ 0 ∷ 0 ∷ 0 ∷ 0 ∷ 1 ∷ 1 ∷ 0 ∷ 69 ∷ [] }
      ∷ record {
        iface = iface_a;
        bytes = 0 ∷ 1 ∷ 0 ∷ 2 ∷ 0 ∷ 0 ∷ 0 ∷ 100 ∷ 0 ∷ 2 ∷ 0 ∷ 0 ∷ 69 ∷ 1 ∷ [];
      }
      ∷ record {
        iface = iface_b;
        bytes = 0 ∷ 1 ∷ 0 ∷ 2 ∷ 0 ∷ 0 ∷ 0 ∷ 1 ∷ 0 ∷ 2 ∷ 1 ∷ 0 ∷ 69 ∷ 2 ∷ [];
      }
      ∷ record {
        iface = iface_a;
        bytes = 0 ∷ 1 ∷ 0 ∷ 2 ∷ 0 ∷ 0 ∷ 0 ∷ 0 ∷ 0 ∷ 2 ∷ 1 ∷ 0 ∷ 69 ∷ 1 ∷ [];
      }
      ∷ []
unfolding receive_loop gateway_update_metrics nfq_handle_packet nfq_cb note_interception boot
    handle_ip_packet use_block accept_source complete_block send_repairs send_repair send_source
    ensure_block start_block open_block size_block alloc_new_block close_block needs_block
    store_source send_rq_symbol count_encode count_repair guarded_block_size next_metrics
    set_synthetic_metrics create_engine choose_iface quality_choose_iface decide_repairs
    quality_decide_repairs decide_block_size quality_decide_block_size update_link_metrics
    encode_rq_hdr
wire_run = refl

abbrev laws : EngineLaws (Engine Micro) (Metrics Micro) decision_ops (IsTuned 2 1) 2 32
laws = decision-EngineLaws Micro 2 1 (omega arith) (omega arith) (omega arith)

abbrev idle_host : RqHost (Engine Micro) (Metrics Micro)
idle_host = boot 2 (create_engine policy_quality 2 1 7) no_metrics

idle_host-HostOk : HostOk (Engine Micro) (Metrics Micro) (IsTuned 2 1) 2 32 idle_host
idle_host-HostOk =
    boot-HostOk steady codec no_scan source_synthetic 2 1 (omega arith) (omega arith) (omega arith)
      policy_quality 7

idle_host-idle : idle_host.current_block ≡ none
unfolding boot
idle_host-idle = refl

nfq_handle_packet-Delivered_example :
    Delivered steady idle_host
      (source_datagrams idle_host.next_block_id 2 2 0 ((69 ∷ 1 ∷ []) ∷ (69 ∷ 2 ∷ []) ∷ [])
        ++ repair_datagrams codec idle_host.next_block_id 2 2 idle_host.symbols
            (plan_of decision_ops idle_host.next_block_id 2 idle_host.decision)
            (69 ∷ 1 ∷ 69 ∷ 2 ∷ []))
      (plan_of decision_ops idle_host.next_block_id 2 idle_host.decision)
      (nfq_handle_packet steady codec decision_ops
        (some (69 ∷ 1 ∷ []) ∷ some (69 ∷ 2 ∷ []) ∷ [])
        idle_host)
nfq_handle_packet-Delivered_example =
    nfq_handle_packet-Delivered steady codec decision_ops (IsTuned 2 1) 2 32 laws (omega arith) 2
      (omega arith) (omega arith) (69 ∷ 1 ∷ []) ((69 ∷ 2 ∷ []) ∷ []) idle_host idle_host-HostOk
      idle_host-idle refl (refl, (refl, refl)) refl refl refl
