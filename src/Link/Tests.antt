-- ===== src/Link/Tests.antt =====
-- A block of two packets from the host's datagrams to the receiver's output.
use openmc.Common.{ℕ, ◌+◌, ◌*◌, inl, refl, true, some, List, [], ◌∷◌, get_or, tabulate, arith}
use openmc.Env.{Env}
use openmc.RqReceiver.{Codec, RqReceiver, blank, is_block_completed}
use openmc.RqReceiver.Symbol.{receive_loop}
use openmc.RqHost.Sent.{source_datagrams}
use openmc.Link.Passed.{Passed}
use openmc.Link.Find.{Free, Lossless}
use openmc.Link.Block.{delivered, receive_loop-delivers}
use openmc.Link.EndToEnd.{turned, nfq_handle_packet-receive_loop}
use openmc.Common.{take, none, ◌≡◌, Option}
use openmc.Double.{Micro, micro}
use openmc.Decision.{Metrics, Engine, policy_default, no_metrics, decision_ops, create_engine}
use openmc.Decision.Sources.{Key, source_disabled}
use openmc.Decision.Bounds.{IsTuned}
use openmc.RqHost.{RqCodec, RqHost}
use openmc.RqHost.Loop.{boot, nfq_handle_packet}
use openmc.RqHost.Inv.{EngineLaws, HostOk}
use openmc.RqHost.Policy.{decision-EngineLaws, boot-HostOk}
use openmc.RqHost.Sent.{datagrams}

abbrev steady : Env
steady = record { clock = λ n. 1000 * (n + 1); send_ok = λ n. true }

abbrev plain : Codec
plain = record { rq_init = λ f t. true; rq_decode = λ f t bytes esis. some (λ k. get_or bytes k 0) }

abbrev start : RqReceiver
start = record {
  blocks = λ slot. blank;
  completed_blocks = 7 ∷ [];
  gs_stats = record {
    pkts_received = 0;
    pkts_forwarded = 0;
    pkts_original = 0;
    bytes_forwarded = 0;
    bytes_original = 0;
    dec_calls = 0;
    dec_time_ns = 0;
    dec_attempts = 0;
    dec_attempt_time_ns = 0;
    experiment_start_ns = 0;
    experiment_end_ns = 0;
    total_useful_bytes = 0;
    total_gen_latency_ns = 0;
    completed_generations = 0;
  };
  counters = record {
    total_generations = 0;
    gens_no_loss = 0;
    gens_repaired = 0;
    gens_decode_fail = 0;
    total_data_fragments = 0;
    total_parity_fragments = 0;
    total_parity_consumed = 0;
  };
  block_size = 2;
  metrics_open = true;
  reads = 0;
  sends = 0;
  output = [];
  block_rows = [];
}

start-Free : Free 8 2 start
unfolding is_block_completed
start-Free = record { slot = inl refl; config = refl; not_done = refl }

lossless : Lossless steady plain 8 2 20
lossless = record {
  id_lt = omega arith;
  bs_le = omega arith;
  len_min = omega arith;
  len_le = omega arith;
  sends = λ n. refl;
  object = refl;
}

abbrev first : List ℕ
first = tabulate 20 (λ j. j)

abbrev second : List ℕ
second = tabulate 20 (λ j. 100 + j)

receive_loop-delivers_example :
    Passed start
      (receive_loop steady plain (source_datagrams 8 2 20 0 (first ∷ second ∷ [])) start)
      (delivered (first ∷ second ∷ []))
receive_loop-delivers_example =
    receive_loop-delivers steady plain 8 2 20 lossless first (second ∷ []) start start-Free refl
      (refl, (refl, refl))

abbrev host_codec : RqCodec
host_codec = record {
  calloc_ok = λ n. true;
  rq_init = λ f t. true;
  rq_encode = λ f t bytes. true;
  rq_symbol = λ f t bytes n. record { pid = n; sym = bytes };
  rq_pid2esi = λ pid. pid;
}

abbrev no_scan : Key → List ℕ → Option Micro
no_scan k line = none

abbrev laws : EngineLaws (Engine Micro) (Metrics Micro) decision_ops (IsTuned 2 1) 2 32
laws = decision-EngineLaws Micro 2 1 (omega arith) (omega arith) (omega arith)

abbrev host : RqHost (Engine Micro) (Metrics Micro)
host = boot 2 (create_engine policy_default 2 1 7) no_metrics

host-HostOk : HostOk (Engine Micro) (Metrics Micro) (IsTuned 2 1) 2 32 host
host-HostOk =
    boot-HostOk steady host_codec no_scan source_disabled 2 1 (omega arith) (omega arith)
      (omega arith) policy_default 7

host-idle : (host.current_block ≡ none) × (host.wire ≡ [])
unfolding boot
host-idle = (refl, refl)

host-Lossless : Lossless steady plain host.next_block_id 2 20
unfolding boot
host-Lossless = record {
  id_lt = omega arith;
  bs_le = omega arith;
  len_min = omega arith;
  len_le = omega arith;
  sends = λ n. refl;
  object = refl;
}

host-Free : Free host.next_block_id 2 start
unfolding boot is_block_completed
host-Free = record { slot = inl refl; config = refl; not_done = refl }

nfq_handle_packet-receive_loop_example :
    (h' : RqHost (Engine Micro) (Metrics Micro)) × (nfq_handle_packet steady host_codec decision_ops
        (some first ∷ some second ∷ [])
        host
      ≡ some h')
    × Passed start
        (receive_loop steady plain (take 2 (turned (datagrams h'.wire) [])) start)
        (delivered (first ∷ second ∷ []))
nfq_handle_packet-receive_loop_example =
    nfq_handle_packet-receive_loop steady host_codec decision_ops (IsTuned 2 1) 2 32 laws
      (omega arith) 20 (omega arith) (omega arith) first (second ∷ []) host steady plain start
      host-HostOk host-idle.0 host-idle.1 refl (refl, (refl, refl)) refl refl refl (λ n. refl)
      host-Lossless host-Free
