-- ===== src/CommandLine/Tests.antt =====
-- Runs of the option parsers at fixed command lines, with a small `strtoul` and a small `getopt_long`.
use openmc.Common.{
  ℕ, ◌+◌, ◌-◌, ◌*◌, ◌≡◌, refl, Bool, true, false, ◌&&◌, Option, none, some, List, [], ◌∷◌, leb,
  if◌then◌else◌,
}
use openmc.Env.{Env}
use openmc.Double.{Micro, micro}
use openmc.Decision.{Metrics, Engine, policy_adaptive}
use openmc.Decision.Sources.{Key}
use openmc.Decision.Bounds.{IsTuned}
use openmc.RqHost.{RqHost, RqCodec}
use openmc.RqHost.Loop.{Received}
use openmc.RqHost.Inv.{HostOk}
use openmc.CommandLine.{
  codes, same_text, Libc, IsLinux, Getopt, accepted, rejected, parse_u16, copy_option,
}
use openmc.CommandLine.RqHostArgs
use openmc.CommandLine.RsHostArgs
use openmc.CommandLine.RsReceiverArgs
use openmc.CommandLine.RqReceiverArgs
use openmc.CommandLine.RqHostSafe
use openmc.CommandLine.RsHostSafe
use openmc.CommandLine.RsReceiverSafe
use openmc.CommandLine.RqReceiverSafe
use openmc.CommandLine.RqHostMain.{main, main-HostOk}

abbrev digits : ℕ → List ℕ → ℕ
digits n [] = n
digits n (c ∷ s) = digits (n * 10 + (c - 48)) s

abbrev all_digits : List ℕ → Bool
all_digits [] = true
all_digits (c ∷ s) = (leb 48 c && leb c 57) && all_digits s

abbrev linux : Libc
linux = record {
  ifnamsiz = 16;
  inet_addrstrlen = 16;
  path_max = 4096;
  strtoul = λ base s. record { value = digits 0 s; range_error = false; all_read = all_digits s };
  inet_pton = λ s. true;
  if_nametoindex = λ s. 2;
}

linux-IsLinux : IsLinux linux
linux-IsLinux = record { ifnamsiz_is = refl; inet_addrstrlen_is = refl; path_max_is = refl }

-- Options in pairs of a name and a value.
abbrev pairs : {O : Type 0} → (List ℕ → O) → List (List ℕ) → List (O × List ℕ)
pairs name (o ∷ a ∷ rest) = (name o, a) ∷ pairs name rest
pairs name _ = []

abbrev rq_name : List ℕ → RqHostArgs.Opt
rq_name o =
    if same_text o (codes "--policy")
    then RqHostArgs.opt_policy
    else if same_text o (codes "--block-size")
    then RqHostArgs.opt_block_size
    else RqHostArgs.opt_unknown

abbrev rq_getopt : List (List ℕ) → Getopt RqHostArgs.Opt
rq_getopt args = record { options = pairs rq_name args; left = false }

abbrev rq_args : List (List ℕ)
rq_args =
    codes "3"
    ∷ codes "quality"
    ∷ codes "--policy"
    ∷ codes "adaptive"
    ∷ codes "--block-size"
    ∷ codes "6"
    ∷ []

abbrev rq_config : RqHostArgs.RuntimeConfig
rq_config = record RqHostArgs.default_cfg { repairs = 3; policy = policy_adaptive; block_size = 6 }

rq_accepted : RqHostArgs.parse_arguments linux rq_getopt rq_args ≡ accepted rq_config
unfolding RqHostArgs.parse_arguments RqHostArgs.parse_legacy RqHostArgs.parse_options
    RqHostArgs.parse_option RqHostArgs.check_config RqHostArgs.parse_policy_value
    RqHostArgs.default_cfg parse_u16
rq_accepted = refl

parse_arguments-Usable_example : RqHostSafe.Usable linux rq_config
parse_arguments-Usable_example =
    RqHostSafe.parse_arguments-Usable linux rq_getopt rq_args rq_config linux-IsLinux rq_accepted

-- A block size of nine is refused.
rq_rejected :
    RqHostArgs.parse_arguments linux rq_getopt (codes "--block-size" ∷ codes "9" ∷ []) ≡ rejected
unfolding RqHostArgs.parse_arguments RqHostArgs.parse_legacy RqHostArgs.parse_options
    RqHostArgs.parse_option RqHostArgs.check_config RqHostArgs.default_cfg parse_u16
rq_rejected = refl

abbrev steady : Env
steady = record { clock = λ n. 1000 * (n + 1); send_ok = λ n. true }

abbrev codec : RqCodec
codec = record {
  calloc_ok = λ n. true;
  rq_init = λ f t. true;
  rq_encode = λ f t bytes. true;
  rq_symbol = λ f t bytes n. record { pid = n; sym = bytes };
  rq_pid2esi = λ pid. pid;
}

abbrev no_scan : Key → List ℕ → Option Micro
no_scan k line = none

abbrev buffers : List Received
buffers = record { file = none; packets = some (69 ∷ 1 ∷ []) ∷ some (69 ∷ []) ∷ [] } ∷ []

main-HostOk_example :
    (h : RqHost (Engine Micro) (Metrics Micro)) × (main linux rq_getopt steady codec no_scan rq_args
        buffers
      ≡ accepted (some h))
    × HostOk
        (Engine Micro)
        (Metrics Micro)
        (IsTuned rq_config.block_size rq_config.repairs)
        rq_config.block_size
        32
        h
main-HostOk_example =
    main-HostOk linux rq_getopt steady codec no_scan rq_args buffers rq_config linux-IsLinux
      rq_accepted

abbrev rs_name : List ℕ → RsHostArgs.Opt
rs_name o =
    if same_text o (codes "--policy")
    then RsHostArgs.opt_policy
    else if same_text o (codes "--peer-port")
    then RsHostArgs.opt_peer_port
    else RsHostArgs.opt_unknown

abbrev rs_getopt : List (List ℕ) → Getopt RsHostArgs.Opt
rs_getopt args = record { options = pairs rs_name args; left = false }

abbrev rs_args : List (List ℕ)
rs_args = codes "4" ∷ codes "--policy" ∷ codes "default" ∷ codes "--peer-port" ∷ codes "6000" ∷ []

abbrev rs_config : RsHostArgs.OpenmcRsConfig
rs_config = record RsHostArgs.runtime_cfg { repairs = 4; peer_port = 6000 }

rs_accepted : RsHostArgs.parse_runtime_options linux rs_getopt rs_args ≡ accepted rs_config
unfolding RsHostArgs.parse_runtime_options RsHostArgs.parse_legacy RsHostArgs.parse_options
    RsHostArgs.parse_option RsHostArgs.check_config RsHostArgs.runtime_cfg parse_u16
rs_accepted = refl

parse_runtime_options-Usable_example : RsHostSafe.Usable linux rs_config
parse_runtime_options-Usable_example =
    RsHostSafe.parse_runtime_options-Usable linux rs_getopt rs_args rs_config linux-IsLinux
      rs_accepted

abbrev gs_name : List ℕ → RsReceiverArgs.Opt
gs_name o =
    if same_text o (codes "--run-id")
    then RsReceiverArgs.opt_run_id
    else if same_text o (codes "--summary-output")
    then RsReceiverArgs.opt_summary_output
    else RsReceiverArgs.opt_unknown

abbrev gs_getopt : List (List ℕ) → Getopt RsReceiverArgs.Opt
gs_getopt args = record { options = pairs gs_name args; left = false }

abbrev gs_args : List (List ℕ)
gs_args = codes "--run-id" ∷ codes "r1" ∷ codes "--summary-output" ∷ codes "out.csv" ∷ []

abbrev gs_config : RsReceiverArgs.RsReceiverConfig
gs_config = record RsReceiverArgs.runtime_cfg {
  run_id = codes "r1";
  summary_output = codes "out.csv";
}

gs_accepted : RsReceiverArgs.parse_runtime_options linux gs_getopt gs_args ≡ accepted gs_config
unfolding RsReceiverArgs.parse_runtime_options RsReceiverArgs.parse_legacy
    RsReceiverArgs.parse_options RsReceiverArgs.parse_option RsReceiverArgs.check_config
    RsReceiverArgs.runtime_cfg copy_option
gs_accepted = refl

parse_runtime_options-Listens_example : RsReceiverSafe.Listens linux gs_config
parse_runtime_options-Listens_example =
    RsReceiverSafe.parse_runtime_options-Listens linux gs_getopt gs_args gs_config linux-IsLinux
      gs_accepted

abbrev gq_name : List ℕ → RqReceiverArgs.Opt
gq_name o =
    if same_text o (codes "--block-size")
    then RqReceiverArgs.opt_block_size
    else RqReceiverArgs.opt_unknown

abbrev gq_getopt : List (List ℕ) → Getopt RqReceiverArgs.Opt
gq_getopt args = record { options = pairs gq_name args; left = false }

abbrev gq_args : List (List ℕ)
gq_args = codes "--block-size" ∷ codes "5" ∷ []

abbrev gq_config : RqReceiverArgs.ReceiverConfig
gq_config = record RqReceiverArgs.default_cfg { block_size = 5 }

gq_accepted : RqReceiverArgs.parse_arguments linux gq_getopt gq_args ≡ accepted gq_config
unfolding RqReceiverArgs.parse_arguments RqReceiverArgs.parse_options RqReceiverArgs.parse_option
    RqReceiverArgs.check_config RqReceiverArgs.default_cfg parse_u16
gq_accepted = refl

parse_arguments-Listens_example : RqReceiverSafe.Listens linux gq_config
parse_arguments-Listens_example =
    RqReceiverSafe.parse_arguments-Listens linux gq_getopt gq_args gq_config linux-IsLinux
      gq_accepted
