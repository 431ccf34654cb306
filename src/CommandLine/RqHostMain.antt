-- ===== src/CommandLine/RqHostMain.antt =====
-- `main` of src/processing_host/openmc_rq.c from the command line to the end of the receive loop. The
-- sockets and the queue that it opens in between are not modelled.
use openmc.Common.{ℕ, ◌≡◌, refl, Option, some, List, arith}
use openmc.Env.{Env}
use openmc.Double.{Double}
use openmc.Decision.{Metrics, Engine, no_metrics, decision_ops, create_engine}
use openmc.Decision.Sources.{Key}
use openmc.Decision.Bounds.{IsTuned}
use openmc.RqHost.{RqHost, RqCodec}
use openmc.RqHost.Loop.{boot, Received, receive_loop}
use openmc.RqHost.Inv.{HostOk}
use openmc.RqHost.Policy.{receive_loop-HostOk}
use openmc.CommandLine.{Libc, IsLinux, Getopt, Outcome, accepted, ◌>>=◌}
use openmc.CommandLine.RqHostArgs.{RuntimeConfig, Opt, parse_arguments}
use openmc.CommandLine.RqHostSafe.{parse_arguments-Usable}

module _ {W : Type 0} ⦃d : Double W⦄ (libc : Libc) (getopt_long : List (List ℕ) → Getopt Opt)
    (env : Env) (codec : RqCodec) (scan : Key → List ℕ → Option W) where
  -- The engine and the globals that a configuration gives.
  abbrev pub started : RuntimeConfig → RqHost (Engine W) (Metrics W)
  started c = boot c.block_size (create_engine c.policy c.block_size c.repairs c.seed) no_metrics

  unfoldable pub main :
      List (List ℕ) → List Received → Outcome (Option (RqHost (Engine W) (Metrics W)))
  main args rs = parse_arguments libc getopt_long args >>= λ c.
      accepted (receive_loop env codec decision_ops scan c.metrics_source rs (started c))

  -- On Linux, with an accepted command line: whatever the program receives and the library calls
  -- answer, it handles every packet with at most one call of the handler to itself and ends in a state
  -- in which no block was overwritten and at most the current block is in use, with the configured
  -- number of source symbols and at most 32 repair symbols to send.
  pub main-HostOk :
      (args : List (List ℕ)) (rs : List Received) (c : RuntimeConfig)
      → IsLinux libc
      → parse_arguments libc getopt_long args ≡ accepted c
      → (h : RqHost (Engine W) (Metrics W)) × (main args rs ≡ accepted (some h))
        × HostOk (Engine W) (Metrics W) (IsTuned c.block_size c.repairs) c.block_size 32 h
  unfolding main
  main-HostOk args rs c l e =
      let ranges = (parse_arguments-Usable libc getopt_long args c l e).ranges in
      let done =
        receive_loop-HostOk env codec scan c.metrics_source c.block_size c.repairs ranges.block_pos
          (omega (arith, ranges.block_le)) ranges.repairs_le c.policy c.seed rs in
      (done.0, rw (e, done.1) refl, done.2)
