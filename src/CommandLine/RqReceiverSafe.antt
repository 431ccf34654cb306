-- ===== src/CommandLine/RqReceiverSafe.antt =====
-- What an accepted command line of src/edge_receiver/edge_receiver_rq.c gives.
use openmc.Common.{ℕ, ◌≤◌, ◌<◌, ◌≡◌, ◌≢◌, ◌⊎◌, Bool, true, false, List, [], ◌∷◌, length, arith}
use openmc.CommandLine.{
  is_empty, Libc, IsLinux, Getopt, accepted, Holds, bind-Holds, accepted-Holds, text-Holds,
  number-Holds,
}
use openmc.CommandLine.RqReceiverArgs.{
  ReceiverConfig, Opt, opt_listen_iface_a, opt_listen_iface_b, opt_output_iface, opt_listen_port,
  opt_block_size, opt_run_id, opt_summary_output, opt_block_metrics_output, opt_help, opt_version,
  opt_unknown, default_cfg, parse_option, parse_options, check_config, parse_arguments,
}

-- The ranges of the values, and that each text fits its array.
pub record InRange (libc : Libc) (c : ReceiverConfig) : Type 0 where
  pub block_pos : 1 ≤ c.block_size
  pub block_le : c.block_size ≤ 8
  pub port_pos : 1 ≤ c.listen_port
  pub port_le : c.listen_port ≤ 65535
  pub in_iface_a_fits : length c.in_iface_a < libc.ifnamsiz
  pub in_iface_b_fits : length c.in_iface_b < libc.ifnamsiz
  pub out_iface_fits : length c.out_iface < libc.ifnamsiz
  pub run_id_fits : length c.run_id < 128
  pub summary_fits : length c.summary_output < libc.path_max
  pub block_metrics_fits : length c.block_metrics_output < libc.path_max

-- And what the checks after the options make sure of.
pub record Listens (libc : Libc) (c : ReceiverConfig) : Type 0 where
  pub ranges : InRange libc c
  pub named :
      ((is_empty c.summary_output ≡ true) × (is_empty c.block_metrics_output ≡ true))
      ⊎ (is_empty c.run_id ≡ false)
  pub interface_a : libc.if_nametoindex c.in_iface_a ≢ 0
  pub interface_b : libc.if_nametoindex c.in_iface_b ≢ 0
  pub interface_out : libc.if_nametoindex c.out_iface ≢ 0

module _ (libc : Libc) where
  default_cfg-InRange : IsLinux libc → InRange libc default_cfg
  unfolding default_cfg
  default_cfg-InRange l = ground (arith, l)

  -- A value from an option keeps the ranges.
  option-InRange :
      (opt : Opt) (arg : List ℕ) (c : ReceiverConfig)
      → InRange libc c
      → Holds (InRange libc) (parse_option libc opt arg c)
  unfolding parse_option
  option-InRange opt_listen_iface_a arg c v =
      text-Holds (InRange libc) _ arg _ (λ t lt. ground (arith, v, lt))
  option-InRange opt_listen_iface_b arg c v =
      text-Holds (InRange libc) _ arg _ (λ t lt. ground (arith, v, lt))
  option-InRange opt_output_iface arg c v =
      text-Holds (InRange libc) _ arg _ (λ t lt. ground (arith, v, lt))
  option-InRange opt_listen_port arg c v =
      number-Holds (InRange libc) libc arg 1 65535 _ (omega arith)
        (λ n ge le. ground (arith, v, ge, le))
  option-InRange opt_block_size arg c v =
      number-Holds (InRange libc) libc arg 1 8 _ (omega arith)
        (λ n ge le. ground (arith, v, ge, le))
  option-InRange opt_run_id arg c v =
      text-Holds (InRange libc) _ arg _ (λ t lt. ground (arith, v, lt))
  option-InRange opt_summary_output arg c v =
      text-Holds (InRange libc) _ arg _ (λ t lt. ground (arith, v, lt))
  option-InRange opt_block_metrics_output arg c v =
      text-Holds (InRange libc) _ arg _ (λ t lt. ground (arith, v, lt))
  option-InRange opt_help arg c v = tt
  option-InRange opt_version arg c v = tt
  option-InRange opt_unknown arg c v = tt

  options-InRange :
      (opts : List (Opt × List ℕ)) (c : ReceiverConfig)
      → InRange libc c
      → Holds (InRange libc) (parse_options libc opts c)
  unfolding parse_options
  options-InRange [] c v = v
  options-InRange ((opt, arg) ∷ rest) c v =
      bind-Holds (InRange libc) (InRange libc) (parse_option libc opt arg c)
        (λ c'. parse_options libc rest c') (option-InRange opt arg c v)
        (λ c' v'. options-InRange rest c' v')

  check-Listens :
      (left : Bool) (c : ReceiverConfig)
      → InRange libc c
      → Holds (Listens libc) (check_config libc left c)
  unfolding check_config
  check-Listens left c v = ground (arith, v)

  -- On Linux an accepted command line of the RaptorQ edge receiver leaves a block size from 1 to 8, a
  -- port from 1 and texts that fit their arrays; either output has a run id, and the three interfaces
  -- exist.
  pub parse_arguments-Listens :
      (getopt_long : List (List ℕ) → Getopt Opt) (args : List (List ℕ)) (c : ReceiverConfig)
      → IsLinux libc
      → parse_arguments libc getopt_long args ≡ accepted c
      → Listens libc c
  unfolding parse_arguments
  parse_arguments-Listens getopt_long args c l e = accepted-Holds (Listens libc) _ c e (
      bind-Holds (InRange libc) (Listens libc)
        (parse_options libc (getopt_long args).options default_cfg)
        (check_config libc (getopt_long args).left)
        (options-InRange (getopt_long args).options default_cfg (default_cfg-InRange l))
        (λ c' v'. check-Listens (getopt_long args).left c' v'))
