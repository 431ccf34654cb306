-- ===== src/CommandLine/RsHostSafe.antt =====
-- What an accepted command line of src/processing_host/openmc_rs.c gives.
use openmc.Common.{ℕ, ◌≤◌, ◌<◌, ◌≡◌, ◌≢◌, ◌⊎◌, Bool, true, false, List, [], ◌∷◌, length, arith}
use openmc.RsHost.{k_data, max_parity}
use openmc.CommandLine.{
  codes, same_text, is_empty, is_positional, Libc, IsLinux, Getopt, accepted, rejected, Holds,
  bind-Holds, if-Holds, accepted-Holds, text-Holds, number-Holds,
}
use openmc.CommandLine.RsHostArgs.{
  OpenmcRsConfig, Opt, opt_iface_a, opt_iface_b, opt_peer_a, opt_peer_b, opt_peer_port,
  opt_block_size, opt_repairs, opt_policy, opt_nfqueue_num, opt_run_id, opt_summary_output,
  opt_help, opt_version, opt_unknown, runtime_cfg, parse_option, parse_options, check_config,
  parse_legacy, parse_runtime_options,
}

-- The ranges of the values, and that each text fits its array.
pub record InRange (libc : Libc) (c : OpenmcRsConfig) : Type 0 where
  pub block_pos : 1 ≤ c.block_size
  pub block_le : c.block_size ≤ k_data
  pub repairs_le : c.repairs ≤ max_parity
  pub port_pos : 1 ≤ c.peer_port
  pub port_le : c.peer_port ≤ 65535
  pub nfqueue_le : c.nfqueue_num ≤ 65535
  pub iface_a_fits : length c.iface_a < libc.ifnamsiz
  pub iface_b_fits : length c.iface_b < libc.ifnamsiz
  pub peer_a_fits : length c.peer_a < libc.inet_addrstrlen
  pub peer_b_fits : length c.peer_b < libc.inet_addrstrlen
  pub run_id_fits : length c.run_id < 128
  pub summary_fits : length c.summary_output < libc.path_max

-- And what the checks after the options make sure of.
pub record Usable (libc : Libc) (c : OpenmcRsConfig) : Type 0 where
  pub ranges : InRange libc c
  pub named : (is_empty c.summary_output ≡ true) ⊎ (is_empty c.run_id ≡ false)
  pub address_a : libc.inet_pton c.peer_a ≡ true
  pub address_b : libc.inet_pton c.peer_b ≡ true
  pub interface_a : libc.if_nametoindex c.iface_a ≢ 0
  pub interface_b : libc.if_nametoindex c.iface_b ≢ 0

module _ (libc : Libc) where
  runtime_cfg-InRange : IsLinux libc → InRange libc runtime_cfg
  unfolding runtime_cfg
  runtime_cfg-InRange l = ground (arith, l)

  -- A value from an option keeps the ranges.
  option-InRange :
      (opt : Opt) (arg : List ℕ) (c : OpenmcRsConfig)
      → InRange libc c
      → Holds (InRange libc) (parse_option libc opt arg c)
  unfolding parse_option
  option-InRange opt_iface_a arg c v =
      text-Holds (InRange libc) _ arg _ (λ t lt. ground (arith, v, lt))
  option-InRange opt_iface_b arg c v =
      text-Holds (InRange libc) _ arg _ (λ t lt. ground (arith, v, lt))
  option-InRange opt_peer_a arg c v =
      text-Holds (InRange libc) _ arg _ (λ t lt. ground (arith, v, lt))
  option-InRange opt_peer_b arg c v =
      text-Holds (InRange libc) _ arg _ (λ t lt. ground (arith, v, lt))
  option-InRange opt_peer_port arg c v =
      number-Holds (InRange libc) libc arg 1 65535 _ (omega arith)
        (λ n ge le. ground (arith, v, ge, le))
  option-InRange opt_block_size arg c v =
      number-Holds (InRange libc) libc arg 1 8 _ (omega arith)
        (λ n ge le. ground (arith, v, ge, le))
  option-InRange opt_repairs arg c v =
      number-Holds (InRange libc) libc arg 0 32 _ (omega arith)
        (λ n ge le. ground (arith, v, ge, le))
  option-InRange opt_policy arg c v =
      if-Holds (InRange libc) (same_text arg (codes "default")) (accepted c) rejected v tt
  option-InRange opt_nfqueue_num arg c v =
      number-Holds (InRange libc) libc arg 0 65535 _ (omega arith)
        (λ n ge le. ground (arith, v, ge, le))
  option-InRange opt_run_id arg c v =
      text-Holds (InRange libc) _ arg _ (λ t lt. ground (arith, v, lt))
  option-InRange opt_summary_output arg c v =
      text-Holds (InRange libc) _ arg _ (λ t lt. ground (arith, v, lt))
  option-InRange opt_help arg c v = tt
  option-InRange opt_version arg c v = tt
  option-InRange opt_unknown arg c v = tt

  options-InRange :
      (opts : List (Opt × List ℕ)) (c : OpenmcRsConfig)
      → InRange libc c
      → Holds (InRange libc) (parse_options libc opts c)
  unfolding parse_options
  options-InRange [] c v = v
  options-InRange ((opt, arg) ∷ rest) c v =
      bind-Holds (InRange libc) (InRange libc) (parse_option libc opt arg c)
        (λ c'. parse_options libc rest c') (option-InRange opt arg c v)
        (λ c' v'. options-InRange rest c' v')

  check-Usable :
      (left : Bool) (c : OpenmcRsConfig)
      → InRange libc c
      → Holds (Usable libc) (check_config libc left c)
  unfolding check_config
  check-Usable left c v = ground (arith, v)

  legacy-InRange :
      (args : List (List ℕ)) (c : OpenmcRsConfig)
      → InRange libc c
      → Holds (λ r. InRange libc (r.1)) (parse_legacy libc args c)
  unfolding parse_legacy
  legacy-InRange [] c v = v
  legacy-InRange (arg ∷ args) c v =
      if-Holds _ (is_positional arg) _ (accepted (arg ∷ args, c))
        (number-Holds (λ r. InRange libc (r.1)) libc arg 0 32 _ (omega arith)
          (λ n ge le. ground (arith, v, le)))
        v

  -- On Linux an accepted command line of the Reed-Solomon processing host leaves at most 32 repair
  -- symbols, a block size from 1 to 8, a port from 1 and texts that fit their arrays; output has a run
  -- id, both peers are addresses and both interfaces exist.
  pub parse_runtime_options-Usable :
      (getopt_long : List (List ℕ) → Getopt Opt) (args : List (List ℕ)) (c : OpenmcRsConfig)
      → IsLinux libc
      → parse_runtime_options libc getopt_long args ≡ accepted c
      → Usable libc c
  unfolding parse_runtime_options
  parse_runtime_options-Usable getopt_long args c l e = accepted-Holds (Usable libc) _ c e (
      bind-Holds (λ r. InRange libc (r.1)) (Usable libc) (parse_legacy libc args runtime_cfg) _
        (legacy-InRange args runtime_cfg (runtime_cfg-InRange l))
        (λ (rest, c') v.
          bind-Holds (InRange libc) (Usable libc) (parse_options libc (getopt_long rest).options c')
            (check_config libc (getopt_long rest).left)
            (options-InRange (getopt_long rest).options c' v)
            (λ c'' v'. check-Usable (getopt_long rest).left c'' v')))
