-- ===== src/CommandLine/RqHostSafe.antt =====
-- What an accepted command line of openmc_rq.c gives.
use openmc.Common.{
  ℕ, ◌+◌, ◌^◌, ◌≤◌, ◌<◌, ◌≡◌, ◌≢◌, ◌⊎◌, Bool, true, false, not, some, List, [], ◌∷◌, ◌==◌, length,
  arith,
}
use openmc.CommandLine.{
  is_empty, is_positional, Libc, IsLinux, Getopt, accepted, rejected, Holds, bind-Holds,
  store-Holds, if-Holds, accepted-Holds, text-Holds, number-Holds,
}
use openmc.CommandLine.RqHostArgs.{
  RuntimeConfig, Opt, opt_iface_a, opt_iface_b, opt_peer_a, opt_peer_b, opt_peer_port,
  opt_block_size, opt_repairs, opt_policy, opt_metrics_source, opt_metrics_file, opt_nfqueue_num,
  opt_seed, opt_run_id, opt_summary_output, opt_help, opt_version, opt_unknown, default_cfg,
  parse_seed, parse_option, parse_options, check_config, parse_legacy, parse_arguments,
}

-- The ranges of the values, and that each text fits its array.
pub record InRange (libc : Libc) (c : RuntimeConfig) : Type 0 where
  pub block_pos : 1 ≤ c.block_size
  pub block_le : c.block_size ≤ 8
  pub repairs_le : c.repairs ≤ 32
  pub port_pos : 1 ≤ c.peer_port
  pub port_le : c.peer_port ≤ 65535
  pub nfqueue_le : c.nfqueue_num ≤ 65535
  pub seed_lt : c.seed < 2 ^ 32
  pub iface_a_fits : length c.iface_a < libc.ifnamsiz
  pub iface_b_fits : length c.iface_b < libc.ifnamsiz
  pub peer_a_fits : length c.peer_a < libc.inet_addrstrlen
  pub peer_b_fits : length c.peer_b < libc.inet_addrstrlen
  pub metrics_file_fits : length c.metrics_file < libc.path_max
  pub run_id_fits : length c.run_id < 128
  pub summary_fits : length c.summary_output < libc.path_max

-- And what the checks after the options make sure of.
pub record Usable (libc : Libc) (c : RuntimeConfig) : Type 0 where
  pub ranges : InRange libc c
  pub named : (is_empty c.summary_output ≡ true) ⊎ (is_empty c.run_id ≡ false)
  pub address_a : libc.inet_pton c.peer_a ≡ true
  pub address_b : libc.inet_pton c.peer_b ≡ true
  pub interface_a : libc.if_nametoindex c.iface_a ≢ 0
  pub interface_b : libc.if_nametoindex c.iface_b ≢ 0

module _ (libc : Libc) where
  default_cfg-InRange : IsLinux libc → InRange libc default_cfg
  unfolding default_cfg
  default_cfg-InRange l = record {
    block_pos = omega arith;
    block_le = omega arith;
    repairs_le = omega arith;
    port_pos = omega arith;
    port_le = omega arith;
    nfqueue_le = omega arith;
    seed_lt = omega arith;
    iface_a_fits = omega (arith, l.ifnamsiz_is);
    iface_b_fits = omega (arith, l.ifnamsiz_is);
    peer_a_fits = omega (arith, l.inet_addrstrlen_is);
    peer_b_fits = omega (arith, l.inet_addrstrlen_is);
    metrics_file_fits = omega (arith, l.path_max_is);
    run_id_fits = omega arith;
    summary_fits = omega (arith, l.path_max_is);
  }

  parse_seed-bound : (text : List ℕ) (n : ℕ) → parse_seed libc text ≡ some n → n < 2 ^ 32
  unfolding parse_seed
  parse_seed-bound text n e = ground (arith, e)

  -- A value from an option keeps the ranges.
  option-InRange :
      (opt : Opt) (arg : List ℕ) (c : RuntimeConfig)
      → InRange libc c
      → Holds (InRange libc) (parse_option libc opt arg c)
  unfolding parse_option
  option-InRange opt_iface_a arg c v =
      text-Holds (InRange libc) _ arg _ (λ t lt. ground (arith, v, lt))
  option-InRange opt_iface_b arg c v =
      text-Holds (InRange libc) _ arg _ (λ t lt. ground (arith, v, lt))
  option-InRange opt_peer_a arg c v =
      text-Holds (InRange libc) _ arg _ (λ t lt. ground (arith, v, lt))
  option-InRange opt_peer_b arg c v =
      text-Holds (InRange libc) _ arg _ (λ t lt. ground (arith, v, lt))
  option-InRange opt_peer_port arg c v =
      number-Holds (InRange libc) libc arg 1 65535 _ (omega arith)
        (λ n ge le. ground (arith, v, ge, le))
  option-InRange opt_block_size arg c v =
      number-Holds (InRange libc) libc arg 1 8 _ (omega arith)
        (λ n ge le. ground (arith, v, ge, le))
  option-InRange opt_repairs arg c v =
      number-Holds (InRange libc) libc arg 0 32 _ (omega arith)
        (λ n ge le. ground (arith, v, ge, le))
  option-InRange opt_policy arg c v = store-Holds (InRange libc) _ _ (λ a e. ground (arith, v))
  option-InRange opt_metrics_source arg c v =
      store-Holds (InRange libc) _ _ (λ a e. ground (arith, v))
  option-InRange opt_metrics_file arg c v =
      text-Holds (InRange libc) _ arg _ (λ t lt. ground (arith, v, lt))
  option-InRange opt_nfqueue_num arg c v =
      number-Holds (InRange libc) libc arg 0 65535 _ (omega arith)
        (λ n ge le. ground (arith, v, ge, le))
  option-InRange opt_seed arg c v =
      store-Holds (InRange libc) _ _ (λ a e. ground (arith, v, parse_seed-bound arg a e))
  option-InRange opt_run_id arg c v =
      text-Holds (InRange libc) _ arg _ (λ t lt. ground (arith, v, lt))
  option-InRange opt_summary_output arg c v =
      text-Holds (InRange libc) _ arg _ (λ t lt. ground (arith, v, lt))
  option-InRange opt_help arg c v = tt
  option-InRange opt_version arg c v = tt
  option-InRange opt_unknown arg c v = tt

  options-InRange :
      (opts : List (Opt × List ℕ)) (c : RuntimeConfig)
      → InRange libc c
      → Holds (InRange libc) (parse_options libc opts c)
  unfolding parse_options
  options-InRange [] c v = v
  options-InRange ((opt, arg) ∷ rest) c v =
      bind-Holds (InRange libc) (InRange libc) (parse_option libc opt arg c)
        (λ c'. parse_options libc rest c') (option-InRange opt arg c v)
        (λ c' v'. options-InRange rest c' v')

  check-Usable :
      (left : Bool) (c : RuntimeConfig)
      → InRange libc c
      → Holds (Usable libc) (check_config libc left c)
  unfolding check_config
  check-Usable left c v = ground (arith, v)

  legacy-InRange :
      (index : ℕ) (args : List (List ℕ)) (c : RuntimeConfig)
      → InRange libc c
      → Holds (λ r. InRange libc (r.1)) (parse_legacy libc index args c)
  unfolding parse_legacy parse_option
  legacy-InRange index [] c v = v
  legacy-InRange index (arg ∷ args) c v =
      let next : (c' : RuntimeConfig)
          → InRange libc c'
          → Holds (λ r. InRange libc (r.1)) (parse_legacy libc (index + 1) args c') =
        λ c' v'. legacy-InRange (index + 1) args c' v' in
      if-Holds _ (not (is_positional arg)) (accepted (arg ∷ args, c)) _ v (
        if-Holds _ (index == 1) _ _
          (bind-Holds (InRange libc) _ _ _ (option-InRange opt_repairs arg c v) next)
          (if-Holds _ (index == 2) _ rejected
            (bind-Holds (InRange libc) _ _ _ (option-InRange opt_policy arg c v) next) tt))

  -- On Linux, whatever `getopt_long`, `strtoul`, `inet_pton` and `if_nametoindex` give: an accepted
  -- command line, positional arguments included, leaves a block size from 1 to 8, at most 32 repair
  -- symbols, a port from 1, a seed of 32 bits and texts that fit their arrays; output has a run id, both
  -- peers are addresses and both interfaces exist.
  pub parse_arguments-Usable :
      (getopt_long : List (List ℕ) → Getopt Opt) (args : List (List ℕ)) (c : RuntimeConfig)
      → IsLinux libc
      → parse_arguments libc getopt_long args ≡ accepted c
      → Usable libc c
  unfolding parse_arguments
  parse_arguments-Usable getopt_long args c l e = accepted-Holds (Usable libc) _ c e (
      bind-Holds (λ r. InRange libc (r.1)) (Usable libc) (parse_legacy libc 1 args default_cfg) _
        (legacy-InRange 1 args default_cfg (default_cfg-InRange l))
        (λ (rest, c') v.
          bind-Holds (InRange libc) (Usable libc) (parse_options libc (getopt_long rest).options c')
            (check_config libc (getopt_long rest).left)
            (options-InRange (getopt_long rest).options c' v)
            (λ c'' v'. check-Usable (getopt_long rest).left c'' v')))
