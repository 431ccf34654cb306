-- ===== src/CommandLine/RqHostArgs.antt =====
-- `parse_arguments` of src/processing_host/openmc_rq.c. `getopt_long` with the table of the program's
-- options is a parameter.
use openmc.Common.{
  ℕ, ◌+◌, ◌-◌, ◌%◌, ◌^◌, Bool, ◌||◌, ◌&&◌, not, Option, none, some, List, [], ◌∷◌, ltb, ◌==◌,
  if◌then◌else◌,
}
use openmc.Decision.{Policy, policy_default, policy_quality, policy_adaptive}
use openmc.Decision.Sources.{MetricsSource, source_file, source_synthetic, source_disabled}
use openmc.CommandLine.{
  codes, same_text, is_empty, is_positional, Libc, Getopt, Outcome, accepted, rejected,
  printed_help, printed_version, ◌>>=◌, store, parse_u16, copy_option,
}

abbrev pub k_data : ℕ
k_data = 8

-- `struct runtime_config`
pub record RuntimeConfig : Type 0 where
  pub iface_a : List ℕ
  pub iface_b : List ℕ
  pub peer_a : List ℕ
  pub peer_b : List ℕ
  pub metrics_file : List ℕ
  pub peer_port : ℕ
  pub block_size : ℕ
  pub repairs : ℕ
  pub nfqueue_num : ℕ
  pub policy : Policy
  pub metrics_source : MetricsSource
  pub seed : ℕ
  pub run_id : List ℕ
  pub summary_output : List ℕ

-- The values of `option`; `opt_unknown` is every other one.
pub data Opt : Type 0 where
  opt_iface_a opt_iface_b opt_peer_a opt_peer_b opt_peer_port opt_block_size opt_repairs : Opt
  opt_policy opt_metrics_source opt_metrics_file opt_nfqueue_num opt_seed opt_run_id : Opt
  opt_summary_output opt_help opt_version opt_unknown : Opt

unfoldable pub default_cfg : RuntimeConfig
default_cfg = record {
  iface_a = codes "term1gs1";
  iface_b = codes "term1gs2";
  peer_a = codes "10.102.99.1";
  peer_b = codes "10.102.100.1";
  metrics_file = codes "/tmp/its_metrics.txt";
  peer_port = 5000;
  block_size = 8;
  repairs = 4;
  nfqueue_num = 1;
  policy = policy_default;
  metrics_source = source_file;
  seed = 0x12345678;
  run_id = [];
  summary_output = [];
}

unfoldable pub parse_policy_value : List ℕ → Option Policy
parse_policy_value value =
    if same_text value (codes "default")
    then some policy_default
    else if same_text value (codes "quality") || same_text value (codes "quality-based")
    then some policy_quality
    else if same_text value (codes "adaptive")
    then some policy_adaptive
    else none

unfoldable pub parse_metrics_source : List ℕ → Option MetricsSource
parse_metrics_source value =
    if same_text value (codes "file")
    then some source_file
    else if same_text value (codes "synthetic")
    then some source_synthetic
    else if same_text value (codes "disabled")
    then some source_disabled
    else none

module _ (libc : Libc) where
  open libc use {ifnamsiz, inet_addrstrlen, path_max, strtoul, inet_pton, if_nametoindex}

  unfoldable pub parse_seed : List ℕ → Option ℕ
  parse_seed text =
      let v = strtoul 0 text in
      if v.range_error || (is_empty text || (not v.all_read || ltb (2 ^ 32 - 1) v.value))
      then none
      else some (v.value % 2 ^ 32)

  -- One turn of the `getopt_long` loop.
  unfoldable pub parse_option : Opt → List ℕ → RuntimeConfig → Outcome RuntimeConfig
  parse_option opt_iface_a arg c =
      store (copy_option ifnamsiz (some arg)) (λ v. record c { iface_a = v })
  parse_option opt_iface_b arg c =
      store (copy_option ifnamsiz (some arg)) (λ v. record c { iface_b = v })
  parse_option opt_peer_a arg c =
      store (copy_option inet_addrstrlen (some arg)) (λ v. record c { peer_a = v })
  parse_option opt_peer_b arg c =
      store (copy_option inet_addrstrlen (some arg)) (λ v. record c { peer_b = v })
  parse_option opt_peer_port arg c =
      store (parse_u16 libc arg 1 65535) (λ v. record c { peer_port = v })
  parse_option opt_block_size arg c =
      store (parse_u16 libc arg 1 k_data) (λ v. record c { block_size = v })
  parse_option opt_repairs arg c = store (parse_u16 libc arg 0 32) (λ v. record c { repairs = v })
  parse_option opt_policy arg c = store (parse_policy_value arg) (λ v. record c { policy = v })
  parse_option opt_metrics_source arg c =
      store (parse_metrics_source arg) (λ v. record c { metrics_source = v })
  parse_option opt_metrics_file arg c =
      store (copy_option path_max (some arg)) (λ v. record c { metrics_file = v })
  parse_option opt_nfqueue_num arg c =
      store (parse_u16 libc arg 0 65535) (λ v. record c { nfqueue_num = v })
  parse_option opt_seed arg c = store (parse_seed arg) (λ v. record c { seed = v })
  parse_option opt_run_id arg c = store (copy_option 128 (some arg)) (λ v. record c { run_id = v })
  parse_option opt_summary_output arg c =
      store (copy_option path_max (some arg)) (λ v. record c { summary_output = v })
  parse_option opt_help arg c = printed_help
  parse_option opt_version arg c = printed_version
  parse_option opt_unknown arg c = rejected

  unfoldable pub parse_options : List (Opt × List ℕ) → RuntimeConfig → Outcome RuntimeConfig
  parse_options [] c = accepted c
  parse_options ((opt, arg) ∷ rest) c = parse_option opt arg c >>= λ c'. parse_options rest c'

  -- The checks after the loop.
  unfoldable pub check_config : Bool → RuntimeConfig → Outcome RuntimeConfig
  check_config left c =
      if left
      then rejected
      else if not (is_empty c.summary_output) && is_empty c.run_id
      then rejected
      else if not (inet_pton c.peer_a) || not (inet_pton c.peer_b)
      then rejected
      else if (if_nametoindex c.iface_a == 0) || (if_nametoindex c.iface_b == 0)
      then rejected
      else accepted c

  -- The positional arguments before the options, repairs and policy: what is left of the command line.
  unfoldable pub parse_legacy :
      ℕ → List (List ℕ) → RuntimeConfig → Outcome (List (List ℕ) × RuntimeConfig)
  parse_legacy index [] c = accepted ([], c)
  parse_legacy index (arg ∷ args) c =
      let next = parse_legacy (index + 1) args in
      if not (is_positional arg)
      then accepted (arg ∷ args, c)
      else if index == 1
      then store (parse_u16 libc arg 0 32) (λ v. record c { repairs = v }) >>= next
      else if index == 2
      then store (parse_policy_value arg) (λ v. record c { policy = v }) >>= next
      else rejected

  unfoldable pub parse_arguments :
      (List (List ℕ) → Getopt Opt) → List (List ℕ) → Outcome RuntimeConfig
  parse_arguments getopt_long args = parse_legacy 1 args default_cfg >>= λ (rest, c).
      let run = getopt_long rest in parse_options run.options c >>= check_config run.left
