-- ===== src/CommandLine/RsReceiverArgs.antt =====
-- `parse_runtime_options` of src/edge_receiver/edge_receiver_rs.c.
use openmc.Common.{ℕ, Bool, ◌||◌, ◌&&◌, not, some, List, [], ◌∷◌, ◌==◌, if◌then◌else◌}
use openmc.RsHost.{k_data, max_parity}
use openmc.CommandLine.{
  codes, is_empty, is_positional, Libc, Getopt, Outcome, accepted, rejected, printed_help,
  printed_version, ◌>>=◌, store, parse_u16, copy_option,
}

pub record RsReceiverConfig : Type 0 where
  pub in_iface_a : List ℕ
  pub in_iface_b : List ℕ
  pub out_iface : List ℕ
  pub listen_port : ℕ
  pub block_size : ℕ
  pub repairs : ℕ
  pub run_id : List ℕ
  pub summary_output : List ℕ
  pub block_metrics_output : List ℕ

pub data Opt : Type 0 where
  opt_in_a opt_in_b opt_out opt_port opt_block : Opt
  opt_repairs opt_run_id opt_summary_output opt_block_metrics_output opt_help opt_version
        opt_unknown :
      Opt

unfoldable pub runtime_cfg : RsReceiverConfig
runtime_cfg = record {
  in_iface_a = codes "term2gs3";
  in_iface_b = codes "term2gs4";
  out_iface = codes "term2term4";
  listen_port = 5000;
  block_size = k_data;
  repairs = 2;
  run_id = [];
  summary_output = [];
  block_metrics_output = [];
}

module _ (libc : Libc) where
  open libc use {ifnamsiz, path_max, if_nametoindex}

  -- One turn of the `getopt_long` loop.
  unfoldable pub parse_option : Opt → List ℕ → RsReceiverConfig → Outcome RsReceiverConfig
  parse_option opt_in_a arg c =
      store (copy_option ifnamsiz (some arg)) (λ v. record c { in_iface_a = v })
  parse_option opt_in_b arg c =
      store (copy_option ifnamsiz (some arg)) (λ v. record c { in_iface_b = v })
  parse_option opt_out arg c =
      store (copy_option ifnamsiz (some arg)) (λ v. record c { out_iface = v })
  parse_option opt_port arg c =
      store (parse_u16 libc arg 1 65535) (λ v. record c { listen_port = v })
  parse_option opt_block arg c =
      store (parse_u16 libc arg 1 k_data) (λ v. record c { block_size = v })
  parse_option opt_repairs arg c =
      store (parse_u16 libc arg 0 max_parity) (λ v. record c { repairs = v })
  parse_option opt_run_id arg c = store (copy_option 128 (some arg)) (λ v. record c { run_id = v })
  parse_option opt_summary_output arg c =
      store (copy_option path_max (some arg)) (λ v. record c { summary_output = v })
  parse_option opt_block_metrics_output arg c =
      store (copy_option path_max (some arg)) (λ v. record c { block_metrics_output = v })
  parse_option opt_help arg c = printed_help
  parse_option opt_version arg c = printed_version
  parse_option opt_unknown arg c = rejected

  unfoldable pub parse_options : List (Opt × List ℕ) → RsReceiverConfig → Outcome RsReceiverConfig
  parse_options [] c = accepted c
  parse_options ((opt, arg) ∷ rest) c = parse_option opt arg c >>= λ c'. parse_options rest c'

  unfoldable pub check_config : Bool → RsReceiverConfig → Outcome RsReceiverConfig
  check_config left c =
      if left
      then rejected
      else if (not (is_empty c.summary_output) || not (is_empty c.block_metrics_output))
          && is_empty c.run_id
      then rejected
      else if (if_nametoindex c.in_iface_a == 0)
          || ((if_nametoindex c.in_iface_b == 0) || (if_nametoindex c.out_iface == 0))
      then rejected
      else accepted c

  -- The number of repair symbols as a first argument.
  unfoldable pub parse_legacy :
      List (List ℕ) → RsReceiverConfig → Outcome (List (List ℕ) × RsReceiverConfig)
  parse_legacy [] c = accepted ([], c)
  parse_legacy (arg ∷ args) c =
      if is_positional arg
      then store (parse_u16 libc arg 0 max_parity) (λ v. (args, record c { repairs = v }))
      else accepted (arg ∷ args, c)

  unfoldable pub parse_runtime_options :
      (List (List ℕ) → Getopt Opt) → List (List ℕ) → Outcome RsReceiverConfig
  parse_runtime_options getopt_long args = parse_legacy args runtime_cfg >>= λ (rest, c).
      let run = getopt_long rest in parse_options run.options c >>= check_config run.left
