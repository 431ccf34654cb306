-- ===== src/CommandLine/RqReceiverArgs.antt =====
-- `parse_arguments` of src/edge_receiver/edge_receiver_rq.c.
use openmc.Common.{ℕ, Bool, ◌||◌, ◌&&◌, not, some, List, [], ◌∷◌, ◌==◌, if◌then◌else◌}
use openmc.CommandLine.RqHostArgs.{k_data}
use openmc.CommandLine.{
  codes, is_empty, Libc, Getopt, Outcome, accepted, rejected, printed_help, printed_version, ◌>>=◌,
  store, parse_u16, copy_option,
}

pub record ReceiverConfig : Type 0 where
  pub in_iface_a : List ℕ
  pub in_iface_b : List ℕ
  pub out_iface : List ℕ
  pub listen_port : ℕ
  pub block_size : ℕ
  pub run_id : List ℕ
  pub summary_output : List ℕ
  pub block_metrics_output : List ℕ

pub data Opt : Type 0 where
  opt_listen_iface_a opt_listen_iface_b opt_output_iface opt_listen_port opt_block_size : Opt
  opt_run_id opt_summary_output opt_block_metrics_output opt_help opt_version opt_unknown : Opt

unfoldable pub default_cfg : ReceiverConfig
default_cfg = record {
  in_iface_a = codes "term2gs3";
  in_iface_b = codes "term2gs4";
  out_iface = codes "term2term4";
  listen_port = 5000;
  block_size = 8;
  run_id = [];
  summary_output = [];
  block_metrics_output = [];
}

module _ (libc : Libc) where
  open libc use {ifnamsiz, path_max, if_nametoindex}

  -- One turn of the `getopt_long` loop.
  unfoldable pub parse_option : Opt → List ℕ → ReceiverConfig → Outcome ReceiverConfig
  parse_option opt_listen_iface_a arg c =
      store (copy_option ifnamsiz (some arg)) (λ v. record c { in_iface_a = v })
  parse_option opt_listen_iface_b arg c =
      store (copy_option ifnamsiz (some arg)) (λ v. record c { in_iface_b = v })
  parse_option opt_output_iface arg c =
      store (copy_option ifnamsiz (some arg)) (λ v. record c { out_iface = v })
  parse_option opt_listen_port arg c =
      store (parse_u16 libc arg 1 65535) (λ v. record c { listen_port = v })
  parse_option opt_block_size arg c =
      store (parse_u16 libc arg 1 k_data) (λ v. record c { block_size = v })
  parse_option opt_run_id arg c = store (copy_option 128 (some arg)) (λ v. record c { run_id = v })
  parse_option opt_summary_output arg c =
      store (copy_option path_max (some arg)) (λ v. record c { summary_output = v })
  parse_option opt_block_metrics_output arg c =
      store (copy_option path_max (some arg)) (λ v. record c { block_metrics_output = v })
  parse_option opt_help arg c = printed_help
  parse_option opt_version arg c = printed_version
  parse_option opt_unknown arg c = rejected

  unfoldable pub parse_options : List (Opt × List ℕ) → ReceiverConfig → Outcome ReceiverConfig
  parse_options [] c = accepted c
  parse_options ((opt, arg) ∷ rest) c = parse_option opt arg c >>= λ c'. parse_options rest c'

  unfoldable pub check_config : Bool → ReceiverConfig → Outcome ReceiverConfig
  check_config left c =
      if left
      then rejected
      else if (not (is_empty c.summary_output) || not (is_empty c.block_metrics_output))
          && is_empty c.run_id
      then rejected
      else if (if_nametoindex c.in_iface_a == 0)
          || ((if_nametoindex c.in_iface_b == 0) || (if_nametoindex c.out_iface == 0))
      then rejected
      else accepted c

  unfoldable pub parse_arguments :
      (List (List ℕ) → Getopt Opt) → List (List ℕ) → Outcome ReceiverConfig
  parse_arguments getopt_long args =
      let run = getopt_long args in parse_options run.options default_cfg >>= check_config run.left
