-- ===== src/CommandLine/RsHostArgs.antt =====
-- `parse_runtime_options` of src/processing_host/openmc_rs.c.
use openmc.Common.{ℕ, Bool, ◌||◌, ◌&&◌, not, some, List, [], ◌∷◌, ◌==◌, if◌then◌else◌}
use openmc.RsHost.{k_data, max_parity}
use openmc.CommandLine.{
  codes, same_text, is_empty, is_positional, Libc, Getopt, Outcome, accepted, rejected,
  printed_help, printed_version, ◌>>=◌, store, parse_u16, copy_option,
}

pub record OpenmcRsConfig : Type 0 where
  pub iface_a : List ℕ
  pub iface_b : List ℕ
  pub peer_a : List ℕ
  pub peer_b : List ℕ
  pub peer_port : ℕ
  pub block_size : ℕ
  pub repairs : ℕ
  pub nfqueue_num : ℕ
  pub run_id : List ℕ
  pub summary_output : List ℕ

pub data Opt : Type 0 where
  opt_iface_a opt_iface_b opt_peer_a opt_peer_b opt_peer_port opt_block_size opt_repairs : Opt
  opt_policy opt_nfqueue_num opt_run_id opt_summary_output opt_help opt_version opt_unknown : Opt

unfoldable pub runtime_cfg : OpenmcRsConfig
runtime_cfg = record {
  iface_a = codes "term1gs1";
  iface_b = codes "term1gs2";
  peer_a = codes "10.102.99.1";
  peer_b = codes "10.102.100.1";
  peer_port = 5000;
  block_size = k_data;
  repairs = 2;
  nfqueue_num = 1;
  run_id = [];
  summary_output = [];
}

module _ (libc : Libc) where
  open libc use {ifnamsiz, inet_addrstrlen, path_max, inet_pton, if_nametoindex}

  -- One turn of the `getopt_long` loop. The policy is only compared.
  unfoldable pub parse_option : Opt → List ℕ → OpenmcRsConfig → Outcome OpenmcRsConfig
  parse_option opt_iface_a arg c =
      store (copy_option ifnamsiz (some arg)) (λ v. record c { iface_a = v })
  parse_option opt_iface_b arg c =
      store (copy_option ifnamsiz (some arg)) (λ v. record c { iface_b = v })
  parse_option opt_peer_a arg c =
      store (copy_option inet_addrstrlen (some arg)) (λ v. record c { peer_a = v })
  parse_option opt_peer_b arg c =
      store (copy_option inet_addrstrlen (some arg)) (λ v. record c { peer_b = v })
  parse_option opt_peer_port arg c =
      store (parse_u16 libc arg 1 65535) (λ v. record c { peer_port = v })
  parse_option opt_block_size arg c =
      store (parse_u16 libc arg 1 k_data) (λ v. record c { block_size = v })
  parse_option opt_repairs arg c =
      store (parse_u16 libc arg 0 max_parity) (λ v. record c { repairs = v })
  parse_option opt_policy arg c = if same_text arg (codes "default") then accepted c else rejected
  parse_option opt_nfqueue_num arg c =
      store (parse_u16 libc arg 0 65535) (λ v. record c { nfqueue_num = v })
  parse_option opt_run_id arg c = store (copy_option 128 (some arg)) (λ v. record c { run_id = v })
  parse_option opt_summary_output arg c =
      store (copy_option path_max (some arg)) (λ v. record c { summary_output = v })
  parse_option opt_help arg c = printed_help
  parse_option opt_version arg c = printed_version
  parse_option opt_unknown arg c = rejected

  unfoldable pub parse_options : List (Opt × List ℕ) → OpenmcRsConfig → Outcome OpenmcRsConfig
  parse_options [] c = accepted c
  parse_options ((opt, arg) ∷ rest) c = parse_option opt arg c >>= λ c'. parse_options rest c'

  unfoldable pub check_config : Bool → OpenmcRsConfig → Outcome OpenmcRsConfig
  check_config left c =
      if left
      then rejected
      else if not (is_empty c.summary_output) && is_empty c.run_id
      then rejected
      else if not (inet_pton c.peer_a) || not (inet_pton c.peer_b)
      then rejected
      else if (if_nametoindex c.iface_a == 0) || (if_nametoindex c.iface_b == 0)
      then rejected
      else accepted c

  -- The number of repair symbols as a first argument.
  unfoldable pub parse_legacy :
      List (List ℕ) → OpenmcRsConfig → Outcome (List (List ℕ) × OpenmcRsConfig)
  parse_legacy [] c = accepted ([], c)
  parse_legacy (arg ∷ args) c =
      if is_positional arg
      then store (parse_u16 libc arg 0 max_parity) (λ v. (args, record c { repairs = v }))
      else accepted (arg ∷ args, c)

  unfoldable pub parse_runtime_options :
      (List (List ℕ) → Getopt Opt) → List (List ℕ) → Outcome OpenmcRsConfig
  parse_runtime_options getopt_long args = parse_legacy args runtime_cfg >>= λ (rest, c).
      let run = getopt_long rest in parse_options run.options c >>= check_config run.left
