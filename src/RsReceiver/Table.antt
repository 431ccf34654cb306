-- ===== src/RsReceiver/Table.antt =====
-- The table of generations of edge_receiver_rs.c under `handle_fragment` and the receive loop.
use openmc.Common.{
  ℕ, ◌%◌, ◌<◌, ◌≤◌, ◌≡◌, refl, ◌⊎◌, inl, inr, true, false, ◌||◌, not, arith, ◌==◌, Bool-cases, ◌∙◌,
  List, all_below, sym, ap,
}
use openmc.Env.{Env}
use openmc.Wire.{FecFragmentHdr}
use openmc.RsHost.{k_data, max_pkt_len}
use openmc.RsReceiver.{GenState, Receiver, Ctx, cleared, max_gens, get_gen_state}
use openmc.RsReceiver.Process.{Decoded}
use openmc.RsReceiver.Fragment.{stamp_first, match_length, find_generation}
use openmc.RsReceiver.Inv.{GenOk, cleared-GenOk}

pub record TableOk (rc : Receiver) : Type 0 where
  pub entry : (s : ℕ) → GenOk (rc.gens s)
  pub placed :
      (s : ℕ) → s < max_gens → ((rc.gens s).in_use ≡ false) ⊎ ((rc.gens s).gen_id % max_gens ≡ s)
  pub failed : rc.counters.generations_decode_failed ≡ 0

-- The entry that a fragment of this header is put into.
pub record Ready (hdr : FecFragmentHdr) (rc : Receiver) (c : Ctx) : Type 0 where
  pub good : GenOk c.gs
  pub in_use : c.gs.in_use ≡ true
  pub gen_id : c.gs.gen_id ≡ hdr.gen_id
  pub original_len : c.gs.original_len ≡ hdr.original_len
  pub gens : c.rc.gens ≡ rc.gens
  pub failed : c.rc.counters.generations_decode_failed ≡ rc.counters.generations_decode_failed
  pub repairs : c.rc.parity_symbols ≡ rc.parity_symbols

record Found (id : ℕ) (rc : Receiver) (c : Ctx) : Type 0 where
  good : GenOk c.gs
  in_use : c.gs.in_use ≡ true
  gen_id : c.gs.gen_id ≡ id
  gens : c.rc.gens ≡ rc.gens
  failed : c.rc.counters.generations_decode_failed ≡ rc.counters.generations_decode_failed
  repairs : c.rc.parity_symbols ≡ rc.parity_symbols

-- The invariant of an entry reads only these fields.
GenOk-ext :
    (a b : GenState)
    → b.data_forwarded ≡ a.data_forwarded
    → b.data_present ≡ a.data_present
    → b.decode_attempted ≡ a.decode_attempted
    → b.decode_succeeded ≡ a.decode_succeeded
    → b.stats_reported ≡ a.stats_reported
    → b.original_len ≤ max_pkt_len
    → GenOk a
    → GenOk b
GenOk-ext a b f p t s r le v = record {
  synced = λ k lt. ap (λ g. g k) f ∙ v.synced k lt ∙ sym (ap (λ g. g k) p);
  tried = t ∙ v.tried ∙ sym s;
  reported = r ∙ v.reported ∙ sym (ap (all_below k_data) f);
  len_le = le;
}

get_gen_state-Found : (id : ℕ) (rc : Receiver) → TableOk rc → Found id rc (get_gen_state id rc)
unfolding get_gen_state
get_gen_state-Found id rc v =
    elim (Bool-cases
      (not (rc.gens (id % max_gens)).in_use || not ((rc.gens (id % max_gens)).gen_id == id))) [
        | inl fresh ↦ rw fresh (record {
          good = GenOk-ext cleared _ refl refl refl refl refl (omega arith) cleared-GenOk;
          in_use = refl;
          gen_id = refl;
          gens = refl;
          failed = refl;
          repairs = refl;
        })
        | inr known ↦ rw known (record {
          good = v.entry (id % max_gens);
          in_use = ground (arith, known);
          gen_id = ground (arith, known);
          gens = refl;
          failed = refl;
          repairs = refl;
        })
      ]

module _ (env : Env) (decode_rs : List ℕ → List ℕ → Decoded) where
  stamp-Found :
      (id : ℕ) (rc : Receiver) (c : Ctx) → Found id rc c → Found id rc (stamp_first env decode_rs c)
  unfolding stamp_first
  stamp-Found id rc c v = elim (Bool-cases (c.gs.first_rx_ns == 0)) [
    | inl e ↦ rw e (record {
      good = GenOk-ext c.gs _ refl refl refl refl refl v.good.len_le v.good;
      in_use = v.in_use;
      gen_id = v.gen_id;
      gens = v.gens;
      failed = v.failed;
      repairs = v.repairs;
    })
    | inr e ↦ rw e v
  ]

  match-Ready :
      (hdr : FecFragmentHdr) (rc : Receiver) (c : Ctx)
      → hdr.original_len ≤ max_pkt_len
      → Found hdr.gen_id rc c
      → Ready hdr rc (match_length env decode_rs hdr c)
  unfolding match_length
  match-Ready hdr rc c le v = elim (Bool-cases (c.gs.original_len == 0)) [
    | inl e ↦ rw e (record {
      good = GenOk-ext c.gs _ refl refl refl refl refl le v.good;
      in_use = v.in_use;
      gen_id = v.gen_id;
      original_len = refl;
      gens = v.gens;
      failed = v.failed;
      repairs = v.repairs;
    })
    | inr e ↦ elim (Bool-cases (c.gs.original_len == hdr.original_len)) [
      | inl same ↦
          rw (e, same)
            (record {
              good = v.good;
              in_use = v.in_use;
              gen_id = v.gen_id;
              original_len = ground (arith, same);
              gens = v.gens;
              failed = v.failed;
              repairs = v.repairs;
            })
      | inr other ↦
          rw (e, other)
            (record {
              good = GenOk-ext cleared _ refl refl refl refl refl le cleared-GenOk;
              in_use = refl;
              gen_id = refl;
              original_len = refl;
              gens = v.gens;
              failed = v.failed;
              repairs = v.repairs;
            })
    ]
  ]

  pub find-Ready :
      (hdr : FecFragmentHdr) (rc : Receiver)
      → hdr.original_len ≤ max_pkt_len
      → TableOk rc
      → Ready hdr rc (find_generation env decode_rs hdr rc)
  unfolding find_generation
  find-Ready hdr rc le v =
      match-Ready hdr rc _ le (stamp-Found hdr.gen_id rc _ (get_gen_state-Found hdr.gen_id rc v))
