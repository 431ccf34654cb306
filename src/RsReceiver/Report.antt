-- ===== src/RsReceiver/Report.antt =====
-- The end of `process_generation` in edge_receiver_rs.c, where a finished generation is reported.
use openmc.Common.{
  ℕ, ◌≤◌, ◌≡◌, inl, inr, true, false, ◌&&◌, not, arith, ltb, Bool-cases, ◌∙◌, List, all_below,
  count_below, count_below-zero, all_below_mono, all_below_sound, sym, ap, subst,
}
use openmc.Env.{Env}
use openmc.RsHost.{k_data, max_pkt_len}
use openmc.RsReceiver.{Ctx}
use openmc.RsReceiver.Process.{Decoded, report, finish_generation, process_generation}
use openmc.RsReceiver.Inv.{GenOk, Arrived, Keeps, received}
use openmc.RsReceiver.Preserve.{
  Settled, Keeps-trans, settled, settled-Settled, report-ok, finish-open, finish-again,
  finish-first,
}

module _ (env : Env) (decode_rs : List ℕ → List ℕ → Decoded) where
  module _ (c c' : Ctx) (v : Arrived c.gs) (w : Settled env decode_rs c c') where
    len_ok : c'.gs.original_len ≤ max_pkt_len
    len_ok = omega (arith, v.len_le, w.keeps.original_len)

    open-reported :
        all_below k_data c'.gs.data_forwarded ≡ false
        → c'.gs.stats_reported ≡ all_below k_data c'.gs.data_forwarded
    open-reported e = elim (Bool-cases (all_below k_data c.gs.data_forwarded)) [
      | inl all ↦ cc (all_below_mono k_data c.gs.data_forwarded c'.gs.data_forwarded w.mono all)
      | inr some_left ↦ w.reported ∙ v.reported ∙ some_left ∙ sym e
    ]

    none_missing :
        all_below k_data c'.gs.data_forwarded ≡ true
        → count_below k_data (λ i. not (c'.gs.data_present i)) ≡ 0
    none_missing e =
        count_below-zero k_data (λ i. not (c'.gs.data_present i))
          (λ k lt.
            ap not (sym (w.synced k lt) ∙ all_below_sound k_data c'.gs.data_forwarded k e lt))

    -- The generation as it is reported.
    abbrev closed : Ctx
    closed = record c' { gs = record c'.gs { completed = true; stats_reported = true } }

    closed-GenOk : all_below k_data c'.gs.data_forwarded ≡ true → GenOk closed.gs
    closed-GenOk all = record {
      synced = w.synced;
      tried = w.tried;
      reported = sym all;
      len_le = len_ok;
    }

    reported_once :
        all_below k_data c'.gs.data_forwarded ≡ true
        → Keeps c (report env decode_rs closed) × GenOk (report env decode_rs closed).gs
    reported_once all =
        let ok = report-ok env decode_rs closed (none_missing all) w.tried in
        let shut : Keeps c closed = ground (arith, w.keeps) in
        (Keeps-trans shut ok.0, subst GenOk (sym ok.1) (closed-GenOk all))

    pub finish-GenOk :
        Keeps c (finish_generation env decode_rs c') × GenOk (finish_generation env decode_rs c').gs
    finish-GenOk = elim (Bool-cases (all_below k_data c'.gs.data_forwarded)) [
      | inr left ↦ rw (finish-open env decode_rs c' left) (
        w.keeps,
        record {
          synced = w.synced;
          tried = w.tried;
          reported = open-reported left;
          len_le = len_ok;
        },
      )
      | inl all ↦ elim (Bool-cases c'.gs.stats_reported) [
        | inl again ↦ rw (finish-again env decode_rs c' all again) (
          ground (arith, w.keeps),
          record {
            synced = w.synced;
            tried = w.tried;
            reported = again ∙ sym all;
            len_le = len_ok;
          },
        )
        | inr first ↦ rw (finish-first env decode_rs c' all first) (reported_once all)
      ]
    ]

  process-idle :
      (c : Ctx)
      → c.gs.in_use && ltb 0 c.gs.original_len ≡ false
      → process_generation env decode_rs c ≡ c
  unfolding process_generation
  process-idle c e = rw e

  process-busy :
      (c : Ctx)
      → c.gs.in_use && ltb 0 c.gs.original_len ≡ true
      → process_generation env decode_rs c
        ≡ finish_generation env decode_rs (settled env decode_rs c)
  unfolding process_generation settled received
  process-busy c e = rw e

  -- Processing an entry of the table that is in use and has a length keeps the invariant of the
  -- entry, and never counts a decoding failure.
  pub process-GenOk :
      (c : Ctx)
      → Arrived c.gs
      → c.gs.in_use && ltb 0 c.gs.original_len ≡ true
      → Keeps c (process_generation env decode_rs c) × GenOk (process_generation env decode_rs c).gs
  process-GenOk c v busy =
      rw (process-busy c busy)
        (finish-GenOk c (settled env decode_rs c) v (settled-Settled env decode_rs c v))
