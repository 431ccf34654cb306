-- ===== src/RsReceiver/Preserve.antt =====
-- `process_generation` of edge_receiver_rs.c keeps the invariant of a table entry.
use openmc.Common.{
  ℕ, ◌<◌, ◌≡◌, refl, inl, inr, true, false, not, arith, Bool-cases, ◌∙◌, List, all_below,
  count_below, sym,
}
use openmc.Env.{Env}
use openmc.RsHost.{k_data}
use openmc.RsReceiver.{Ctx}
use openmc.RsReceiver.Process.{
  Decoded, forward_received, can_decode, try_decode_generation, count_class, count_latency,
  write_block_row, report, finish_generation,
}
use openmc.RsReceiver.Loops.{Same, forward_received-Same, forward_repaired-Same}
use openmc.RsReceiver.Inv.{
  Arrived, Keeps, received, received-synced, received_mono, decoded, decoded-Keeps, repaired,
  repaired-present, repaired-forwarded, mark-succeeds,
}

pub Keeps-trans : {a b c : Ctx} → Keeps a b → Keeps b c → Keeps a c
Keeps-trans v w = ground arith

Same-Keeps : {a b : Ctx} → Same a b → Keeps a b
Same-Keeps v = ground arith

module _ (env : Env) (decode_rs : List ℕ → List ℕ → Decoded) where
  -- The state after a decoding that was carried out.
  abbrev succeeded : Ctx → Ctx
  succeeded c = record (repaired env decode_rs c) {
    gs = record (repaired env decode_rs c).gs { decode_succeeded = true };
  }

  pub try-succeeded :
      (c : Ctx)
      → can_decode env decode_rs c ≡ true
      → try_decode_generation env decode_rs c ≡ succeeded c
  unfolding try_decode_generation repaired decoded
  try-succeeded c h = rw h (mark-succeeds env decode_rs _ (repaired-present env decode_rs c))

  pub try-refused :
      (c : Ctx) → can_decode env decode_rs c ≡ false → try_decode_generation env decode_rs c ≡ c
  unfolding try_decode_generation
  try-refused c h = rw h

  -- What holds between decoding and the end of `process_generation`.
  pub record Settled (c c' : Ctx) : Type 0 where
    pub keeps : Keeps c c'
    pub synced : (k : ℕ) → k < k_data → c'.gs.data_forwarded k ≡ c'.gs.data_present k
    pub tried : c'.gs.decode_attempted ≡ c'.gs.decode_succeeded
    pub reported : c'.gs.stats_reported ≡ c.gs.stats_reported
    pub mono : (k : ℕ) → c.gs.data_forwarded k ≡ true → k < k_data → c'.gs.data_forwarded k ≡ true

  succeeded-Settled :
      (c : Ctx)
      → ((k : ℕ) → k < k_data → c.gs.data_forwarded k ≡ c.gs.data_present k)
      → Settled c (succeeded c)
  unfolding repaired
  succeeded-Settled c synced =
      let same = forward_repaired-Same env decode_rs 0 k_data (decoded env decode_rs c) in
      let kept = decoded-Keeps env decode_rs c in
      record {
        keeps = ground (arith, same, kept);
        synced = λ k lt.
            repaired-forwarded env decode_rs c k lt (synced k lt)
            ∙ sym (repaired-present env decode_rs c k lt);
        tried = ground (arith, same, kept);
        reported = ground (arith, same, kept);
        mono = λ k h lt. repaired-forwarded env decode_rs c k lt (synced k lt);
      }

  try-Settled :
      (c : Ctx)
      → ((k : ℕ) → k < k_data → c.gs.data_forwarded k ≡ c.gs.data_present k)
      → c.gs.decode_attempted ≡ c.gs.decode_succeeded
      → Settled c (try_decode_generation env decode_rs c)
  try-Settled c synced tried = elim (Bool-cases (can_decode env decode_rs c)) [
    | inl ready ↦ rw (try-succeeded c ready) (succeeded-Settled c synced)
    | inr waits ↦ rw (try-refused c waits) (record {
      keeps = ground arith;
      synced = synced;
      tried = tried;
      reported = refl;
      mono = λ k h lt. h;
    })
  ]

  unfoldable pub settled : Ctx → Ctx
  settled c = try_decode_generation env decode_rs (received env decode_rs c)

  pub settled-Settled : (c : Ctx) → Arrived c.gs → Settled c (settled c)
  unfolding settled
  settled-Settled c v =
      let same = forward_received-Same env decode_rs 0 k_data c in
      let rest : Settled (received env decode_rs c) (settled c) = step same in
      record {
        keeps = Keeps-trans (first same) rest.keeps;
        synced = rest.synced;
        tried = rest.tried;
        reported = rest.reported ∙ kept same;
        mono = λ k h lt. rest.mono k (received_mono env decode_rs c k h) lt;
      }
    where
      first :
          Same c (forward_received env decode_rs 0 k_data c) → Keeps c (received env decode_rs c)
      first s = unfold received in Same-Keeps s

      kept :
          Same c (forward_received env decode_rs 0 k_data c)
          → (received env decode_rs c).gs.stats_reported ≡ c.gs.stats_reported
      kept s = unfold received in s.stats_reported

      same_tried :
          Same c (forward_received env decode_rs 0 k_data c)
          → (received env decode_rs c).gs.decode_attempted
            ≡ (received env decode_rs c).gs.decode_succeeded
      same_tried s = unfold received in s.decode_attempted ∙ v.tried ∙ sym s.decode_succeeded

      step :
          Same c (forward_received env decode_rs 0 k_data c)
          → Settled
              (received env decode_rs c)
              (try_decode_generation env decode_rs (received env decode_rs c))
      step s =
          try-Settled (received env decode_rs c) (λ k lt. received-synced env decode_rs c k lt v)
            (same_tried s)

  count_class-ok :
      (c : Ctx)
      → count_below k_data (λ i. not (c.gs.data_present i)) ≡ 0
      → c.gs.decode_attempted ≡ c.gs.decode_succeeded
      → Keeps c (count_class env decode_rs c) × ((count_class env decode_rs c).gs ≡ c.gs)
  unfolding count_class
  count_class-ok c none_missing tried = ground arith

  count_latency-Keeps :
      (c : Ctx)
      → Keeps c (count_latency env decode_rs c) × ((count_latency env decode_rs c).gs ≡ c.gs)
  unfolding count_latency
  count_latency-Keeps c = ground arith

  write_block_row-Keeps :
      (c : Ctx)
      → Keeps c (write_block_row env decode_rs c) × ((write_block_row env decode_rs c).gs ≡ c.gs)
  unfolding write_block_row
  write_block_row-Keeps c = ground arith

  pub report-ok :
      (c : Ctx)
      → count_below k_data (λ i. not (c.gs.data_present i)) ≡ 0
      → c.gs.decode_attempted ≡ c.gs.decode_succeeded
      → Keeps c (report env decode_rs c) × ((report env decode_rs c).gs ≡ c.gs)
  unfolding report
  report-ok c none_missing tried =
      let one = count_class-ok c none_missing tried in
      let two = count_latency-Keeps (count_class env decode_rs c) in
      let three =
        write_block_row-Keeps (count_latency env decode_rs (count_class env decode_rs c)) in
      (Keeps-trans one.0 (Keeps-trans two.0 three.0), three.1 ∙ two.1 ∙ one.1)

  -- Which way the end of `process_generation` goes.
  pub finish-open :
      (c : Ctx)
      → all_below k_data c.gs.data_forwarded ≡ false
      → finish_generation env decode_rs c ≡ c
  unfolding finish_generation
  finish-open c e = rw e

  pub finish-again :
      (c : Ctx)
      → all_below k_data c.gs.data_forwarded ≡ true
      → c.gs.stats_reported ≡ true
      → finish_generation env decode_rs c ≡ record c { gs = record c.gs { completed = true } }
  unfolding finish_generation
  finish-again c e r = simp (e, r)

  pub finish-first :
      (c : Ctx)
      → all_below k_data c.gs.data_forwarded ≡ true
      → c.gs.stats_reported ≡ false
      → finish_generation env decode_rs c
        ≡ report env decode_rs
            (record c { gs = record c.gs { completed = true; stats_reported = true } })
  unfolding finish_generation
  finish-first c e r = simp (e, r)
