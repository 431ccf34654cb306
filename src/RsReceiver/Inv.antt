-- ===== src/RsReceiver/Inv.antt =====
-- What holds of an entry of the table of generations in edge_receiver_rs.c between two fragments.
use openmc.Common.{
  ℕ, ◌<◌, ◌≤◌, ◌≡◌, refl, ◌⊎◌, true, false, not, arith, List, all_below, count_below-zero, ap,
}
use openmc.Env.{Env}
use openmc.RsHost.{k_data, max_pkt_len}
use openmc.RsReceiver.{GenState, Ctx, cleared}
use openmc.RsReceiver.Process.{
  Decoded, forward_received, forward_repaired, count_consumed, run_decoder, mark_succeeded,
}
use openmc.RsReceiver.Loops.{forward_received-marks, forward_repaired-marks}

-- Every packet that is there was forwarded and no other; a decoding that was tried counts as having
-- succeeded; a generation is reported once all its packets were forwarded, and not before.
pub record GenOk (gs : GenState) : Type 0 where
  pub synced : (k : ℕ) → k < k_data → gs.data_forwarded k ≡ gs.data_present k
  pub tried : gs.decode_attempted ≡ gs.decode_succeeded
  pub reported : gs.stats_reported ≡ all_below k_data gs.data_forwarded
  pub len_le : gs.original_len ≤ max_pkt_len

-- The same with a packet that was just received.
pub record Arrived (gs : GenState) : Type 0 where
  pub sub : (k : ℕ) → k < k_data → (gs.data_forwarded k ≡ false) ⊎ (gs.data_present k ≡ true)
  pub tried : gs.decode_attempted ≡ gs.decode_succeeded
  pub reported : gs.stats_reported ≡ all_below k_data gs.data_forwarded
  pub len_le : gs.original_len ≤ max_pkt_len

pub GenOk-Arrived : (gs : GenState) → GenOk gs → Arrived gs
GenOk-Arrived gs v = record {
  sub = λ k lt. ground (arith, v.synced k lt);
  tried = v.tried;
  reported = v.reported;
  len_le = v.len_le;
}

pub cleared-GenOk : GenOk cleared
cleared-GenOk = record {
  synced = λ k lt. refl;
  tried = refl;
  reported = refl;
  len_le = omega arith;
}

-- What the two halves of `process_generation` keep of a context.
pub record Keeps (c c' : Ctx) : Type 0 where
  pub in_use : c'.gs.in_use ≡ c.gs.in_use
  pub gen_id : c'.gs.gen_id ≡ c.gs.gen_id
  pub original_len : c'.gs.original_len ≡ c.gs.original_len
  pub gens : c'.rc.gens ≡ c.rc.gens
  pub failed : c'.rc.counters.generations_decode_failed ≡ c.rc.counters.generations_decode_failed
  pub repairs : c'.rc.parity_symbols ≡ c.rc.parity_symbols

module _ (env : Env) (decode_rs : List ℕ → List ℕ → Decoded) where
  unfoldable pub received : Ctx → Ctx
  received c = forward_received env decode_rs 0 k_data c

  pub received-synced :
      (c : Ctx) (k : ℕ)
      → k < k_data
      → Arrived c.gs
      → (received c).gs.data_forwarded k ≡ (received c).gs.data_present k
  unfolding received
  received-synced c k lt v =
      ground (arith, forward_received-marks env decode_rs 0 k_data c k, v.sub k lt)

  pub received_mono :
      (c : Ctx) (k : ℕ) → c.gs.data_forwarded k ≡ true → (received c).gs.data_forwarded k ≡ true
  unfolding received
  received_mono c k h = ground (arith, forward_received-marks env decode_rs 0 k_data c k)

  -- The state in which the decoder's result is forwarded, and what is left of it.
  unfoldable pub decoded : Ctx → Ctx
  decoded c = run_decoder env decode_rs (count_consumed env decode_rs c)

  pub decoded-Keeps :
      (c : Ctx)
      → Keeps c (decoded c)
        × ((decoded c).gs.decode_attempted ≡ true)
        × ((decoded c).gs.data_present ≡ c.gs.data_present)
        × ((decoded c).gs.data_forwarded ≡ c.gs.data_forwarded)
        × ((decoded c).gs.stats_reported ≡ c.gs.stats_reported)
  unfolding decoded run_decoder count_consumed
  decoded-Keeps c = ground arith

  unfoldable pub repaired : Ctx → Ctx
  repaired c = forward_repaired env decode_rs 0 k_data (decoded c)

  pub repaired-present : (c : Ctx) (k : ℕ) → k < k_data → (repaired c).gs.data_present k ≡ true
  unfolding repaired
  repaired-present c k lt =
      ground (arith, forward_repaired-marks env decode_rs 0 k_data (decoded c) k)

  pub repaired-forwarded :
      (c : Ctx) (k : ℕ)
      → k < k_data
      → c.gs.data_forwarded k ≡ c.gs.data_present k
      → (repaired c).gs.data_forwarded k ≡ true
  unfolding repaired
  repaired-forwarded c k lt e = ground (
    arith,
    forward_repaired-marks env decode_rs 0 k_data (decoded c) k,
    ap (λ f. f k) (decoded-Keeps c).2,
    ap (λ f. f k) (decoded-Keeps c).3,
  )

  pub mark-succeeds :
      (c : Ctx)
      → ((k : ℕ) → k < k_data → c.gs.data_present k ≡ true)
      → mark_succeeded env decode_rs c ≡ record c { gs = record c.gs { decode_succeeded = true } }
  unfolding mark_succeeded
  mark-succeeds c h =
      rw (count_below-zero k_data (λ i. not (c.gs.data_present i)) (λ k lt. rw (h k lt)))
