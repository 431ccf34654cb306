-- ===== src/RsReceiver/Loops.antt =====
-- The two forwarding loops of edge_receiver_rs.c: which packets they mark, and what they leave alone.
use openmc.Common.{
  ℕ, zero, suc, ◌+◌, ◌≡◌, refl, inl, inr, Bool, true, false, ◌&&◌, ◌||◌, not, arith, ltb, leb, ◌==◌,
  if◌then◌else◌, Bool-cases, List,
}
use openmc.Env.{Env}
use openmc.RsReceiver.{Ctx, deliver}
use openmc.RsReceiver.Process.{Decoded, forward_received, forward_repaired}

-- What forwarding leaves alone.
pub record Same (c c' : Ctx) : Type 0 where
  pub in_use : c'.gs.in_use ≡ c.gs.in_use
  pub gen_id : c'.gs.gen_id ≡ c.gs.gen_id
  pub original_len : c'.gs.original_len ≡ c.gs.original_len
  pub rows : c'.gs.rows ≡ c.gs.rows
  pub parity : c'.gs.parity ≡ c.gs.parity
  pub parity_present : c'.gs.parity_present ≡ c.gs.parity_present
  pub completed : c'.gs.completed ≡ c.gs.completed
  pub stats_reported : c'.gs.stats_reported ≡ c.gs.stats_reported
  pub decode_attempted : c'.gs.decode_attempted ≡ c.gs.decode_attempted
  pub decode_succeeded : c'.gs.decode_succeeded ≡ c.gs.decode_succeeded
  pub counted : c'.gs.parity_consumed_counted ≡ c.gs.parity_consumed_counted
  pub gens : c'.rc.gens ≡ c.rc.gens
  pub counters : c'.rc.counters ≡ c.rc.counters
  pub repairs : c'.rc.parity_symbols ≡ c.rc.parity_symbols

Same-refl : (c : Ctx) → Same c c
Same-refl c = ground arith

pub Same-trans : {a b c : Ctx} → Same a b → Same b c → Same a c
Same-trans v w = ground arith

module _ (env : Env) where
  pub deliver-Same : (i : ℕ) (flag : Bool) (c : Ctx) → Same c (deliver env i flag c)
  unfolding deliver
  deliver-Same i flag c = ground arith

  pub deliver-marks :
      (i : ℕ) (flag : Bool) (c : Ctx) (k : ℕ)
      → ((deliver env i flag c).gs.data_present k ≡ (if k == i then true else c.gs.data_present k))
        × ((deliver env i flag c).gs.data_forwarded k
            ≡ (if k == i then true else c.gs.data_forwarded k))
  unfolding deliver
  deliver-marks i flag c k = (refl, refl)

abbrev pub within : ℕ → ℕ → ℕ → Bool
within i n k = leb i k && ltb k (i + n)

module _ (env : Env) (decode_rs : List ℕ → List ℕ → Decoded) where
  abbrev received_step : ℕ → Ctx → Ctx
  received_step i c =
      if c.gs.data_present i && not (c.gs.data_forwarded i) then deliver env i true c else c

  received_step-marks :
      (i : ℕ) (c : Ctx) (k : ℕ)
      → ((received_step i c).gs.data_present k ≡ c.gs.data_present k)
        × ((received_step i c).gs.data_forwarded k ≡ (
            if k == i then c.gs.data_forwarded k || c.gs.data_present k else c.gs.data_forwarded k))
  received_step-marks i c k = ground (arith, deliver-marks env i true c k)

  received_step-Same : (i : ℕ) (c : Ctx) → Same c (received_step i c)
  received_step-Same i c = elim (Bool-cases (c.gs.data_present i && not (c.gs.data_forwarded i))) [
    | inl e ↦ rw e (deliver-Same env i true c)
    | inr e ↦ rw e (Same-refl c)
  ]

  pub forward_received-Same : (i n : ℕ) (c : Ctx) → Same c (forward_received env decode_rs i n c)
  unfolding forward_received
  forward_received-Same i zero c = Same-refl c
  forward_received-Same i (suc n) c =
      Same-trans (received_step-Same i c) (forward_received-Same (suc i) n (received_step i c))

  -- The received packets of the range are marked as forwarded, and nothing else is marked.
  pub forward_received-marks :
      (i n : ℕ) (c : Ctx) (k : ℕ)
      → ((forward_received env decode_rs i n c).gs.data_present k ≡ c.gs.data_present k)
        × ((forward_received env decode_rs i n c).gs.data_forwarded k ≡ (
            if within i n k
            then c.gs.data_forwarded k || c.gs.data_present k
            else c.gs.data_forwarded k))
  unfolding forward_received
  forward_received-marks i zero c k = ground arith
  forward_received-marks i (suc n) c k =
      ground
        (arith, received_step-marks i c k, forward_received-marks (suc i) n (received_step i c) k)

  abbrev repaired_step : ℕ → Ctx → Ctx
  repaired_step i c = if c.gs.data_present i then c else deliver env i false c

  repaired_step-marks :
      (i : ℕ) (c : Ctx) (k : ℕ)
      → ((repaired_step i c).gs.data_present k ≡ (if k == i then true else c.gs.data_present k))
        × ((repaired_step i c).gs.data_forwarded k
            ≡ (if (k == i) && not (c.gs.data_present k) then true else c.gs.data_forwarded k))
  repaired_step-marks i c k = ground (arith, deliver-marks env i false c k)

  repaired_step-Same : (i : ℕ) (c : Ctx) → Same c (repaired_step i c)
  repaired_step-Same i c = elim (Bool-cases (c.gs.data_present i)) [
    | inl e ↦ simp e (Same-refl c)
    | inr e ↦ simp e (deliver-Same env i false c)
  ]

  pub forward_repaired-Same : (i n : ℕ) (c : Ctx) → Same c (forward_repaired env decode_rs i n c)
  unfolding forward_repaired
  forward_repaired-Same i zero c = Same-refl c
  forward_repaired-Same i (suc n) c =
      Same-trans (repaired_step-Same i c) (forward_repaired-Same (suc i) n (repaired_step i c))

  -- The missing packets of the range are marked as there and forwarded, and nothing else is marked.
  pub forward_repaired-marks :
      (i n : ℕ) (c : Ctx) (k : ℕ)
      → ((forward_repaired env decode_rs i n c).gs.data_present k
          ≡ (if within i n k then true else c.gs.data_present k))
        × ((forward_repaired env decode_rs i n c).gs.data_forwarded k
            ≡ (if within i n k && not (c.gs.data_present k) then true else c.gs.data_forwarded k))
  unfolding forward_repaired
  forward_repaired-marks i zero c k = ground arith
  forward_repaired-marks i (suc n) c k =
      ground
        (arith, repaired_step-marks i c k, forward_repaired-marks (suc i) n (repaired_step i c) k)
