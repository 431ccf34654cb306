-- ===== src/RsReceiver/Recover.antt =====
-- `try_decode_generation` of edge_receiver_rs.c: what is forwarded for the packets that were lost.
use openmc.Common.{
  ℕ, zero, suc, ◌+◌, ◌<◌, ◌≤◌, ◌≡◌, refl, inl, inr, Bool, false, arith, if◌then◌else◌, Bool-cases,
  ◌∙◌, List, [], ◌∷◌,
}
use openmc.Env.{Env, emit}
use openmc.RsReceiver.{Ctx, Forwarded, row, deliver, ip_hdr_size}
use openmc.RsReceiver.Process.{Decoded, forward_repaired}
use openmc.RsReceiver.Loops.{Same, deliver-Same, deliver-marks}

-- The packets that a generation lacks, in the order of their indices.
abbrev pub missing_packets : ℕ → ℕ → (ℕ → Bool) → (ℕ → List ℕ) → List Forwarded
missing_packets i zero present packet = []
missing_packets i (suc n) present packet =
    let rest = missing_packets (suc i) n present packet in
    if present i then rest else record { bytes = packet i; is_original = false } ∷ rest

missing_packets_ext :
    (i n : ℕ) (p q : ℕ → Bool) (packet : ℕ → List ℕ)
    → ((k : ℕ) → i ≤ k → p k ≡ q k)
    → missing_packets i n p packet ≡ missing_packets i n q packet
missing_packets_ext i zero p q packet h = refl
missing_packets_ext i (suc n) p q packet h =
    ground (
      arith,
      h i (omega arith),
      missing_packets_ext (suc i) n p q packet (λ k le. h k (omega arith)),
    )

module _ (env : Env) where
  open env use {send_ok}

  pub deliver-output :
      (i : ℕ) (flag : Bool) (c : Ctx)
      → ip_hdr_size ≤ c.gs.original_len
      → ((deliver env i flag c).rc.output ≡ (
          if send_ok c.rc.sends
          then record { bytes = row c.gs i; is_original = flag } ∷ c.rc.output
          else c.rc.output))
        × ((deliver env i flag c).rc.sends ≡ suc c.rc.sends)
  unfolding deliver
  deliver-output i flag c le = ground arith

module _ (env : Env) (decode_rs : List ℕ → List ℕ → Decoded) where
  pub forward_repaired-output :
      (i n : ℕ) (packet : ℕ → List ℕ) (c : Ctx)
      → ip_hdr_size ≤ c.gs.original_len
      → ((k : ℕ) → k < i + n → row c.gs k ≡ packet k)
      → (forward_repaired env decode_rs i n c).rc.output
        ≡ emit env c.rc.sends (missing_packets i n c.gs.data_present packet) c.rc.output
  unfolding forward_repaired
  forward_repaired-output i zero packet c le same = refl
  forward_repaired-output i (suc n) packet c le same = elim (Bool-cases (c.gs.data_present i)) [
    | inl there ↦
        simp there (forward_repaired-output (suc i) n packet c le (λ k lt. same k (omega arith)))
    | inr lost ↦ simp lost (
        forward_repaired-output (suc i) n packet sent (omega (arith, kept.original_len))
          (λ k lt. rw (kept.original_len, kept.rows) (same k (omega arith)))
        ∙ ground (
          arith,
          deliver-output env i false c le,
          same i (omega arith),
          missing_packets_ext (suc i) n sent.gs.data_present c.gs.data_present packet later,
        ))
  ]
    where
      sent : Ctx
      sent = deliver env i false c

      kept : Same c sent
      kept = deliver-Same env i false c

      later : (k : ℕ) → suc i ≤ k → sent.gs.data_present k ≡ c.gs.data_present k
      later k h = ground (arith, deliver-marks env i false c k)
