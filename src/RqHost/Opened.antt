-- ===== src/RqHost/Opened.antt =====
-- A block of the RaptorQ processing host that was opened for packets of one length.
use openmc.Common.{ℕ, ◌*◌, ◌≤◌, ◌≡◌, refl, ap, [], tabulate, update_self, arith}
use openmc.Env.{Env}
use openmc.Decision.{DecisionOps}
use openmc.RqHost.{RqHost, RqCodec, max_pkt_len, alloc_new_block}
use openmc.RqHost.Packet.{size_block, open_block}
use openmc.RqHost.Sent.{Sent}
use openmc.RqHost.Fill.{Holding}

module _ {S M : Type 0} (ops : DecisionOps S M) where
  -- The number of repair symbols decided for a block that starts.
  abbrev pub plan_of : ℕ → ℕ → S → ℕ
  plan_of id k st =
      ops.decide_repairs
        (record {
          block_id = id;
          k = k;
          repairs_planned = 0;
          repairs_sent = 0;
          data_sent_bytes = 0;
        })
        st

module _ {S M : Type 0} (env : Env) (codec : RqCodec) (ops : DecisionOps S M) (bs len : ℕ) where
  -- The new block, with its memory and its object.
  abbrev pub opened : RqHost S M → RqHost S M
  opened h =
      open_block env codec ops ((alloc_new_block h).0)
        (size_block env codec ops ((alloc_new_block h).0) bs len (alloc_new_block h).1)

  open-plan :
      (i : ℕ) (h : RqHost S M)
      → ((open_block env codec ops i h).blocks i).repairs_to_send
        ≡ plan_of ops (h.blocks i).block_id (h.blocks i).k h.decision
  unfolding open_block
  open-plan i h = ap (λ b. b.repairs_to_send) (update_self h.blocks i _)

  sized-fields :
      (h : RqHost S M)
      → let b =
          (size_block env codec ops ((alloc_new_block h).0) bs len (alloc_new_block h).1).blocks
            ((alloc_new_block h).0) in
        (b.block_id ≡ h.next_block_id) × (b.k ≡ bs)
  unfolding alloc_new_block size_block
  sized-fields h = (ground arith, ground arith)

  sized-decision :
      (h : RqHost S M)
      → (size_block env codec ops ((alloc_new_block h).0) bs len (alloc_new_block h).1).decision
        ≡ h.decision
  unfolding alloc_new_block size_block
  sized-decision h = refl

  opened-reps :
      (h : RqHost S M)
      → ((opened h).blocks ((alloc_new_block h).0)).repairs_to_send
        ≡ plan_of ops h.next_block_id bs h.decision
  opened-reps h =
      rw
        (
          open-plan ((alloc_new_block h).0)
              (size_block env codec ops ((alloc_new_block h).0) bs len (alloc_new_block h).1),
          (sized-fields h).0,
          (sized-fields h).1,
          sized-decision h,
        )
        refl

  pub opened-Holding :
      (h : RqHost S M)
      → len ≤ max_pkt_len
      → Holding h.next_block_id len
          (plan_of ops h.next_block_id bs h.decision)
          0
          []
          ((opened h).blocks ((alloc_new_block h).0))
  unfolding alloc_new_block size_block open_block
  opened-Holding h len_le = record {
    id_is = ground arith;
    len_is = ground (arith, len_le);
    reps_are = opened-reps h;
    count = ground arith;
    bytes_are = ap (λ n. tabulate n ((opened h).blocks ((alloc_new_block h).0)).data_buf) empty;
  }
    where
      empty : 0 * len ≡ 0
      empty = omega arith

  pub opened-Sent : (h : RqHost S M) → Sent S M env h (opened h) [] 0
  unfolding alloc_new_block size_block open_block
  opened-Sent h = record { sends = omega arith; symbols = omega arith; wire = refl }

  pub opened-symbols : (h : RqHost S M) → (opened h).symbols ≡ h.symbols
  unfolding alloc_new_block size_block open_block
  opened-symbols h = refl
