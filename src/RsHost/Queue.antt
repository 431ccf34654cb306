-- ===== src/RsHost/Queue.antt =====
-- The slot for a completed generation between the callback and the receive loop of openmc_rs.c.
use openmc.Common.{
  ℕ, suc, ◌+◌, ◌≤◌, ◌<◌, ◌≡◌, refl, ◌⊎◌, inl, inr, false, Option, none, some, List, [], ◌∷◌, arith,
  length, subst, Bool-cases,
}
use openmc.Env.{Env}
use openmc.RsHost.{
  Host, k_data, max_parity, complete_generation, mark_generation_ready, store_packet,
  handle_ip_packet,
}
use openmc.RsHost.Loop.{
  boot, note_interception, nfq_cb, nfq_handle_packet, flush_pending, receive_loop,
}
use openmc.RsHost.Inv.{IsValid, valid_length-cases, stored, handle-stored, handle-bad, next_index}
use openmc.RsHost.Forward.{handle_ip_packet-IsValid, stored-cur_gen, stored-pending}
use openmc.RsHost.Parity.{flush-cur}

-- The state after `m` packets of one buffer, none of whose generations was dropped: if the slot is
-- taken, the generation under way began after it was filled.
record Within (m d : ℕ) (h : Host) : Type 0 where
  valid : IsValid h
  dropped : h.rs_dropped ≡ d
  room : (h.pending_rs ≡ false) ⊎ (h.cur_gen.count + 1 ≤ m)

pub boot-IsValid : (r : ℕ) → r ≤ max_parity → IsValid (boot r)
unfolding boot
boot-IsValid r le = ground arith

boot-idle : (r : ℕ) → ((boot r).rs_dropped ≡ 0) × ((boot r).pending_rs ≡ false)
unfolding boot
boot-idle r = (refl, refl)

-- No buffer carries more than eight packets.
abbrev pub AllShort : List (List (Option (List ℕ))) → Type 0
AllShort [] = Unit
AllShort (batch ∷ rest) = (length batch ≤ k_data) × AllShort rest

next_index-le : (len : ℕ) (h : Host) → next_index len h ≤ h.cur_gen.count
next_index-le len h = ground arith

module _ (env : Env) (encode_rs : List ℕ → List ℕ) where
  stored-room :
      (pkt : List ℕ) (t_nfq m d : ℕ) (h : Host)
      → Within m d h
      → m < k_data
      → ((complete_generation (stored env encode_rs pkt t_nfq h)).rs_dropped ≡ d)
        × (((complete_generation (stored env encode_rs pkt t_nfq h)).pending_rs ≡ false)
            ⊎ ((complete_generation (stored env encode_rs pkt t_nfq h)).cur_gen.count + 1 ≤ suc m))
  unfolding complete_generation mark_generation_ready store_packet
  stored-room pkt t_nfq m d h w lt = ground (
    arith,
    w.dropped,
    w.room,
    stored-cur_gen env encode_rs pkt t_nfq h,
    stored-pending env encode_rs pkt t_nfq h,
    next_index-le (length pkt) h,
  )

  handle-Within :
      (pkt : List ℕ) (t_nfq m d : ℕ) (h : Host)
      → Within m d h
      → m < k_data
      → Within (suc m) d (handle_ip_packet env encode_rs pkt t_nfq h)
  handle-Within pkt t_nfq m d h w lt = record {
    valid = handle_ip_packet-IsValid env encode_rs pkt t_nfq h w.valid;
    dropped = both.0;
    room = both.1;
  }
    where
      both :
          ((handle_ip_packet env encode_rs pkt t_nfq h).rs_dropped ≡ d)
          × (((handle_ip_packet env encode_rs pkt t_nfq h).pending_rs ≡ false)
              ⊎ ((handle_ip_packet env encode_rs pkt t_nfq h).cur_gen.count + 1 ≤ suc m))
      both = elim (valid_length-cases (length pkt)) [
        | inl bad ↦
            rw (handle-bad env encode_rs pkt t_nfq h bad) (ground (arith, w.dropped, w.room))
        | inr (pos, le) ↦
            rw (handle-stored env encode_rs pkt t_nfq h w.valid pos le)
              (stored-room pkt t_nfq m d h w lt)
      ]

  note-Within : (m d : ℕ) (h : Host) → Within m d h → Within m d (note_interception env encode_rs h)
  unfolding note_interception
  note-Within m d h w = record {
    valid = ground (arith, w.valid);
    dropped = w.dropped;
    room = w.room;
  }

  cb-Within :
      (p : Option (List ℕ)) (m d : ℕ) (h : Host)
      → Within m d h
      → m < k_data
      → Within (suc m) d (nfq_cb env encode_rs p h)
  unfolding nfq_cb
  cb-Within none m d h w lt =
      let n = note-Within m d h w in
      record { valid = n.valid; dropped = n.dropped; room = ground (arith, n.room) }
  cb-Within (some pkt) m d h w lt = handle-Within pkt _ m d _ (note-Within m d h w) lt

  batch-Within :
      (ps : List (Option (List ℕ))) (m d : ℕ) (h : Host)
      → Within m d h
      → m + length ps ≤ k_data
      → Within (m + length ps) d (nfq_handle_packet env encode_rs ps h)
  unfolding nfq_handle_packet
  batch-Within [] m d h w le = subst (λ k. Within k d h) (omega arith) w
  batch-Within (p ∷ ps) m d h w le =
      subst (λ k. Within k d (nfq_handle_packet env encode_rs ps (nfq_cb env encode_rs p h)))
        (omega arith)
        (batch-Within ps (suc m) d _ (cb-Within p m d h w (omega arith)) (omega arith))

  flush-Within : (m d : ℕ) (h : Host) → Within m d h → Within 0 d (flush_pending env encode_rs h)
  unfolding flush_pending
  flush-Within m d h w = elim (Bool-cases h.pending_rs) [
    | inl busy ↦ simp busy (
        let same = flush-cur env encode_rs h.pending_gen h in
        record {
          valid = ground (arith, w.valid, same);
          dropped = ground (arith, w.dropped, same);
          room = inl refl;
        })
    | inr idle ↦ simp idle (record { valid = w.valid; dropped = w.dropped; room = inl idle })
  ]

  loop-Within :
      (batches : List (List (Option (List ℕ)))) (d : ℕ) (h : Host)
      → AllShort batches
      → Within 0 d h
      → Within 0 d (receive_loop env encode_rs batches h)
  unfolding receive_loop
  loop-Within [] d h short w = w
  loop-Within (batch ∷ rest) d h short w =
      loop-Within rest d _ short.1
        (flush-Within (0 + length batch) d _ (batch-Within batch 0 d h w (omega (arith, short.0))))

  -- From the start of the program, if no buffer that `recv` delivers carries more than eight packets,
  -- the host never drops a completed generation for want of the slot, the invariant holds, and the
  -- slot is free whenever the loop waits for the next buffer.
  pub receive_loop-no_drop :
      (repairs : ℕ) (batches : List (List (Option (List ℕ))))
      → repairs ≤ max_parity
      → AllShort batches
      → ((receive_loop env encode_rs batches (boot repairs)).rs_dropped ≡ 0)
        × IsValid (receive_loop env encode_rs batches (boot repairs))
        × ((receive_loop env encode_rs batches (boot repairs)).pending_rs ≡ false)
  receive_loop-no_drop repairs batches le short = (w.dropped, w.valid, ground (arith, w.room))
    where
      start : Within 0 0 (boot repairs)
      start = record {
        valid = boot-IsValid repairs le;
        dropped = (boot-idle repairs).0;
        room = inl ((boot-idle repairs).1);
      }

      w : Within 0 0 (receive_loop env encode_rs batches (boot repairs))
      w = loop-Within batches 0 (boot repairs) short start
