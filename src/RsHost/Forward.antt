-- ===== src/RsHost/Forward.antt =====
-- `handle_ip_packet` of openmc_rs.c, branch by branch: the invariant, the datagram of each packet,
-- and the bounds of the copy.
use openmc.Common.{
  ℕ, ◌+◌, ◌≤◌, ◌<◌, ◌≡◌, ◌⊎◌, inl, inr, List, ◌∷◌, arith, if◌then◌else◌, length, ◌∙◌,
}
use openmc.Env.{Env}
use openmc.RsHost.{
  Host, k_data, max_pkt_len, mark_generation_ready, store_packet, complete_generation,
  send_original, handle_ip_packet, fragment_datagram,
}
use openmc.RsHost.Inv.{
  IsFull, IsValid, next_gen, next_index, next_index-lt, prepared, stored, handle-stored,
  IsBadLength, valid_length-cases, handle-bad,
}

mark-pending : (g : _) (h : Host) → IsFull g → IsValid h → IsValid (mark_generation_ready g h)
unfolding mark_generation_ready
mark-pending g h f v = ground arith

wire_complete : (h : Host) → (complete_generation h).wire ≡ h.wire
unfolding complete_generation
wire_complete h = ground arith

module _ (env : Env) (encode_rs : List ℕ → List ℕ) where
  open env use {send_ok}

  pub stored-cur_gen :
      (pkt : List ℕ) (t_nfq : ℕ) (h : Host)
      → (stored env encode_rs pkt t_nfq h).cur_gen
        ≡ (store_packet pkt (prepared (length pkt) h)).cur_gen
  unfolding send_original store_packet
  stored-cur_gen pkt t_nfq h = ground arith

  pub stored-pending :
      (pkt : List ℕ) (t_nfq : ℕ) (h : Host)
      → ((stored env encode_rs pkt t_nfq h).pending_rs ≡ h.pending_rs)
        × ((stored env encode_rs pkt t_nfq h).pending_gen ≡ h.pending_gen)
        × ((stored env encode_rs pkt t_nfq h).parity_symbols ≡ h.parity_symbols)
        × ((stored env encode_rs pkt t_nfq h).rs_dropped ≡ h.rs_dropped)
  unfolding send_original store_packet
  stored-pending pkt t_nfq h = ground arith

  stored-wire :
      (pkt : List ℕ) (t_nfq : ℕ) (h : Host)
      → length pkt ≤ max_pkt_len
      → next_index (length pkt) h < k_data
      → (stored env encode_rs pkt t_nfq h).wire ≡ (
          if send_ok h.sends
          then fragment_datagram
              (next_gen (length pkt) h)
              (next_index (length pkt) h)
              0
              (length pkt)
              pkt
            ∷ h.wire
          else h.wire)
  unfolding send_original store_packet
  stored-wire pkt t_nfq h le lt = ground arith

  stored-IsFull :
      (pkt : List ℕ) (t_nfq : ℕ) (h : Host)
      → IsValid h
      → 0 < length pkt
      → length pkt ≤ max_pkt_len
      → next_index (length pkt) h + 1 ≡ k_data
      → IsFull (stored env encode_rs pkt t_nfq h).cur_gen
  unfolding store_packet
  stored-IsFull pkt t_nfq h v pos le e = rw (stored-cur_gen pkt t_nfq h) (ground arith)

  complete-stored-IsValid :
      (pkt : List ℕ) (t_nfq : ℕ) (h : Host)
      → IsValid h
      → 0 < length pkt
      → length pkt ≤ max_pkt_len
      → IsValid (complete_generation (stored env encode_rs pkt t_nfq h))
  unfolding complete_generation mark_generation_ready store_packet
  complete-stored-IsValid pkt t_nfq h v pos le = ground (
    arith,
    stored-cur_gen pkt t_nfq h,
    stored-pending pkt t_nfq h,
    next_index-lt (length pkt) h v,
  )

  -- The packet handler keeps the host's invariant, whatever the packet: fewer than eight packets are
  -- stored between two calls, lengths and generation numbers stay in range, and a pending
  -- generation is full.
  pub handle_ip_packet-IsValid :
      (pkt : List ℕ) (t_nfq : ℕ) (h : Host)
      → IsValid h
      → IsValid (handle_ip_packet env encode_rs pkt t_nfq h)
  handle_ip_packet-IsValid pkt t_nfq h v = elim (valid_length-cases (length pkt)) [
    | inl bad ↦ rw (handle-bad env encode_rs pkt t_nfq h bad) v
    | inr (pos, le) ↦
        rw (handle-stored env encode_rs pkt t_nfq h v pos le)
          (complete-stored-IsValid pkt t_nfq h v pos le)
  ]

  -- From a state that satisfies the invariant, a packet of a length outside 1..1500 changes nothing
  -- at all, and no other length is refused: a packet of a length in 1..1500 is sent at once, and once,
  -- as a data fragment that carries its generation, its index below eight and the packet, provided that
  -- `sendto` takes it.
  pub handle_ip_packet-wire :
      (pkt : List ℕ) (t_nfq : ℕ) (h : Host)
      → IsValid h
      → ((IsBadLength (length pkt)) × (handle_ip_packet env encode_rs pkt t_nfq h ≡ h))
        ⊎ ((0 < length pkt)
            × (length pkt ≤ max_pkt_len)
            × (next_index (length pkt) h < k_data)
            × ((handle_ip_packet env encode_rs pkt t_nfq h).wire ≡ (
                if send_ok h.sends
                then fragment_datagram
                    (next_gen (length pkt) h)
                    (next_index (length pkt) h)
                    0
                    (length pkt)
                    pkt
                  ∷ h.wire
                else h.wire)))
  handle_ip_packet-wire pkt t_nfq h v = elim (valid_length-cases (length pkt)) [
    | inl bad ↦ inl (bad, handle-bad env encode_rs pkt t_nfq h bad)
    | inr (pos, le) ↦ inr (
      pos,
      le,
      next_index-lt (length pkt) h v,
      rw (handle-stored env encode_rs pkt t_nfq h v pos le) (
          wire_complete (stored env encode_rs pkt t_nfq h)
          ∙ stored-wire pkt t_nfq h le (next_index-lt (length pkt) h v)),
    )
  ]
