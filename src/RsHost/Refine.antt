-- ===== src/RsHost/Refine.antt =====
-- The packet handler of openmc_rs.c refines the collector of generations.
use openmc.Common.{
  ℕ, ◌*◌, ◌≤◌, ◌<◌, ◌≡◌, refl, ◌⊎◌, inl, inr, true, false, List, [], ◌≢◌, arith, ◌==◌, length, ltb,
  if◌then◌else◌, add64, lt→ltb, cell-lt, Bool-cases, ◌∙◌,
}
use openmc.Env.{Env}
use openmc.RsHost.{
  Host, GenerationState, k_data, max_pkt_len, mark_generation_ready, complete_generation,
  handle_ip_packet,
}
use openmc.RsHost.Inv.{IsValid, stored, handle-stored}
use openmc.RsHost.Forward.{stored-cur_gen, stored-pending}
use openmc.RsHost.Collect.{Collector, Holds, add_packet, rest_of, store-slot, slot-Holds}

-- An emptied buffer holds no packet.
Holds-empty :
    (g : GenerationState) (c : Collector)
    → g.gen_id ≡ c.gen
    → Holds (record g { count = 0; original_len = 0 }) (record c { packets = [] })
Holds-empty g c e = record {
  id = e;
  number = refl;
  lens = λ i h. absurd (omega arith);
  bytes = λ i j h k. absurd (omega arith);
}

-- The copy for the encoder holds what the buffer held.
Holds-copy :
    (g : GenerationState) (old : ℕ → ℕ) (c : Collector)
    → Holds g c
    → g.count ≡ k_data
    → Holds
        (record {
          gen_id = g.gen_id;
          count = g.count;
          original_len = g.original_len;
          data_buf = λ k. if ltb k (k_data * g.original_len) then g.data_buf k else old k;
        })
        c
Holds-copy g old c v full = record {
  id = v.id;
  number = v.number;
  lens = v.lens;
  bytes = λ i j h k.
      rw (lt→ltb _ _ (cell-lt i k_data j g.original_len (omega (arith, v.number)) k))
        (v.bytes i j h k);
}

-- What `complete_generation` does to a state whose buffer holds `c`.
pub record Completed (h h' : Host) (c : Collector) : Type 0 where
  pub cur : Holds h'.cur_gen (rest_of c)
  pub handed :
      ((length c.packets ≢ k_data)
        × (h'.pending_gen ≡ h.pending_gen)
        × (h'.pending_rs ≡ h.pending_rs)
        × (h'.rs_dropped ≡ h.rs_dropped))
      ⊎ ((length c.packets ≡ k_data)
          × (h.pending_rs ≡ true)
          × (h'.pending_gen ≡ h.pending_gen)
          × (h'.rs_dropped ≡ add64 h.rs_dropped 1))
      ⊎ ((length c.packets ≡ k_data)
          × (h.pending_rs ≡ false)
          × (h'.pending_rs ≡ true)
          × (h'.rs_dropped ≡ h.rs_dropped)
          × Holds h'.pending_gen c)

complete-Completed :
    (h : Host) (c : Collector) → Holds h.cur_gen c → Completed h (complete_generation h) c
unfolding complete_generation mark_generation_ready
complete-Completed h c v = elim (Bool-cases (length c.packets == k_data)) [
  | inl full ↦ elim (Bool-cases h.pending_rs) [
    | inl busy ↦ record {
      cur = rw (full, is_full full, busy) (Holds-empty h.cur_gen c v.id);
      handed =
          inr (
            inl
              (omega (arith, eight full), busy, rw (is_full full, busy), rw (is_full full, busy)));
    }
    | inr idle ↦ record {
      cur = rw (full, is_full full, idle) (Holds-empty h.cur_gen c v.id);
      handed = inr (
          inr (
            omega (arith, eight full),
            idle,
            rw (is_full full, idle),
            rw (is_full full, idle),
            rw (is_full full, idle)
                (Holds-copy h.cur_gen h.pending_gen.data_buf c v (v.number ∙ eight full)),
          ));
    }
  ]
  | inr more ↦ record {
    cur = rw (more, not_full more) v;
    handed = inl (ground arith, rw (not_full more), rw (not_full more), rw (not_full more));
  }
]
  where
    eight : (length c.packets == k_data) ≡ true → length c.packets ≡ k_data
    eight e = ground arith

    is_full : (length c.packets == k_data) ≡ true → (h.cur_gen.count == k_data) ≡ true
    is_full e = ground (arith, v.number)

    not_full : (length c.packets == k_data) ≡ false → (h.cur_gen.count == k_data) ≡ false
    not_full e = ground (arith, v.number)

module _ (env : Env) (encode_rs : List ℕ → List ℕ) where
  stored-Holds :
      (pkt : List ℕ) (t_nfq : ℕ) (h : Host) (c : Collector)
      → Holds h.cur_gen c
      → Holds (stored env encode_rs pkt t_nfq h).cur_gen (add_packet pkt c)
  stored-Holds pkt t_nfq h c v =
      rw (stored-cur_gen env encode_rs pkt t_nfq h, store-slot pkt h)
        (slot-Holds pkt h c.gen c.packets v)

  handled :
      (pkt : List ℕ) (t_nfq : ℕ) (h : Host) (c : Collector)
      → Holds h.cur_gen c
      → Completed
          (stored env encode_rs pkt t_nfq h)
          (complete_generation (stored env encode_rs pkt t_nfq h))
          (add_packet pkt c)
  handled pkt t_nfq h c v = complete-Completed _ _ (stored-Holds pkt t_nfq h c v)

  -- A packet of a valid length leaves the buffer holding what the collector holds; if it makes a
  -- generation of eight packets, these are handed over for encoding in the order of their arrival
  -- when the slot is free, and otherwise counted as dropped, and nothing is handed over before.
  pub handle_ip_packet-Completed :
      (pkt : List ℕ) (t_nfq : ℕ) (h : Host) (c : Collector)
      → IsValid h
      → Holds h.cur_gen c
      → 0 < length pkt
      → length pkt ≤ max_pkt_len
      → Completed h (handle_ip_packet env encode_rs pkt t_nfq h) (add_packet pkt c)
  handle_ip_packet-Completed pkt t_nfq h c v holds pos le =
      rw (handle-stored env encode_rs pkt t_nfq h v pos le) (
        let done = handled pkt t_nfq h c holds in
        record {
          cur = done.cur;
          handed = ground (arith, done.handed, stored-pending env encode_rs pkt t_nfq h);
        })
