-- ===== src/RqHost/Fill.antt =====
-- A block of the RaptorQ processing host that is being filled: its bytes and what its packets send.
use openmc.Common.{
  ℕ, suc, ◌+◌, ◌*◌, ◌<◌, ◌≡◌, refl, subst, sym, ap, ◌∙◌, true, false, none, List, [], ◌∷◌, ◌++◌,
  ◌==◌, length, tabulate, tabulate-blit, blit, arith,
}
use openmc.Env.{Env}
use openmc.Decision.{DecisionOps}
use openmc.RqHost.{RqHost, RqBlockEnc, RqCodec, close_block, store_source, count_encode}
use openmc.RqHost.Packet.{send_source, complete_block, accept_source}
use openmc.RqHost.Inv.{EngineLaws, OpenOk, send_source-Frame}
use openmc.RqHost.Working.{Working, StoredOk, store-Working, Working-Frame}
use openmc.RqHost.Sent.{
  Full, Sent, Sent-trans, symbol_datagram, repair_datagrams, send_source-Sent, repairs-Sent,
}

-- Block `id` for packets of length `len` with `m` packets so far, whose bytes are `bytes`.
pub record Holding (id len reps m : ℕ) (bytes : List ℕ) (b : RqBlockEnc) : Type 0 where
  pub id_is : b.block_id ≡ id
  pub len_is : b.t ≡ len
  pub reps_are : b.repairs_to_send ≡ reps
  pub count : b.num_source ≡ m
  pub bytes_are : tabulate (m * len) b.data_buf ≡ bytes

Holding-stored :
    (id len reps m : ℕ) (bytes p : List ℕ) (b : RqBlockEnc)
    → Holding id len reps m bytes b
    → length p ≡ len
    → Holding id len reps (suc m) (bytes ++ p) (record b {
      data_buf = blit b.data_buf (b.num_source * b.t) p 0;
      num_source = suc b.num_source;
    })
Holding-stored id len reps m bytes p b v e = record {
  id_is = v.id_is;
  len_is = v.len_is;
  reps_are = v.reps_are;
  count = omega (arith, v.count);
  bytes_are =
      rw (v.count, v.len_is)
        (ap (λ n. tabulate n (blit b.data_buf (m * len) p 0)) step
          ∙ tabulate-blit (m * len) b.data_buf p 0
          ∙ ap (λ l. l ++ p) v.bytes_are);
}
  where
    step : suc m * len ≡ m * len + length p
    step = ground (arith, e)

module _ {S M : Type 0} (env : Env) (codec : RqCodec) (ops : DecisionOps S M) (Good : S → Type 0)
    (bs most : ℕ) (laws : EngineLaws S M ops Good bs most) (bs_pos : 0 < bs) (id len reps : ℕ) where
  pub record Filling (m : ℕ) (bytes : List ℕ) (i : ℕ) (h : RqHost S M) : Type 0 where
    pub work : Working S M Good bs (OpenOk bs most) i h
    pub hold : Holding id len reps m bytes (h.blocks i)

  -- A packet stored and sent, before the block may be complete.
  record Stored (m : ℕ) (bytes : List ℕ) (i : ℕ) (h h' : RqHost S M) (p : List ℕ) : Type 0 where
    work : Working S M Good bs (StoredOk bs most) i h'
    hold : Holding id len reps (suc m) (bytes ++ p) (h'.blocks i)
    sent : Sent S M env h h' (symbol_datagram id bs m len 1 p ∷ []) 0

  store_source-blocks :
      (i : ℕ) (p : List ℕ) (h : RqHost S M)
      → (store_source i p h).blocks i ≡ record (h.blocks i) {
        data_buf = blit (h.blocks i).data_buf ((h.blocks i).num_source * (h.blocks i).t) p 0;
        num_source = suc (h.blocks i).num_source;
      }
  unfolding store_source
  store_source-blocks i p h = ground arith

  from_stored :
      (i : ℕ) (p : List ℕ) (h h' : RqHost S M) (ds : List (List ℕ)) (n : ℕ)
      → Sent S M env (store_source i p h) h' ds n
      → Sent S M env h h' ds n
  unfolding store_source
  from_stored i p h h' ds n s = record { sends = s.sends; symbols = s.symbols; wire = s.wire }

  store-Stored :
      (m : ℕ) (bytes : List ℕ) (i : ℕ) (p : List ℕ) (t_nfq : ℕ) (h : RqHost S M)
      → Filling m bytes i h
      → length p ≡ len
      → Stored m bytes i h
          (send_source env codec ops i (h.blocks i).num_source p t_nfq (store_source i p h))
          p
  store-Stored m bytes i p t_nfq h v e =
      let s = store_source i p h in
      let w = store-Working env codec ops Good bs most laws bs_pos i p h v.work in
      let f =
        send_source-Frame env codec ops Good bs most laws i (h.blocks i).num_source p t_nfq s
          w.good in
      let b =
        subst (Holding id len reps (suc m) (bytes ++ p)) (sym (store_source-blocks i p h))
          (Holding-stored id len reps m bytes p (h.blocks i) v.hold e) in
      record {
        work = Working-Frame env codec ops Good bs most laws bs_pos (StoredOk bs most) i s _ w f;
        hold = subst (λ bl. Holding id len reps (suc m) (bytes ++ p) (bl i)) (sym f.blocks) b;
        sent = from_stored i p h _ _ 0 (
            subst
              (λ d.
                Sent S M env s (send_source env codec ops i (h.blocks i).num_source p t_nfq s)
                  (d ∷ []) 0)
              (rw (b.id_is, w.block.size, v.hold.count, b.len_is) refl)
              (send_source-Sent env codec ops i (h.blocks i).num_source p t_nfq s w.block.len_le
                (e ∙ sym b.len_is)));
      }

  complete-more :
      (i : ℕ) (h : RqHost S M)
      → ((h.blocks i).num_source == (h.blocks i).k) ≡ false
      → complete_block env codec ops i h ≡ h
  unfolding complete_block
  complete-more i h e = simp e refl

  -- A packet that leaves room in the block.
  pub accept-more :
      (m : ℕ) (bytes : List ℕ) (i : ℕ) (p : List ℕ) (t_nfq : ℕ) (h : RqHost S M)
      → Filling m bytes i h
      → length p ≡ len
      → suc m < bs
      → Filling (suc m) (bytes ++ p) i (accept_source env codec ops i p t_nfq h)
        × Sent S M env h
            (accept_source env codec ops i p t_nfq h)
            (symbol_datagram id bs m len 1 p ∷ [])
            0
  unfolding accept_source
  accept-more m bytes i p t_nfq h v e lt =
      let h' = send_source env codec ops i (h.blocks i).num_source p t_nfq (store_source i p h) in
      let s = store-Stored m bytes i p t_nfq h v e in
      let more : ((h'.blocks i).num_source == (h'.blocks i).k) ≡ false =
        ground (arith, s.hold.count, s.work.block.size, lt) in
      rw (complete-more i h' more) (
        record {
          work = record {
            config = s.work.config;
            good = s.work.good;
            current = s.work.current;
            block = ground (arith, s.work.block, more);
            used = s.work.used;
            never = s.work.never;
          };
          hold = s.hold;
        },
        s.sent,
      )

  -- A full block whose bytes are encoded.
  complete-last :
      (bytes : List ℕ) (i : ℕ) (h : RqHost S M)
      → Working S M Good bs (StoredOk bs most) i h
      → Holding id len reps bs bytes (h.blocks i)
      → codec.rq_encode (bs * len) len bytes ≡ true
      → ((complete_block env codec ops i h).current_block ≡ none)
        × Sent S M env h
            (complete_block env codec ops i h)
            (repair_datagrams codec id bs len h.symbols reps bytes)
            reps
  unfolding complete_block close_block count_encode
  complete-last bytes i h w v encoded =
      let b = h.blocks i in
      let full : Full id bs len bytes b = record {
        id_is = v.id_is;
        k_is = w.block.size;
        len_is = v.len_is;
        f_is = rw (w.block.bytes, w.block.size, v.len_is) refl;
        bytes_are = v.bytes_are;
      } in
      let ready : codec.rq_encode b.f b.t (tabulate b.f b.data_buf) ≡ true =
        rw (full.f_is, full.len_is, full.bytes_are) encoded in
      let all : (b.num_source == b.k) ≡ true = ground (arith, v.count, w.block.size) in
      let s =
        repairs-Sent env codec ops Good bs most laws i id bs len reps bytes (count_encode env h)
          w.good full (ground (arith, w.block.len_le, v.len_is)) in
      simp all (
        simp ready
          (simp v.reps_are (refl, record { sends = s.sends; symbols = s.symbols; wire = s.wire })))

  -- The packet that completes a block.
  pub accept-last :
      (m : ℕ) (bytes : List ℕ) (i : ℕ) (p : List ℕ) (t_nfq : ℕ) (h : RqHost S M)
      → Filling m bytes i h
      → length p ≡ len
      → suc m ≡ bs
      → codec.rq_encode (bs * len) len (bytes ++ p) ≡ true
      → ((accept_source env codec ops i p t_nfq h).current_block ≡ none)
        × Sent S M env h
            (accept_source env codec ops i p t_nfq h)
            (symbol_datagram id bs m len 1 p
              ∷ repair_datagrams codec id bs len h.symbols reps (bytes ++ p))
            reps
  unfolding accept_source
  accept-last m bytes i p t_nfq h v e last encoded =
      let h' = send_source env codec ops i (h.blocks i).num_source p t_nfq (store_source i p h) in
      let s = store-Stored m bytes i p t_nfq h v e in
      let c =
        complete-last (bytes ++ p) i h' s.work
          (subst (λ n. Holding id len reps n (bytes ++ p) (h'.blocks i)) last s.hold) encoded in
      let drawn : h'.symbols ≡ h.symbols = omega (arith, s.sent.symbols) in
      let all = Sent-trans env s.sent (
        subst
          (λ n.
            Sent S M env h' (complete_block env codec ops i h')
              (repair_datagrams codec id bs len n reps (bytes ++ p)) reps)
          drawn c.1) in
      (c.0, record { sends = all.sends; symbols = omega (arith, all.symbols); wire = all.wire })
