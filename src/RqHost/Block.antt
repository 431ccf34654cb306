-- ===== src/RqHost/Block.antt =====
-- The packets of a whole block of the RaptorQ processing host, from the NFQUEUE callback to the wire.
use openmc.Common.{
  ℕ, suc, ◌+◌, ◌*◌, ◌%◌, ◌^◌, ◌≤◌, ◌<◌, ◌≡◌, refl, subst, sym, ap, ap₂, ◌∙◌, true, false, Option,
  none, some, List, [], ◌∷◌, ◌++◌, map, ltb, ◌==◌, ◌||◌, length, join, AllLen, append_assoc,
  append-nil, arith,
}
use openmc.Env.{Env, emit}
use openmc.Decision.{DecisionOps}
use openmc.RqHost.{RqHost, RqCodec, max_pkt_len, alloc_new_block}
use openmc.RqHost.Packet.{start_block, accept_source, handle_ip_packet}
use openmc.RqHost.Loop.{◌>>=◌, note_interception, nfq_cb, nfq_handle_packet}
use openmc.RqHost.Inv.{EngineLaws, OpenOk, CurrentOk, HostOk}
use openmc.RqHost.Working.{Working}
use openmc.RqHost.Start.{Idle, sized-k, open-Working}
use openmc.RqHost.Preserve.{use-accept, handle-use, ensure-none, ensure-some}
use openmc.RqHost.Sent.{
  Sent, emit-append, datagrams, source_datagrams, symbol_datagram, repair_datagrams,
}
use openmc.RqHost.Fill.{Filling, accept-more, accept-last}
use openmc.RqHost.Opened.{opened, plan_of, opened-Holding, opened-Sent, opened-symbols}

module _ {S M : Type 0} (env : Env) where
  -- What came of some packets: no block is current, and these datagrams were sent.
  abbrev pub Delivered : RqHost S M → List (List ℕ) → ℕ → Option (RqHost S M) → Type 0
  Delivered h ds n o =
      (h' : RqHost S M) × (o ≡ some h')
      × (h'.current_block ≡ none)
      × (h'.symbols ≡ h.symbols + n)
      × (datagrams h'.wire ≡ emit env h.sends ds (datagrams h.wire))

module _ {S M : Type 0} (env : Env) (codec : RqCodec) (ops : DecisionOps S M) (Good : S → Type 0)
    (bs most : ℕ) (laws : EngineLaws S M ops Good bs most) (bs_pos : 0 < bs) (len : ℕ)
    (len_pos : 0 < len) (len_le : len ≤ max_pkt_len) where
  fits : (p : List ℕ) → length p ≡ len → ((length p == 0) || ltb max_pkt_len (length p)) ≡ false
  fits p e = ground (arith, e, len_pos, len_le)

  handle-accept :
      (n id reps m : ℕ) (bytes : List ℕ) (i : ℕ) (p : List ℕ) (t_nfq : ℕ) (h : RqHost S M)
      → Filling env codec ops Good bs most laws bs_pos id len reps m bytes i h
      → length p ≡ len
      → handle_ip_packet env codec ops (suc n) p t_nfq h
        ≡ some (accept_source env codec ops i p t_nfq h)
  handle-accept n id reps m bytes i p t_nfq h v e =
      rw
        (
          handle-use env codec ops Good bs most laws bs_pos n p t_nfq h (fits p e),
          ensure-some env codec ops Good bs most laws bs_pos (length p) i h v.work.current
              v.work.block.room,
        )
        (use-accept env codec ops Good bs most laws bs_pos _ i p t_nfq h v.work
          (v.hold.len_is ∙ sym e))

  opened-work :
      (h : RqHost S M)
      → Idle S M Good bs h
      → Working S M Good bs (OpenOk bs most) ((alloc_new_block h).0) (opened env codec ops bs len h)
  opened-work h w =
      open-Working env codec ops Good bs most laws bs_pos bs len h w refl len_pos len_le

  start-ok :
      (h : RqHost S M)
      → Idle S M Good bs h
      → codec.calloc_ok h.allocs ≡ true
      → codec.rq_init (bs * len) len ≡ true
      → start_block env codec ops len h ≡ (opened env codec ops bs len h, true)
  unfolding start_block
  start-ok h w memory object = rw (sized-k env codec ops Good bs most laws bs_pos h w) (
      let small : len % 2 ^ 16 ≡ len = omega (arith, len_le) in
      let made : codec.rq_init (bs * (len % 2 ^ 16)) (len % 2 ^ 16) ≡ true = rw small object in
      simp memory (simp made refl))

  -- Receiving the rest of a block.
  handle-start :
      (n : ℕ) (p : List ℕ) (t_nfq : ℕ) (h : RqHost S M)
      → Idle S M Good bs h
      → codec.calloc_ok h.allocs ≡ true
      → codec.rq_init (bs * len) len ≡ true
      → length p ≡ len
      → handle_ip_packet env codec ops (suc n) p t_nfq h
        ≡ some (
            accept_source env codec ops
              ((alloc_new_block h).0)
              p
              t_nfq
              (opened env codec ops bs len h))
  handle-start n p t_nfq h w memory object e =
      rw
        (
          handle-use env codec ops Good bs most laws bs_pos n p t_nfq h (fits p e),
          ensure-none env codec ops Good bs most laws bs_pos (length p) h w.current,
          e,
          start-ok h w memory object,
        )
        (use-accept env codec ops Good bs most laws bs_pos _ ((alloc_new_block h).0) p t_nfq
          (opened env codec ops bs len h) (opened-work h w)
          ((opened-Holding env codec ops bs len h len_le).len_is ∙ sym e))

  note-Filling :
      (id reps m : ℕ) (bytes : List ℕ) (i : ℕ) (h : RqHost S M)
      → Filling env codec ops Good bs most laws bs_pos id len reps m bytes i h
      → Filling env codec ops Good bs most laws bs_pos id len reps m bytes i
          (note_interception env codec ops h)
  unfolding note_interception
  note-Filling id reps m bytes i h v = record {
    work = record {
      config = v.work.config;
      good = v.work.good;
      current = v.work.current;
      block = v.work.block;
      used = v.work.used;
      never = v.work.never;
    };
    hold = v.hold;
  }

  note-Delivered :
      (h : RqHost S M) (ds : List (List ℕ)) (n : ℕ) (o : Option (RqHost S M))
      → Delivered env (note_interception env codec ops h) ds n o
      → Delivered env h ds n o
  unfolding note_interception
  note-Delivered h ds n o r = r

  -- What is sent first, and then the rest.
  Sent-Delivered :
      (h h' : RqHost S M) (xs ys : List (List ℕ)) (n : ℕ) (o : Option (RqHost S M))
      → Sent S M env h h' xs 0
      → Delivered env h' ys n o
      → Delivered env h (xs ++ ys) n o
  Sent-Delivered h h' xs ys n o s (h'', e, idle, drawn, wire) = (
    h'',
    e,
    idle,
    omega (arith, s.symbols, drawn),
    wire
        ∙ ap (λ k. emit env k ys (datagrams h'.wire)) s.sends
        ∙ ap (λ l. emit env (h.sends + length xs) ys l) s.wire
        ∙ sym (emit-append env h.sends xs ys (datagrams h.wire)),
  )

  note-symbols : (h : RqHost S M) → (note_interception env codec ops h).symbols ≡ h.symbols
  unfolding note_interception
  note-symbols h = refl

  -- The packet `p`, which block `i` has room for, and the rest of the block.
  rest-Delivered :
      (id reps m : ℕ) (bytes : List ℕ) (i : ℕ) (p : List ℕ) (ps : List (List ℕ)) (t_nfq : ℕ)
      (h : RqHost S M)
      → Filling env codec ops Good bs most laws bs_pos id len reps m bytes i h
      → m + length (p ∷ ps) ≡ bs
      → AllLen len (p ∷ ps)
      → codec.rq_encode (bs * len) len (bytes ++ join (p ∷ ps)) ≡ true
      → Delivered env h
          (source_datagrams id bs len m (p ∷ ps)
            ++ repair_datagrams codec id bs len h.symbols reps (bytes ++ join (p ∷ ps)))
          reps
          (nfq_handle_packet env codec ops (map some ps) (accept_source env codec ops i p t_nfq h))
  unfolding nfq_handle_packet nfq_cb
  rest-Delivered id reps m bytes i p [] t_nfq h v total lens encoded =
      let a =
        accept-last env codec ops Good bs most laws bs_pos id len reps m bytes i p t_nfq h v lens.0
          (omega (arith, total))
          (subst (λ l. codec.rq_encode (bs * len) len (bytes ++ l) ≡ true) (append-nil p)
            encoded) in
      rw (append-nil p) (accept_source env codec ops i p t_nfq h, refl, a.0, a.1.symbols, a.1.wire)
  rest-Delivered id reps m bytes i p (q ∷ qs) t_nfq h v total lens encoded =
      let h' = accept_source env codec ops i p t_nfq h in
      let a =
        accept-more env codec ops Good bs most laws bs_pos id len reps m bytes i p t_nfq h v lens.0
          (omega (arith, total)) in
      let v' = note-Filling id reps (suc m) (bytes ++ p) i h' a.0 in
      let r =
        rest-Delivered id reps (suc m) (bytes ++ p) i q qs (env.clock h'.reads)
          (note_interception env codec ops h') v' (omega (arith, total)) lens.1
          (subst (λ l. codec.rq_encode (bs * len) len l ≡ true)
            (sym (append_assoc bytes p (join (q ∷ qs)))) encoded) in
      let ds =
        source_datagrams id bs len (suc m) (q ∷ qs)
        ++ repair_datagrams codec id bs len h.symbols reps (bytes ++ join (p ∷ q ∷ qs)) in
      let o = nfq_handle_packet env codec ops (map some qs) (
        accept_source env codec ops i q (env.clock h'.reads)
          (note_interception env codec ops h')) in
      rw
        (handle-accept 1 id reps (suc m) (bytes ++ p) i q (env.clock h'.reads)
          (note_interception env codec ops h') v' lens.1.0)
        (Sent-Delivered h h' (symbol_datagram id bs m len 1 p ∷ []) ds reps o a.1 (
          note-Delivered h' ds reps o (
            subst (λ l. Delivered env (note_interception env codec ops h') l reps o)
              (same a.1.symbols) r)))
    where
      same :
          (accept_source env codec ops i p t_nfq h).symbols ≡ h.symbols + 0
          → source_datagrams id bs len (suc m) (q ∷ qs)
              ++ repair_datagrams codec id bs len
                  (note_interception env codec ops
                    (accept_source env codec ops i p t_nfq h)).symbols
                  reps
                  ((bytes ++ p) ++ join (q ∷ qs))
            ≡ source_datagrams id bs len (suc m) (q ∷ qs)
              ++ repair_datagrams codec id bs len h.symbols reps (bytes ++ join (p ∷ q ∷ qs))
      same e =
          ap₂
            (λ n l.
              source_datagrams id bs len (suc m) (q ∷ qs)
              ++ repair_datagrams codec id bs len n reps l)
            (omega (arith, e, note-symbols (accept_source env codec ops i p t_nfq h)))
            (append_assoc bytes p (join (q ∷ qs)))

  note-Idle :
      (h : RqHost S M) → Idle S M Good bs h → Idle S M Good bs (note_interception env codec ops h)
  unfolding note_interception
  note-Idle h w = record {
    config = w.config;
    good = w.good;
    current = w.current;
    used = w.used;
    never = w.never;
  }

  first-Delivered :
      (p : List ℕ) (ps : List (List ℕ)) (t_nfq : ℕ) (h : RqHost S M)
      → Idle S M Good bs h
      → suc (length ps) ≡ bs
      → AllLen len (p ∷ ps)
      → codec.calloc_ok h.allocs ≡ true
      → codec.rq_init (bs * len) len ≡ true
      → codec.rq_encode (bs * len) len (join (p ∷ ps)) ≡ true
      → let reps = plan_of ops h.next_block_id bs h.decision in
        Delivered env h
          (source_datagrams h.next_block_id bs len 0 (p ∷ ps)
            ++ repair_datagrams codec h.next_block_id bs len h.symbols reps (join (p ∷ ps)))
          reps
          (handle_ip_packet env codec ops 2 p t_nfq h >>= λ h'.
            nfq_handle_packet env codec ops (map some ps) h')
  first-Delivered p ps t_nfq h w total lens memory object encoded =
      let reps = plan_of ops h.next_block_id bs h.decision in
      let i = (alloc_new_block h).0 in
      let r =
        rest-Delivered h.next_block_id reps 0 [] i p ps t_nfq (opened env codec ops bs len h)
          (record { work = opened-work h w; hold = opened-Holding env codec ops bs len h len_le })
          (omega (arith, total)) lens encoded in
      rw (handle-start 1 p t_nfq h w memory object lens.0) (
        Sent-Delivered h (opened env codec ops bs len h) []
          (source_datagrams h.next_block_id bs len 0 (p ∷ ps)
            ++ repair_datagrams codec h.next_block_id bs len h.symbols reps (join (p ∷ ps)))
          reps
          (nfq_handle_packet env codec ops (map some ps)
            (accept_source env codec ops i p t_nfq (opened env codec ops bs len h)))
          (opened-Sent env codec ops bs len h)
          (subst
            (λ n.
              Delivered env (opened env codec ops bs len h)
                (source_datagrams h.next_block_id bs len 0 (p ∷ ps)
                  ++ repair_datagrams codec h.next_block_id bs len n reps (join (p ∷ ps)))
                reps
                (nfq_handle_packet env codec ops (map some ps)
                  (accept_source env codec ops i p t_nfq (opened env codec ops bs len h))))
            (opened-symbols env codec ops bs len h) r))

  -- From a state that satisfies the invariant, for an engine that keeps its laws, and has no current
  -- block, the callback for as many packets as a block has, all of one length of 1 to 1500 bytes, where
  -- memory and the RaptorQ object are given and the encoder succeeds on their bytes: the packets leave
  -- in order as the source symbols 0, 1, … of the block with the next number, then as many repair
  -- symbols as the engine decided, each drawn from the packets' bytes, and no block is current; of the
  -- datagrams those are on the wire whose send succeeded.
  pub nfq_handle_packet-Delivered :
      (p : List ℕ) (ps : List (List ℕ)) (h : RqHost S M)
      → HostOk S M Good bs most h
      → h.current_block ≡ none
      → suc (length ps) ≡ bs
      → AllLen len (p ∷ ps)
      → codec.calloc_ok h.allocs ≡ true
      → codec.rq_init (bs * len) len ≡ true
      → codec.rq_encode (bs * len) len (join (p ∷ ps)) ≡ true
      → let reps = plan_of ops h.next_block_id bs h.decision in
        Delivered env h
          (source_datagrams h.next_block_id bs len 0 (p ∷ ps)
            ++ repair_datagrams codec h.next_block_id bs len h.symbols reps (join (p ∷ ps)))
          reps
          (nfq_handle_packet env codec ops (map some (p ∷ ps)) h)
  unfolding nfq_handle_packet nfq_cb note_interception
  nfq_handle_packet-Delivered p ps h v idle total lens memory object encoded =
      let w : Idle S M Good bs h = record {
        config = v.config;
        good = v.good;
        current = idle;
        used = subst (λ c. CurrentOk bs most c h.blocks) idle v.current;
        never = v.never;
      } in
      first-Delivered p ps (env.clock h.reads) (note_interception env codec ops h) (note-Idle h w)
        total lens memory object encoded
