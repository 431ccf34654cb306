-- ===== src/RqReceiver/Preserve.antt =====
-- Every datagram keeps the invariant of the RaptorQ edge receiver.
use openmc.Common.{
  ℕ, zero, suc, ◌+◌, ◌≤◌, ◌<◌, ◌≡◌, refl, inl, inr, true, false, ◌||◌, not, Bool-cases, Option,
  none, some, List, [], ◌∷◌, ltb, leb, ltb→lt, ◌==◌, length, length-append, take, drop, update,
  arith,
}
use openmc.Env.{Env}
use openmc.Wire.{RqDataHdr, rq_hdr_size, decode_rq_hdr}
use openmc.RqReceiver.{
  Codec, RqReceiver, BlockCtx, max_syms_per_block, is_block_completed, has_esi, forwards,
  forward_ip_packet_counted,
}
use openmc.RqReceiver.Decode.{
  all_forwarded, dec_row, must_decode, count_consumed, mark_forwarded, forward_decoded, forward_all,
  time_decode, set_decoded, finish_decode, try_decode_and_forward,
}
use openmc.RqReceiver.Symbol.{
  block_k, init_block, count_unique, store_symbol, forward_source, finish_if_complete,
  maybe_forward_and_finish, take_symbol, find_block, accept_symbol, handle_rq_symbol, receive_loop,
}
use openmc.RqReceiver.Inv.{
  Distinct-append, RqOk, CtxOk, forward-RqOk, mark_forwarded-CtxOk, finalize-CtxOk, consumed-CtxOk,
  time-CtxOk, note-RqOk, fragment-RqOk, stamp-CtxOk, get-CtxOk, store-RqOk,
}

block_k-le : (s k : ℕ) → block_k s k ≤ s
unfolding block_k
block_k-le s k = ground arith

module _ (env : Env) (codec : Codec) (bs : ℕ) where
  decoded-CtxOk :
      (dec : ℕ → ℕ) (i : ℕ) (c : BlockCtx)
      → i < c.b.symbol_count
      → CtxOk bs c
      → CtxOk bs (forward_decoded env codec dec i c)
        × ((forward_decoded env codec dec i c).b.symbol_count ≡ c.b.symbol_count)
  unfolding forward_decoded mark_forwarded
  decoded-CtxOk dec i c lt p =
      let len = c.b.symbol_size in
      let sent = forward_ip_packet_counted env (dec_row c.b dec i) len false c.rc in
      let g = forward-RqOk env codec bs (dec_row c.b dec i) len false c.rc p.globals in
      elim (Bool-cases (c.b.forwarded i)) [
        | inl e ↦ rw e (p, refl)
        | inr e ↦ rw e (elim (Bool-cases (forwards env len c.rc)) [
          | inl s ↦ rw s (
            mark_forwarded-CtxOk env codec bs i len (dec_row c.b dec i)
                (record { b = record c.b { used_fec = true }; rc = sent }) lt e
                (record { block = ground (arith, p.block); globals = g }),
            refl,
          )
          | inr s ↦ rw s (record { block = p.block; globals = g }, refl)
        ])
      ]

  all-CtxOk :
      (dec : ℕ → ℕ) (i n : ℕ) (c : BlockCtx)
      → i + n ≤ c.b.symbol_count
      → CtxOk bs c
      → CtxOk bs (forward_all env codec dec i n c)
  unfolding forward_all
  all-CtxOk dec i zero c le p = p
  all-CtxOk dec i (suc n) c le p =
      let q = decoded-CtxOk dec i c (omega (arith, le)) p in
      all-CtxOk dec (suc i) n _ (omega (arith, le, q.1)) q.0

  consumed-size :
      (c : BlockCtx)
      → (count_consumed (time_decode env codec true c)).b.symbol_count ≡ c.b.symbol_count
  unfolding count_consumed time_decode
  consumed-size c = ground arith

  set-CtxOk : (c : BlockCtx) → CtxOk bs c → CtxOk bs (set_decoded env codec c)
  unfolding set_decoded
  set-CtxOk c p = ground (arith, p)

  finish_decode-CtxOk :
      (r : Option (ℕ → ℕ)) (c : BlockCtx) → CtxOk bs c → CtxOk bs (finish_decode env codec r c)
  unfolding finish_decode
  finish_decode-CtxOk none c p = time-CtxOk env codec bs false c p
  finish_decode-CtxOk (some dec) c p = set-CtxOk _ (
      all-CtxOk dec 0 c.b.symbol_count _ (omega (arith, consumed-size c))
        (consumed-CtxOk env codec bs _ (time-CtxOk env codec bs true c p)))

  try-CtxOk : (c : BlockCtx) → CtxOk bs c → CtxOk bs (try_decode_and_forward env codec c)
  unfolding try_decode_and_forward
  try-CtxOk c p = elim (Bool-cases (must_decode c.b)) [
    | inl e ↦ rw e (finish_decode-CtxOk _ c p)
    | inr e ↦ rw e p
  ]

  init-CtxOk : (hdr : RqDataHdr) (c : BlockCtx) → CtxOk bs c → CtxOk bs (init_block env codec hdr c)
  unfolding init_block
  init-CtxOk hdr c p = elim (Bool-cases c.b.has_rq) [
    | inl e ↦ simp e p
    | inr e ↦ simp e (record {
      block = record {
        size = omega (arith, p.globals.config, block_k-le c.rc.block_size hdr.k);
        room = omega arith;
        distinct = tt;
        marks = p.block.marks;
        marked = omega arith;
      };
      globals = p.globals;
    })
  ]

  unique-CtxOk :
      (hdr : RqDataHdr) (c : BlockCtx) → CtxOk bs c → CtxOk bs (count_unique env codec hdr c)
  unfolding count_unique
  unique-CtxOk hdr c p = ground (arith, p)

  store-CtxOk :
      (hdr : RqDataHdr) (symbol : List ℕ) (c : BlockCtx)
      → has_esi c.b hdr.esi ≡ false
      → CtxOk bs c
      → CtxOk bs (store_symbol env codec hdr symbol c)
  unfolding store_symbol has_esi
  store-CtxOk hdr symbol c n p = elim (Bool-cases (ltb (length c.b.esis) max_syms_per_block)) [
    | inl e ↦ simp e (record {
      block = record {
        size = p.block.size;
        room = omega (arith, length-append c.b.esis (hdr.esi ∷ []), ltb→lt _ _ e);
        distinct = Distinct-append hdr.esi c.b.esis p.block.distinct n;
        marks = p.block.marks;
        marked = p.block.marked;
      };
      globals = p.globals;
    })
    | inr e ↦ simp e p
  ]

  source-CtxOk :
      (hdr : RqDataHdr) (symbol : List ℕ) (c : BlockCtx)
      → CtxOk bs c
      → CtxOk bs (forward_source env codec hdr symbol c)
  unfolding forward_source
  source-CtxOk hdr symbol c p =
      let pkt = take hdr.symbol_len symbol in
      let sent = forward_ip_packet_counted env pkt hdr.symbol_len true c.rc in
      let g = forward-RqOk env codec bs pkt hdr.symbol_len true c.rc p.globals in
      let b' = record c.b { have_source = update c.b.have_source hdr.esi true } in
      elim (Bool-cases ((hdr.is_source == 0) || leb c.b.symbol_count hdr.esi)) [
        | inl e ↦ simp e p
        | inr e ↦ simp e (elim (Bool-cases (c.b.forwarded hdr.esi)) [
          | inl f ↦ simp f p
          | inr f ↦ simp f (elim (Bool-cases (forwards env hdr.symbol_len c.rc)) [
            | inl s ↦ simp s (
                mark_forwarded-CtxOk env codec bs hdr.esi hdr.symbol_len pkt
                  (record { b = b'; rc = sent }) (ground (arith, e)) f
                  (record { block = ground (arith, p.block); globals = g }))
            | inr s ↦ simp s (record { block = p.block; globals = g })
          ])
        ])
      ]

  complete-CtxOk : (c : BlockCtx) → CtxOk bs c → CtxOk bs (finish_if_complete env codec c)
  unfolding finish_if_complete
  complete-CtxOk c p = elim (Bool-cases (all_forwarded c.b)) [
    | inl e ↦ rw e (finalize-CtxOk env codec bs c e p)
    | inr e ↦ rw e p
  ]

  maybe-CtxOk :
      (hdr : RqDataHdr) (symbol : List ℕ) (c : BlockCtx)
      → CtxOk bs c
      → CtxOk bs (maybe_forward_and_finish env codec hdr symbol c)
  unfolding maybe_forward_and_finish
  maybe-CtxOk hdr symbol c p = complete-CtxOk _ (try-CtxOk _ (source-CtxOk hdr symbol c p))

  unique-has_esi :
      (hdr : RqDataHdr) (c : BlockCtx)
      → has_esi c.b hdr.esi ≡ false
      → has_esi ((count_unique env codec hdr c).b) hdr.esi ≡ false
  unfolding count_unique has_esi
  unique-has_esi hdr c n = ground (arith, n)

  take-CtxOk :
      (hdr : RqDataHdr) (symbol : List ℕ) (c : BlockCtx)
      → CtxOk bs c
      → CtxOk bs (take_symbol env codec hdr symbol c)
  unfolding take_symbol
  take-CtxOk hdr symbol c p = elim (Bool-cases (has_esi c.b hdr.esi)) [
    | inl e ↦ simp e (maybe-CtxOk hdr symbol c p)
    | inr e ↦ simp e (
        let q =
          store-CtxOk hdr symbol (count_unique env codec hdr c) (unique-has_esi hdr c e)
            (unique-CtxOk hdr c p) in
        elim (Bool-cases (is_block_completed hdr.block_id c.rc)) [
          | inl d ↦ simp d q
          | inr d ↦ simp d (maybe-CtxOk hdr symbol _ q)
        ])
  ]

  handle-RqOk :
      (buf : List ℕ) (rc : RqReceiver) → RqOk bs rc → RqOk bs (handle_rq_symbol env codec buf rc)
  unfolding handle_rq_symbol accept_symbol find_block
  handle-RqOk buf rc p =
      let hdr = decode_rq_hdr buf in
      let symbol = drop rq_hdr_size buf in
      let q =
        fragment-RqOk env codec bs (not (hdr.is_source == 0)) _ (note-RqOk env codec bs rc p) in
      elim (Bool-cases (ltb (length buf) rq_hdr_size)) [
        | inl e ↦ simp e (note-RqOk env codec bs rc p)
        | inr e ↦
            simp e
              (elim (Bool-cases (ltb (length symbol) hdr.symbol_len || (hdr.symbol_len == 0))) [
                | inl d ↦ simp d q
                | inr d ↦ simp d (
                    store-RqOk env codec bs hdr.block_id _ (
                      take-CtxOk hdr symbol _ (
                        init-CtxOk hdr _
                          (stamp-CtxOk env codec bs _ (get-CtxOk env codec bs hdr.block_id _ q)))))
              ])
      ]

  -- Whatever datagrams arrive and whatever the RaptorQ library, the clock and the socket answer: each
  -- block of the table keeps at most 40 symbols with distinct identifiers, a K within the configured
  -- block size, and marks of forwarded packets below that size only, no fewer than it counts; every
  -- block that was finished is counted as one without loss or as a repaired one, never as a failure
  -- to decode; and the list of completed blocks stays within its array.
  pub receive_loop-RqOk :
      (bufs : List (List ℕ)) (rc : RqReceiver)
      → RqOk bs rc
      → RqOk bs (receive_loop env codec bufs rc)
  unfolding receive_loop
  receive_loop-RqOk [] rc p = p
  receive_loop-RqOk (buf ∷ rest) rc p = receive_loop-RqOk rest _ (handle-RqOk buf rc p)
