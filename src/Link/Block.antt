-- ===== src/Link/Block.antt =====
-- The source symbols of a whole block, as the host sends them, in the receive loop of the receiver.
use openmc.Common.{
  ℕ, suc, ◌+◌, ◌<◌, ◌≡◌, sym, subst, ◌∙◌, List, [], ◌∷◌, ◌++◌, length, take_all, AllLen, arith,
}
use openmc.Env.{Env}
use openmc.RsReceiver.{Forwarded}
use openmc.RqReceiver.{Codec, RqReceiver}
use openmc.RqReceiver.Symbol.{take_symbol, handle_rq_symbol, receive_loop}
use openmc.RqHost.Sent.{symbol_datagram, source_datagrams}
use openmc.Link.Step.{after, after-Partly, after-Passed, take-more, take-last}
use openmc.Link.Passed.{Passed, Passed-trans, packet}
use openmc.Link.Find.{
  Awaiting, Free, Lossless, context-not_done, arrived-Awaiting, header-IsSource, stored-Awaiting,
  still_not_done, find-Awaiting, stored-Passed, handle-source, arrived-Free, find-config, find-Free,
  arrived, context, header, Found,
}

-- The packets as the receiver's log of what it forwarded has them, newest first.
abbrev pub delivered : List (List ℕ) → List Forwarded
delivered [] = []
delivered (p ∷ ps) = delivered ps ++ packet p ∷ []

module _ (env : Env) (codec : Codec) (id bs len : ℕ) (l : Lossless env codec id bs len) where
  -- A symbol before the last one.
  step-more :
      (m : ℕ) (p : List ℕ) (rc : RqReceiver)
      → Found env codec id bs len l m (arrived env codec id bs len l rc)
      → suc m < bs
      → length p ≡ len
      → Awaiting id bs len (suc m) (handle_rq_symbol env codec (symbol_datagram id bs m len 1 p) rc)
        × Passed rc
            (handle_rq_symbol env codec (symbol_datagram id bs m len 1 p) rc)
            (packet p ∷ [])
  step-more m p rc v lt e =
      let s = header-IsSource env codec id bs len l m in
      let c = context env codec id bs len l m rc in
      let d =
        after env codec id bs len l.bs_le l.len_min l.sends m (header env codec id bs len l m) p
          c in
      let open_block = context-not_done env codec id bs len l m rc v.not_done in
      let passed =
        after-Passed env codec id bs len l.bs_le l.len_min l.sends m
          (header env codec id bs len l m) p c in
      let config : d.rc.block_size ≡ bs =
        passed.0.config
        ∙ find-config env codec id bs len l (header env codec id bs len l m)
            (arrived env codec id bs len l rc)
        ∙ v.config in
      rw
        (
          handle-source env codec id bs len l m p rc (omega (arith, lt)) e,
          take-more env codec id bs len l.bs_le l.len_min l.sends m (header env codec id bs len l m)
              p c v.block s lt open_block,
        )
        (
          stored-Awaiting env codec id bs len l (suc m) d
              (after-Partly env codec id bs len l.bs_le l.len_min l.sends m
                (header env codec id bs len l m) p c v.block s (omega (arith, lt)))
              config (still_not_done env codec id bs len l c d passed.1 open_block),
          stored-Passed env codec id bs len l m rc d (packet p ∷ []) (
              subst (λ bytes. Passed c.rc d.rc (packet bytes ∷ [])) (take_all len p (sym e))
                passed.0),
        )

  -- The last symbol.
  step-last :
      (m : ℕ) (p : List ℕ) (rc : RqReceiver)
      → Found env codec id bs len l m (arrived env codec id bs len l rc)
      → suc m ≡ bs
      → length p ≡ len
      → Passed rc (handle_rq_symbol env codec (symbol_datagram id bs m len 1 p) rc) (packet p ∷ [])
  step-last m p rc v last e =
      let c = context env codec id bs len l m rc in
      let t = take_symbol env codec (header env codec id bs len l m) p c in
      let passed =
        take-last env codec id bs len l.bs_le l.len_min l.sends m (header env codec id bs len l m) p
          c v.block (header-IsSource env codec id bs len l m) last
          (context-not_done env codec id bs len l m rc v.not_done) in
      rw (handle-source env codec id bs len l m p rc (omega (arith, last)) e) (
        stored-Passed env codec id bs len l m rc t (packet p ∷ [])
          (subst (λ bytes. Passed c.rc t.rc (packet bytes ∷ [])) (take_all len p (sym e)) passed))

  Awaiting-Found :
      (m : ℕ) (rc : RqReceiver)
      → Awaiting id bs len m rc
      → Found env codec id bs len l m (arrived env codec id bs len l rc)
  Awaiting-Found m rc v =
      let a = arrived-Awaiting env codec id bs len l m rc v in
      record {
        block = find-Awaiting env codec id bs len l m (arrived env codec id bs len l rc) a;
        config = a.config;
        not_done = a.not_done;
      }

  rest-Passed :
      (m : ℕ) (p : List ℕ) (ps : List (List ℕ)) (rc : RqReceiver)
      → Found env codec id bs len l m (arrived env codec id bs len l rc)
      → m + length (p ∷ ps) ≡ bs
      → AllLen len (p ∷ ps)
      → Passed rc
          (receive_loop env codec (source_datagrams id bs len m (p ∷ ps)) rc)
          (delivered (p ∷ ps))
  unfolding receive_loop
  rest-Passed m p [] rc v total lens = step-last m p rc v (omega (arith, total)) lens.0
  rest-Passed m p (q ∷ qs) rc v total lens =
      let rc' = handle_rq_symbol env codec (symbol_datagram id bs m len 1 p) rc in
      let s = step-more m p rc v (omega (arith, total)) lens.0 in
      Passed-trans rc rc' _ (packet p ∷ []) (delivered (q ∷ qs)) s.1 (
        rest-Passed (suc m) q qs rc' (Awaiting-Found (suc m) rc' s.0) (omega (arith, total)) lens.1)

  -- For a block of at most eight packets of one length of 20 to 1500 bytes, whose number has 16 bits,
  -- where the receiver has the same block size, its entry for the block is free or another block's, the block is not on the list
  -- of completed ones, the RaptorQ object is given and no send fails: the source symbols, as the host
  -- sends them and in that order, have the receiver forward every packet of the block once, as it was
  -- and in the order of the packets.
  pub receive_loop-delivers :
      (p : List ℕ) (ps : List (List ℕ)) (rc : RqReceiver)
      → Free id bs rc
      → suc (length ps) ≡ bs
      → AllLen len (p ∷ ps)
      → Passed rc
          (receive_loop env codec (source_datagrams id bs len 0 (p ∷ ps)) rc)
          (delivered (p ∷ ps))
  receive_loop-delivers p ps rc v total lens =
      let a = arrived-Free env codec id bs len l rc v in
      rest-Passed 0 p ps rc
        (record {
          block =
              find-Free env codec id bs len l (arrived env codec id bs len l rc) a
                (omega (arith, total));
          config = a.config;
          not_done = a.not_done;
        })
        (omega (arith, total)) lens
