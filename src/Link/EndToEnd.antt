-- ===== src/Link/EndToEnd.antt =====
-- From the packets that the processing host intercepts to the packets that the edge receiver forwards,
-- over a path that loses nothing.
use openmc.Common.{
  ℕ, suc, ◌*◌, ◌≤◌, ◌<◌, ◌≡◌, refl, sym, ap, ◌∙◌, true, some, none, List, [], ◌∷◌, ◌++◌, map,
  length, take, join, AllLen, append-nil,
}
use openmc.Env.{Env, emit}
use openmc.Decision.{DecisionOps}
use openmc.RqHost.{RqHost, RqCodec}
use openmc.RqHost.Loop.{nfq_handle_packet}
use openmc.RqHost.Inv.{EngineLaws, HostOk}
use openmc.RqHost.Sent.{datagrams, source_datagrams, repair_datagrams}
use openmc.RqHost.Opened.{plan_of}
use openmc.RqHost.Block.{nfq_handle_packet-Delivered}
use openmc.RqReceiver.{Codec, RqReceiver}
use openmc.RqReceiver.Symbol.{receive_loop}
use openmc.Link.Passed.{Passed}
use openmc.Link.Find.{Free, Lossless}
use openmc.Link.Block.{delivered, receive_loop-delivers}

-- A log, newest first, behind `acc`; with nothing behind it, in the order of time.
abbrev pub turned : {A : Type 0} → List A → List A → List A
turned [] acc = acc
turned (x ∷ xs) acc = turned xs (x ∷ acc)

turned-turned : {A : Type 0} (xs ys zs : List A) → turned (turned xs ys) zs ≡ turned ys (xs ++ zs)
turned-turned [] ys zs = refl
turned-turned (x ∷ xs) ys zs = turned-turned xs (x ∷ ys) zs

take-append : {A : Type 0} (xs ys : List A) → take (length xs) (xs ++ ys) ≡ xs
take-append [] ys = refl
take-append (x ∷ xs) ys = ap (◌∷◌ x) (take-append xs ys)

length-source_datagrams :
    (id k len j : ℕ) (ps : List (List ℕ)) → length (source_datagrams id k len j ps) ≡ length ps
length-source_datagrams id k len j [] = refl
length-source_datagrams id k len j (p ∷ ps) = ap suc (length-source_datagrams id k len (suc j) ps)

-- With sends that succeed everything is on the wire.
emit-turned :
    {A : Type 0} (env : Env) (n : ℕ) (ds log : List A)
    → ((k : ℕ) → env.send_ok k ≡ true)
    → emit env n ds log ≡ turned ds log
emit-turned env n [] log ok = refl
emit-turned env n (d ∷ ds) log ok = simp (ok n) (emit-turned env (suc n) ds (d ∷ log) ok)

-- The first datagrams on the wire of a host that sent nothing before are the source symbols.
first_sources :
    (bs : ℕ) (wire ss rs : List (List ℕ))
    → wire ≡ turned (ss ++ rs) []
    → length ss ≡ bs
    → take bs (turned wire []) ≡ ss
first_sources bs wire ss rs sent count =
    ap (λ w. take bs (turned w [])) sent
    ∙ ap (take bs) (turned-turned (ss ++ rs) [] [] ∙ append-nil (ss ++ rs))
    ∙ ap (λ n. take n (ss ++ rs)) (sym count)
    ∙ take-append ss rs

module _ {S M : Type 0} (env : Env) (codec : RqCodec) (ops : DecisionOps S M) (Good : S → Type 0)
    (bs most : ℕ) (laws : EngineLaws S M ops Good bs most) (bs_pos : 0 < bs) (len : ℕ)
    (len_pos : 0 < len) (len_le : len ≤ 1500) where
  -- A host that satisfies its invariant, for an engine that keeps its laws, has no current block and
  -- sent nothing yet. It is given the packets of one block, of its configured number of at most eight,
  -- all of one length of 20 to 1500 bytes; the next block number has 16 bits; no send, encoding or
  -- allocation fails on either side. The receiver runs with the same block size, its entry for the
  -- block is free or another block's, and the block is not on its list of completed blocks. Then the
  -- first datagrams that the host puts on the wire, one for each packet, have the receiver forward the
  -- packets, each once, as it was and in order.
  pub nfq_handle_packet-receive_loop :
      (p : List ℕ) (ps : List (List ℕ)) (h : RqHost S M) (rc_env : Env) (rq : Codec)
      (rc : RqReceiver)
      → HostOk S M Good bs most h
      → h.current_block ≡ none
      → h.wire ≡ []
      → suc (length ps) ≡ bs
      → AllLen len (p ∷ ps)
      → codec.calloc_ok h.allocs ≡ true
      → codec.rq_init (bs * len) len ≡ true
      → codec.rq_encode (bs * len) len (join (p ∷ ps)) ≡ true
      → ((n : ℕ) → env.send_ok n ≡ true)
      → Lossless rc_env rq h.next_block_id bs len
      → Free h.next_block_id bs rc
      → (h' : RqHost S M) × (nfq_handle_packet env codec ops (map some (p ∷ ps)) h ≡ some h')
        × Passed rc
            (receive_loop rc_env rq (take bs (turned (datagrams h'.wire) [])) rc)
            (delivered (p ∷ ps))
  nfq_handle_packet-receive_loop p ps h rc_env rq rc v idle quiet total lens memory object encoded
        ok path slot =
      let id = h.next_block_id in
      let ss = source_datagrams id bs len 0 (p ∷ ps) in
      let reps = plan_of ops id bs h.decision in
      let rs = repair_datagrams codec id bs len h.symbols reps (join (p ∷ ps)) in
      let d =
        nfq_handle_packet-Delivered env codec ops Good bs most laws bs_pos len len_pos len_le p ps h
          v idle total lens memory object encoded in
      let wire : datagrams d.0.wire ≡ turned (ss ++ rs) [] =
        d.4
        ∙ ap (λ l. emit env h.sends (ss ++ rs) (datagrams l)) quiet
        ∙ emit-turned env h.sends (ss ++ rs) [] ok in
      let first =
        first_sources bs (datagrams d.0.wire) ss rs wire
          (length-source_datagrams id bs len 0 (p ∷ ps) ∙ total) in
      (d.0, d.1, rw first (receive_loop-delivers rc_env rq id bs len path p ps rc slot total lens))
