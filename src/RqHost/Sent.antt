-- ===== src/RqHost/Sent.antt =====
-- What the RaptorQ processing host sends: the datagrams of source symbols and of repair symbols.
use openmc.Common.{
  ℕ, zero, suc, ◌+◌, ◌*◌, ◌≤◌, ◌≡◌, true, refl, sym, ap, subst, ◌∙◌, Bool-cases, inl, inr, List, [],
  ◌∷◌, ◌++◌, map, take, take_all, length, tabulate, tabulate_from, length-append, if◌then◌else◌,
  ltb, arith,
}
use openmc.Env.{Env, emit}
use openmc.Wire.{encode_rq_hdr}
use openmc.Decision.{DecisionOps, Iface, FragmentMeta}
use openmc.RqHost.{
  RqHost, RqCodec, RqBlockEnc, SentSymbol, max_pkt_len, send_rq_symbol, count_repair,
}
use openmc.RqHost.Packet.{send_source, send_repair, send_repairs}
use openmc.RqHost.Inv.{EngineLaws, send_repair-Frame}

abbrev pub datagrams : List SentSymbol → List (List ℕ)
datagrams log = map (λ d. d.bytes) log

-- A source or repair symbol behind its header.
abbrev pub symbol_datagram : ℕ → ℕ → ℕ → ℕ → ℕ → List ℕ → List ℕ
symbol_datagram id k esi len is_source bytes =
    encode_rq_hdr (record {
      block_id = id;
      k = k;
      esi = esi;
      symbol_len = len;
      is_source = is_source;
      reserved = 0;
    })
    ++ bytes

-- The source symbols `j`, `j + 1`, … are the packets.
abbrev pub source_datagrams : ℕ → ℕ → ℕ → ℕ → List (List ℕ) → List (List ℕ)
source_datagrams id k len j [] = []
source_datagrams id k len j (p ∷ ps) =
    symbol_datagram id k j len 1 p ∷ source_datagrams id k len (suc j) ps

-- The repair symbols drawn as the symbols `n`, `n + 1`, … for a block of these bytes.
abbrev pub repair_datagrams : RqCodec → ℕ → ℕ → ℕ → ℕ → ℕ → List ℕ → List (List ℕ)
repair_datagrams codec id k len n reps bytes = tabulate_from n reps (λ r.
    let symbol = codec.rq_symbol (k * len) len bytes r in
    symbol_datagram id k (codec.rq_pid2esi symbol.pid) len 0 (take len symbol.sym))

-- These datagrams were handed to `sendto` between two states, and `n` repair symbols drawn.
pub record Sent (S M : Type 0) (env : Env) (h h' : RqHost S M) (ds : List (List ℕ)) (n : ℕ)
    : Type 0 where
  pub sends : h'.sends ≡ h.sends + length ds
  pub symbols : h'.symbols ≡ h.symbols + n
  pub wire : datagrams h'.wire ≡ emit env h.sends ds (datagrams h.wire)

-- A block that is full: its header fields and its bytes.
pub record Full (id k len : ℕ) (bytes : List ℕ) (b : RqBlockEnc) : Type 0 where
  pub id_is : b.block_id ≡ id
  pub k_is : b.k ≡ k
  pub len_is : b.t ≡ len
  pub f_is : b.f ≡ k * len
  pub bytes_are : tabulate (k * len) b.data_buf ≡ bytes

pub emit-append :
    {A : Type 0} (env : Env) (n : ℕ) (xs ys log : List A)
    → emit env n (xs ++ ys) log ≡ emit env (n + length xs) ys (emit env n xs log)
emit-append env n [] ys log = ap (λ k. emit env k ys log) (omega arith)
emit-append env n (x ∷ xs) ys log =
    emit-append env (suc n) xs ys (if env.send_ok n then x ∷ log else log)
    ∙ ap (λ k. emit env k ys (emit env n (x ∷ xs) log)) (omega arith)

module _ {S M : Type 0} (env : Env) where
  pub Sent-trans :
      {a b c : RqHost S M} {xs ys : List (List ℕ)} {m n : ℕ}
      → Sent S M env a b xs m
      → Sent S M env b c ys n
      → Sent S M env a c (xs ++ ys) (m + n)
  Sent-trans {a} {b} {c} {xs} {ys} v w = record {
    sends = omega (arith, v.sends, w.sends, length-append xs ys);
    symbols = omega (arith, v.symbols, w.symbols);
    wire =
        w.wire
        ∙ ap (λ k. emit env k ys (datagrams b.wire)) v.sends
        ∙ ap (λ l. emit env (a.sends + length xs) ys l) v.wire
        ∙ sym (emit-append env a.sends xs ys (datagrams a.wire));
  }

  send-Sent :
      (block_id k esi len is_source : ℕ) (symbol : List ℕ) (iface : Iface) (h : RqHost S M)
      → len ≤ max_pkt_len
      → Sent S M env h
          (send_rq_symbol env block_id k esi len is_source symbol iface h)
          (symbol_datagram block_id k esi len is_source (take len symbol) ∷ [])
          0
  unfolding send_rq_symbol
  send-Sent block_id k esi len is_source symbol iface h le = record {
    sends = ground (arith, le);
    symbols = ground (arith, le);
    wire = elim (Bool-cases (ltb max_pkt_len len)) [
      | inl e ↦ ground (arith, e, le)
      | inr e ↦ simp e (elim (Bool-cases (env.send_ok h.sends)) [
        | inl ok ↦ simp ok refl
        | inr lost ↦ simp lost refl
      ])
    ];
  }

module _ {S M : Type 0} (env : Env) (codec : RqCodec) (ops : DecisionOps S M) where
  pub send_source-Sent :
      (i index : ℕ) (pkt : List ℕ) (t_nfq : ℕ) (h : RqHost S M)
      → (h.blocks i).t ≤ max_pkt_len
      → length pkt ≡ (h.blocks i).t
      → Sent S M env h
          (send_source env codec ops i index pkt t_nfq h)
          (symbol_datagram (h.blocks i).block_id (h.blocks i).k index (h.blocks i).t 1 pkt ∷ [])
          0
  unfolding send_source
  send_source-Sent i index pkt t_nfq h le len =
      let b = h.blocks i in
      let frag : FragmentMeta = record {
        block_id = b.block_id;
        sym_index = index;
        is_source = true;
      } in
      let choice = ops.choose_iface frag h.decision in
      let s =
        send-Sent env b.block_id b.k index b.t 1 pkt choice.1
          (record h { decision = choice.0; reads = suc h.reads }) le in
      record {
        sends = s.sends;
        symbols = s.symbols;
        wire =
            subst
              (λ p.
                datagrams (send_source env codec ops i index pkt t_nfq h).wire
                ≡ emit env h.sends (symbol_datagram b.block_id b.k index b.t 1 p ∷ [])
                    (datagrams h.wire))
              (take_all b.t pkt (sym len)) s.wire;
      }

  repair-Sent :
      (i id k len : ℕ) (bytes : List ℕ) (h : RqHost S M)
      → Full id k len bytes (h.blocks i)
      → len ≤ max_pkt_len
      → Sent S M env h
          (send_repair env codec ops i h)
          (repair_datagrams codec id k len h.symbols 1 bytes)
          1
  unfolding send_repair count_repair
  repair-Sent i id k len bytes h v le =
      rw (v.f_is, v.len_is, v.k_is, v.id_is, v.bytes_are)
        (let s = send-Sent env id k _ len 0 _ _ (record (count_repair env h) { decision = _ }) le in
          record { sends = s.sends; symbols = omega (arith, s.symbols); wire = s.wire })

module _ {S M : Type 0} (env : Env) (codec : RqCodec) (ops : DecisionOps S M) (Good : S → Type 0)
    (bs most : ℕ) (laws : EngineLaws S M ops Good bs most) where
  pub repairs-Sent :
      (i id k len n : ℕ) (bytes : List ℕ) (h : RqHost S M)
      → Good h.decision
      → Full id k len bytes (h.blocks i)
      → len ≤ max_pkt_len
      → Sent S M env h
          (send_repairs env codec ops i n h)
          (repair_datagrams codec id k len h.symbols n bytes)
          n
  unfolding send_repairs
  repairs-Sent i id k len zero bytes h g v le = record {
    sends = omega arith;
    symbols = omega arith;
    wire = refl;
  }
  repairs-Sent i id k len (suc n) bytes h g v le =
      let f = send_repair-Frame env codec ops Good bs most laws i h g in
      let one = repair-Sent env codec ops i id k len bytes h v le in
      let rest =
        repairs-Sent i id k len n bytes (send_repair env codec ops i h) f.good
          (subst (λ bl. Full id k len bytes (bl i)) (sym f.blocks) v) le in
      let next : (send_repair env codec ops i h).symbols ≡ suc h.symbols =
        omega (arith, one.symbols) in
      let all = Sent-trans env one (
        subst
          (λ m.
            Sent S M env (send_repair env codec ops i h)
              (send_repairs env codec ops i n (send_repair env codec ops i h))
              (repair_datagrams codec id k len m n bytes) n)
          next rest) in
      record { sends = all.sends; symbols = omega (arith, all.symbols); wire = all.wire }
