-- ===== src/RqHost/Preserve.antt =====
-- Every packet keeps the invariant of the RaptorQ processing host, and one call of itself is enough.
use openmc.Common.{
  ℕ, suc, ◌%◌, ◌^◌, ◌<◌, ◌≡◌, refl, subst, inl, inr, Bool, true, false, ◌||◌, Option, none, some,
  Bool-cases, Option-cases, List, ltb, ◌==◌, length, leb-false, arith,
}
use openmc.Env.{Env}
use openmc.Decision.{DecisionOps}
use openmc.RqHost.{RqHost, RqCodec, max_pkt_len, no_block, close_block, needs_block}
use openmc.RqHost.Packet.{start_block, ensure_block, accept_source, use_block, handle_ip_packet}
use openmc.RqHost.Inv.{EngineLaws, OpenOk, CurrentOk, HostOk}
use openmc.RqHost.Working.{Working, accept-HostOk, Working-HostOk}
use openmc.RqHost.Start.{Idle, Idle-HostOk, Started, start-Started}

module _ {S M : Type 0} (env : Env) (codec : RqCodec) (ops : DecisionOps S M) (Good : S → Type 0)
    (bs most : ℕ) (laws : EngineLaws S M ops Good bs most) (bs_pos : 0 < bs) where
  -- The result is a state in which the invariant holds.
  abbrev pub Done : Option (RqHost S M) → Type 0
  Done o = (h : RqHost S M) × (o ≡ some h) × HostOk S M Good bs most h

  pub use-accept :
      (again : RqHost S M → Option (RqHost S M)) (i : ℕ) (pkt : List ℕ) (t_nfq : ℕ) (h : RqHost S M)
      → Working S M Good bs (OpenOk bs most) i h
      → (h.blocks i).t ≡ length pkt
      → use_block env codec ops again pkt t_nfq (h, true)
        ≡ some (accept_source env codec ops i pkt t_nfq h)
  unfolding use_block
  use-accept again i pkt t_nfq h w e =
      let same : (length pkt % 2 ^ 16 == (h.blocks i).t) ≡ true = ground (arith, e, w.block) in
      simp w.current (simp same (simp (leb-false _ _ w.block.room)))

  -- A block for the packet's length with room for it.
  use-Done :
      (again : RqHost S M → Option (RqHost S M)) (i : ℕ) (pkt : List ℕ) (t_nfq : ℕ) (h : RqHost S M)
      → Working S M Good bs (OpenOk bs most) i h
      → (h.blocks i).t ≡ length pkt
      → Done (use_block env codec ops again pkt t_nfq (h, true))
  use-Done again i pkt t_nfq h w e = (
    accept_source env codec ops i pkt t_nfq h,
    use-accept again i pkt t_nfq h w e,
    accept-HostOk env codec ops Good bs most laws bs_pos i pkt t_nfq h w,
  )

  -- A block for another length: it is closed first.
  other-Done :
      (again : RqHost S M → Option (RqHost S M)) (i : ℕ) (pkt : List ℕ) (t_nfq : ℕ) (h : RqHost S M)
      → Working S M Good bs (OpenOk bs most) i h
      → (length pkt % 2 ^ 16 == (h.blocks i).t) ≡ false
      → Done (again (close_block i h))
      → Done (use_block env codec ops again pkt t_nfq (h, true))
  unfolding use_block
  other-Done again i pkt t_nfq h w e (h', p, ok) = (h', simp w.current (simp e p), ok)

  close-Idle :
      (i : ℕ) (h : RqHost S M)
      → Working S M Good bs (OpenOk bs most) i h
      → Idle S M Good bs (close_block i h)
  unfolding close_block
  close-Idle i h w = record {
    config = w.config;
    good = w.good;
    current = refl;
    used = λ j. ground (arith, w.used j);
    never = w.never;
  }

  Started-Done :
      (again : RqHost S M → Option (RqHost S M)) (pkt : List ℕ) (t_nfq : ℕ) (r : RqHost S M × Bool)
      → Started env codec ops Good bs most laws bs_pos (length pkt) r
      → Done (use_block env codec ops again pkt t_nfq r)
  unfolding Started use_block
  Started-Done again pkt t_nfq (h, ok) (inl (no_block, w)) =
      (h, simp no_block, Idle-HostOk env codec ops Good bs most laws bs_pos h w)
  Started-Done again pkt t_nfq (h, ok) (inr (yes_block, (i, w, e))) =
      rw yes_block (use-Done again i pkt t_nfq h w e)

  pub ensure-none :
      (len : ℕ) (h : RqHost S M)
      → h.current_block ≡ none
      → ensure_block env codec ops len h ≡ start_block env codec ops len h
  unfolding ensure_block needs_block
  ensure-none len h e = ground (arith, e)

  pub ensure-some :
      (len i : ℕ) (h : RqHost S M)
      → h.current_block ≡ some i
      → (h.blocks i).num_source < (h.blocks i).k
      → ensure_block env codec ops len h ≡ (h, true)
  unfolding ensure_block needs_block
  ensure-some len i h e lt = ground (arith, e, lt)

  handle-Idle :
      (n : ℕ) (pkt : List ℕ) (t_nfq : ℕ) (h : RqHost S M)
      → Idle S M Good bs h
      → Done (handle_ip_packet env codec ops (suc n) pkt t_nfq h)
  unfolding handle_ip_packet
  handle-Idle n pkt t_nfq h w =
      elim (Bool-cases ((length pkt == 0) || ltb max_pkt_len (length pkt))) [
        | inl bad ↦ simp bad (h, refl, Idle-HostOk env codec ops Good bs most laws bs_pos h w)
        | inr good ↦ simp good (
            rw (ensure-none (length pkt) h w.current) (
              Started-Done _ pkt t_nfq _ (
                start-Started env codec ops Good bs most laws bs_pos (length pkt) h w
                  (ground (arith, good)) (ground (arith, good)))))
      ]

  pub handle-use :
      (n : ℕ) (pkt : List ℕ) (t_nfq : ℕ) (h : RqHost S M)
      → ((length pkt == 0) || ltb max_pkt_len (length pkt)) ≡ false
      → handle_ip_packet env codec ops (suc n) pkt t_nfq h
        ≡ use_block env codec ops
            (λ h'. handle_ip_packet env codec ops n pkt t_nfq h')
            pkt
            t_nfq
            (ensure_block env codec ops (length pkt) h)
  unfolding handle_ip_packet
  handle-use n pkt t_nfq h good = ground (arith, good)

  handle-bad :
      (n : ℕ) (pkt : List ℕ) (t_nfq : ℕ) (h : RqHost S M)
      → ((length pkt == 0) || ltb max_pkt_len (length pkt)) ≡ true
      → handle_ip_packet env codec ops (suc n) pkt t_nfq h ≡ some h
  unfolding handle_ip_packet
  handle-bad n pkt t_nfq h bad = ground (arith, bad)

  handle-Working :
      (n i : ℕ) (pkt : List ℕ) (t_nfq : ℕ) (h : RqHost S M)
      → Working S M Good bs (OpenOk bs most) i h
      → Done (handle_ip_packet env codec ops (suc (suc n)) pkt t_nfq h)
  handle-Working n i pkt t_nfq h w =
      elim (Bool-cases ((length pkt == 0) || ltb max_pkt_len (length pkt))) [
        | inl bad ↦ (
          h,
          handle-bad (suc n) pkt t_nfq h bad,
          Working-HostOk env codec ops Good bs most laws bs_pos i h w,
        )
        | inr good ↦
            rw
              (
                handle-use (suc n) pkt t_nfq h good,
                ensure-some (length pkt) i h w.current w.block.room,
              )
              (elim (Bool-cases (length pkt % 2 ^ 16 == (h.blocks i).t)) [
                | inl same ↦ use-Done _ i pkt t_nfq h w (ground (arith, same, good))
                | inr other ↦
                    other-Done (λ h'. handle_ip_packet env codec ops (suc n) pkt t_nfq h') i pkt
                      t_nfq h w other (handle-Idle n pkt t_nfq (close_block i h) (close-Idle i h w))
              ])
      ]

  -- From a state that satisfies the invariant a packet is handled with at most one call of the handler
  -- to itself, and the invariant holds of the state after it.
  pub handle_ip_packet-Done :
      (pkt : List ℕ) (t_nfq : ℕ) (h : RqHost S M)
      → HostOk S M Good bs most h
      → Done (handle_ip_packet env codec ops 2 pkt t_nfq h)
  handle_ip_packet-Done pkt t_nfq h v = elim (Option-cases h.current_block) [
    | inl idle ↦ handle-Idle 1 pkt t_nfq h (record {
      config = v.config;
      good = v.good;
      current = idle;
      used = subst (λ c. CurrentOk bs most c h.blocks) idle v.current;
      never = v.never;
    })
    | inr (i, open_at) ↦
        let c = subst (λ c. CurrentOk bs most c h.blocks) open_at v.current in
        handle-Working 0 i pkt t_nfq h (record {
          config = v.config;
          good = v.good;
          current = open_at;
          block = c.0;
          used = c.1;
          never = v.never;
        })
  ]
