-- ===== src/RqReceiver/Recovery.antt =====
-- What the RaptorQ edge receiver delivers when decoding succeeds.
use openmc.Common.{
  ℕ, suc, ◌+◌, ◌*◌, ◌≤◌, ◌<◌, ◌≡◌, subst, refl, ◌∙◌, ap, ap₂, inl, inr, Bool, true, false,
  Bool-cases, some, List, [], ◌∷◌, ◌==◌, if◌then◌else◌, length, tabulate, update, all_below,
  all_below_complete, arith,
}
use openmc.Env.{Env}
use openmc.RsReceiver.{Forwarded}
use openmc.RqReceiver.{
  Codec, RqBlockDec, BlockCtx, ip_hdr_size, forwards, forward_ip_packet_counted,
}
use openmc.RqReceiver.Decode.{
  all_forwarded, dec_row, must_decode, count_consumed, mark_forwarded, forward_decoded, forward_all,
  time_decode, set_decoded, finish_decode, try_decode_and_forward,
}

-- The raw socket's log after the packets that `sent` does not mark, the first of which has index `i`.
abbrev pub with_missing : (ℕ → Bool) → ℕ → List (List ℕ) → List Forwarded → List Forwarded
with_missing sent i [] out = out
with_missing sent i (p ∷ ps) out =
    with_missing sent (suc i) ps
      (if sent i then out else record { bytes = p; is_original = false } ∷ out)

-- The decoder's bytes hold the packets `ps` of `t` bytes, the first of which has index `i`.
abbrev pub DecRows : ℕ → (ℕ → ℕ) → ℕ → List (List ℕ) → Type 0
DecRows t dec i [] = Unit
DecRows t dec i (p ∷ ps) = (tabulate t (λ j. dec (i * t + j)) ≡ p) × DecRows t dec (suc i) ps

with_missing_ext :
    (f g : ℕ → Bool) (i : ℕ) (ps : List (List ℕ)) (out : List Forwarded)
    → ((k : ℕ) → i ≤ k → f k ≡ g k)
    → with_missing f i ps out ≡ with_missing g i ps out
with_missing_ext f g i [] out h = refl
with_missing_ext f g i (p ∷ ps) out h =
    rw (h i (omega arith)) (with_missing_ext f g (suc i) ps _ (λ k le. h k (omega (arith, le))))

-- What one decoded packet changes, where the send does not fail.
record Sent (b b' : RqBlockDec) (i : ℕ) : Type 0 where
  size : b'.symbol_size ≡ b.symbol_size
  count : b'.symbol_count ≡ b.symbol_count
  marks : b'.forwarded ≡ (if b.forwarded i then b.forwarded else update b.forwarded i true)

module _ (env : Env) (codec : Codec) (ok : (n : ℕ) → env.send_ok n ≡ true) where
  forward_decoded-Sent :
      (dec : ℕ → ℕ) (i : ℕ) (c : BlockCtx)
      → ip_hdr_size ≤ c.b.symbol_size
      → Sent c.b ((forward_decoded env codec dec i c).b) i
        × ((forward_decoded env codec dec i c).rc.output ≡ (
            if c.b.forwarded i
            then c.rc.output
            else record { bytes = dec_row c.b dec i; is_original = false } ∷ c.rc.output))
  unfolding forward_decoded mark_forwarded forwards forward_ip_packet_counted
  forward_decoded-Sent dec i c le = ground (arith, le, ok c.rc.sends)

  marks_other : (f : ℕ → Bool) (i k : ℕ) → suc i ≤ k → (if f i then f else update f i true) k ≡ f k
  marks_other f i k le = ground (arith, le)

  marks_kept : (f : ℕ → Bool) (i k : ℕ) → f k ≡ true → (if f i then f else update f i true) k ≡ true
  marks_kept f i k h = ground (arith, h)

  marks_own : (f : ℕ → Bool) (i : ℕ) → (if f i then f else update f i true) i ≡ true
  marks_own f i = ground arith

  -- The state after the packets `ps` from index `i` on were forwarded where they were missing.
  record AllSent (i : ℕ) (ps : List (List ℕ)) (c c' : BlockCtx) : Type 0 where
    output : c'.rc.output ≡ with_missing c.b.forwarded i ps c.rc.output
    count : c'.b.symbol_count ≡ c.b.symbol_count
    kept : (k : ℕ) → c.b.forwarded k ≡ true → c'.b.forwarded k ≡ true
    own : (k : ℕ) → i ≤ k → k < i + length ps → c'.b.forwarded k ≡ true

  forward_all-AllSent :
      (dec : ℕ → ℕ) (t i : ℕ) (ps : List (List ℕ)) (c : BlockCtx)
      → c.b.symbol_size ≡ t
      → ip_hdr_size ≤ t
      → DecRows t dec i ps
      → AllSent i ps c (forward_all env codec dec i (length ps) c)
  unfolding forward_all
  forward_all-AllSent dec t i [] c e le rows = record {
    output = refl;
    count = refl;
    kept = λ k h. h;
    own = λ k a b. absurd (omega (arith, a, b));
  }
  forward_all-AllSent dec t i (p ∷ ps) c e le rows =
      let s = forward_decoded-Sent dec i c (omega (arith, e, le)) in
      let next = forward_decoded env codec dec i c in
      let r = forward_all-AllSent dec t (suc i) ps next (s.0.size ∙ e) le rows.1 in
      let row_eq = ap (λ z. tabulate z (λ j. dec (i * z + j))) e ∙ rows.0 in
      record {
        output =
            r.output
            ∙ with_missing_ext next.b.forwarded c.b.forwarded (suc i) ps next.rc.output
                (λ k h. ap (λ f. f k) s.0.marks ∙ marks_other c.b.forwarded i k h)
            ∙ ap (with_missing c.b.forwarded (suc i) ps) (
                s.1
                ∙ ap
                    (λ z.
                      if c.b.forwarded i
                      then c.rc.output
                      else record { bytes = z; is_original = false } ∷ c.rc.output)
                    row_eq);
        count = r.count ∙ s.0.count;
        kept = λ k h. r.kept k (ap (λ f. f k) s.0.marks ∙ marks_kept c.b.forwarded i k h);
        own = λ k a b. elim (Bool-cases (k == i)) [
          | inl q ↦ r.kept k (
              ap (λ f. f k) s.0.marks
              ∙ subst
                  (λ z.
                    (if c.b.forwarded i then c.b.forwarded else update c.b.forwarded i true) z
                    ≡ true)
                  (ground (arith, q)) (marks_own c.b.forwarded i))
          | inr q ↦ r.own k (ground (arith, a, q)) (ground (arith, b))
        ];
      }

  prepare-same :
      (c : BlockCtx)
      → let c' = count_consumed (time_decode env codec true c) in
        (c'.b.symbol_size ≡ c.b.symbol_size)
        × (c'.b.symbol_count ≡ c.b.symbol_count)
        × (c'.b.forwarded ≡ c.b.forwarded)
        × (c'.rc.output ≡ c.rc.output)
  unfolding count_consumed time_decode
  prepare-same c = ground arith

  -- Where at least K symbols of a block are stored and packets are missing, the library decodes them
  -- to bytes that hold the block's K packets, of at least 20 bytes each, and no send fails: the packets
  -- that were missing leave by the raw socket, in order, each once and none that had left before, and
  -- every packet of the block has then left.
  pub try_decode_and_forward-delivers :
      (c : BlockCtx) (dec : ℕ → ℕ) (packets : List (List ℕ))
      → must_decode c.b ≡ true
      → ip_hdr_size ≤ c.b.symbol_size
      → length packets ≡ c.b.symbol_count
      → codec.rq_decode c.b.block_bytes c.b.symbol_size
          (tabulate (length c.b.esis * c.b.symbol_size) c.b.enc)
          c.b.esis
        ≡ some dec
      → DecRows c.b.symbol_size dec 0 packets
      → ((try_decode_and_forward env codec c).rc.output
          ≡ with_missing c.b.forwarded 0 packets c.rc.output)
        × (all_forwarded ((try_decode_and_forward env codec c).b) ≡ true)
  unfolding try_decode_and_forward finish_decode set_decoded all_forwarded
  try_decode_and_forward-delivers c dec packets must le number decoded rows =
      let c' = count_consumed (time_decode env codec true c) in
      let same = prepare-same c in
      let s = forward_all-AllSent dec c.b.symbol_size 0 packets c' same.0 le rows in
      simp must (
        simp decoded (
          subst
            (λ n.
              ((forward_all env codec dec 0 n c').rc.output
                ≡ with_missing c.b.forwarded 0 packets c.rc.output)
              × (all_below ((forward_all env codec dec 0 n c').b.symbol_count)
                    ((forward_all env codec dec 0 n c').b.forwarded)
                  ≡ true))
            number
            (
              s.output ∙ ap₂ (λ f out. with_missing f 0 packets out) same.2 same.3,
              all_below_complete _ _
                  (λ k lt. s.own k (omega arith) (omega (arith, lt, s.count, same.1, number))),
            )))
