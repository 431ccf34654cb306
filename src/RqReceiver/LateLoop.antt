-- ===== src/RqReceiver/LateLoop.antt =====
-- The loop of edge_receiver_rq.c over symbols that arrive after their block was completed.
use openmc.Common.{
  ℕ, suc, subst, sym, ◌+◌, ◌%◌, ◌^◌, ◌≡◌, ◌∙◌, ap, refl, inl, inr, Bool, true, false, not,
  Bool-cases, List, [], ◌∷◌, ltb, ◌==◌, length, drop, if◌then◌else◌, arith,
}
use openmc.Env.{Env}
use openmc.Wire.{RqDataHdr, rq_hdr_size, decode_rq_hdr}
use openmc.RqReceiver.{Codec, RqReceiver, holds, is_block_completed}
use openmc.RqReceiver.Symbol.{note_arrival, count_fragment, handle_rq_symbol, receive_loop}
use openmc.RqReceiver.Late.{Quiet, accept_symbol-Quiet}
use openmc.RqReceiver.Stored.{stored_esis, find-new, accept-esis}

-- Whether a datagram is a source symbol, or a repair symbol.
abbrev pub carries : Bool → List ℕ → Bool
carries source buf = if (decode_rq_hdr buf).is_source == 0 then not source else source

-- How many of the datagrams are source symbols, or repair symbols.
abbrev pub symbols_of : Bool → List (List ℕ) → ℕ
symbols_of source [] = 0
symbols_of source (buf ∷ rest) =
    let n = symbols_of source rest in if carries source buf then suc n else n

-- The datagrams have whole headers and belong to one block, with identifiers that differ from those of
-- the list and among themselves.
abbrev pub AllNew : ℕ → List ℕ → List (List ℕ) → Type 0
AllNew id seen [] = Unit
AllNew id seen (buf ∷ rest) =
    (ltb (length buf) rq_hdr_size ≡ false)
    × ((decode_rq_hdr buf).block_id ≡ id)
    × (holds (decode_rq_hdr buf).esi seen ≡ false)
    × AllNew id ((decode_rq_hdr buf).esi ∷ seen) rest

-- What late symbols change, and what they leave: the counters of the fragments are 64 bits wide.
pub record Late (bufs : List (List ℕ)) (rc rc' : RqReceiver) : Type 0 where
  pub output : rc'.output ≡ rc.output
  pub sends : rc'.sends ≡ rc.sends
  pub completed : rc'.completed_blocks ≡ rc.completed_blocks
  pub total : rc'.counters.total_generations ≡ rc.counters.total_generations
  pub no_loss : rc'.counters.gens_no_loss ≡ rc.counters.gens_no_loss
  pub repaired : rc'.counters.gens_repaired ≡ rc.counters.gens_repaired
  pub failed : rc'.counters.gens_decode_fail ≡ rc.counters.gens_decode_fail
  pub consumed : rc'.counters.total_parity_consumed ≡ rc.counters.total_parity_consumed
  pub sources :
      rc'.counters.total_data_fragments % 2 ^ 64
      ≡ (rc.counters.total_data_fragments + symbols_of true bufs) % 2 ^ 64
  pub repairs :
      rc'.counters.total_parity_fragments % 2 ^ 64
      ≡ (rc.counters.total_parity_fragments + symbols_of false bufs) % 2 ^ 64

Quiet-Late :
    (bufs : List (List ℕ)) (rc rc' rc'' : RqReceiver)
    → Late bufs rc rc'
    → Quiet rc' rc''
    → Late bufs rc rc''
Quiet-Late bufs rc rc' rc'' l q = record {
  output = q.output ∙ l.output;
  sends = q.sends ∙ l.sends;
  completed = q.completed ∙ l.completed;
  total = ap (λ k. k.total_generations) q.counters ∙ l.total;
  no_loss = ap (λ k. k.gens_no_loss) q.counters ∙ l.no_loss;
  repaired = ap (λ k. k.gens_repaired) q.counters ∙ l.repaired;
  failed = ap (λ k. k.gens_decode_fail) q.counters ∙ l.failed;
  consumed = ap (λ k. k.total_parity_consumed) q.counters ∙ l.consumed;
  sources = ap (λ k. k.total_data_fragments % 2 ^ 64) q.counters ∙ l.sources;
  repairs = ap (λ k. k.total_parity_fragments % 2 ^ 64) q.counters ∙ l.repairs;
}

module _ (env : Env) (codec : Codec) where
  -- The state in which a symbol is looked at, after it was counted.
  abbrev counted : List ℕ → RqReceiver → RqReceiver
  counted buf rc =
      count_fragment env codec (not ((decode_rq_hdr buf).is_source == 0))
        (note_arrival env codec rc)

  counted-same :
      (buf : List ℕ) (rc : RqReceiver)
      → ((counted buf rc).blocks ≡ rc.blocks)
        × ((counted buf rc).completed_blocks ≡ rc.completed_blocks)
  unfolding count_fragment note_arrival
  counted-same buf rc = (refl, refl)

  counted-Late : (buf : List ℕ) (rc : RqReceiver) → Late (buf ∷ []) rc (counted buf rc)
  unfolding count_fragment note_arrival
  counted-Late buf rc = record {
    output = refl;
    sends = refl;
    completed = refl;
    total = ground arith;
    no_loss = ground arith;
    repaired = ground arith;
    failed = ground arith;
    consumed = ground arith;
    sources = ground arith;
    repairs = ground arith;
  }

  counted-done :
      (buf : List ℕ) (rc : RqReceiver) (id : ℕ)
      → is_block_completed id rc ≡ true
      → is_block_completed id (counted buf rc) ≡ true
  unfolding is_block_completed
  counted-done buf rc id done = ap (holds id) (counted-same buf rc).1 ∙ done

  counted-esis :
      (buf : List ℕ) (rc : RqReceiver) (id : ℕ)
      → stored_esis id (counted buf rc) ≡ stored_esis id rc
  unfolding count_fragment note_arrival
  counted-esis buf rc id = refl

  handle-Late :
      (buf : List ℕ) (rc : RqReceiver)
      → ltb (length buf) rq_hdr_size ≡ false
      → is_block_completed (decode_rq_hdr buf).block_id rc ≡ true
      → holds (decode_rq_hdr buf).esi (stored_esis (decode_rq_hdr buf).block_id rc) ≡ false
      → Late (buf ∷ []) rc (handle_rq_symbol env codec buf rc)
  unfolding handle_rq_symbol
  handle-Late buf rc long done new = rw long (
      Quiet-Late (buf ∷ []) rc (counted buf rc) _ (counted-Late buf rc) (
        accept_symbol-Quiet env codec (decode_rq_hdr buf) (drop rq_hdr_size buf) (counted buf rc)
          (counted-done buf rc (decode_rq_hdr buf).block_id done)
          (find-new env codec (decode_rq_hdr buf) (counted buf rc)
            ∙ ap (holds (decode_rq_hdr buf).esi) (counted-esis buf rc _)
            ∙ new)))

  handle-esis :
      (buf : List ℕ) (rc : RqReceiver) (e : ℕ)
      → ltb (length buf) rq_hdr_size ≡ false
      → is_block_completed (decode_rq_hdr buf).block_id rc ≡ true
      → holds (decode_rq_hdr buf).esi (stored_esis (decode_rq_hdr buf).block_id rc) ≡ false
      → holds e (stored_esis (decode_rq_hdr buf).block_id rc) ≡ false
      → ((decode_rq_hdr buf).esi == e) ≡ false
      → holds e (stored_esis (decode_rq_hdr buf).block_id (handle_rq_symbol env codec buf rc))
        ≡ false
  unfolding handle_rq_symbol note_arrival
  handle-esis buf rc e long done new h ne =
      let same = counted-esis buf rc (decode_rq_hdr buf).block_id in
      rw long (
        accept-esis env codec (decode_rq_hdr buf) (drop rq_hdr_size buf) (counted buf rc) e
          (counted-done buf rc (decode_rq_hdr buf).block_id done)
          (ap (holds (decode_rq_hdr buf).esi) same ∙ new) (ap (holds e) same ∙ h) ne)

Late-trans :
    (buf : List ℕ) (rest : List (List ℕ)) (rc rc' rc'' : RqReceiver)
    → Late (buf ∷ []) rc rc'
    → Late rest rc' rc''
    → Late (buf ∷ rest) rc rc''
Late-trans buf rest rc rc' rc'' a b = record {
  output = b.output ∙ a.output;
  sends = b.sends ∙ a.sends;
  completed = b.completed ∙ a.completed;
  total = b.total ∙ a.total;
  no_loss = b.no_loss ∙ a.no_loss;
  repaired = b.repaired ∙ a.repaired;
  failed = b.failed ∙ a.failed;
  consumed = b.consumed ∙ a.consumed;
  sources = add_up true _ _ _ a.sources b.sources;
  repairs = add_up false _ _ _ a.repairs b.repairs;
}
  where
    add_up :
        (source : Bool) (x y z : ℕ)
        → y % 2 ^ 64 ≡ (x + symbols_of source (buf ∷ [])) % 2 ^ 64
        → z % 2 ^ 64 ≡ (y + symbols_of source rest) % 2 ^ 64
        → z % 2 ^ 64 ≡ (x + symbols_of source (buf ∷ rest)) % 2 ^ 64
    add_up source x y z p q = elim (Bool-cases (carries source buf)) [
      | inl one ↦ simp one (omega (arith, (simp one at p), q))
      | inr none_here ↦ simp none_here (omega (arith, (simp none_here at p), q))
    ]

not_seen :
    (e x : ℕ) (seen : List ℕ)
    → holds e (x ∷ seen) ≡ false
    → ((x == e) ≡ false) × (holds e seen ≡ false)
not_seen e x seen h = ground arith

module _ (env : Env) (codec : Codec) where
  loop-Late :
      (id : ℕ) (seen : List ℕ) (bufs : List (List ℕ)) (rc : RqReceiver)
      → is_block_completed id rc ≡ true
      → ((e : ℕ) → holds e seen ≡ false → holds e (stored_esis id rc) ≡ false)
      → AllNew id seen bufs
      → Late bufs rc (receive_loop env codec bufs rc)
  unfolding receive_loop
  loop-Late id seen [] rc done sub new = record {
    output = refl;
    sends = refl;
    completed = refl;
    total = refl;
    no_loss = refl;
    repaired = refl;
    failed = refl;
    consumed = refl;
    sources = omega arith;
    repairs = omega arith;
  }
  loop-Late id seen (buf ∷ rest) rc done sub (long, same, fresh, later) =
      Late-trans buf rest rc (handle_rq_symbol env codec buf rc)
        (receive_loop env codec rest (handle_rq_symbol env codec buf rc)) first
        (loop-Late id (hdr.esi ∷ seen) rest (handle_rq_symbol env codec buf rc) done_after sub_after
          later)
    where
      hdr : RqDataHdr
      hdr = decode_rq_hdr buf

      done_here : is_block_completed hdr.block_id rc ≡ true
      done_here = subst (λ i. is_block_completed i rc ≡ true) (sym same) done

      sub_here : (e : ℕ) → holds e seen ≡ false → holds e (stored_esis hdr.block_id rc) ≡ false
      sub_here e h = subst (λ i. holds e (stored_esis i rc) ≡ false) (sym same) (sub e h)

      first : Late (buf ∷ []) rc (handle_rq_symbol env codec buf rc)
      first = handle-Late env codec buf rc long done_here (sub_here hdr.esi fresh)

      done_after : is_block_completed id (handle_rq_symbol env codec buf rc) ≡ true
      done_after = unfold is_block_completed in (ap (holds id) first.completed ∙ done)

      sub_after :
          (e : ℕ)
          → holds e (hdr.esi ∷ seen) ≡ false
          → holds e (stored_esis id (handle_rq_symbol env codec buf rc)) ≡ false
      sub_after e h =
          let n = not_seen e hdr.esi seen h in
          subst (λ i. holds e (stored_esis i (handle_rq_symbol env codec buf rc)) ≡ false) same
            (handle-esis env codec buf rc e long done_here (sub_here hdr.esi fresh) (sub_here e n.1)
              n.0)

  -- Datagrams in a row, each at least as long as a header, of one block that is on the list of completed
  -- blocks, with identifiers that differ among themselves and from those stored in the block's entry of
  -- the table: each is counted as a source or a repair fragment, modulo 2^64; no packet is forwarded or
  -- handed to the socket, and the list of completed blocks, the counters of finished blocks by their
  -- class and the count of consumed repair symbols stay.
  pub receive_loop-Late :
      (id : ℕ) (bufs : List (List ℕ)) (rc : RqReceiver)
      → is_block_completed id rc ≡ true
      → AllNew id (stored_esis id rc) bufs
      → Late bufs rc (receive_loop env codec bufs rc)
  receive_loop-Late id bufs rc done new =
      loop-Late id (stored_esis id rc) bufs rc done (λ e h. h) new
