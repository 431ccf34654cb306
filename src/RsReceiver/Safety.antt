-- ===== src/RsReceiver/Safety.antt =====
-- Every fragment, well formed or not, keeps the invariant of edge_receiver_rs.c.
use openmc.Common.{
  ℕ, ◌-◌, ◌%◌, ◌<◌, ◌≡◌, refl, inl, inr, Bool, true, arith, ltb, leb, ◌==◌, Bool-cases, ◌∙◌, List,
  [], ◌∷◌, sym, ap, subst, length,
}
use openmc.Env.{Env}
use openmc.Wire.{FecFragmentHdr, decode_fec_hdr, fec_hdr_size}
use openmc.RsHost.{k_data}
use openmc.RsReceiver.{Receiver, Ctx, max_gens, store_gen}
use openmc.RsReceiver.Process.{Decoded, process_generation}
use openmc.RsReceiver.Fragment.{
  boot, add_data, add_parity, bad_length, note_arrival, dispatch_fragment, accept_fragment,
  handle_fragment, receive_loop,
}
use openmc.RsReceiver.Inv.{GenOk, GenOk-Arrived, Arrived, Keeps, cleared-GenOk}
use openmc.RsReceiver.Preserve.{Keeps-trans}
use openmc.RsReceiver.Report.{process-GenOk}
use openmc.RsReceiver.Table.{TableOk, Ready, find-Ready}

-- A received data symbol is the one packet that is there and not forwarded.
add_data-Arrived :
    (i : ℕ) (payload : List ℕ) (c : Ctx)
    → GenOk c.gs
    → Keeps c (add_data i payload c) × Arrived (add_data i payload c).gs
unfolding add_data
add_data-Arrived i payload c v = elim (Bool-cases (c.gs.data_present i)) [
  | inl old ↦ simp old (ground arith, GenOk-Arrived c.gs v)
  | inr new ↦ simp new (
    ground arith,
    record {
      sub = λ k lt. ground (arith, v.synced k lt);
      tried = v.tried;
      reported = v.reported;
      len_le = v.len_le;
    },
  )
]

add_parity-Arrived :
    (p : ℕ) (payload : List ℕ) (c : Ctx)
    → GenOk c.gs
    → Keeps c (add_parity p payload c) × Arrived (add_parity p payload c).gs
unfolding add_parity
add_parity-Arrived p payload c v = elim (Bool-cases (c.gs.parity_present p)) [
  | inl old ↦ simp old (ground arith, GenOk-Arrived c.gs v)
  | inr new ↦ simp new (
    ground arith,
    record {
      sub = λ k lt. ground (arith, v.synced k lt);
      tried = v.tried;
      reported = v.reported;
      len_le = v.len_le;
    },
  )
]

module _ (env : Env) (decode_rs : List ℕ → List ℕ → Decoded) where
  -- An entry after a fragment: the invariant holds, and it is the same generation.
  abbrev After : Ctx → Ctx → Type 0
  After c c' = Keeps c c' × GenOk c'.gs

  processed :
      (c c' : Ctx)
      → Keeps c c' × Arrived c'.gs
      → c.gs.in_use ≡ true
      → 0 < c.gs.original_len
      → After c (process_generation env decode_rs c')
  processed c c' w used pos =
      let done = process-GenOk env decode_rs c' w.1 (ground (arith, w.0)) in
      (Keeps-trans w.0 done.0, done.1)

  dispatch-After :
      (hdr : FecFragmentHdr) (payload : List ℕ) (c : Ctx)
      → GenOk c.gs
      → c.gs.in_use ≡ true
      → 0 < c.gs.original_len
      → After c (dispatch_fragment env decode_rs hdr payload c)
  unfolding dispatch_fragment
  dispatch-After hdr payload c v used pos =
      let same : After c c = (ground arith, v) in
      let stored = processed c _ (add_data-Arrived hdr.index payload c v) used pos in
      let coded = processed c _ (add_parity-Arrived (hdr.index - k_data) payload c v) used pos in
      elim (Bool-cases (hdr.type == 0)) [
        | inl d ↦ elim (Bool-cases (leb k_data hdr.index)) [
          | inl out ↦ rw (d, out) same
          | inr within ↦ rw (d, within) stored
        ]
        | inr n ↦ elim (Bool-cases (hdr.type == 1)) [
          | inl p ↦ elim (Bool-cases (ltb hdr.index k_data)) [
            | inl low ↦ rw (n, p, low) same
            | inr high ↦ elim (Bool-cases (leb c.rc.parity_symbols (hdr.index - k_data))) [
              | inl out ↦ rw (n, p, high, out) same
              | inr within ↦ rw (n, p, high, within) coded
            ]
          ]
          | inr u ↦ rw (n, u) same
        ]
      ]

  store-TableOk :
      (hdr : FecFragmentHdr) (rc : Receiver) (c c' : Ctx)
      → TableOk rc
      → Ready hdr rc c
      → After c c'
      → TableOk (store_gen hdr.gen_id c')
  unfolding store_gen
  store-TableOk hdr rc c c' t r a = record {
    entry = λ s. elim (Bool-cases (s == hdr.gen_id % max_gens)) [
      | inl here ↦ rw here a.1
      | inr there ↦ rw there (subst GenOk (sym (kept s)) (t.entry s))
    ];
    placed = λ s lt. elim (Bool-cases (s == hdr.gen_id % max_gens)) [
      | inl here ↦ rw here (inr (ground (arith, a.0, r, here)))
      | inr there ↦ rw there (ground (arith, t.placed s lt, kept s))
    ];
    failed = ground (arith, a.0, r, t.failed);
  }
    where
      kept : (s : ℕ) → c'.rc.gens s ≡ rc.gens s
      kept s = ap (λ g. g s) (a.0.gens ∙ r.gens)

  accept-TableOk :
      (hdr : FecFragmentHdr) (payload : List ℕ) (rc : Receiver)
      → TableOk rc
      → TableOk (accept_fragment env decode_rs hdr payload rc)
  unfolding accept_fragment bad_length
  accept-TableOk hdr payload rc t = elim (Bool-cases (bad_length hdr payload)) [
    | inl bad ↦ rw bad t
    | inr fine ↦ rw fine (
        let r = find-Ready env decode_rs hdr rc (ground (arith, fine)) t in
        store-TableOk hdr rc _ _ t r
          (dispatch-After hdr payload _ r.good r.in_use (ground (arith, fine, r.original_len))))
  ]

  note-TableOk : (rc : Receiver) → TableOk rc → TableOk (note_arrival env decode_rs rc)
  unfolding note_arrival
  note-TableOk rc t = record { entry = t.entry; placed = t.placed; failed = t.failed }

  pub handle_fragment-TableOk :
      (buf : List ℕ) (rc : Receiver) → TableOk rc → TableOk (handle_fragment env decode_rs buf rc)
  unfolding handle_fragment
  handle_fragment-TableOk buf rc t = elim (Bool-cases (ltb (length buf) fec_hdr_size)) [
    | inl short ↦ rw short (note-TableOk rc t)
    | inr long ↦ rw long (accept-TableOk (decode_fec_hdr buf) _ _ (note-TableOk rc t))
  ]

  loop-TableOk :
      (bufs : List (List ℕ)) (rc : Receiver)
      → TableOk rc
      → TableOk (receive_loop env decode_rs bufs rc)
  unfolding receive_loop
  loop-TableOk [] rc t = t
  loop-TableOk (buf ∷ rest) rc t = loop-TableOk rest _ (handle_fragment-TableOk buf rc t)

  -- Whatever datagrams arrive, and whatever the decoder answers: between two fragments each table
  -- entry in use belongs to its slot, the packets marked as forwarded are those marked as there, a
  -- generation is reported just when all eight were forwarded, each tried decoding is marked as a
  -- success, and the count of decoding failures stays zero.
  pub receive_loop-TableOk :
      (repairs : ℕ) (metrics : Bool) (bufs : List (List ℕ))
      → TableOk (receive_loop env decode_rs bufs (boot repairs metrics))
  receive_loop-TableOk repairs metrics bufs = loop-TableOk bufs (boot repairs metrics) start
    where
      start : TableOk (boot repairs metrics)
      start =
          unfold boot in
          record { entry = λ s. cleared-GenOk; placed = λ s lt. inl refl; failed = refl }
