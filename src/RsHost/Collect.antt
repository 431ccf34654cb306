-- ===== src/RsHost/Collect.antt =====
-- What the generation buffer of openmc_rs.c holds, against a list of packets: an abstract collector
-- of generations, and the flat buffer as its representation.
use openmc.Common.{
  ℕ, zero, suc, ◌+◌, ◌*◌, ◌<◌, ◌≡◌, refl, ◌⊎◌, inl, inr, Bool, true, false, List, [], ◌∷◌, ◌++◌,
  arith, ◌==◌, if◌then◌else◌, length, take, add16, get_or, blit, length-append, get_or-append_left,
  get_or-append_right, take_all, blit-inside, blit-before, cell-lt, Bool-cases, ◌∙◌, ap, sym, subst,
}
use openmc.RsHost.{Host, GenerationState, k_data, store_packet}
use openmc.RsHost.Inv.{next_gen, next_index, prepared}

-- A generation under way: its number and its packets, oldest first.
pub record Collector : Type 0 where
  pub gen : ℕ
  pub packets : List (List ℕ)

abbrev pub fits : List ℕ → List (List ℕ) → Bool
fits pkt [] = false
fits pkt (p ∷ ps) = length p == length pkt

-- A packet joins the generation if it is as long as the packets there, and starts another if not.
abbrev pub add_packet : List ℕ → Collector → Collector
add_packet pkt c =
    if fits pkt c.packets
    then record { gen = c.gen; packets = c.packets ++ (pkt ∷ []) }
    else record { gen = add16 c.gen 1; packets = pkt ∷ [] }

-- After a packet, a full generation leaves.
abbrev pub rest_of : Collector → Collector
rest_of c = if length c.packets == k_data then record c { packets = [] } else c

abbrev pub collect : List ℕ → Collector → Collector
collect pkt c = rest_of (add_packet pkt c)

-- The buffer holds these packets, one behind the other, each of the generation's length.
pub record Holds (g : GenerationState) (c : Collector) : Type 0 where
  pub id : g.gen_id ≡ c.gen
  pub number : g.count ≡ length c.packets
  pub lens : (i : ℕ) → i < length c.packets → length (get_or c.packets i []) ≡ g.original_len
  pub bytes :
      (i j : ℕ)
      → i < length c.packets
      → j < g.original_len
      → g.data_buf (i * g.original_len + j) ≡ get_or (get_or c.packets i []) j 0

-- The first packet of a generation.
Holds-first :
    (f : ℕ → ℕ) (id : ℕ) (pkt : List ℕ)
    → Holds
        (record {
          gen_id = id;
          count = 0 + 1;
          original_len = length pkt;
          data_buf = blit f (0 * length pkt) (take (length pkt) pkt) 0;
        })
        (record { gen = id; packets = pkt ∷ [] })
Holds-first f id pkt = record { id = refl; number = refl; lens = only_len; bytes = only_bytes }
  where
    only_len : (i : ℕ) → i < 1 → length (get_or (pkt ∷ []) i []) ≡ length pkt
    only_len zero h = refl
    only_len (suc i) h = absurd (omega arith)

    only_bytes :
        (i j : ℕ)
        → i < 1
        → j < length pkt
        → blit f (0 * length pkt) (take (length pkt) pkt) 0 (i * length pkt + j)
          ≡ get_or (get_or (pkt ∷ []) i []) j 0
    only_bytes zero j h k =
        rw (take_all (length pkt) pkt refl) (blit-inside f (0 * length pkt) pkt 0 j k)
    only_bytes (suc i) j h k = absurd (omega arith)

-- One more packet of the same length.
module _ (g : GenerationState) (c : Collector) (pkt : List ℕ) (v : Holds g c)
    (same : g.original_len ≡ length pkt) where
  last-or-earlier :
      (i : ℕ)
      → i < length (c.packets ++ (pkt ∷ []))
      → (i < length c.packets) ⊎ (i ≡ length c.packets + 0)
  last-or-earlier i h = grind (arith, length-append c.packets (pkt ∷ []))

  next_lens :
      (i : ℕ)
      → i < length (c.packets ++ (pkt ∷ []))
      → length (get_or (c.packets ++ (pkt ∷ [])) i []) ≡ g.original_len
  next_lens i h = elim (last-or-earlier i h) [
    | inl lt ↦ rw (get_or-append_left c.packets (pkt ∷ []) i [] lt) (v.lens i lt)
    | inr e ↦ rw (e, get_or-append_right c.packets (pkt ∷ []) 0 []) (sym same)
  ]

  abbrev next_buf : ℕ → ℕ
  next_buf = blit g.data_buf (g.count * g.original_len) (take g.original_len pkt) 0

  next_bytes :
      (i j : ℕ)
      → i < length (c.packets ++ (pkt ∷ []))
      → j < g.original_len
      → next_buf (i * g.original_len + j) ≡ get_or (get_or (c.packets ++ (pkt ∷ [])) i []) j 0
  next_bytes i j h k = elim (last-or-earlier i h) [
    | inl lt ↦ rw (get_or-append_left c.packets (pkt ∷ []) i [] lt) (
        blit-before g.data_buf (g.count * g.original_len) (take g.original_len pkt) 0
          (i * g.original_len + j) (cell-lt i g.count j g.original_len (omega (arith, v.number)) k)
        ∙ v.bytes i j lt k)
    | inr e ↦
        rw
          (
            e,
            get_or-append_right c.packets (pkt ∷ []) 0 [],
            take_all g.original_len pkt same,
            v.number,
          )
          (last_bytes)
  ]
    where
      last_bytes :
          blit g.data_buf
            (length c.packets * g.original_len)
            pkt
            0
            ((length c.packets + 0) * g.original_len + j)
          ≡ get_or pkt j 0
      last_bytes =
          ap (blit g.data_buf (length c.packets * g.original_len) pkt 0) (omega arith)
          ∙ blit-inside g.data_buf (length c.packets * g.original_len) pkt 0 j (omega arith)

  Holds-next :
      Holds
        (record g { count = g.count + 1; data_buf = next_buf })
        (record { gen = c.gen; packets = c.packets ++ (pkt ∷ []) })
  Holds-next = record {
    id = v.id;
    number = omega (arith, v.number, length-append c.packets (pkt ∷ []));
    lens = next_lens;
    bytes = next_bytes;
  }

abbrev pub slot : GenerationState → List ℕ → ℕ → ℕ → GenerationState
slot g pkt id index = record {
  gen_id = id;
  count = index + 1;
  original_len = length pkt;
  data_buf = blit g.data_buf (index * length pkt) (take (length pkt) pkt) 0;
}

pub store-slot :
    (pkt : List ℕ) (h : Host)
    → (store_packet pkt (prepared (length pkt) h)).cur_gen
      ≡ slot h.cur_gen pkt (next_gen (length pkt) h) (next_index (length pkt) h)
unfolding store_packet
store-slot pkt h = refl

pub slot-Holds :
    (pkt : List ℕ) (h : Host) (id : ℕ) (ps : List (List ℕ))
    → Holds h.cur_gen (record { gen = id; packets = ps })
    → Holds
        (slot h.cur_gen pkt (next_gen (length pkt) h) (next_index (length pkt) h))
        (add_packet pkt (record { gen = id; packets = ps }))
slot-Holds pkt h id [] v =
    subst (λ g. Holds g (record { gen = add16 id 1; packets = pkt ∷ [] })) (sym eq)
      (Holds-first h.cur_gen.data_buf (add16 id 1) pkt)
  where
    eq :
        slot h.cur_gen pkt (next_gen (length pkt) h) (next_index (length pkt) h)
        ≡ slot h.cur_gen pkt (add16 id 1) 0
    eq = ground (arith, v.id, v.number)
slot-Holds pkt h id (p ∷ ps) v = elim (Bool-cases (length p == length pkt)) [
  | inl same ↦ rw same (rw (joined same) (Holds-next h.cur_gen _ pkt v (len same)))
  | inr other ↦ rw other (rw (fresh other) (Holds-first h.cur_gen.data_buf (add16 id 1) pkt))
]
  where
    len : (length p == length pkt) ≡ true → h.cur_gen.original_len ≡ length pkt
    len e = ground (arith, v.lens 0 (omega arith))

    joined :
        (length p == length pkt) ≡ true
        → slot h.cur_gen pkt (next_gen (length pkt) h) (next_index (length pkt) h)
          ≡ record h.cur_gen {
            count = h.cur_gen.count + 1;
            data_buf =
                blit h.cur_gen.data_buf
                  (h.cur_gen.count * h.cur_gen.original_len)
                  (take h.cur_gen.original_len pkt)
                  0;
          }
    joined e = ground (arith, len e, v.number)

    fresh :
        (length p == length pkt) ≡ false
        → slot h.cur_gen pkt (next_gen (length pkt) h) (next_index (length pkt) h)
          ≡ slot h.cur_gen pkt (add16 id 1) 0
    fresh e = ground (arith, v.number, v.id, v.lens 0 (omega arith))
