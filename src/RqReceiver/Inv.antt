-- ===== src/RqReceiver/Inv.antt =====
-- The invariant of the RaptorQ edge receiver, and the smaller steps that keep it.
use openmc.Common.{
  ℕ, ◌+◌, ◌%◌, ◌^◌, ◌≤◌, ◌<◌, ◌≡◌, refl, Bool, true, false, List, [], ◌∷◌, ◌++◌, ◌==◌, length,
  length-append, update, count_below, count_below-update, arith,
}
use openmc.Env.{Env}
use openmc.RqReceiver.{
  Codec, RqBlockDec, RqReceiver, BlockCtx, blank, holds, max_blocks, max_syms_per_block,
  mark_block_completed, store_block, get_block, forward_ip_packet_counted,
}
use openmc.RqReceiver.Decode.{
  all_forwarded, count_class, count_block, write_block_row, finalize_block, count_consumed,
  mark_forwarded, time_decode,
}
use openmc.RqReceiver.Symbol.{note_arrival, count_fragment, stamp_first}

abbrev pub Distinct : List ℕ → Type 0
Distinct [] = Unit
Distinct (x ∷ xs) = (holds x xs ≡ false) × Distinct xs

pub holds-append :
    (x y : ℕ) (xs : List ℕ) → holds x xs ≡ false → (y == x) ≡ false → holds x (xs ++ y ∷ []) ≡ false
holds-append x y [] h n = ground (arith, n)
holds-append x y (z ∷ zs) h n = ground (arith, h, holds-append x y zs, n)

pub Distinct-append :
    (y : ℕ) (xs : List ℕ) → Distinct xs → holds y xs ≡ false → Distinct (xs ++ y ∷ [])
Distinct-append y [] d h = (refl, tt)
Distinct-append y (x ∷ xs) d h =
    (holds-append x y xs d.0 (ground (arith, h)), Distinct-append y xs d.1 (ground (arith, h)))

-- What holds of every block of the table: K is within the configured size, at most 40 symbols are
-- stored, with distinct identifiers, packets are marked as forwarded below the configured size only,
-- and no more are counted than are marked.
pub record BlockOk (bs : ℕ) (b : RqBlockDec) : Type 0 where
  pub size : b.symbol_count ≤ bs
  pub room : length b.esis ≤ max_syms_per_block
  pub distinct : Distinct b.esis
  pub marks : (i : ℕ) → b.forwarded i ≡ true → i < bs
  pub marked : b.forwarded_count ≤ count_below b.symbol_count b.forwarded

-- And of the globals: the table, the classes of the blocks that were finished, and the list of
-- completed blocks.
pub record RqOk (bs : ℕ) (rc : RqReceiver) : Type 0 where
  pub table : (slot : ℕ) → BlockOk bs (rc.blocks slot)
  pub config : rc.block_size ≡ bs
  pub classes :
      rc.counters.total_generations
      ≡ (rc.counters.gens_no_loss + rc.counters.gens_repaired) % 2 ^ 64
  pub failures : rc.counters.gens_decode_fail ≡ 0
  pub completed : length rc.completed_blocks ≤ max_blocks

pub record CtxOk (bs : ℕ) (c : BlockCtx) : Type 0 where
  pub block : BlockOk bs c.b
  pub globals : RqOk bs c.rc

pub blank-BlockOk : (bs id : ℕ) (u : Bool) → BlockOk bs (record blank { in_use = u; block_id = id })
blank-BlockOk bs id u = record {
  size = omega arith;
  room = omega arith;
  distinct = tt;
  marks = λ i h. absurd (ground (arith, h));
  marked = omega arith;
}

pub update-true :
    (f : ℕ → Bool) (i n : ℕ)
    → i < n
    → ((k : ℕ) → f k ≡ true → k < n)
    → (k : ℕ) → update f i true k ≡ true
    → k < n
update-true f i n lt h k e = ground (arith, h k, e)

module _ (env : Env) (codec : Codec) (bs : ℕ) where
  pub forward-RqOk :
      (pkt : List ℕ) (len : ℕ) (o : Bool) (rc : RqReceiver)
      → RqOk bs rc
      → RqOk bs (forward_ip_packet_counted env pkt len o rc)
  unfolding forward_ip_packet_counted
  forward-RqOk pkt len o rc p = ground (arith, p)

  mark-RqOk : (id : ℕ) (rc : RqReceiver) → RqOk bs rc → RqOk bs (mark_block_completed id rc)
  unfolding mark_block_completed
  mark-RqOk id rc p = ground (arith, p, length-append rc.completed_blocks (id ∷ []))

  count_block-RqOk : (b : RqBlockDec) (rc : RqReceiver) → RqOk bs rc → RqOk bs (count_block b rc)
  unfolding count_block
  count_block-RqOk b rc p = ground (arith, p)

  row-RqOk : (b : RqBlockDec) (rc : RqReceiver) → RqOk bs rc → RqOk bs (write_block_row b rc)
  unfolding write_block_row
  row-RqOk b rc p = ground (arith, p)

  -- A block is finished only when all its packets were forwarded.
  count_class-RqOk :
      (c : BlockCtx) → all_forwarded c.b ≡ true → RqOk bs c.rc → RqOk bs (count_class c)
  unfolding count_class
  count_class-RqOk c e p = ground (arith, e, p)

  pub finalize-CtxOk :
      (c : BlockCtx) → all_forwarded c.b ≡ true → CtxOk bs c → CtxOk bs (finalize_block c)
  unfolding finalize_block
  finalize-CtxOk c e p = record {
    block = blank-BlockOk bs 0 false;
    globals =
        row-RqOk c.b _
          (count_block-RqOk c.b _ (mark-RqOk c.b.block_id _ (count_class-RqOk c e p.globals)));
  }

  pub consumed-CtxOk : (c : BlockCtx) → CtxOk bs c → CtxOk bs (count_consumed c)
  unfolding count_consumed
  consumed-CtxOk c p = ground (arith, p)

  pub time-CtxOk : (ok : Bool) (c : BlockCtx) → CtxOk bs c → CtxOk bs (time_decode env codec ok c)
  unfolding time_decode
  time-CtxOk ok c p = ground (arith, p)

  pub mark_forwarded-CtxOk :
      (i len : ℕ) (pkt : List ℕ) (c : BlockCtx)
      → i < c.b.symbol_count
      → c.b.forwarded i ≡ false
      → CtxOk bs c
      → CtxOk bs (mark_forwarded env codec i pkt len c)
  unfolding mark_forwarded
  mark_forwarded-CtxOk i len pkt c lt f p =
      let count = count_below-update c.b.symbol_count i c.b.forwarded f in
      record {
        block = record {
          size = p.block.size;
          room = p.block.room;
          distinct = p.block.distinct;
          marks = update-true c.b.forwarded i bs (omega (arith, lt, p.block.size)) p.block.marks;
          marked = ground (arith, count, lt, p.block.marked);
        };
        globals = ground (arith, p.globals);
      }

  pub note-RqOk : (rc : RqReceiver) → RqOk bs rc → RqOk bs (note_arrival env codec rc)
  unfolding note_arrival
  note-RqOk rc p = ground (arith, p)

  pub fragment-RqOk :
      (s : Bool) (rc : RqReceiver) → RqOk bs rc → RqOk bs (count_fragment env codec s rc)
  unfolding count_fragment
  fragment-RqOk s rc p = ground (arith, p)

  pub stamp-CtxOk : (c : BlockCtx) → CtxOk bs c → CtxOk bs (stamp_first env codec c)
  unfolding stamp_first
  stamp-CtxOk c p = ground (arith, p)

  pub get-CtxOk : (id : ℕ) (rc : RqReceiver) → RqOk bs rc → CtxOk bs (get_block id rc)
  unfolding get_block
  get-CtxOk id rc p = ground (arith, p, p.table (id % max_blocks), blank-BlockOk bs id true)

  pub store-RqOk : (id : ℕ) (c : BlockCtx) → CtxOk bs c → RqOk bs (store_block id c)
  unfolding store_block
  store-RqOk id c p = record {
    table = λ slot. ground (arith, p.block, p.globals.table slot);
    config = p.globals.config;
    classes = p.globals.classes;
    failures = p.globals.failures;
    completed = p.globals.completed;
  }
