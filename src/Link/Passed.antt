-- ===== src/Link/Passed.antt =====
-- Packets forwarded between two states of the RaptorQ edge receiver, and that finishing a block forwards
-- none.
use openmc.Common.{ℕ, ◌≡◌, sym, ap, ◌∙◌, true, List, [], ◌++◌, append_assoc, arith}
use openmc.RsReceiver.{Forwarded}
use openmc.RqReceiver.{RqReceiver, RqBlockDec, BlockCtx, mark_block_completed}
use openmc.RqReceiver.Decode.{count_class, count_block, write_block_row, finalize_block}

-- Between two states packets were forwarded, oldest first, and the configuration is the same.
pub record Passed (rc rc' : RqReceiver) (ps : List Forwarded) : Type 0 where
  pub output : rc'.output ≡ ps ++ rc.output
  pub config : rc'.block_size ≡ rc.block_size

-- A packet that was forwarded as it came.
abbrev pub packet : List ℕ → Forwarded
packet p = record { bytes = p; is_original = true }

-- The steps that finish a block forward nothing.
class-Passed : (c : BlockCtx) → Passed c.rc (count_class c) []
unfolding count_class
class-Passed c = ground arith

completed-Passed : (id : ℕ) (rc : RqReceiver) → Passed rc (mark_block_completed id rc) []
unfolding mark_block_completed
completed-Passed id rc = ground arith

count-Passed : (b : RqBlockDec) (rc : RqReceiver) → Passed rc (count_block b rc) []
unfolding count_block
count-Passed b rc = ground arith

row-Passed : (b : RqBlockDec) (rc : RqReceiver) → Passed rc (write_block_row b rc) []
unfolding write_block_row
row-Passed b rc = ground arith

pub Passed-trans :
    (a b c : RqReceiver) (xs ys : List Forwarded)
    → Passed a b xs
    → Passed b c ys
    → Passed a c (ys ++ xs)
Passed-trans a b c xs ys v w = record {
  output = w.output ∙ ap (λ l. ys ++ l) v.output ∙ sym (append_assoc ys xs a.output);
  config = w.config ∙ v.config;
}

pub finalize-Passed : (c : BlockCtx) → Passed c.rc ((finalize_block c).rc) []
unfolding finalize_block
finalize-Passed c =
    let done = mark_block_completed c.b.block_id (count_class c) in
    Passed-trans c.rc (count_block c.b done) _ [] []
      (Passed-trans c.rc done _ [] []
        (Passed-trans c.rc (count_class c) _ [] [] (class-Passed c)
          (completed-Passed c.b.block_id (count_class c)))
        (count-Passed c.b done))
      (row-Passed c.b (count_block c.b done))
