-- ===== src/Slab/Freed.antt =====
-- What fep_slab_free does.
use code_snippets.Slab.Alloc.{IsCounted}
use code_snippets.Slab.{sz_blk, Sizes, Slab}
use code_snippets.Slab.Delete.{has_object, TakenFrom}
use code_snippets.Prelude.{
  none, ◌≢◌, ◌==◌, ◌/◌, ◌-◌, ◌++◌, if◌then◌else◌, ◌≡◌, ◌∷◌, ℕ, suc, false, [], List,
}

-- The lists have the same objects of the blocks other than `b`.
abbrev SameElsewhere : ℕ → List (ℕ × ℕ) → List (ℕ × ℕ) → Type 0
SameElsewhere b os ys = (q : ℕ × ℕ) → (q.0 == b) ≡ false → has_object q ys ≡ has_object q os

-- The object `o` has been freed: it has left the used list of its slot and has no header number;
-- its block is free again where no other object of it was in use, and the free list keeps the
-- objects of the other blocks, and else the object is the last on the free list; the other slots
-- are as they were, and the counts are those of the lists.
pub record Freed (o : ℕ × ℕ) (i : ℕ) (s t : Slab) : Type 0 where
  pub used : TakenFrom o (s.slots i).used_objs (t.slots i).used_objs
  pub number : t.hdrnum o.0 o.1 ≡ none
  pub free_objs :
      if (s.block o.0).blkref - 1 == 0
      then SameElsewhere o.0 (s.slots i).free_objs (t.slots i).free_objs
      else (t.slots i).free_objs ≡ (s.slots i).free_objs ++ o ∷ []
  pub in_use : suc (t.slots i).objs_in_use ≡ (s.slots i).objs_in_use
  pub free_blks :
      t.free_blks ≡ (if (s.block o.0).blkref - 1 == 0 then s.free_blks ++ o.0 ∷ [] else s.free_blks)
  pub others : (j : ℕ) → j ≢ i → t.slots j ≡ s.slots j
  pub counted : IsCounted t

module _ (z : Sizes) where
  -- The number of objects in a block.
  abbrev pub in_block : ℕ → Slab → ℕ
  in_block b s = (sz_blk - z.blk) / (s.block b).obj_size
