-- ===== src/Slab/Free.antt =====
-- fep_slab_block_free and fep_slab_free of fep_slab.c. `none` as the whole result is the removal of
-- an object from a list that it is not on. A block with an object in use has a blkref above 0.
use mathlib.Core.Option
use code_snippets.Slab.{sz_blk, update, Sizes, Slab}
use code_snippets.Prelude.{
  ◌∷◌, ◌==◌, ◌/◌, ◌-◌, ◌++◌, ◌&&◌, ℕ, zero, suc, some, none, ltb, if◌then◌else◌, [], Option, List,
  Bool,
}

abbrev pub same_object : ℕ × ℕ → ℕ × ℕ → Bool
same_object (b, k) (c, j) = b == c && k == j

-- fep_slab_del_object
unfoldable pub del_object : ℕ × ℕ → List (ℕ × ℕ) → Option (List (ℕ × ℕ))
del_object o [] = none
del_object o (x ∷ xs) =
    let rest = del_object o xs in
    if same_object x o then some xs else Option.map (λ ys. x ∷ ys) rest

-- What a removal has left.
abbrev pub then_del :
    Option (List (ℕ × ℕ)) → (List (ℕ × ℕ) → Option (List (ℕ × ℕ))) → Option (List (ℕ × ℕ))
then_del none f = none
then_del (some os) f = f os

-- The loop of fep_slab_block_free over `n` more objects.
unfoldable pub del_objects : ℕ → ℕ → ℕ → List (ℕ × ℕ) → Option (List (ℕ × ℕ))
unfolding del_object
del_objects b i zero os = some os
del_objects b i (suc n) os = then_del (del_object (b, i) os) (λ rest. del_objects b (suc i) n rest)

-- fep_slab_block_free after the loop.
unfoldable pub release_block : ℕ → ℕ → ℕ → Slab → List (ℕ × ℕ) → Slab
release_block i b n s os =
    let p = s.slots i in
    record s {
      slots = update s.slots i (record p { free_objs = os; objs_free = p.objs_free - n });
      block = update s.block b (record (s.block b) { obj_size = 0; slot = none });
      free_blks = s.free_blks ++ b ∷ [];
      blks_free = suc s.blks_free;
      blks_in_use = s.blks_in_use - 1;
    }

-- fep_slab_free from the used list without the object on, up to the test of blkref.
unfoldable pub put_back : ℕ → ℕ × ℕ → Slab → List (ℕ × ℕ) → Slab
put_back i (b, k) s os =
    let p = s.slots i in
    record s {
      slots = update s.slots i (record p {
        used_objs = os;
        objs_in_use = p.objs_in_use - 1;
        free_objs = p.free_objs ++ (b, k) ∷ [];
        objs_free = suc p.objs_free;
      });
      hdrnum = update s.hdrnum b (update (s.hdrnum b) k none);
      block = update s.block b (record (s.block b) { blkref = (s.block b).blkref - 1 });
    }

-- fep_slab_delete_private of a slot's memory.
abbrev pub delete_private : ℕ → Slab → Slab
delete_private i s = record s {
  slots = update s.slots i (record (s.slots i) { deallocated = suc (s.slots i).deallocated });
}

module _ (z : Sizes) where
  unfoldable pub block_free : ℕ → ℕ → Slab → Option Slab
  unfolding del_objects release_block
  block_free i b s =
      let n = (sz_blk - z.blk) / (s.block b).obj_size in
      Option.map (release_block i b n s) (del_objects b 0 n (s.slots i).free_objs)

  -- fep_slab_free from the test of blkref on.
  unfoldable pub free_empty : ℕ → ℕ → Slab → Option Slab
  unfolding block_free
  free_empty i b s =
      let emptied = block_free i b s in
      Option.map (delete_private i) (if (s.block b).blkref == 0 then emptied else some s)

  -- fep_slab_free with the used list without the object.
  unfoldable pub free_removed : ℕ → ℕ × ℕ → Slab → Option (List (ℕ × ℕ)) → Option Slab
  unfolding put_back free_empty
  free_removed i o s none = none
  free_removed i o s (some os) = free_empty i o.0 (put_back i o s os)

  -- fep_slab_free of an object whose block has this slot.
  unfoldable pub free_from_slot : Option ℕ → ℕ × ℕ → Slab → Option Slab
  unfolding free_removed
  free_from_slot none o s = some s
  free_from_slot (some i) o s =
      if ltb i s.n_slots then free_removed i o s (del_object o (s.slots i).used_objs) else some s

  -- fep_slab_free; the object is not null.
  unfoldable pub free : ℕ × ℕ → Slab → Option Slab
  unfolding free_from_slot
  free o s = free_from_slot (s.block o.0).slot o s
