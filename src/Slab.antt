-- ===== src/Slab.antt =====
-- Allocation from the slots of slab-allocator-memory-cache/fep_slab.c and release to them. A
-- block is a number, an object its block and its position there, and a circular list the list of
-- its elements. The pointer to the slab is not null, its slot numbers are not negative, and the
-- mutex is left out: each operation holds it from start to end. `none` as the whole result is a
-- pop from an empty list, which the code does where a block is too small for an object.
pub mod Fit
pub mod Alloc
pub mod Free
pub mod Delete
pub mod Freed
mod Tests
use code_snippets.Prelude.{
  ◌∷◌, ◌==◌, ◌/◌, ◌-◌, ◌+◌, ◌++◌, ◌&&◌, ℕ, zero, true, suc, some, none, ltb, leb, if◌then◌else◌,
  false, [], Option, List, Bool,
}

abbrev pub sz_blk : ℕ
sz_blk = 66560

-- sizeof (fep_slab_obj_t) and sizeof (fep_slab_blk_t)
pub record Sizes : Type 0 where
  pub obj : ℕ
  pub blk : ℕ

-- struct fep_slab_blk; the slot `none` is UNINITIALIZED.
pub record Block : Type 0 where
  pub blkref : ℕ
  pub slot : Option ℕ
  pub obj_size : ℕ

-- struct fep_slab_slot without n_objs, which only the set-up reads, and n_fail, which counts a null
-- object that no pop returns. Of its memory mem_fail, and the calls of MEMORY_ALLOCATED and of
-- MEMORY_DEALLOCATED.
pub record Slot : Type 0 where
  pub free_objs : List (ℕ × ℕ)
  pub used_objs : List (ℕ × ℕ)
  pub data_size : ℕ
  pub objs_free : ℕ
  pub objs_in_use : ℕ
  pub objs_max : ℕ
  pub n_allocs : ℕ
  pub mem_fail : ℕ
  pub allocated : ℕ
  pub deallocated : ℕ

-- struct fep_slab with its blocks and objects; `none` is FEP_SLAB_INIT_HDRNUM.
pub record Slab : Type 0 where
  pub free_blks : List ℕ
  pub blks_free : ℕ
  pub blks_in_use : ℕ
  pub blks_max : ℕ
  pub next_hdrnum : ℕ
  pub n_slots : ℕ
  pub slots : ℕ → Slot
  pub block : ℕ → Block
  pub hdrnum : ℕ → ℕ → Option ℕ

abbrev pub update {ℓ} : {A : Type ℓ} → (ℕ → A) → ℕ → A → ℕ → A
update f i a j = if j == i then a else f j

-- Update watermark
abbrev pub watermark : ℕ → ℕ → ℕ
watermark most now = if ltb most now then now else most

-- The objects of a block from position `i` on.
unfoldable pub objects : ℕ → ℕ → ℕ → List (ℕ × ℕ)
objects b i zero = []
objects b i (suc n) = (b, i) ∷ objects b (suc i) n

-- fep_slab_new_private of a slot's memory with no data.
abbrev pub new_private_fail : ℕ → Slab → Slab
new_private_fail i s = record s {
  slots = update s.slots i (record (s.slots i) { mem_fail = suc (s.slots i).mem_fail });
}

-- fep_slab_alloc_from_slot from the pop on, with the free objects.
unfoldable pub pop_object : List (ℕ × ℕ) → ℕ → Slab → Option (Option (ℕ × ℕ) × Slab)
pop_object [] i s = none
pop_object ((b, k) ∷ rest) i s =
    let p = s.slots i in
    some (
      some (b, k),
      record s {
        block = update s.block b (record (s.block b) { blkref = suc (s.block b).blkref });
        hdrnum = update s.hdrnum b (update (s.hdrnum b) k (some s.next_hdrnum));
        next_hdrnum = suc s.next_hdrnum;
        slots = update s.slots i (record p {
          free_objs = rest;
          used_objs = (b, k) ∷ p.used_objs;
          n_allocs = suc p.n_allocs;
          objs_in_use = suc p.objs_in_use;
          objs_free = p.objs_free - 1;
          objs_max = watermark p.objs_max (suc p.objs_in_use);
          allocated = suc p.allocated;
        });
      },
    )

module _ (z : Sizes) where
  unfoldable pub objs_per_blk : ℕ → ℕ
  objs_per_blk data_size = (sz_blk - z.blk) / (z.obj + data_size)

  -- fep_slab_block_alloc of the first free block.
  unfoldable pub take_block : ℕ → ℕ → List ℕ → Slab → Slab
  unfolding objects objs_per_blk
  take_block i b rest s =
      let p = s.slots i in
      let n = objs_per_blk p.data_size in
      record s {
        free_blks = rest;
        blks_free = s.blks_free - 1;
        blks_in_use = suc s.blks_in_use;
        blks_max = watermark s.blks_max (suc s.blks_in_use);
        block =
            update s.block b (record { blkref = 0; slot = some i; obj_size = z.obj + p.data_size });
        hdrnum = update s.hdrnum b (λ k. if ltb k n then none else s.hdrnum b k);
        slots =
            update s.slots i
              (record p { free_objs = p.free_objs ++ objects b 0 n; objs_free = p.objs_free + n });
      }

  -- fep_slab_block_alloc with the free blocks: false is FAILURE.
  unfoldable pub block_alloc_from : List ℕ → ℕ → Slab → Bool × Slab
  unfolding take_block
  block_alloc_from [] i s = (false, s)
  block_alloc_from (b ∷ rest) i s = (true, take_block i b rest s)

  unfoldable pub block_alloc : ℕ → Slab → Bool × Slab
  unfolding block_alloc_from
  block_alloc i s = if ltb i s.n_slots then block_alloc_from s.free_blks i s else (false, s)

  -- fep_slab_alloc_from_slot after fep_slab_block_alloc has returned.
  unfoldable pub pop_after : ℕ → Bool × Slab → Option (Option (ℕ × ℕ) × Slab)
  unfolding pop_object
  pop_after i (false, s) = some (none, new_private_fail i s)
  pop_after i (true, s) = pop_object (s.slots i).free_objs i s

  -- fep_slab_alloc_from_slot of a slot with these free objects.
  unfoldable pub alloc_objs : List (ℕ × ℕ) → ℕ → Slab → Option (Option (ℕ × ℕ) × Slab)
  unfolding pop_after block_alloc
  alloc_objs [] i s = pop_after i (block_alloc i s)
  alloc_objs (o ∷ os) i s = pop_object (o ∷ os) i s

  unfoldable pub alloc_from_slot : ℕ → Slab → Option (Option (ℕ × ℕ) × Slab)
  unfolding alloc_objs
  alloc_from_slot i s =
      if ltb i s.n_slots then alloc_objs (s.slots i).free_objs i s else some (none, s)

-- A slot that satisfies the request, and is smaller than the one chosen before.
abbrev pub is_better : ℕ → ℕ → Option ℕ → Slab → Bool
is_better size i none s = leb size (s.slots i).data_size
is_better size i (some j) s =
    leb size (s.slots i).data_size && ltb (s.slots i).data_size (s.slots j).data_size

-- The loop of fep_slab_alloc over `left` more slots; `none` is -1.
unfoldable pub choose : ℕ → ℕ → ℕ → Option ℕ → Slab → Option ℕ
choose size zero i j s = j
choose size (suc left) i j s =
    choose size left (suc i) (if is_better size i j s then some i else j) s

module _ (z : Sizes) where
  unfoldable pub alloc_chosen : Option ℕ → Slab → Option (Option (ℕ × ℕ) × Slab)
  unfolding alloc_from_slot
  alloc_chosen none s = some (none, s)
  alloc_chosen (some j) s = alloc_from_slot z j s

  -- fep_slab_alloc
  unfoldable pub alloc : ℕ → Slab → Option (Option (ℕ × ℕ) × Slab)
  unfolding choose alloc_chosen
  alloc size s =
      if size == 0 then some (none, s) else alloc_chosen (choose size s.n_slots 0 none s) s
