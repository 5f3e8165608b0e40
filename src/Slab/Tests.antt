-- ===== src/Slab/Tests.antt =====
-- An allocation from a slab with two slots and two free blocks, and the release of an object.
use code_snippets.Slab.Freed.{Freed}
use code_snippets.Slab.Alloc.{alloc-Outcome, Outcome, IsCounted}
use code_snippets.Slab.{update, alloc, objs_per_blk, Slab, Slot, Sizes}
use code_snippets.Prelude.{some, ◌∷◌, ◌==◌, ◌<◌, ℕ, refl, none, if◌then◌else◌, arith, [], Returns}

abbrev sizes : Sizes
sizes = record { obj = 32; blk = 40 }

abbrev empty_slot : ℕ → Slot
empty_slot size = record {
  free_objs = [];
  used_objs = [];
  data_size = size;
  objs_free = 0;
  objs_in_use = 0;
  objs_max = 0;
  n_allocs = 0;
  mem_fail = 0;
  allocated = 0;
  deallocated = 0;
}

abbrev slab : Slab
slab = record {
  free_blks = 0 ∷ 1 ∷ [];
  blks_free = 2;
  blks_in_use = 0;
  blks_max = 0;
  next_hdrnum = 0;
  n_slots = 2;
  slots = λ i. empty_slot (if i == 0 then 30000 else 20000);
  block = λ b. record { blkref = 0; slot = none; obj_size = 0 };
  hdrnum = λ b k. none;
}

slab-IsCounted : IsCounted slab
slab-IsCounted = record { slots = λ i. (refl, refl); blocks = refl }

some_objects : (i : ℕ) → i < 2 → 0 < objs_per_blk sizes (slab.slots i).data_size
unfolding objs_per_blk
some_objects i h = ground arith

alloc-Outcome_example : Returns (Outcome sizes 16000 slab) (alloc sizes 16000 slab)
alloc-Outcome_example = alloc-Outcome sizes 16000 slab slab-IsCounted (omega arith) some_objects

-- Block 0 is cut into two objects, of which the second is in use.
abbrev used_slab : Slab
used_slab = record slab {
  free_blks = 1 ∷ [];
  blks_free = 1;
  blks_in_use = 1;
  slots =
      update (λ i. empty_slot 20000) 0
        (record (empty_slot 30000) {
          free_objs = (0, 0) ∷ [];
          used_objs = (0, 1) ∷ [];
          objs_free = 1;
          objs_in_use = 1;
        });
  block = λ b. record { blkref = 1; slot = some 0; obj_size = 30032 };
}
