-- ===== src/Slab/Alloc.antt =====
-- What fep_slab_alloc does.
-- The counts are those of the lists.
use code_snippets.Slab.Fit.{choose-BestFit, BestFit}
use code_snippets.Slab.{
  choose, pop_after, block_alloc_from, block_alloc, alloc_objs, alloc_from_slot, alloc_chosen,
  alloc, objs_per_blk, new_private_fail, take_block, update, Sizes, pop_object, objects, Slab, Slot,
}
use code_snippets.Prelude.{
  ◌∙◌, ◌<◌, sym, returns, ltb, false, Returns, ◌≢◌, ◌≡◌, ◌∷◌, ◌==◌, ℕ, zero, true, suc, some, refl,
  none, length-append, length, inr, inl, arith, ap, [], Option, List, Bool-cases,
}

abbrev pub SlotCounted : Slot → Type 0
SlotCounted p = (p.objs_free ≡ length p.free_objs) × (p.objs_in_use ≡ length p.used_objs)

pub record IsCounted (s : Slab) : Type 0 where
  pub slots : (i : ℕ) → SlotCounted (s.slots i)
  pub blocks : s.blks_free ≡ length s.free_blks

pub SlotCounted-update :
    (f : ℕ → Slot) (i : ℕ) (p : Slot)
    → ((j : ℕ) → SlotCounted (f j))
    → SlotCounted p
    → (j : ℕ) → SlotCounted (update f i p j)
SlotCounted-update f i p h k j = elim (Bool-cases (j == i)) [ inl e ↦ rw e k | inr e ↦ rw e (h j) ]

-- The object `o` is the first used one of slot `j`, its block has one object more in use, it has the
-- next header number, the other slots are as they were, and the counts are those of the lists.
pub record InUse (j : ℕ) (o : ℕ × ℕ) (s t : Slab) : Type 0 where
  pub used : (t.slots j).used_objs ≡ o ∷ (s.slots j).used_objs
  pub number : t.hdrnum o.0 o.1 ≡ some s.next_hdrnum
  pub others : (i : ℕ) → i ≢ j → t.slots i ≡ s.slots i
  pub counted : IsCounted t

-- No slot satisfies the request; or the best one has no free object and there is no free block; or
-- its first free object is handed out, and no block leaves the free ones; or it has none, and the
-- first free block leaves them for the slot, whose free objects are then those of the block but
-- the first, which is handed out.
pub data Outcome (z : Sizes) (size : ℕ) (s : Slab) : Option (ℕ × ℕ) × Slab → Type 0 where
  no_slot : BestFit size s.n_slots s none → Outcome z size s (none, s)
  exhausted :
      (j : ℕ)
      → BestFit size s.n_slots s (some j)
      → (s.slots j).free_objs ≡ []
      → s.free_blks ≡ []
      → Outcome z size s (none, new_private_fail j s)
  handed_out :
      (j : ℕ) (o : ℕ × ℕ) (t : Slab)
      → BestFit size s.n_slots s (some j)
      → (s.slots j).free_objs ≡ o ∷ (t.slots j).free_objs
      → t.free_blks ≡ s.free_blks
      → (t.block o.0).blkref ≡ suc (s.block o.0).blkref
      → InUse j o s t
      → Outcome z size s (some o, t)
  new_block :
      (j b : ℕ) (t : Slab)
      → BestFit size s.n_slots s (some j)
      → (s.slots j).free_objs ≡ []
      → s.free_blks ≡ b ∷ t.free_blks
      → objects b 0 (objs_per_blk z (s.slots j).data_size) ≡ (b, 0) ∷ (t.slots j).free_objs
      → (t.block b).slot ≡ some j
      → (t.block b).blkref ≡ 1
      → InUse j (b, 0) s t
      → Outcome z size s (some (b, 0), t)

length-objects : (b i n : ℕ) → length (objects b i n) ≡ n
unfolding objects
length-objects b i zero = refl
length-objects b i (suc n) = ap suc (length-objects b (suc i) n)

-- A pop from a list that is not empty.
record Popped (j : ℕ) (o : ℕ × ℕ) (os : List (ℕ × ℕ)) (s t : Slab) : Type 0 where
  free : (t.slots j).free_objs ≡ os
  used : (t.slots j).used_objs ≡ o ∷ (s.slots j).used_objs
  number : t.hdrnum o.0 o.1 ≡ some s.next_hdrnum
  blocks : t.free_blks ≡ s.free_blks
  slot : (t.block o.0).slot ≡ (s.block o.0).slot
  blkref : (t.block o.0).blkref ≡ suc (s.block o.0).blkref
  others : (i : ℕ) → i ≢ j → t.slots i ≡ s.slots i
  counted : IsCounted t

pop_object-Popped :
    (j : ℕ) (o : ℕ × ℕ) (os : List (ℕ × ℕ)) (s : Slab)
    → IsCounted s
    → (s.slots j).free_objs ≡ o ∷ os
    → (t : Slab) × (pop_object (o ∷ os) j s ≡ some (some o, t)) × Popped j o os s t
unfolding pop_object
pop_object-Popped j (b, k) os s c e = (
  _,
  refl,
  record {
    free = ground arith;
    used = ground arith;
    number = ground arith;
    blocks = refl;
    slot = let z : (b == b) ≡ true = ground arith in rw z refl;
    blkref = let z : (b == b) ≡ true = ground arith in rw z refl;
    others = λ i n. ground (arith, n);
    counted = record {
      slots =
          SlotCounted-update s.slots j _ c.slots
            (omega (arith, (c.slots j).0, ap length e), omega (arith, (c.slots j).1));
      blocks = c.blocks;
    };
  },
)

module _ (z : Sizes) where
  take_block-IsCounted :
      (j b : ℕ) (rest : List ℕ) (s : Slab)
      → IsCounted s
      → s.free_blks ≡ b ∷ rest
      → IsCounted (take_block z j b rest s)
  unfolding take_block
  take_block-IsCounted j b rest s c e =
      let n = objs_per_blk z (s.slots j).data_size in
      record {
        slots = SlotCounted-update s.slots j _ c.slots (
          omega (
            arith,
            (c.slots j).0,
            length-append (s.slots j).free_objs (objects b 0 n),
            length-objects b 0 n,
          ),
          (c.slots j).1,
        );
        blocks = omega (arith, c.blocks, ap length e);
      }

  -- The slot's free objects after a new block, where it had none.
  take_block-slot :
      (j b : ℕ) (rest : List ℕ) (s : Slab)
      → (s.slots j).free_objs ≡ []
      → let t = take_block z j b rest s in
        ((t.slots j).free_objs ≡ objects b 0 (objs_per_blk z (s.slots j).data_size))
        × ((t.slots j).used_objs ≡ (s.slots j).used_objs)
        × ((i : ℕ) → i ≢ j → t.slots i ≡ s.slots i)
        × (t.free_blks ≡ rest)
        × ((t.block b).slot ≡ some j)
        × ((t.block b).blkref ≡ 0)
        × (t.next_hdrnum ≡ s.next_hdrnum)
  unfolding take_block
  take_block-slot j b rest s e = (
    (let q : (j == j) ≡ true = ground arith in rw (q, e) refl),
    (let q : (j == j) ≡ true = ground arith in rw q refl),
    λ i n. ground (arith, n),
    refl,
    (let q : (b == b) ≡ true = ground arith in rw q refl),
    (let q : (b == b) ≡ true = ground arith in rw q refl),
    refl,
  )

  -- The best slot has a free object.
  from_list :
      (size j : ℕ) (o : ℕ × ℕ) (os : List (ℕ × ℕ)) (s : Slab)
      → IsCounted s
      → BestFit size s.n_slots s (some j)
      → (s.slots j).free_objs ≡ o ∷ os
      → Returns (Outcome z size s) (pop_object (o ∷ os) j s)
  from_list size j o os s c b e =
      let (t, q, p) = pop_object-Popped j o os s c e in
      rw q (
        returns (some o, t)
          (handed_out j o t b (e ∙ ap (λ xs. o ∷ xs) (sym p.free)) p.blocks p.blkref
            (record { used = p.used; number = p.number; others = p.others; counted = p.counted })))

  -- It has none, and a block is free.
  from_block :
      (size j b : ℕ) (rest : List ℕ) (s : Slab)
      → IsCounted s
      → BestFit size s.n_slots s (some j)
      → (s.slots j).free_objs ≡ []
      → s.free_blks ≡ b ∷ rest
      → 0 < objs_per_blk z (s.slots j).data_size
      → Returns
          (Outcome z size s)
          (pop_object ((take_block z j b rest s).slots j).free_objs j (take_block z j b rest s))
  unfolding objects
  from_block size j b rest s c fit e f n =
      let t = take_block z j b rest s in
      let (free, used, others, blocks, slot, blkref, number) = take_block-slot j b rest s e in
      let counted = take_block-IsCounted j b rest s c f in
      let (more, at) = first_object b 0 (objs_per_blk z (s.slots j).data_size) n in
      let (u, q, p) = pop_object-Popped j (b, 0) more t counted (free ∙ at) in
      rw (free ∙ at, q)
        (returns (some (b, 0), u)
          (new_block j b u fit e (f ∙ ap (λ xs. b ∷ xs) (sym (p.blocks ∙ blocks)))
            (at ∙ ap (λ xs. (b, 0) ∷ xs) (sym p.free)) (p.slot ∙ slot) (p.blkref ∙ ap suc blkref)
            (record {
              used = p.used ∙ ap (λ xs. (b, 0) ∷ xs) used;
              number = p.number ∙ ap some number;
              others = λ i m. p.others i m ∙ others i m;
              counted = p.counted;
            })))
    where
      first_object : (b i n : ℕ) → 0 < n → (more : List (ℕ × ℕ)) × (objects b i n ≡ (b, i) ∷ more)
      first_object b i zero h = absurd (omega arith)
      first_object b i (suc n) h = (objects b (suc i) n, refl)

  -- Of a slab whose counts are those of its lists and whose slots' objects fit in a block,
  -- fep_slab_alloc of a size that is not 0 never pops from an empty list. It returns a null pointer
  -- where no slot satisfies the request, or where the smallest that does has no free object and no
  -- block is free. Else it hands out that slot's first free object and takes no block, or, where
  -- there is none, the first object of the first free block, which is then the slot's and free no
  -- more, and whose other objects are the slot's free ones. The object is then the first used one,
  -- with the next header number; its block has one object more in use, a new block one; the other
  -- slots are as they were, and the counts are those of the lists again.
  pub alloc-Outcome :
      (size : ℕ) (s : Slab)
      → IsCounted s
      → 0 < size
      → ((i : ℕ) → i < s.n_slots → 0 < objs_per_blk z (s.slots i).data_size)
      → Returns (Outcome z size s) (alloc z size s)
  unfolding alloc alloc_chosen alloc_from_slot alloc_objs block_alloc block_alloc_from pop_after
  alloc-Outcome size s c h n =
      let zero_size : (size == 0) ≡ false = ground arith in
      rw zero_size (chosen (choose size s.n_slots 0 none s) (choose-BestFit size s.n_slots s))
    where
      blocked :
          (j : ℕ)
          → BestFit size s.n_slots s (some j)
          → (s.slots j).free_objs ≡ []
          → (bs : List ℕ) → s.free_blks ≡ bs
          → Returns (Outcome z size s) (pop_after z j (block_alloc_from z bs j s))
      blocked j b e [] f = returns (none, new_private_fail j s) (exhausted j b e f)
      blocked j b e (k ∷ rest) f = from_block size j k rest s c b e f (n j b.0)

      listed :
          (j : ℕ)
          → BestFit size s.n_slots s (some j)
          → (os : List (ℕ × ℕ)) → (s.slots j).free_objs ≡ os
          → Returns (Outcome z size s) (alloc_objs z os j s)
      listed j b (o ∷ os) e = from_list size j o os s c b e
      listed j b [] e =
          let l : ltb j s.n_slots ≡ true = ground (arith, b.0) in
          rw l (blocked j b e s.free_blks refl)

      chosen :
          (r : Option ℕ)
          → BestFit size s.n_slots s r
          → Returns (Outcome z size s) (alloc_chosen z r s)
      chosen none b = returns (none, s) (no_slot b)
      chosen (some j) b =
          let l : ltb j s.n_slots ≡ true = ground (arith, b.0) in
          rw l (listed j b (s.slots j).free_objs refl)
