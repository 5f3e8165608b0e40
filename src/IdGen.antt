-- ===== src/IdGen.antt =====
-- The ID generator of slab-allocator-memory-cache/fep_slab.c. An id stands for its element of the
-- id array; a circular list is the list of its elements, and `none` a null pointer. The user data
-- are addresses, 0 the null one, and the pointer to the generator is not null. The mutex is left
-- out: each operation holds it from start to end.
pub mod Valid
mod Tests
use code_snippets.Prelude.{
  ◌∷◌, ◌||◌, ◌==◌, ◌++◌, ℕ, zero, suc, some, not, none, ltb, if◌then◌else◌, [], Option, List, Bool,
}

-- struct fep_id_gen with the user data of its id array.
pub record IdGen : Type 0 where
  pub n_ids : ℕ
  pub free_ids : List ℕ
  pub used_ids : List ℕ
  pub pdata : ℕ → ℕ

-- The ids that the loop of fep_id_gen_init puts on the free list, with `left` to go.
unfoldable pub ids_from : ℕ → ℕ → List ℕ
ids_from i zero = []
ids_from i (suc left) = suc i ∷ ids_from (suc i) left

-- fep_id_gen_init; `memory` is whether calloc returns memory.
unfoldable pub fep_id_gen_init : Bool → ℕ → Option IdGen
unfolding ids_from
fep_id_gen_init memory n_ids =
    if memory
    then some (record { n_ids = n_ids; free_ids = ids_from 0 n_ids; used_ids = []; pdata = λ i. 0 })
    else none

abbrev pub update : (ℕ → ℕ) → ℕ → ℕ → ℕ → ℕ
update f i a j = if j == i then a else f j

-- fep_slab_list_del, on the list that may hold the element.
unfoldable pub list_del : ℕ → List ℕ → List ℕ
list_del i [] = []
list_del i (x ∷ xs) = let rest = list_del i xs in if x == i then xs else x ∷ rest

-- fep_id_alloc with a free list.
unfoldable pub alloc_from : List ℕ → ℕ → IdGen → Option ℕ × IdGen
alloc_from [] user g = (none, g)
alloc_from (i ∷ rest) user g = (
  some i,
  record g { free_ids = rest; used_ids = g.used_ids ++ i ∷ []; pdata = update g.pdata i user },
)

unfoldable pub fep_id_alloc : ℕ → IdGen → Option ℕ × IdGen
unfolding alloc_from
fep_id_alloc user g = alloc_from g.free_ids user g

-- fep_id_free takes the id off the list that it is on, be it the used or the free one.
unfoldable pub fep_id_free : Option ℕ → IdGen → IdGen
unfolding list_del
fep_id_free none g = g
fep_id_free (some i) g = record g {
  pdata = update g.pdata i 0;
  free_ids = list_del i g.free_ids ++ i ∷ [];
  used_ids = list_del i g.used_ids;
}

-- The ids that name an element of the array.
abbrev pub in_range : ℕ → ℕ → Bool
in_range n_ids i = not (ltb i 1 || ltb n_ids i)

unfoldable pub fep_id_free_by_id : ℕ → IdGen → IdGen
unfolding fep_id_free
fep_id_free_by_id i g = if ltb i 1 || ltb g.n_ids i then g else fep_id_free (some i) g

unfoldable pub fep_id_get_data : ℕ → IdGen → ℕ
fep_id_get_data i g = if ltb i 1 || ltb g.n_ids i then 0 else g.pdata i
