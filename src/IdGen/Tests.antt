-- ===== src/IdGen/Tests.antt =====
-- The theorems on a generator of two ids, the first of which is in use.
use code_snippets.IdGen.Valid.{
  fep_id_free_by_id-Freed, fep_id_alloc-Allocated, Freed, Allocated, IsValid,
}
use code_snippets.IdGen.{fep_id_free_by_id, fep_id_alloc, IdGen}
use code_snippets.Prelude.{◌∷◌, ◌==◌, if◌then◌else◌, arith, []}

abbrev one_used : IdGen
one_used = record {
  n_ids = 2;
  free_ids = 2 ∷ [];
  used_ids = 1 ∷ [];
  pdata = λ i. if i == 1 then 40 else 0;
}

one_used-IsValid : IsValid one_used
one_used-IsValid = record { once = λ j. ground arith; no_data = λ j h. ground arith }

fep_id_alloc-Allocated_example :
    Allocated 50 one_used (fep_id_alloc 50 one_used).0 (fep_id_alloc 50 one_used).1
fep_id_alloc-Allocated_example = fep_id_alloc-Allocated 50 one_used one_used-IsValid

fep_id_free_by_id-Freed_example : Freed 1 one_used (fep_id_free_by_id 1 one_used)
fep_id_free_by_id-Freed_example = fep_id_free_by_id-Freed 1 one_used one_used-IsValid
