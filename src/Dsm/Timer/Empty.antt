-- ===== src/Dsm/Timer/Empty.antt =====
-- finalize_tdb leaves no callout on the wheel.
use code_snippets.Dsm.Timer.Ops.{release, unlink}
use code_snippets.Dsm.Timer.Lists.{remove-middle, Ends-bind, Ends-map, ends, Ends, has}
use code_snippets.Dsm.Timer.Start.{finalize_tdb, free_lists, free_from}
use code_snippets.Dsm.Timer.{bind, Run, callwheelsize, blank, first_of_list, Wheel, Pool}
use code_snippets.Prelude.{
  ◌∙◌, ◌==◌, sym, inr, inl, ap, Bool-cases, ==_iff, ◌≤◌, ◌≢◌, ◌≡◌, ◌∷◌, ◌<◌, ℕ, zero, true, suc,
  refl, length, false, arith, [], List,
}

module _ (P : Pool) where
  open P use {State}

  -- The lists of the slots below `n` are empty and the callouts that were on them blank; nothing
  -- else of the lists and the callouts has changed.
  pub record Emptied (n : ℕ) (w v : Wheel State) : Type 0 where
    pub empty : (i : ℕ) → i < n → v.bucket i ≡ []
    pub other_lists : (i : ℕ) → n ≤ i → v.bucket i ≡ w.bucket i
    pub freed : (i k : ℕ) → i < n → has k (w.bucket i) ≡ true → v.callout k ≡ blank
    pub kept : (k : ℕ) → ((i : ℕ) → i < n → has k (w.bucket i) ≡ false) → v.callout k ≡ w.callout k
    pub stays : (k : ℕ) → w.callout k ≡ blank → v.callout k ≡ blank

  -- The same of one list.
  record ListEmptied (i : ℕ) (xs : List ℕ) (w v : Wheel State) : Type 0 where
    empty : v.bucket i ≡ []
    other_lists : (j : ℕ) → j ≢ i → v.bucket j ≡ w.bucket j
    freed : (k : ℕ) → has k xs ≡ true → v.callout k ≡ blank
    kept : (k : ℕ) → has k xs ≡ false → v.callout k ≡ w.callout k
    stays : (k : ℕ) → w.callout k ≡ blank → v.callout k ≡ blank

  -- The first callout `x` has left the list of slot `i` and is freed.
  record FirstFreed (i x : ℕ) (xs : List ℕ) (w u : Wheel State) : Type 0 where
    list : u.bucket i ≡ xs
    other_lists : (j : ℕ) → j ≢ i → u.bucket j ≡ w.bucket j
    emptied : u.callout x ≡ blank
    other_callouts : (k : ℕ) → k ≢ x → u.callout k ≡ w.callout k

  unlink-release :
      (i x : ℕ) (xs : List ℕ) (w : Wheel State) (k : Wheel State → Run (Wheel State))
      → (Q : Wheel State → Type 0) → w.bucket i ≡ x ∷ xs
      → ((u : Wheel State) → FirstFreed i x xs w u → Ends Q (k u))
      → Ends Q (bind (unlink P i x w) (λ v. k (release P x v)))
  unfolding unlink release
  unlink-release i x xs w k Q e f =
      rw (e, remove-middle [] x xs refl)
        (f _ (record {
          list = ground arith;
          other_lists = ground arith;
          emptied = ground arith;
          other_callouts = ground arith;
        }))

  freed-first :
      (i x : ℕ) (xs : List ℕ) (w u v : Wheel State)
      → FirstFreed i x xs w u
      → ListEmptied i xs u v
      → ListEmptied i (x ∷ xs) w v
  freed-first i x xs w u v f l = record {
    empty = l.empty;
    other_lists = λ j n. l.other_lists j n ∙ f.other_lists j n;
    freed = λ k z. elim (Bool-cases (k == x)) [
      | inl e ↦ l.stays k (ap u.callout ((==_iff _ _).0 e) ∙ f.emptied)
      | inr e ↦ l.freed k (ground arith)
    ];
    kept = λ k z.
        let ne : k ≢ x = λ q. ground (arith, q) in l.kept k (ground arith) ∙ f.other_callouts k ne;
    stays = λ k z. elim (Bool-cases (k == x)) [
      | inl e ↦ l.stays k (ap u.callout ((==_iff _ _).0 e) ∙ f.emptied)
      | inr e ↦ l.stays k (f.other_callouts k (λ q. ground (arith, q)) ∙ z)
    ];
  }

  free_from-ListEmptied :
      (fuel i : ℕ) (xs : List ℕ) (w : Wheel State)
      → w.bucket i ≡ xs
      → length xs < fuel
      → Ends (ListEmptied i xs w) (free_from P fuel i (first_of_list xs) w)
  unfolding free_from first_of_list
  free_from-ListEmptied zero i xs w e h = absurd (omega arith)
  free_from-ListEmptied (suc fuel) i [] w e h = ends w (record {
    empty = e;
    other_lists = λ j n. refl;
    freed = λ k z. ground arith;
    kept = λ k z. refl;
    stays = λ k z. z;
  })
  free_from-ListEmptied (suc fuel) i (x ∷ xs) w e h =
      unlink-release i x xs w (λ u. free_from P fuel i (first_of_list (u.bucket i)) u)
        (ListEmptied i (x ∷ xs) w) e
        (λ u f. rw f.list (
          Ends-map (free_from-ListEmptied fuel i xs u f.list (omega arith))
            (λ v l. freed-first i x xs w u v f l)))

  Emptied-next :
      (n : ℕ) (w u v : Wheel State)
      → Emptied n w u
      → ListEmptied n (w.bucket n) u v
      → Emptied (suc n) w v
  Emptied-next n w u v a l = record {
    empty = λ i h. elim (Bool-cases (i == n)) [
      | inl e ↦ ap v.bucket ((==_iff _ _).0 e) ∙ l.empty
      | inr e ↦
          let ne : i ≢ n = λ q. ground (arith, q) in
          l.other_lists i ne ∙ a.empty i (omega (arith, ne))
    ];
    other_lists = λ i h. l.other_lists i (λ q. omega (arith, q)) ∙ a.other_lists i (omega arith);
    freed = λ i k h z. elim (Bool-cases (i == n)) [
      | inl e ↦ l.freed k (ap (λ j. has k (w.bucket j)) (sym ((==_iff _ _).0 e)) ∙ z)
      | inr e ↦
          let ne : i ≢ n = λ q. ground (arith, q) in l.stays k (a.freed i k (omega (arith, ne)) z)
    ];
    kept = λ k z. l.kept k (z n (omega arith)) ∙ a.kept k (λ i h. z i (omega arith));
    stays = λ k z. l.stays k (a.stays k z);
  }

  free_lists-Emptied :
      (fuel n : ℕ) (w : Wheel State)
      → ((i : ℕ) → i < n → length (w.bucket i) < fuel)
      → Ends (Emptied n w) (free_lists P fuel n w)
  unfolding free_lists
  free_lists-Emptied fuel zero w h = ends w (record {
    empty = λ i l. absurd (omega arith);
    other_lists = λ i l. refl;
    freed = λ i k l z. absurd (omega arith);
    kept = λ k z. refl;
    stays = λ k z. z;
  })
  free_lists-Emptied fuel (suc n) w h =
      Ends-bind (free_lists-Emptied fuel n w (λ i l. h i (omega arith))) (λ u a.
        let same = a.other_lists n (omega arith) in
        Ends-map (rw same (free_from-ListEmptied fuel n (w.bucket n) u same (h n (omega arith))))
          (λ v l. Emptied-next n w u v a l))

  -- With more fuel than the longest list has callouts, finalize_tdb ends. Every list of the wheel
  -- is then empty, every callout that was on one is blank, and the others are as they were.
  pub finalize_tdb-Emptied :
      (fuel : ℕ) (w : Wheel State)
      → ((i : ℕ) → i < callwheelsize → length (w.bucket i) < fuel)
      → Ends (Emptied callwheelsize w) (finalize_tdb P fuel w)
  unfolding finalize_tdb
  finalize_tdb-Emptied fuel w h = free_lists-Emptied fuel callwheelsize w h
