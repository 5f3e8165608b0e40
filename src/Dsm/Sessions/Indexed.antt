-- ===== src/Dsm/Sessions/Indexed.antt =====
-- The hash lists of initialize_ccdb and user_session_remove.
use code_snippets.Dsm.Timer.Linked.{
  IsLinked, has-without, has-without_self, without-Distinct, without,
}
use code_snippets.Dsm.Sessions.Keep.{user_session_remove-Removed}
use code_snippets.Dsm.Sessions.Remove.{Removed}
use code_snippets.Dsm.Sessions.Start.{initialize_ccdb-Ready}
use code_snippets.Dsm.Sessions.Linked.{IsConsistent}
use code_snippets.Dsm.Ccdb.{user_session_id_valid}
use code_snippets.Dsm.Timer.Lists.{has-ne, Ends-map, Distinct, Ends, has}
use code_snippets.Dsm.Sessions.Ops.{initialize_ccdb, user_session_remove}
use code_snippets.Dsm.Sessions.{Pool, Db, System}
use code_snippets.Prelude.{
  [], ◌⊎◌, some, ◌≡◌, ◌∙◌, ◌==◌, ◌<◌, ℕ, true, sym, length, inr, inl, false, arith, ap, Bool-cases,
  ==_iff,
}
use mathlib.Core.Path.{subst}

module _ (E : System) where
  -- Every session on the hash list of a slot is on the time-sorted list and names that slot, and a
  -- hash list has it once.
  pub record IsIndexed (d : Db E) : Type 0 where
    pub in_time : (s b : ℕ) → has s (d.bucket b) ≡ true → has s d.by_time ≡ true
    pub names : (s b : ℕ) → has s (d.bucket b) ≡ true → (d.session s).head ≡ some b
    pub once : (b : ℕ) → Distinct (d.bucket b)

  -- A session that is removed has left its hash list, and the others keep their links.
  module _ (b s : ℕ) (d e : Db E) (on : (d.session s).head ≡ some b) (v : IsIndexed d)
      (r : Removed E b s d e) where
    still : (k i : ℕ) → has k (e.bucket i) ≡ true → ((k == s) ≡ false) × (has k (d.bucket i) ≡ true)
    still k i h = elim (Bool-cases (i == b)) [
      | inl p ↦
          let at = (==_iff i b).0 p in
          let w : has k (without s (d.bucket b)) ≡ true =
            ap (has k) (sym r.list) ∙ ap (λ j. has k (e.bucket j)) (sym at) ∙ h in
          let q = has-ne k s _ w (has-without_self s (d.bucket b) (v.once b)) in
          (
            q,
            ap (λ j. has k (d.bucket j)) at
                ∙ sym (has-without k s (d.bucket b) (λ y. ground (arith, y)))
                ∙ w,
          )
      | inr p ↦
          let old = ap (has k) (sym (r.other_lists i (λ y. ground (arith, y)))) ∙ h in
          (elsewhere p (v.names k i old) (Bool-cases (k == s)), old)
    ]
      where
        elsewhere :
            (i == b) ≡ false
            → (d.session k).head ≡ some i
            → ((k == s) ≡ true) ⊎ ((k == s) ≡ false)
            → (k == s) ≡ false
        elsewhere p z (inr q) = q
        elsewhere p z (inl q) =
            let same = ap (λ j. (d.session j).head) ((==_iff k s).0 q) in ground arith

    pub Removed-IsIndexed : IsIndexed e
    Removed-IsIndexed = record {
      in_time = λ k i h.
          let (q, old) = still k i h in
          ap (has k) r.by_time
          ∙ has-without k s d.by_time (λ y. ground (arith, y))
          ∙ v.in_time k i old;
      names = λ k i h.
          let (q, old) = still k i h in
          ap (λ p. p.head) (r.other_sessions k (λ y. ground (arith, y))) ∙ v.names k i old;
      once = λ i. once_after i (Bool-cases (i == b));
    }
      where
        once_after : (i : ℕ) → ((i == b) ≡ true) ⊎ ((i == b) ≡ false) → Distinct (e.bucket i)
        once_after i (inl p) =
            subst Distinct (sym (ap e.bucket ((==_iff i b).0 p) ∙ r.list))
              (without-Distinct s (d.bucket b) (v.once b))
        once_after i (inr p) =
            subst Distinct (sym (r.other_lists i (λ y. ground (arith, y)))) (v.once i)

  empty-IsIndexed : (d : Db E) → ((b : ℕ) → d.bucket b ≡ []) → IsIndexed d
  empty-IsIndexed d h = record {
    in_time = λ s b z. let no = ap (has s) (h b) in ground arith;
    names = λ s b z. absurd (nobody s b z);
    once = λ b. subst Distinct (sym (h b)) tt;
  }
    where
      nobody : (s b : ℕ) → ¬ (has s (d.bucket b) ≡ true)
      nobody s b z = let no = ap (has s) (h b) in ground arith

  -- The hash lists hold only sessions of the time-sorted list, each once and in the slot that it
  -- names: so it is in the database that initialize_ccdb makes over a wheel whose callouts are on
  -- the lists that they name, and where it is so of a consistent database, it is so after
  -- user_session_remove of a session on a list, which ends with more fuel than the session has
  -- queued messages, with the session on no hash list.
  pub user_session_remove-IsIndexed :
      (m : Pool.State E.messages) (u : Pool.State E.sessions) (c : Db E) (fuel b s : ℕ) (d : Db E)
      → IsLinked c.wheel
      → IsConsistent d
      → IsIndexed d
      → user_session_id_valid s ≡ true
      → (d.session s).head ≡ some b
      → length (d.session s).dgc_qmsg < fuel
      → IsIndexed (initialize_ccdb E m u c)
        × Ends
            (λ (r, e). IsIndexed e × ((i : ℕ) → has s (e.bucket i) ≡ false))
            (user_session_remove E fuel (some (some s)) d)
  user_session_remove-IsIndexed m u c fuel b s d l v x i on n = (
    empty-IsIndexed _ (initialize_ccdb-Ready E m u c l).lists,
    Ends-map (user_session_remove-Removed E fuel b s d v i on n) (λ (r, e) (_, g, _).
        (Removed-IsIndexed b s d e on x g, λ j. gone e g j (Bool-cases (has s (e.bucket j))))),
  )
    where
      gone :
          (e : Db E)
          → Removed E b s d e
          → (j : ℕ) → ((has s (e.bucket j) ≡ true) ⊎ (has s (e.bucket j) ≡ false))
          → has s (e.bucket j) ≡ false
      gone e g j (inr z) = z
      gone e g j (inl z) =
          let same : (s == s) ≡ true = ground arith in
          let differ = (still b s d e on x g s j z).0 in ground arith
