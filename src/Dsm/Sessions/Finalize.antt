-- ===== src/Dsm/Sessions/Finalize.antt =====
-- finalize_ccdb.
use code_snippets.Dsm.Sessions.Indexed.{IsIndexed, Removed-IsIndexed}
use code_snippets.Dsm.Sessions.Drain.{freed}
use code_snippets.Dsm.Timer.Linked.{without}
use code_snippets.Dsm.Sessions.Keep.{user_session_remove-Removed}
use code_snippets.Dsm.Sessions.Remove.{Removed}
use code_snippets.Dsm.Timer.{first_of_list}
use code_snippets.Dsm.Sessions.Linked.{IsConsistent}
use code_snippets.Dsm.Ccdb.{user_session_id_valid}
use code_snippets.Dsm.Timer.Lists.{Ends-map, Ends-bind, Distinct, ends, Ends, has}
use code_snippets.Dsm.Sessions.Ops.{blank_session, finalize_ccdb, remove_all}
use code_snippets.Dsm.Sessions.{Db, System}
use code_snippets.Prelude.{
  ◌≡◌, ◌∷◌, ◌∙◌, ◌==◌, ◌<◌, ℕ, zero, true, sym, suc, refl, none, length, inr, inl, false, arith, ap,
  [], Option-cases, List, Bool-cases, ==_iff,
}
use mathlib.Core.Path.{subst}

module _ (E : System) where
  -- What finalize_ccdb leaves: no session on a list, and those that were are blank and have been
  -- given back to their pool, each once.
  pub record Closed (d e : Db E) : Type 0 where
    pub by_time : e.by_time ≡ []
    pub bucket : (b : ℕ) → e.bucket b ≡ []
    pub us_pool : e.us_pool ≡ freed E.sessions d.by_time d.us_pool
    pub sessions : (s : ℕ) → has s d.by_time ≡ true → e.session s ≡ blank_session E
    pub others : (s : ℕ) → has s d.by_time ≡ false → e.session s ≡ d.session s
    pub off : (s : ℕ) → user_session_id_valid s ≡ true → (e.session s).head ≡ none
    pub consistent : IsConsistent e

  -- The queues are shorter than the fuel of user_session_remove.
  abbrev pub Short : ℕ → Db E → Type 0
  Short queue d = (s : ℕ) → user_session_id_valid s ≡ true → length (d.session s).dgc_qmsg < queue

  empty_list : (xs : List ℕ) → ((k : ℕ) → has k xs ≡ true → ⊥) → xs ≡ []
  empty_list [] h = refl
  empty_list (x ∷ xs) h = absurd (h x (ground arith))

  Closed-next :
      (b x : ℕ) (xs : List ℕ) (d e f : Db E)
      → d.by_time ≡ x ∷ xs
      → has x xs ≡ false
      → Removed E b x d e
      → e.by_time ≡ xs
      → Closed e f
      → Closed d f
  Closed-next b x xs d e f t n r u c = record {
    by_time = c.by_time;
    bucket = c.bucket;
    us_pool =
        c.us_pool
        ∙ ap (λ l. freed E.sessions l e.us_pool) u
        ∙ ap (freed E.sessions xs) r.us_pool
        ∙ ap (λ l. freed E.sessions l d.us_pool) (sym t);
    sessions = λ s z. elim (Bool-cases (s == x)) [
      | inl q ↦ ap f.session ((==_iff s x).0 q) ∙ c.others x (ap (has x) u ∙ n) ∙ r.emptied
      | inr q ↦ let member = ap (has s) (sym t) ∙ z in c.sessions s (ap (has s) u ∙ ground arith)
    ];
    others = λ s z.
        let out = ap (has s) (sym t) ∙ z in
        c.others s (ap (has s) u ∙ ground arith) ∙ r.other_sessions s (λ q. ground (arith, q));
    off = c.off;
    consistent = c.consistent;
  }

  no_session :
      (d : Db E)
      → IsConsistent d
      → d.by_time ≡ []
      → (s : ℕ) → user_session_id_valid s ≡ true
      → (d.session s).head ≡ none
  no_session d v t s i = elim (Option-cases (d.session s).head) [
    | inl h ↦ h
    | inr h ↦ let on = ap (has s) (sym t) ∙ v.in_time s h.0 i h.1 in ground arith
  ]

  Short-next :
      (queue b x : ℕ) (d e : Db E)
      → Short queue d
      → user_session_id_valid x ≡ true
      → Removed E b x d e
      → Short queue e
  Short-next queue b x d e h valid r s i = elim (Bool-cases (s == x)) [
    | inl q ↦
        let empty : (e.session s).dgc_qmsg ≡ [] =
          ap (λ j. (e.session j).dgc_qmsg) ((==_iff s x).0 q) ∙ ap (λ p. p.dgc_qmsg) r.emptied in
        rw empty (omega (arith, h x valid))
    | inr q ↦ rw (r.other_sessions s (λ y. ground (arith, y))) (h s i)
  ]

  remove_all-Closed :
      (fuel queue : ℕ) (xs : List ℕ) (d : Db E)
      → IsConsistent d
      → IsIndexed E d
      → Short queue d
      → d.by_time ≡ xs
      → length xs < fuel
      → Ends (Closed d) (remove_all E fuel queue (first_of_list xs) d)
  unfolding remove_all first_of_list
  remove_all-Closed zero queue xs d v x h t l = absurd (omega arith)
  remove_all-Closed (suc fuel) queue [] d v y h t l = ends d (record {
    by_time = t;
    bucket = λ b. empty_list (d.bucket b) (λ k z. nobody k b z);
    us_pool = ap (λ l. freed E.sessions l d.us_pool) (sym t);
    sessions = λ s z. let no = ap (has s) (sym t) ∙ z in ground arith;
    others = λ s z. refl;
    off = λ s i. no_session d v t s i;
    consistent = v;
  })
    where
      nobody : (k b : ℕ) → has k (d.bucket b) ≡ true → ⊥
      nobody k b z = let on = ap (has k) (sym t) ∙ y.in_time k b z in ground arith
  remove_all-Closed (suc fuel) queue (x ∷ xs) d v y h t l =
      let (valid, (b, on)) = v.listed x (ap (has x) t ∙ ground arith) in
      let distinct = subst Distinct t v.once in
      Ends-bind (user_session_remove-Removed E queue b x d v valid on (h x valid))
        (λ (r, e) (_, g, c).
          let u : e.by_time ≡ xs = g.by_time ∙ ap (without x) t ∙ ground arith in
          let short : Short queue e = Short-next queue b x d e h valid g in
          subst (λ p. Ends (Closed d) (remove_all E fuel queue (first_of_list p) e)) (sym u)
            (Ends-map
              (remove_all-Closed fuel queue xs e c (Removed-IsIndexed E b x d e on y g) short u
                (omega arith))
              (λ f k. Closed-next b x xs d e f t distinct.0 g u k)))

  -- On a consistent database whose hash lists hold only sessions of the time-sorted list, each once
  -- and in the slot that it names, with more fuel than there are sessions and than each has queued
  -- messages, finalize_ccdb ends. The time-sorted list and all hash lists are then empty, the
  -- sessions that were on them are blank and have been given back to their pool, each once, the
  -- other sessions are as they were, no session names a list, and the database is consistent.
  pub finalize_ccdb-Closed :
      (fuel queue : ℕ) (d : Db E)
      → IsConsistent d
      → IsIndexed E d
      → Short queue d
      → length d.by_time < fuel
      → Ends (Closed d) (finalize_ccdb E fuel queue d)
  unfolding finalize_ccdb
  finalize_ccdb-Closed fuel queue d v x h l = remove_all-Closed fuel queue d.by_time d v x h refl l
