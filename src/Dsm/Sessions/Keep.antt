-- ===== src/Dsm/Sessions/Keep.antt =====
-- user_session_remove keeps the database consistent.
use code_snippets.Dsm.Timer.Linked.{has-without_self, without-Distinct, without, has-without}
use code_snippets.Dsm.Sessions.Ops.{user_session_remove}
use code_snippets.Dsm.Timer.Lists.{has-ne, Ends-map, Distinct, has, Ends}
use code_snippets.Dsm.Sessions.Remove.{user_session_remove-Ends, Removed}
use code_snippets.Dsm.Ccdb.{user_session_id_valid}
use code_snippets.Dsm.Sessions.Linked.{IsConsistent}
use code_snippets.Dsm.Sessions.{Db, System}
use code_snippets.Prelude.{
  ◌≢◌, ◌≡◌, ◌∙◌, ◌==◌, ◌<◌, ℕ, true, sym, some, none, length, inr, inl, false, arith, ap, Option,
  Bool-cases, ==_iff,
}
use mathlib.Core.Path.{subst}

module _ (E : System) (b s : ℕ) (d e : Db E) (v : IsConsistent d)
    (valid : user_session_id_valid s ≡ true) (r : Removed E b s d e) where
  differ : (k : ℕ) → (k == s) ≡ false → k ≢ s
  differ k q y = ground (arith, y)

  other_head :
      (k : ℕ) (h : Option ℕ) → (k == s) ≡ false → (e.session k).head ≡ h → (d.session k).head ≡ h
  other_head k h q z = ap (λ x. x.head) (sym (r.other_sessions k (differ k q))) ∙ z

  -- The session that is removed names no list.
  listed_other : (k i : ℕ) → (e.session k).head ≡ some i → (k == s) ≡ false
  listed_other k i h = elim (Bool-cases (k == s)) [
    | inl q ↦
        let no = ap (λ j. (e.session j).head) ((==_iff k s).0 q) ∙ ap (λ x. x.head) r.emptied in
        ground arith
    | inr q ↦ q
  ]

  in_bucket_after :
      (k i : ℕ)
      → user_session_id_valid k ≡ true
      → (e.session k).head ≡ some i
      → has k (e.bucket i) ≡ true
  in_bucket_after k i z h =
      let q = listed_other k i h in
      let old = v.in_bucket k i z (other_head k (some i) q h) in
      elim (Bool-cases (i == b)) [
        | inl p ↦
            let at = (==_iff i b).0 p in
            ap (λ j. has k (e.bucket j)) at
            ∙ ap (has k) r.list
            ∙ has-without k s (d.bucket b) (differ k q)
            ∙ ap (λ j. has k (d.bucket j)) (sym at)
            ∙ old
        | inr p ↦ ap (has k) (r.other_lists i (λ y. ground (arith, y))) ∙ old
      ]

  in_time_after :
      (k i : ℕ)
      → user_session_id_valid k ≡ true
      → (e.session k).head ≡ some i
      → has k e.by_time ≡ true
  in_time_after k i z h =
      let q = listed_other k i h in
      ap (has k) r.by_time
      ∙ has-without k s d.by_time (differ k q)
      ∙ v.in_time k i z (other_head k (some i) q h)

  listed_after :
      (k : ℕ)
      → has k e.by_time ≡ true
      → (user_session_id_valid k ≡ true) × ((i : ℕ) × ((e.session k).head ≡ some i))
  listed_after k z =
      let w : has k (without s d.by_time) ≡ true = ap (has k) (sym r.by_time) ∙ z in
      let gone = has-without_self s d.by_time v.once in
      let q : (k == s) ≡ false = has-ne k s (without s d.by_time) w gone in
      let old = v.listed k (sym (has-without k s d.by_time (differ k q)) ∙ w) in
      (old.0, (old.1.0, ap (λ x. x.head) (r.other_sessions k (differ k q)) ∙ old.1.1))

  queued_after :
      (k q : ℕ)
      → user_session_id_valid k ≡ true
      → has q (e.session k).dgc_qmsg ≡ true
      → (e.qmsg q).head ≡ some k
  queued_after k q z h = elim (Bool-cases (k == s)) [
    | inl p ↦
        let no =
          ap (λ j. has q (e.session j).dgc_qmsg) ((==_iff k s).0 p)
          ∙ ap (λ x. has q x.dgc_qmsg) r.emptied in
        ground arith
    | inr p ↦
        let old =
          v.queued k q z (ap (λ x. has q x.dgc_qmsg) (sym (r.other_sessions k (differ k p))) ∙ h) in
        elim (Bool-cases (has q (d.session s).dgc_qmsg)) [
          | inl y ↦ let mine = v.queued s q valid y in ground arith
          | inr y ↦ ap (λ m. m.head) (r.other_messages q y) ∙ old
        ]
  ]

  queue_once_after : (k : ℕ) → user_session_id_valid k ≡ true → Distinct (e.session k).dgc_qmsg
  queue_once_after k z = elim (Bool-cases (k == s)) [
    | inl p ↦
        let none_left =
          ap (λ j. (e.session j).dgc_qmsg) ((==_iff k s).0 p) ∙ ap (λ x. x.dgc_qmsg) r.emptied in
        subst Distinct (sym none_left) tt
    | inr p ↦
        subst Distinct (ap (λ x. x.dgc_qmsg) (sym (r.other_sessions k (differ k p))))
          (v.queue_once k z)
  ]

  pub Removed-IsConsistent : IsConsistent e
  Removed-IsConsistent = record {
    wheel = r.wheel;
    in_bucket = in_bucket_after;
    in_time = in_time_after;
    listed = listed_after;
    once = subst Distinct (sym r.by_time) (without-Distinct s d.by_time v.once);
    queued = queued_after;
    queue_once = queue_once_after;
  }

module _ (E : System) where
  pub user_session_remove-Removed :
      (fuel b s : ℕ) (d : Db E)
      → IsConsistent d
      → user_session_id_valid s ≡ true
      → (d.session s).head ≡ some b
      → length (d.session s).dgc_qmsg < fuel
      → Ends
          (λ (r, e). (r ≡ none) × Removed E b s d e × IsConsistent e)
          (user_session_remove E fuel (some (some s)) d)
  user_session_remove-Removed fuel b s d v i h l =
      Ends-map (user_session_remove-Ends E fuel b s d v i h l)
        (λ (r, e) (p, q). (p, q, Removed-IsConsistent E b s d e v i q))
