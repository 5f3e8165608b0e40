-- ===== src/Dsm/Sessions/Add.antt =====
-- dgc_qmsg_add.
use code_snippets.Dsm.Timer.{Pool}
use mathlib.Core.Path.{subst}
use code_snippets.Dsm.Ccdb.{user_session_id_valid}
use code_snippets.Dsm.Sessions.Linked.{IsConsistent}
use code_snippets.Dsm.Timer.Lists.{has-ne, has-append, has, Distinct}
use code_snippets.Dsm.Sessions.Queue.{
  add_new, add_listed, dgc_qmsg_add, add_with_parm, dgc_qmsg_init, enqueue, free_qmsg,
}
use code_snippets.Dsm.Sessions.{
  api_new_private_succ_us, dgc_qmsg_add_fail, api_buf_to_parm_fail, Counter, count, Pool, Db,
  System,
}
use code_snippets.Prelude.Int.{pos, negsuc, ℤ}
use code_snippets.Prelude.{
  ◌⊎◌, some, ◌≡◌, ◌∷◌, ◌∙◌, ◌==◌, ◌++◌, ℕ, true, sym, refl, none, inr, inl, if◌then◌else◌, false,
  arith, ap, [], List, Bool-cases, ==_iff,
}

module _ (E : System) where
  -- The message that the pool returns is on no queue.
  not_queued :
      (d : Db E) (new : ℕ)
      → IsConsistent d
      → (d.qmsg new).head ≡ none
      → (s : ℕ) → user_session_id_valid s ≡ true
      → has new (d.session s).dgc_qmsg ≡ false
  not_queued d new v h s i = elim (Bool-cases (has new (d.session s).dgc_qmsg)) [
    | inl z ↦ let on = v.queued s new i z in ground arith
    | inr z ↦ z
  ]

  other_message :
      (d : Db E) (new : ℕ)
      → IsConsistent d
      → (d.qmsg new).head ≡ none
      → (s q : ℕ) → user_session_id_valid s ≡ true
      → has q (d.session s).dgc_qmsg ≡ true
      → (q == new) ≡ false
  other_message d new v h s q i z = has-ne q new (d.session s).dgc_qmsg z (not_queued d new v h s i)

  freed-IsConsistent :
      (d : Db E) (new : ℕ)
      → IsConsistent d
      → (d.qmsg new).head ≡ none
      → IsConsistent (free_qmsg E new d)
  unfolding free_qmsg dgc_qmsg_init
  freed-IsConsistent d new v h = record {
    wheel = v.wheel;
    in_bucket = v.in_bucket;
    in_time = v.in_time;
    listed = v.listed;
    once = v.once;
    queued = λ s q i z. rw (other_message d new v h s q i z) (v.queued s q i z);
    queue_once = v.queue_once;
  }

  Distinct-snoc : (xs : List ℕ) (x : ℕ) → Distinct xs → has x xs ≡ false → Distinct (xs ++ x ∷ [])
  Distinct-snoc [] x d h = (refl, tt)
  Distinct-snoc (y ∷ xs) x d h =
      (ground (arith, has-append y xs (x ∷ [])), Distinct-snoc xs x d.1 (ground arith))

  -- The queue after an insertion, and a member of it.
  enqueue-queue :
      (qmsg : List ℤ) (parm : ℤ) (new s k : ℕ) (d : Db E)
      → ((enqueue E qmsg parm new s d).session k).dgc_qmsg
        ≡ (if k == s then (d.session k).dgc_qmsg ++ new ∷ [] else (d.session k).dgc_qmsg)
  unfolding enqueue
  enqueue-queue qmsg parm new s k d = elim (Bool-cases (k == s)) [
    | inl e ↦ rw e (ap (λ j. (d.session j).dgc_qmsg ++ new ∷ []) (sym ((==_iff k s).0 e)))
    | inr e ↦ rw e refl
  ]

  enqueue-head :
      (qmsg : List ℤ) (parm : ℤ) (new s k : ℕ) (d : Db E)
      → ((enqueue E qmsg parm new s d).session k).head ≡ (d.session k).head
  unfolding enqueue
  enqueue-head qmsg parm new s k d = elim (Bool-cases (k == s)) [
    | inl e ↦ rw e (ap (λ j. (d.session j).head) (sym ((==_iff k s).0 e)))
    | inr e ↦ rw e refl
  ]

  -- A message on a queue names its session.
  enqueue-queued :
      (qmsg : List ℤ) (parm : ℤ) (new s : ℕ) (d : Db E)
      → IsConsistent d
      → (d.qmsg new).head ≡ none
      → (k q : ℕ) → user_session_id_valid k ≡ true
      → has q ((enqueue E qmsg parm new s d).session k).dgc_qmsg ≡ true
      → ((enqueue E qmsg parm new s d).qmsg q).head ≡ some k
  unfolding enqueue
  enqueue-queued qmsg parm new s d v h k q i z =
      let on = ap (has q) (sym (enqueue-queue qmsg parm new s k d)) ∙ z in
      let both = has-append q (d.session k).dgc_qmsg (new ∷ []) in
      elim (Bool-cases (k == s)) [
        | inl e ↦ elim (Bool-cases (q == new)) [
          | inl y ↦ rw y (ap some (sym ((==_iff k s).0 e)))
          | inr y ↦ rw y (v.queued k q i (ground arith))
        ]
        | inr e ↦
            let old : has q (d.session k).dgc_qmsg ≡ true = ground arith in
            rw (other_message d new v h k q i old) (v.queued k q i old)
      ]

  enqueue-IsConsistent :
      (qmsg : List ℤ) (parm : ℤ) (new s : ℕ) (d : Db E)
      → IsConsistent d
      → user_session_id_valid s ≡ true
      → (d.qmsg new).head ≡ none
      → IsConsistent (enqueue E qmsg parm new s d)
  unfolding enqueue
  enqueue-IsConsistent qmsg parm new s d v valid h = record {
    wheel = v.wheel;
    in_bucket = λ k b i z. v.in_bucket k b i (sym (enqueue-head qmsg parm new s k d) ∙ z);
    in_time = λ k b i z. v.in_time k b i (sym (enqueue-head qmsg parm new s k d) ∙ z);
    listed = λ k z.
        let old = v.listed k z in (old.0, (old.1.0, enqueue-head qmsg parm new s k d ∙ old.1.1));
    once = v.once;
    queued = enqueue-queued qmsg parm new s d v h;
    queue_once = λ k i.
        subst Distinct (sym (enqueue-queue qmsg parm new s k d)) (longer k i (Bool-cases (k == s)));
  }
    where
      longer :
          (k : ℕ)
          → user_session_id_valid k ≡ true
          → ((k == s) ≡ true) ⊎ ((k == s) ≡ false)
          → Distinct (if k == s then (d.session k).dgc_qmsg ++ new ∷ [] else (d.session k).dgc_qmsg)
      longer k i (inl e) =
          rw e
            (Distinct-snoc (d.session k).dgc_qmsg new (v.queue_once k i) (not_queued d new v h k i))
      longer k i (inr e) = rw e (v.queue_once k i)

  -- The pool, the world and the counters have no links.
  pub recounted :
      (d : Db E) (m : Pool.State E.messages) (w : E.World) (c : List Counter)
      → IsConsistent d
      → IsConsistent (record d { qmsg_pool = m; world = w; counted = c })
  recounted d m w c v = record {
    wheel = v.wheel;
    in_bucket = v.in_bucket;
    in_time = v.in_time;
    listed = v.listed;
    once = v.once;
    queued = v.queued;
    queue_once = v.queue_once;
  }

  with_parm :
      (qmsg : List ℤ) (r : ℤ) (new s : ℕ) (d : Db E)
      → IsConsistent d
      → user_session_id_valid s ≡ true
      → (d.qmsg new).head ≡ none
      → let (done, e) = add_with_parm E qmsg r new s d in
        ((e.session s).dgc_qmsg
          ≡ (if done then (d.session s).dgc_qmsg ++ new ∷ [] else (d.session s).dgc_qmsg))
        × IsConsistent e
  unfolding add_with_parm
  with_parm qmsg (pos parm) new s d v i h = (
    enqueue-queue qmsg (pos parm) new s s d ∙ (let e : (s == s) ≡ true = ground arith in rw e refl),
    (let c = enqueue-IsConsistent qmsg (pos parm) new s d v i h in c),
  )
  with_parm qmsg (negsuc n) new s d v i h =
      let c : Db E = count api_buf_to_parm_fail d in
      let f = free_qmsg E new c in
      let k = freed-IsConsistent c new (recounted d d.qmsg_pool d.world c.counted v) h in
      (refl, recounted f f.qmsg_pool f.world (dgc_qmsg_add_fail ∷ f.counted) k)

  -- On a consistent database, where the pool returns a message that is on no queue, dgc_qmsg_add
  -- for a session on a list appends the message to the session's queue if it returns SUCCESS, and
  -- leaves the queue as it was if it returns FAILURE; either way the database stays consistent.
  pub dgc_qmsg_add-IsConsistent :
      (qmsg : List ℤ) (pbuf s b new : ℕ) (m : Pool.State E.messages) (d : Db E)
      → IsConsistent d
      → user_session_id_valid s ≡ true
      → (d.session s).head ≡ some b
      → Pool.new_private E.messages d.qmsg_pool ≡ some (new, m)
      → (d.qmsg new).head ≡ none
      → let (done, e) = dgc_qmsg_add E qmsg (some pbuf) (some s) d in
        ((e.session s).dgc_qmsg
          ≡ (if done then (d.session s).dgc_qmsg ++ new ∷ [] else (d.session s).dgc_qmsg))
        × IsConsistent e
  unfolding dgc_qmsg_add add_listed add_new
  dgc_qmsg_add-IsConsistent qmsg pbuf s b new m d v i on got off =
      let (parm, w) = E.buf_to_parm pbuf d.world in
      rw (on, got)
        (with_parm qmsg parm new s
          (count api_new_private_succ_us (record d { qmsg_pool = m; world = w }))
          (recounted d m w (api_new_private_succ_us ∷ d.counted) v) i off)
