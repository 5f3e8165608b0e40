-- ===== src/Dsm/Sessions/Gone.antt =====
-- What process_us_remove does.
use code_snippets.Dsm.Ccdb.Tid.{us_id_of}
use code_snippets.Dsm.Sessions.Add.{recounted}
use code_snippets.Dsm.Sessions.Keep.{user_session_remove-Removed}
use code_snippets.Dsm.Ccdb.{user_session_id_valid}
use code_snippets.Dsm.Timer.Lists.{Ends-map, ends, Ends-bind, Ends, Distinct, has}
use code_snippets.Dsm.Sessions.Ops.{held, blank_session}
use code_snippets.Dsm.Sessions.Remove.{Removed}
use code_snippets.Dsm.Timer.Linked.{callout_unset-IsLinked, IsLinked, without}
use code_snippets.Dsm.Sessions.Linked.{IsConsistent}
use code_snippets.Dsm.Sessions.UsRemove.{
  process_us_remove, us_remove_listed, us_remove_valid, touched,
}
use code_snippets.Prelude.{
  ◌∷◌, ◌≢◌, ◌≡◌, ◌∙◌, ◌==◌, ◌<◌, ℕ, true, sym, some, refl, length, inr, inl, false, arith, ap,
  Bool-cases, ==_iff,
}
use code_snippets.Dsm.Sessions.{
  Counter, no_qmsg, count, Db, System, process_us_remove_succ, msg_us_remove_rcvd,
}
use code_snippets.Dsm.Timer.{Pool, Wheel}
use mathlib.Core.Path.{subst}

module _ (E : System) where
  touched-head :
      (tg_id s : ℕ) (w : Wheel (Pool.State E.callouts)) (d : Db E) (k : ℕ)
      → ((touched E tg_id s w d).session k).head ≡ (d.session k).head
  touched-head tg_id s w d k = elim (Bool-cases (k == s)) [
    | inl e ↦ rw e (ap (λ j. (d.session j).head) (sym ((==_iff k s).0 e)))
    | inr e ↦ rw e refl
  ]

  touched-queue :
      (tg_id s : ℕ) (w : Wheel (Pool.State E.callouts)) (d : Db E) (k : ℕ)
      → ((touched E tg_id s w d).session k).dgc_qmsg ≡ (d.session k).dgc_qmsg
  touched-queue tg_id s w d k = elim (Bool-cases (k == s)) [
    | inl e ↦ rw e (ap (λ j. (d.session j).dgc_qmsg) (sym ((==_iff k s).0 e)))
    | inr e ↦ rw e refl
  ]

  touched-IsConsistent :
      (tg_id s : ℕ) (w : Wheel (Pool.State E.callouts)) (d : Db E)
      → IsConsistent d
      → IsLinked w
      → IsConsistent (touched E tg_id s w d)
  touched-IsConsistent tg_id s w d v l = record {
    wheel = l;
    in_bucket = λ k b i z. v.in_bucket k b i (sym (touched-head tg_id s w d k) ∙ z);
    in_time = λ k b i z. v.in_time k b i (sym (touched-head tg_id s w d k) ∙ z);
    listed =
        λ k z. let old = v.listed k z in (old.0, (old.1.0, touched-head tg_id s w d k ∙ old.1.1));
    once = v.once;
    queued = λ k q i z. v.queued k q i (ap (has q) (sym (touched-queue tg_id s w d k)) ∙ z);
    queue_once = λ k i. subst Distinct (sym (touched-queue tg_id s w d k)) (v.queue_once k i);
  }

  -- The session `s` has left the list of slot `b` and the time-sorted list and is blank, and the
  -- messages of its queue are blank. Nothing else of the lists, the sessions and the messages has
  -- changed, and the database is consistent.
  pub record Gone (b s : ℕ) (d e : Db E) : Type 0 where
    pub by_time : e.by_time ≡ without s d.by_time
    pub list : e.bucket b ≡ without s (d.bucket b)
    pub other_lists : (i : ℕ) → i ≢ b → e.bucket i ≡ d.bucket i
    pub emptied : e.session s ≡ blank_session E
    pub other_sessions : (k : ℕ) → k ≢ s → e.session k ≡ d.session k
    pub messages : (q : ℕ) → has q (d.session s).dgc_qmsg ≡ true → e.qmsg q ≡ no_qmsg
    pub other_messages : (q : ℕ) → has q (d.session s).dgc_qmsg ≡ false → e.qmsg q ≡ d.qmsg q
    pub consistent : IsConsistent e

  Removed-Gone :
      (b s tg_id : ℕ) (w : Wheel (Pool.State E.callouts)) (d e : Db E)
      → Removed E b s (touched E tg_id s w d) e
      → IsConsistent e
      → Gone b s d (count process_us_remove_succ e)
  Removed-Gone b s tg_id w d e r v =
      let queue = touched-queue tg_id s w d s in
      record {
        by_time = r.by_time;
        list = r.list;
        other_lists = r.other_lists;
        emptied = r.emptied;
        other_sessions = λ k n. r.other_sessions k n ∙ ground (arith, n);
        messages = λ q z. r.messages q (ap (has q) queue ∙ z);
        other_messages = λ q z. r.other_messages q (ap (has q) queue ∙ z);
        consistent = recounted E e e.qmsg_pool e.world (process_us_remove_succ ∷ e.counted) v;
      }

  -- Counters before the removal do not matter.
  counted-Gone : (b s : ℕ) (x : Counter) (d e : Db E) → Gone b s (count x d) e → Gone b s d e
  counted-Gone b s x d e g = record {
    by_time = g.by_time;
    list = g.list;
    other_lists = g.other_lists;
    emptied = g.emptied;
    other_sessions = g.other_sessions;
    messages = g.messages;
    other_messages = g.other_messages;
    consistent = g.consistent;
  }

  us_remove_valid-Gone :
      (fuel b s : ℕ) (d : Db E)
      → IsConsistent d
      → user_session_id_valid s ≡ true
      → (d.session s).head ≡ some b
      → length (d.session s).dgc_qmsg < fuel
      → Ends (Gone b s d) (us_remove_valid E fuel s d)
  unfolding us_remove_valid
  us_remove_valid-Gone fuel b s d v i h l =
      Ends-bind (callout_unset-IsLinked E.callouts (some (d.session s).tg_id) d.wheel v.wheel)
        (λ (p, w) linked.
          let t = touched E (held E p) s w d in
          Ends-bind
            (user_session_remove-Removed E fuel b s t
              (touched-IsConsistent (held E p) s w d v linked) i
              (touched-head (held E p) s w d s ∙ h)
              (subst (λ x. length x < fuel) (sym (touched-queue (held E p) s w d s)) l))
            (λ (q, e) (_, r, c). ends _ (Removed-Gone b s (held E p) w d e r c)))

  us_remove_listed-Gone :
      (fuel b s tid : ℕ) (d : Db E)
      → IsConsistent d
      → user_session_id_valid s ≡ true
      → (d.session s).head ≡ some b
      → (d.session s).tid_local ≡ tid
      → length (d.session s).dgc_qmsg < fuel
      → Ends (Gone b s d) (us_remove_listed E fuel (d.session s).head s tid d)
  unfolding us_remove_listed
  us_remove_listed-Gone fuel b s tid d v i h t l =
      let same : ((d.session s).tid_local == tid) ≡ true = ground arith in
      subst (λ x. Ends (Gone b s d) (us_remove_listed E fuel x s tid d)) (sym h)
        (rw same (us_remove_valid-Gone fuel b s d v i h l))

  -- On a consistent database, with more fuel than the session has queued messages,
  -- process_us_remove ends for the local TID of a session on the list of slot `b`: the session
  -- has left that list and the time-sorted one and is blank, its queued messages are blank, all
  -- other lists, sessions and messages are as they were, and the database is consistent.
  pub process_us_remove-Gone :
      (fuel b tid : ℕ) (d : Db E)
      → IsConsistent d
      → user_session_id_valid (us_id_of tid) ≡ true
      → (d.session (us_id_of tid)).head ≡ some b
      → (d.session (us_id_of tid)).tid_local ≡ tid
      → length (d.session (us_id_of tid)).dgc_qmsg < fuel
      → Ends (Gone b (us_id_of tid) d) (process_us_remove E fuel (some tid) d)
  unfolding process_us_remove
  process_us_remove-Gone fuel b tid d v i h t l =
      let e : Db E = count msg_us_remove_rcvd d in
      rw i (
        Ends-map
          (us_remove_listed-Gone fuel b (us_id_of tid) tid e
            (recounted E d d.qmsg_pool d.world e.counted v) i h t l)
          (λ f g. counted-Gone b (us_id_of tid) msg_us_remove_rcvd d f g))
