-- ===== src/Dsm/Sessions/Remove.antt =====
-- user_session_remove and finalize_ccdb.
use code_snippets.Dsm.Ccdb.{user_session_id_valid}
use code_snippets.Dsm.Sessions.Linked.{IsConsistent}
use code_snippets.Dsm.Sessions.Drain.{freed, drain-Drained, Drained}
use code_snippets.Dsm.Timer.Linked.{remove-member, callout_unset-Off, IsLinked, without}
use code_snippets.Dsm.Timer.Lists.{ends, has, Ends-bind, Ends}
use code_snippets.Dsm.Timer.{Pool, id_undef, update, callout_id_valid}
use code_snippets.Dsm.Sessions.Ops.{
  blank_session, remove_listed, user_session_init, user_session_remove, release_session,
  cancel_timers,
}
use code_snippets.Dsm.Sessions.{Pool, no_qmsg, Db, System}
use code_snippets.Prelude.{
  ◌≢◌, ◌≡◌, ◌∙◌, ◌<◌, ℕ, true, sym, some, refl, none, length, false, arith, ap, [],
}
use mathlib.Core.Path.{subst}

module _ (E : System) where
  -- The session's timers are off.
  record Cancelled (s : ℕ) (d e : Db E) : Type 0 where
    wheel : IsLinked e.wheel
    timers :
        callout_id_valid (d.session s).tcc_id ≡ true
        → (e.wheel.callout (d.session s).tcc_id).head ≡ none
    timers_g :
        callout_id_valid (d.session s).tg_id ≡ true
        → (e.wheel.callout (d.session s).tg_id).head ≡ none
    session :
        e.session
        ≡ update d.session s (record (d.session s) { tcc_id = id_undef; tg_id = id_undef })
    bucket : e.bucket ≡ d.bucket
    by_time : e.by_time ≡ d.by_time
    qmsg : e.qmsg ≡ d.qmsg
    us_pool : e.us_pool ≡ d.us_pool
    qmsg_pool : e.qmsg_pool ≡ d.qmsg_pool

  cancel_timers-Cancelled :
      (s : ℕ) (d : Db E) → IsLinked d.wheel → Ends (Cancelled s d) (cancel_timers E s d)
  unfolding cancel_timers
  cancel_timers-Cancelled s d l =
      Ends-bind (callout_unset-Off E.callouts (d.session s).tcc_id d.wheel l) (λ (p, w) a.
        Ends-bind (callout_unset-Off E.callouts (d.session s).tg_id w a.linked) (λ (q, v) b.
          rw (a.pointer, b.pointer)
            (ends _ (record {
              wheel = b.linked;
              timers = λ z. b.stays_off (d.session s).tcc_id (a.off z);
              timers_g = b.off;
              session = refl;
              bucket = refl;
              by_time = refl;
              qmsg = refl;
              us_pool = refl;
              qmsg_pool = refl;
            }))))

  -- The session `s` has left the list of slot `b` and the time-sorted list and is blank; the
  -- messages of its queue are blank, and its timers on no list of the wheel. The session and these
  -- messages have been given back to their pools, each once. Nothing else of the lists, the
  -- sessions, the messages and the two pools has changed.
  pub record Removed (b s : ℕ) (d e : Db E) : Type 0 where
    pub by_time : e.by_time ≡ without s d.by_time
    pub list : e.bucket b ≡ without s (d.bucket b)
    pub other_lists : (i : ℕ) → i ≢ b → e.bucket i ≡ d.bucket i
    pub emptied : e.session s ≡ blank_session E
    pub other_sessions : (k : ℕ) → k ≢ s → e.session k ≡ d.session k
    pub messages : (q : ℕ) → has q (d.session s).dgc_qmsg ≡ true → e.qmsg q ≡ no_qmsg
    pub other_messages : (q : ℕ) → has q (d.session s).dgc_qmsg ≡ false → e.qmsg q ≡ d.qmsg q
    pub tcc_off :
        callout_id_valid (d.session s).tcc_id ≡ true
        → (e.wheel.callout (d.session s).tcc_id).head ≡ none
    pub tg_off :
        callout_id_valid (d.session s).tg_id ≡ true
        → (e.wheel.callout (d.session s).tg_id).head ≡ none
    pub wheel : IsLinked e.wheel
    pub us_pool : e.us_pool ≡ Pool.delete_private E.sessions s d.us_pool
    pub qmsg_pool : e.qmsg_pool ≡ freed E.messages (d.session s).dgc_qmsg d.qmsg_pool

  -- What release_session does.
  record Released (b s : ℕ) (d e : Db E) : Type 0 where
    by_time : e.by_time ≡ without s d.by_time
    list : e.bucket b ≡ without s (d.bucket b)
    other_lists : (i : ℕ) → i ≢ b → e.bucket i ≡ d.bucket i
    emptied : e.session s ≡ blank_session E
    other_sessions : (k : ℕ) → k ≢ s → e.session k ≡ d.session k
    qmsg : e.qmsg ≡ d.qmsg
    wheel : e.wheel ≡ d.wheel
    us_pool : e.us_pool ≡ Pool.delete_private E.sessions s d.us_pool
    qmsg_pool : e.qmsg_pool ≡ d.qmsg_pool

  release_session-Released :
      (b s : ℕ) (d : Db E)
      → has s d.by_time ≡ true
      → has s (d.bucket b) ≡ true
      → Ends (Released b s d) (release_session E b s d)
  unfolding release_session user_session_init
  release_session-Released b s d t l =
      rw (remove-member s d.by_time t, remove-member s (d.bucket b) l)
        (ends _ (record {
          by_time = refl;
          list = ground arith;
          other_lists = λ i n. ground (arith, n);
          emptied = ground arith;
          other_sessions = λ k n. ground (arith, n);
          qmsg = refl;
          wheel = refl;
          us_pool = refl;
          qmsg_pool = refl;
        }))

  removed :
      (b s : ℕ) (d e f g : Db E)
      → Cancelled s d e
      → Drained E s (d.session s).dgc_qmsg [] e f
      → Released b s f g
      → Removed b s d g
  removed b s d e f g c r l = record {
    by_time = l.by_time ∙ ap (without s) (r.by_time ∙ c.by_time);
    list = l.list ∙ ap (λ h. without s (h b)) (r.bucket ∙ c.bucket);
    other_lists = λ i n. l.other_lists i n ∙ ap (λ h. h i) (r.bucket ∙ c.bucket);
    emptied = l.emptied;
    other_sessions = λ k n.
        l.other_sessions k n ∙ r.other_sessions k n ∙ ap (λ h. h k) c.session ∙ ground (arith, n);
    messages = λ q z. ap (λ h. h q) l.qmsg ∙ r.emptied q z;
    other_messages = λ q z. ap (λ h. h q) l.qmsg ∙ r.other_messages q z ∙ ap (λ h. h q) c.qmsg;
    tcc_off = λ z. ap (λ w. (w.callout (d.session s).tcc_id).head) (l.wheel ∙ r.wheel) ∙ c.timers z;
    tg_off = λ z. ap (λ w. (w.callout (d.session s).tg_id).head) (l.wheel ∙ r.wheel) ∙ c.timers_g z;
    wheel = subst IsLinked (sym (l.wheel ∙ r.wheel)) c.wheel;
    us_pool = l.us_pool ∙ ap (Pool.delete_private E.sessions s) (r.us_pool ∙ c.us_pool);
    qmsg_pool =
        l.qmsg_pool ∙ r.qmsg_pool ∙ ap (freed E.messages (d.session s).dgc_qmsg) c.qmsg_pool;
  }

  pub user_session_remove-Ends :
      (fuel b s : ℕ) (d : Db E)
      → IsConsistent d
      → user_session_id_valid s ≡ true
      → (d.session s).head ≡ some b
      → length (d.session s).dgc_qmsg < fuel
      → Ends (λ (r, e). (r ≡ none) × Removed b s d e) (user_session_remove E fuel (some (some s)) d)
  unfolding user_session_remove remove_listed
  user_session_remove-Ends fuel b s d v i h l =
      let qs = (d.session s).dgc_qmsg in
      rw h (
        Ends-bind (cancel_timers-Cancelled s d v.wheel) (λ e c.
          let same : (e.session s).dgc_qmsg ≡ qs =
            ap (λ f. (f s).dgc_qmsg) c.session ∙ ground arith in
          rw same (
            Ends-bind
              (drain-Drained E fuel s qs e l same (v.queue_once s i)
                (λ q z. ap (λ m. (m q).head) c.qmsg ∙ v.queued s q i z))
              (λ f r.
                Ends-bind
                  (release_session-Released b s f
                    (ap (has s) (r.by_time ∙ c.by_time) ∙ v.in_time s b i h)
                    (ap (λ m. has s (m b)) (r.bucket ∙ c.bucket) ∙ v.in_bucket s b i h))
                  (λ g a. ends _ (refl, removed b s d e f g c r a))))))
