-- ===== src/Dsm/Sessions/Start.antt =====
-- initialize_ccdb.
use code_snippets.Dsm.Timer.{Pool}
use code_snippets.Dsm.Timer.Lists.{Distinct, has}
use code_snippets.Dsm.Sessions.Linked.{IsConsistent}
use mathlib.Core.Path.{subst}
use code_snippets.Dsm.Timer.Linked.{IsLinked}
use code_snippets.Dsm.Ccdb.{user_session_size, user_session_id_valid}
use code_snippets.Dsm.Sessions.Queue.{dgc_qmsg_init}
use code_snippets.Dsm.Sessions.Ops.{
  initialize_ccdb, blank_session, user_session_init, init_sessions, init_qmsgs,
}
use code_snippets.Dsm.Sessions.{
  api_fep_create_private_dgc_qmsg, api_fep_create_private_us, us_list_tailq_init_time, count, Pool,
  no_qmsg, Db, System,
}
use code_snippets.Prelude.{
  none, ◌≤◌, ◌≡◌, ◌∙◌, ◌==◌, ◌<◌, ℕ, zero, true, sym, suc, some, refl, inr, inl, arith, ap, [],
  Bool-cases,
}

module _ (E : System) where
  init_qmsgs-rest :
      (n : ℕ) (d : Db E)
      → let e = init_qmsgs E n d in
        (e.session ≡ d.session)
        × (e.bucket ≡ d.bucket)
        × (e.by_time ≡ d.by_time)
        × (e.wheel ≡ d.wheel)
        × (e.tg_expiry ≡ d.tg_expiry)
  unfolding init_qmsgs dgc_qmsg_init
  init_qmsgs-rest zero d = (refl, refl, refl, refl, refl)
  init_qmsgs-rest (suc n) d = init_qmsgs-rest n d

  init_qmsgs-blank :
      (n : ℕ) (d : Db E) (q : ℕ) → 0 < q → q ≤ n → (init_qmsgs E n d).qmsg q ≡ no_qmsg
  unfolding init_qmsgs dgc_qmsg_init
  init_qmsgs-blank zero d q p h = absurd (omega arith)
  init_qmsgs-blank (suc n) d q p h = elim (Bool-cases (q == suc n)) [
    | inl e ↦ rw e refl
    | inr e ↦ rw e (init_qmsgs-blank n d q p (ground arith))
  ]

  init_sessions-rest :
      (n : ℕ) (d : Db E)
      → let e = init_sessions E n d in
        (e.qmsg ≡ d.qmsg)
        × (e.by_time ≡ d.by_time)
        × (e.wheel ≡ d.wheel)
        × (e.tg_expiry ≡ d.tg_expiry)
  unfolding init_sessions user_session_init
  init_sessions-rest zero d = (refl, refl, refl, refl)
  init_sessions-rest (suc n) d = init_sessions-rest n d

  init_sessions-blank :
      (n : ℕ) (d : Db E) (s : ℕ) → 0 < s → s ≤ n → (init_sessions E n d).session s ≡ blank_session E
  unfolding init_sessions user_session_init
  init_sessions-blank zero d s p h = absurd (omega arith)
  init_sessions-blank (suc n) d s p h = elim (Bool-cases (s == suc n)) [
    | inl e ↦ rw e refl
    | inr e ↦ rw e (init_sessions-blank n d s p (ground arith))
  ]

  init_sessions-empty :
      (n : ℕ) (d : Db E)
      → ((i : ℕ) → d.bucket i ≡ [])
      → (i : ℕ) → (init_sessions E n d).bucket i ≡ []
  unfolding init_sessions user_session_init
  init_sessions-empty zero d h i = h i
  init_sessions-empty (suc n) d h i = elim (Bool-cases (i == n)) [
    | inl e ↦ rw e refl
    | inr e ↦ rw e (init_sessions-empty n d h i)
  ]

  -- The database that initialize_ccdb makes: no list has a session, sessions and messages with a
  -- valid id are blank, and the database is consistent.
  pub record Ready (e : Db E) : Type 0 where
    pub tg_expiry : e.tg_expiry ≡ E.tg_def
    pub by_time : e.by_time ≡ []
    pub lists : (i : ℕ) → e.bucket i ≡ []
    pub sessions : (s : ℕ) → user_session_id_valid s ≡ true → e.session s ≡ blank_session E
    pub messages : (q : ℕ) → user_session_id_valid q ≡ true → e.qmsg q ≡ no_qmsg
    pub consistent : IsConsistent e

  blank-IsConsistent :
      (e : Db E)
      → IsLinked e.wheel
      → e.by_time ≡ []
      → ((s : ℕ) → user_session_id_valid s ≡ true → e.session s ≡ blank_session E)
      → IsConsistent e
  blank-IsConsistent e l t b = record {
    wheel = l;
    in_bucket = λ s i v h. absurd (headless s i v h);
    in_time = λ s i v h. absurd (headless s i v h);
    listed = λ s z. absurd (nobody s z);
    once = subst Distinct (sym t) tt;
    queued = λ s q v z. let no = ap (λ x. has q x.dgc_qmsg) (b s v) in ground arith;
    queue_once = λ s v. subst Distinct (ap (λ x. x.dgc_qmsg) (sym (b s v))) tt;
  }
    where
      headless : (s i : ℕ) → user_session_id_valid s ≡ true → ¬ ((e.session s).head ≡ some i)
      headless s i v h = let no = ap (λ x. x.head) (b s v) in ground arith

      nobody : (s : ℕ) → ¬ (has s e.by_time ≡ true)
      nobody s z = let no = ap (has s) t in ground arith

  ready :
      (n : ℕ) (d : Db E)
      → ((k : ℕ) → user_session_id_valid k ≡ true → (0 < k) × (k ≤ n))
      → IsLinked d.wheel
      → d.tg_expiry ≡ E.tg_def
      → d.by_time ≡ []
      → ((i : ℕ) → d.bucket i ≡ [])
      → Ready (init_sessions E n (init_qmsgs E n d))
  ready n d range l g t b =
      let (a0, a1, a2, a3, a4) = init_qmsgs-rest n d in
      let (b0, b1, b2, b3) = init_sessions-rest n (init_qmsgs E n d) in
      let s = λ (k : ℕ) (v : user_session_id_valid k ≡ true).
        init_sessions-blank n (init_qmsgs E n d) k (range k v).0 (range k v).1 in
      record {
        tg_expiry = b3 ∙ a4 ∙ g;
        by_time = b1 ∙ a2 ∙ t;
        lists = init_sessions-empty n (init_qmsgs E n d) (λ i. ap (λ f. f i) a1 ∙ b i);
        sessions = s;
        messages = λ k v. ap (λ f. f k) b0 ∙ init_qmsgs-blank n d k (range k v).0 (range k v).1;
        consistent = blank-IsConsistent _ (subst IsLinked (sym (b2 ∙ a3)) l) (b1 ∙ a2 ∙ t) s;
      }

  id_range : (k : ℕ) → user_session_id_valid k ≡ true → (0 < k) × (k ≤ user_session_size)
  id_range k h = ground arith

  -- With a wheel whose callouts are on the lists that they name, initialize_ccdb makes from any
  -- database a consistent one, with Tg's default expiry, no session on a list, and blank sessions
  -- and messages.
  pub initialize_ccdb-Ready :
      (m : Pool.State E.messages) (u : Pool.State E.sessions) (d : Db E)
      → IsLinked d.wheel
      → Ready (initialize_ccdb E m u d)
  unfolding initialize_ccdb
  initialize_ccdb-Ready m u d l =
      ready user_session_size
        (count us_list_tailq_init_time (
          count api_fep_create_private_us (
            count api_fep_create_private_dgc_qmsg (record d {
              trap = record { time_start = 0; sub_id = []; us = none };
              tg_expiry = E.tg_def;
              bucket = λ _. [];
              by_time = [];
              qmsg_pool = m;
              us_pool = u;
            }))))
        id_range l refl refl (λ i. refl)
