-- ===== src/Dsm/Sessions/Drain.antt =====
-- The loop of user_session_remove over a session's queued messages.
use code_snippets.Dsm.Timer.Lists.{
  has-ne, Ends-bind, Distinct, Ends-map, ends, remove-middle, Ends, has,
}
use code_snippets.Dsm.Timer.{Pool, first_of_list, update}
use code_snippets.Dsm.Sessions.Queue.{
  dgc_qmsg_init, free_qmsg, unlink_qmsg, remove_qmsg, dgc_qmsg_remove,
}
use code_snippets.Dsm.Sessions.Ops.{drain, tell_sender, tell_buffer, tell_parm, told}
use code_snippets.Dsm.Sessions.{Pool, Session, no_qmsg, Db, System}
use code_snippets.Prelude.Int.{ℤ, pos, negsuc}
use code_snippets.Prelude.{
  ◌∙◌, ◌==◌, ◌<◌, zero, suc, length, inr, inl, ap, Bool-cases, ==_iff, ◌≢◌, ◌≡◌, ◌∷◌, ℕ, true, some,
  refl, none, false, arith, [], Option, List, Bool,
}

abbrev pub with_queue : List ℕ → Session → Session
with_queue qs p = record p { dgc_qmsg = qs }

-- A memory pool after delete_private of each of these, in this order.
abbrev pub freed : (P : Pool) → List ℕ → Pool.State P → Pool.State P
freed P [] m = m
freed P (q ∷ qs) m = freed P qs (Pool.delete_private P q m)

module _ (E : System) where
  -- The lists, the sessions, the messages, the wheel and the pools are the same.
  pub record Same (d e : Db E) : Type 0 where
    pub bucket : e.bucket ≡ d.bucket
    pub by_time : e.by_time ≡ d.by_time
    pub session : e.session ≡ d.session
    pub qmsg : e.qmsg ≡ d.qmsg
    pub wheel : e.wheel ≡ d.wheel
    pub us_pool : e.us_pool ≡ d.us_pool
    pub qmsg_pool : e.qmsg_pool ≡ d.qmsg_pool

  told-Same : (parm : ℤ) (r : Bool × E.World) (d : Db E) → Same d (told E parm r d)
  unfolding told
  told-Same parm (true, w) d = record {
    bucket = refl;
    by_time = refl;
    session = refl;
    qmsg = refl;
    wheel = refl;
    us_pool = refl;
    qmsg_pool = refl;
  }
  told-Same parm (false, w) d = record {
    bucket = refl;
    by_time = refl;
    session = refl;
    qmsg = refl;
    wheel = refl;
    us_pool = refl;
    qmsg_pool = refl;
  }

  tell_parm-Same : (r : ℤ × E.World) (d : Db E) → Same d (tell_parm E r d)
  unfolding tell_parm
  tell_parm-Same (pos parm, w) d = told-Same (pos parm) (E.tell_dgc (pos parm) w) d
  tell_parm-Same (negsuc n, w) d = record {
    bucket = refl;
    by_time = refl;
    session = refl;
    qmsg = refl;
    wheel = refl;
    us_pool = refl;
    qmsg_pool = refl;
  }

  tell_buffer-Same : (r : Option ℕ × E.World) (d : Db E) → Same d (tell_buffer E r d)
  unfolding tell_buffer
  tell_buffer-Same (none, w) d = record {
    bucket = refl;
    by_time = refl;
    session = refl;
    qmsg = refl;
    wheel = refl;
    us_pool = refl;
    qmsg_pool = refl;
  }
  tell_buffer-Same (some b, w) d =
      let e : Db E = record d {
        diamctx = update d.diamctx b (record { no_diam = true; no_gdi = true });
      } in
      let s = tell_parm-Same (E.buf_to_parm b w) e in
      record {
        bucket = s.bucket;
        by_time = s.by_time;
        session = s.session;
        qmsg = s.qmsg;
        wheel = s.wheel;
        us_pool = s.us_pool;
        qmsg_pool = s.qmsg_pool;
      }

  tell_sender-Same : (q : ℕ) (d : Db E) → Same d (tell_sender E q d)
  unfolding tell_sender
  tell_sender-Same q d = tell_buffer-Same _ d

  -- The messages `qs` have left the queue of session `s`, which keeps `rest`, are blank, and have
  -- been given back to their pool, each once. Nothing else of the lists, the sessions and the messages has changed.
  pub record Drained (s : ℕ) (qs rest : List ℕ) (d e : Db E) : Type 0 where
    pub queue : e.session s ≡ with_queue rest (d.session s)
    pub other_sessions : (k : ℕ) → k ≢ s → e.session k ≡ d.session k
    pub emptied : (q : ℕ) → has q qs ≡ true → e.qmsg q ≡ no_qmsg
    pub other_messages : (q : ℕ) → has q qs ≡ false → e.qmsg q ≡ d.qmsg q
    pub bucket : e.bucket ≡ d.bucket
    pub by_time : e.by_time ≡ d.by_time
    pub wheel : e.wheel ≡ d.wheel
    pub us_pool : e.us_pool ≡ d.us_pool
    pub qmsg_pool : e.qmsg_pool ≡ freed E.messages qs d.qmsg_pool

  remove_first :
      (s q : ℕ) (qs : List ℕ) (d : Db E)
      → (d.session s).dgc_qmsg ≡ q ∷ qs
      → (d.qmsg q).head ≡ some s
      → Ends (Drained s (q ∷ []) qs d) (dgc_qmsg_remove E (some (some q)) d)
  unfolding dgc_qmsg_remove remove_qmsg unlink_qmsg free_qmsg dgc_qmsg_init
  remove_first s q qs d e h =
      rw (h, e, remove-middle [] q qs refl)
        (ends _ (record {
          queue = ground arith;
          other_sessions = λ k n. ground (arith, n);
          emptied = λ k z. ground arith;
          other_messages = λ k z. ground arith;
          bucket = refl;
          by_time = refl;
          wheel = refl;
          us_pool = refl;
          qmsg_pool = refl;
        }))

  -- One round of the loop.
  drain_first :
      (s q : ℕ) (qs : List ℕ) (d : Db E)
      → (d.session s).dgc_qmsg ≡ q ∷ qs
      → (d.qmsg q).head ≡ some s
      → Ends (Drained s (q ∷ []) qs d) (dgc_qmsg_remove E (some (some q)) (tell_sender E q d))
  drain_first s q qs d e h =
      let t = tell_sender E q d in
      let a = tell_sender-Same q d in
      Ends-map
        (remove_first s q qs t (ap (λ f. (f s).dgc_qmsg) a.session ∙ e)
          (ap (λ f. (f q).head) a.qmsg ∙ h))
        (λ u r. record {
          queue = r.queue ∙ ap (λ f. with_queue qs (f s)) a.session;
          other_sessions = λ k n. r.other_sessions k n ∙ ap (λ f. f k) a.session;
          emptied = r.emptied;
          other_messages = λ k z. r.other_messages k z ∙ ap (λ f. f k) a.qmsg;
          bucket = r.bucket ∙ a.bucket;
          by_time = r.by_time ∙ a.by_time;
          wheel = r.wheel ∙ a.wheel;
          us_pool = r.us_pool ∙ a.us_pool;
          qmsg_pool = r.qmsg_pool ∙ ap (Pool.delete_private E.messages q) a.qmsg_pool;
        })

  -- Where a first message and then others have left the queue.
  Drained-next :
      (s q : ℕ) (qs : List ℕ) (d e f : Db E)
      → has q qs ≡ false
      → Drained s (q ∷ []) qs d e
      → Drained s qs [] e f
      → Drained s (q ∷ qs) [] d f
  Drained-next s q qs d e f n a b = record {
    queue = b.queue ∙ ap (with_queue []) a.queue;
    other_sessions = λ k z. b.other_sessions k z ∙ a.other_sessions k z;
    emptied = λ k z. elim (Bool-cases (k == q)) [
      | inl e ↦
          b.other_messages k (ap (λ j. has j qs) ((==_iff _ _).0 e) ∙ n)
          ∙ a.emptied k (ground arith)
      | inr e ↦ b.emptied k (ground arith)
    ];
    other_messages = λ k z. b.other_messages k (ground arith) ∙ a.other_messages k (ground arith);
    bucket = b.bucket ∙ a.bucket;
    by_time = b.by_time ∙ a.by_time;
    wheel = b.wheel ∙ a.wheel;
    us_pool = b.us_pool ∙ a.us_pool;
    qmsg_pool = b.qmsg_pool ∙ ap (freed E.messages qs) a.qmsg_pool;
  }

  pub drain-Drained :
      (fuel s : ℕ) (qs : List ℕ) (d : Db E)
      → length qs < fuel
      → (d.session s).dgc_qmsg ≡ qs
      → Distinct qs
      → ((q : ℕ) → has q qs ≡ true → (d.qmsg q).head ≡ some s)
      → Ends (Drained s qs [] d) (drain E fuel s (first_of_list qs) d)
  unfolding drain first_of_list
  drain-Drained zero s qs d l e n h = absurd (omega arith)
  drain-Drained (suc fuel) s [] d l e n h = ends d (record {
    queue = ap (λ xs. with_queue xs (d.session s)) e;
    other_sessions = λ k z. refl;
    emptied = λ q z. ground arith;
    other_messages = λ q z. refl;
    bucket = refl;
    by_time = refl;
    wheel = refl;
    us_pool = refl;
    qmsg_pool = refl;
  })
  drain-Drained (suc fuel) s (q ∷ qs) d l e n h =
      Ends-bind (drain_first s q qs d e (h q (ground arith))) (λ u a.
        let next : (u.session s).dgc_qmsg ≡ qs = ap (λ p. p.dgc_qmsg) a.queue in
        let heads : (k : ℕ) → has k qs ≡ true → (u.qmsg k).head ≡ some s = λ k z.
          ap (λ m. m.head) (a.other_messages k (ground (arith, has-ne k q qs z n.0)))
          ∙ h k (ground arith) in
        rw next (
          Ends-map (drain-Drained fuel s qs u (omega arith) next n.1 heads)
            (λ v b. Drained-next s q qs d u v n.0 a b)))
