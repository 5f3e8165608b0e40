-- ===== src/Dsm/Sessions/Ops.antt =====
-- user_session_init, user_session_remove, initialize_ccdb and finalize_ccdb of dsm_ccdb.c.
use code_snippets.Dsm.Ccdb.{user_session_size}
use code_snippets.Dsm.Fsm.{State, AppSm}
use code_snippets.Dsm.Timer.Ops.{callout_unset}
use code_snippets.Dsm.Timer.{
  remove, update, first_of_list, ok, bind, out_of_fuel, Run, Pool, id_undef,
}
use code_snippets.Dsm.Sessions.Queue.{dgc_qmsg_init, dgc_qmsg_remove}
use code_snippets.Dsm.Sessions.{
  api_delete_private_us, us_remove_succ, us_tailq_remove_time, dgc_qmsg_list_tailq_init,
  api_fep_create_private_dgc_qmsg, us_ptr_null, us_list_null, us_tailq_remove, api_tell_dgc_fail,
  us_init_succ, api_fep_create_private_us, us_remove_fail, api_fep_free_buffer, us_null,
  us_list_tailq_init_time, us_list_tailq_init, api_parm_to_buf_fail, api_buf_to_parm_fail,
  api_tell_dgc_succ, us_init_fail, count, AppSm, Pool, Db, Session, System,
}
use code_snippets.Prelude.Int.{ℤ, pos, negsuc}
use code_snippets.Prelude.{ℕ, zero, true, suc, some, none, get_or, false, [], Option, Bool}

module _ (E : System) where
  -- The session that user_session_init makes, with an empty queue.
  abbrev pub blank_session : Session
  blank_session = record {
    head = none;
    asm_id = AppSm.undef;
    asm_state = State.undef;
    tcc_id = id_undef;
    tg_id = id_undef;
    time_last = 0;
    ref_count = 0;
    cp = E.uninitialized;
    npk_config = E.uninitialized;
    peer_fe = E.uninitialized;
    local_host = E.uninitialized;
    local_realm = E.uninitialized;
    remote_host = E.uninitialized;
    remote_realm = E.uninitialized;
    sub_id_type = E.uninitialized;
    tid_local = 0;
    dgc_qmsg = [];
  }

  unfoldable pub user_session_init : Option ℕ → Db E → Db E
  user_session_init none d = count us_init_fail (count us_null d)
  user_session_init (some s) d =
      count us_init_succ
        (count dgc_qmsg_list_tailq_init (record d { session = update d.session s blank_session }))

  -- What tell_dgc has returned for a parameter.
  unfoldable pub told : ℤ → Bool × E.World → Db E → Db E
  told parm (true, w) d = count api_tell_dgc_succ (record d { world = w })
  told parm (false, w) d =
      let (b, v) = E.parm_to_buf parm w in
      count api_fep_free_buffer
        (count api_tell_dgc_fail (record d { world = E.fep_free_buffer b v }))

  -- What buf_to_parm has returned.
  unfoldable pub tell_parm : ℤ × E.World → Db E → Db E
  unfolding told
  tell_parm (negsuc _, w) d = count api_buf_to_parm_fail (record d { world = w })
  tell_parm (pos parm, w) d = told (pos parm) (E.tell_dgc (pos parm) w) d

  -- What parm_to_buf has returned for a queued message. The text of errorString is left out.
  unfoldable pub tell_buffer : Option ℕ × E.World → Db E → Db E
  unfolding tell_parm
  tell_buffer (none, w) d = count api_parm_to_buf_fail (record d { world = w })
  tell_buffer (some b, w) d =
      tell_parm (E.buf_to_parm b w)
        (record d { diamctx = update d.diamctx b (record { no_diam = true; no_gdi = true }) })

  -- Tell the DGC that the queued message will not be processed.
  unfoldable pub tell_sender : ℕ → Db E → Db E
  unfolding tell_buffer
  tell_sender q d = tell_buffer (E.parm_to_buf (get_or (d.qmsg q).qmsg 1 (pos 0)) d.world) d

  -- The loop of user_session_remove over the queue of session `s`, of which `q` is the first
  -- message.
  unfoldable pub drain : ℕ → ℕ → Option ℕ → Db E → Run (Db E)
  unfolding tell_sender dgc_qmsg_remove
  drain zero s q d = out_of_fuel
  drain (suc fuel) s none d = ok d
  drain (suc fuel) s (some q) d =
      bind (dgc_qmsg_remove E (some (some q)) (tell_sender q d))
        (λ e. drain fuel s (first_of_list (e.session s).dgc_qmsg) e)

  -- What a pointer to a timer's id holds after callout_unset.
  abbrev pub held : Option ℕ → ℕ
  held none = id_undef
  held (some i) = i

  -- Cancel the Tcc and Tg timers.
  unfoldable pub cancel_timers : ℕ → Db E → Run (Db E)
  unfolding callout_unset
  cancel_timers s d = bind (callout_unset E.callouts (some (d.session s).tcc_id) d.wheel) (λ (p, w).
      bind (callout_unset E.callouts (some (d.session s).tg_id) w) (λ (q, v). ok (record d {
        wheel = v;
        session = update d.session s (record (d.session s) { tcc_id = held p; tg_id = held q });
      })))

  -- Remove the session from the time-sorted list and from the list of slot `b`, and free its
  -- memory.
  unfoldable pub release_session : ℕ → ℕ → Db E → Run (Db E)
  unfolding user_session_init
  release_session b s d = bind (remove s d.by_time) (λ xs. bind (remove s (d.bucket b)) (λ ys.
      let e = user_session_init (some s) (
        count us_tailq_remove (
          count us_tailq_remove_time (record d { by_time = xs; bucket = update d.bucket b ys }))) in
      ok (
        count us_remove_succ (
          count api_delete_private_us
            (record e { us_pool = Pool.delete_private E.sessions s e.us_pool })))))

  -- user_session_remove of a session with this head.
  unfoldable pub remove_listed : ℕ → Option ℕ → ℕ → Db E → Run (Option ℕ × Db E)
  unfolding cancel_timers drain release_session
  remove_listed fuel none s d = ok (some s, count us_remove_fail (count us_list_null d))
  remove_listed fuel (some b) s d = bind (cancel_timers s d) (λ e.
      bind (drain fuel s (first_of_list (e.session s).dgc_qmsg) e)
        (λ f. bind (release_session b s f) (λ g. ok (none, g))))

  -- user_session_remove: what it returns comes first.
  unfoldable pub user_session_remove : ℕ → Option (Option ℕ) → Db E → Run (Option ℕ × Db E)
  unfolding remove_listed
  user_session_remove fuel none d = ok (none, count us_remove_fail (count us_ptr_null d))
  user_session_remove fuel (some none) d = ok (none, count us_remove_fail (count us_null d))
  user_session_remove fuel (some (some s)) d = remove_listed fuel (d.session s).head s d

  -- The loop of finalize_ccdb; `p` is the first session of the time-sorted list. `queue` is the
  -- fuel of user_session_remove.
  unfoldable pub remove_all : ℕ → ℕ → Option ℕ → Db E → Run (Db E)
  unfolding user_session_remove
  remove_all zero queue p d = out_of_fuel
  remove_all (suc fuel) queue none d = ok d
  remove_all (suc fuel) queue (some p) d =
      bind (user_session_remove queue (some (some p)) d)
        (λ (_, e). remove_all fuel queue (first_of_list e.by_time) e)

  unfoldable pub finalize_ccdb : ℕ → ℕ → Db E → Run (Db E)
  unfolding remove_all
  finalize_ccdb fuel queue d = remove_all fuel queue (first_of_list d.by_time) d

  -- dgc_qmsg_init of the messages with the first `n` ids.
  unfoldable pub init_qmsgs : ℕ → Db E → Db E
  unfolding dgc_qmsg_init
  init_qmsgs zero d = d
  init_qmsgs (suc n) d = dgc_qmsg_init E (some (suc n)) (init_qmsgs n d)

  -- user_session_init of the sessions with the first `n` ids, and TAILQ_INIT of the first lists.
  unfoldable pub init_sessions : ℕ → Db E → Db E
  unfolding user_session_init
  init_sessions zero d = d
  init_sessions (suc n) d =
      let e = user_session_init (some (suc n)) (init_sessions n d) in
      count us_list_tailq_init (record e { bucket = update e.bucket n [] })

  -- initialize_ccdb, with the pools that fep_create_private has made. DGC_QMSG_SIZE is
  -- USER_SESSION_SIZE.
  unfoldable pub initialize_ccdb : Pool.State E.messages → Pool.State E.sessions → Db E → Db E
  unfolding init_qmsgs init_sessions
  initialize_ccdb m u d = init_sessions user_session_size (
      init_qmsgs user_session_size (
        count us_list_tailq_init_time (
          count api_fep_create_private_us (
            count api_fep_create_private_dgc_qmsg (record d {
              trap = record { time_start = 0; sub_id = []; us = none };
              tg_expiry = E.tg_def;
              bucket = λ _. [];
              by_time = [];
              qmsg_pool = m;
              us_pool = u;
            })))))
