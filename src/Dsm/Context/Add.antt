-- ===== src/Dsm/Context/Add.antt =====
-- user_session_add of dsm_ccdb.c, with the memory pool as a parameter.
use code_snippets.Dsm.Ccdb.{user_session_mask, Ccdb}
use code_snippets.Dsm.Context.Gdi.{user_session_save}
use code_snippets.Prelude.Int.{ℤ, pos_part, pos, neg_part}
use code_snippets.Prelude.{
  ◌∷◌, ◌||◌, ◌++◌, ℕ, true, suc, some, none, ltb, if◌then◌else◌, false, [], Option, List, Bool,
}
use code_snippets.Dsm.Fsm.{AppSm, State}
use code_snippets.Dsm.Timer.{update, id_undef, Pool}
use code_snippets.Dsm.Context.{
  DiamCtx, Conf, Ccdb, Codes, Us, Proxies, Contexts, count, us_add_fail, us_add_succ,
  api_new_private_fail_us, api_new_private_succ_us,
}
use code_snippets.Dsm.Context.{
  api_delete_private_us, us_init_succ, dgc_qmsg_list_tailq_init, us_tailq_insert_tail,
}
use code_snippets.Dsm.Context.{us_tailq_insert_tail_time, dc_null}

-- The sessions with the time-sorted list and the pool of their memory.
pub record Table (E : Pool) : Type 0 where
  pub contexts : Contexts
  pub by_time : List ℕ
  pub pool : Pool.State E

abbrev pub no_proxies : Proxies
no_proxies = record { count = 0; host = λ _. pos 0; state_len = λ _. 0; states = λ _. pos 0 }

-- A session after user_session_init. The zeros that memset writes into a string are left out.
abbrev pub blank_us : ℤ → Us
blank_us uninitialized = record {
  core = record {
    head = none;
    asm_id = AppSm.undef;
    asm_state = State.undef;
    command_code = 0;
    command_flags = 0;
    app_id = 0;
    session_id = [];
    session_id_len = pos 0;
    sub_id = [];
    package_type_asr = 0;
    package_type_rar = 0;
    tid_local = 0;
    tid_remote = 0;
  };
  rest = record {
    tcc_expiry = pos 0;
    tg_id = id_undef;
    tg_expiry = pos 0;
    cc_version = pos 0;
    time_start = 0;
    time_last = 0;
    ref_count = 0;
    cp = uninitialized;
    npk_config = uninitialized;
    peer_fe = uninitialized;
    trap = false;
    version = pos 0;
    hop_by_hop = 0;
    end_to_end = 0;
    cc_request_type = pos 0;
    cc_request_number = 0;
    auth_app_id = 0;
    local_host = uninitialized;
    local_realm = uninitialized;
    local_state = 0;
    remote_host = uninitialized;
    remote_realm = uninitialized;
    remote_state = 0;
    sub_id_type = uninitialized;
    proxies = no_proxies;
    package_type = 0;
    tid_remote_asr = 0;
    tid_remote_rar = 0;
    orig_sys_id = pos 0;
    receiver_id = pos 0;
    invoke_id = pos 0;
  };
}

-- Write the struct of session `i`.
abbrev pub put_us : ℕ → Us → Contexts → Contexts
put_us i p c = record c {
  ccdb = record c.ccdb { session = update c.ccdb.session i p.core };
  rest = update c.rest i p.rest;
}

-- new->head = &ccdb.user_session[b]
abbrev pub put_head : ℕ → ℕ → Contexts → Contexts
put_head new b c = record c {
  ccdb = record c.ccdb {
    session = update c.ccdb.session new (record (c.ccdb.session new) { head = some b });
  };
}

module _ (E : Pool) where
  abbrev pub add_fail : Table E → Option ℕ × Table E
  add_fail t = (none, record t { contexts = count us_add_fail t.contexts })

  -- TAILQ_INSERT_TAIL to the time-sorted list and to the list of slot `b`, which is new->head.
  unfoldable pub insert_us : ℕ → ℕ → Table E → Table E
  insert_us new b t =
      let c : Contexts = t.contexts in
      let db : Ccdb = c.ccdb in
      record t {
        by_time = t.by_time ++ new ∷ [];
        contexts = count us_add_succ (
            count us_tailq_insert_tail (
              count us_tailq_insert_tail_time (record c {
                ccdb = record db { bucket = update db.bucket b (db.bucket b ++ new ∷ []) };
              })));
      }

  -- user_session_init and delete_private.
  unfoldable pub free_us : ℤ → ℕ → Table E → Table E
  free_us uninitialized new t = record t {
    contexts = count api_delete_private_us (
        count us_init_succ
          (count dgc_qmsg_list_tailq_init (put_us new (blank_us uninitialized) t.contexts)));
    pool = Pool.delete_private E new t.pool;
  }

  -- user_session_add after user_session_save has returned.
  unfoldable pub add_saved : ℤ → ℕ → ℕ → Bool × Contexts → Table E → Option ℕ × Table E
  unfolding insert_us free_us
  add_saved uninitialized new b (false, c) t =
      add_fail (free_us uninitialized new (record t { contexts = c }))
  add_saved uninitialized new b (true, c) t =
      (some new, insert_us new b (record t { contexts = c }))

  -- user_session_add with what new_private has returned.
  unfoldable pub add_new :
      Codes → Conf → DiamCtx → ℕ → Option (ℕ × Pool.State E) → Table E → Option ℕ × Table E
  unfolding add_saved user_session_save
  add_new k f m b none t =
      add_fail (record t { contexts = count api_new_private_fail_us t.contexts })
  add_new k f m b (some (new, pool)) t =
      add_saved k.uninitialized new b
        (user_session_save k f (some m) (some new)
          (put_head new b (count api_new_private_succ_us t.contexts)))
        (record t { pool = pool })

  unfoldable pub user_session_add : Codes → Conf → Option DiamCtx → ℤ → Table E → Option ℕ × Table E
  unfolding add_new
  user_session_add k f none index t = add_fail (record t { contexts = count dc_null t.contexts })
  user_session_add k f (some m) index t =
      let c : Contexts = t.contexts in
      let db : Ccdb = c.ccdb in
      if ltb 0 (neg_part index) || ltb user_session_mask (pos_part index)
      then add_fail (record t {
        contexts = record c {
          ccdb = record db {
            meas = record db.meas { us_list_invalid = suc db.meas.us_list_invalid };
          };
        };
      })
      else add_new k f m (pos_part index) (Pool.new_private E t.pool) t
