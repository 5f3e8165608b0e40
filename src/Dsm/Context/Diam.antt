-- ===== src/Dsm/Context/Diam.antt =====
-- user_session_save of a Diameter message: case DIAMCTX_DIAM.
use code_snippets.Dsm.Fsm.{ccas, idle}
use code_snippets.Dsm.Ccdb.Tid.{Tids, set_tid_local}
use code_snippets.Dsm.Context.Save.{
  clear_tids, is_initial, go_on, save_succ, is_answer, save_fail, Saved, trap_us, set_peer_fe,
}
use code_snippets.Dsm.Context.Copy.{copy_bytes, copy_proxies}
use code_snippets.Dsm.Fsm.{Event, idle, State, stt, AppSm}
use code_snippets.Dsm.Ccdb.Session.{next_ste, package_of, asm_id_of, state_set}
use code_snippets.Dsm.Timer.{}
use code_snippets.Prelude.Int.{ℤ, pos_part}
use code_snippets.Prelude.{◌==◌, ℕ, true, ltb, if◌then◌else◌}
use code_snippets.Dsm.Context.{
  api_conf_get_state_fail, us_tid_local_invalid, ccdb_version, Contexts, Conf, Us, Codes, DiamCtx,
  count,
}

-- STATE_CCAS_IDLE for a failure of set_asm_state.
abbrev pub or_idle : State → State
or_idle State.undef = idle
or_idle s = s

-- The end of the first part: the state of the state machine, and no transaction ids.
unfoldable pub start_state : Us → Contexts → Saved
unfolding state_set stt
start_state p c =
    let (s, e) = state_set p.core.head (next_ste p.core Event.undef c.ccdb) c.ccdb in
    let q : Us = clear_tids p in
    (
      true,
      record q {
        core = record q.core { asm_state = or_idle s; package_type_asr = 0; package_type_rar = 0 };
      },
      record c { ccdb = e },
    )

-- What set_asm_id has returned for a new session.
unfoldable pub start_asm : AppSm → Us → Contexts → Saved
unfolding start_state
start_asm AppSm.undef p c = save_fail (record p { core = record p.core { asm_id = AppSm.undef } }) c
start_asm ccas p c = start_state (record p { core = record p.core { asm_id = ccas } }) c

-- The Session-Id, Application-ID, time and version of a new session.
abbrev pub identified : ℕ → DiamCtx → Us → Us
identified now m p = record p {
  core = record p.core {
    session_id = copy_bytes (pos_part m.session_id_length) m.buffer_sid p.core.session_id;
    session_id_len = m.session_id_length;
    app_id = m.appl_id;
  };
  rest = record p.rest { time_start = now; cc_version = ccdb_version };
}

-- The AVPs and Call Context data of every Diameter message.
unfoldable pub save_avps : ℕ → DiamCtx → Us → Us
unfolding copy_proxies
save_avps local_state m p = record p {
  core = record p.core { app_id = m.appl_id; sub_id = m.sub_id };
  rest = record p.rest {
    version = m.version;
    hop_by_hop = m.hop_by_hop_id;
    end_to_end = m.end_to_end_id;
    cc_request_type = m.cc_request_type;
    cc_request_number = m.cc_request_number;
    auth_app_id = m.auth_app_id;
    local_host = m.dest_host;
    local_realm = m.dest_realm;
    local_state = local_state;
    remote_host = m.origin_host;
    remote_realm = m.origin_realm;
    remote_state = m.origin_state_id;
    sub_id_type = m.sub_id_type;
    proxies = copy_proxies m.proxies p.rest.proxies;
  };
}

module _ (k : Codes) (f : Conf) where
  -- The items of a new session, for a CCR of type INITIAL or EVENT.
  unfoldable pub save_new : DiamCtx → Us → Contexts → Saved
  unfolding start_asm asm_id_of
  save_new m p c =
      let q : Us = identified f.time m p in
      let (a, e) = asm_id_of k.names q.core.head q.core.app_id c.ccdb in
      start_asm a q (record c { ccdb = e })

  -- What set_package_type has returned.
  unfoldable pub save_type : ℕ → Us → Contexts → Saved
  save_type type p c =
      let q : Us = record p { rest = record p.rest { package_type = type } } in
      if type == 0 then save_fail q c else (true, q, c)

  -- What set_peer_fe has returned.
  unfoldable pub with_peer : ℤ × Contexts → DiamCtx → Us → Saved
  unfolding save_type package_of
  with_peer (peer, e) m p =
      let q : Us = record p {
        core = record p.core { command_code = m.command_code; command_flags = m.flags };
        rest = record p.rest { peer_fe = peer };
      } in
      let (type, db) = package_of k.names q.core.head q.core e.ccdb in
      if pos_part peer == 0 then save_fail q e else save_type type q (record e { ccdb = db })

  -- Command-Code, flags, peer FE and package type.
  unfoldable pub save_package : DiamCtx → Us → Contexts → Saved
  unfolding set_peer_fe with_peer
  save_package m p c = with_peer (set_peer_fe k f c) m p

  -- What set_tid_local has returned.
  unfoldable pub with_tid : ℕ × Tids → Us → Contexts → Saved
  with_tid (tid, t) p c =
      let q : Us = record p { core = record p.core { tid_local = tid } } in
      if tid == 0 then save_fail q (record c { tids = t }) else (true, q, record c { tids = t })

  -- The local TID of session `i`.
  unfoldable pub assign_tid : ℕ → Us → Contexts → Saved
  unfolding set_tid_local with_tid
  assign_tid i p c = with_tid (set_tid_local f.fe_number f.csi_number p.rest.peer_fe i c.tids) p c

  -- The local TID by Command-Code and package type.
  unfoldable pub save_tid : ℕ → Us → Contexts → Saved
  unfolding assign_tid
  save_tid i p c =
      if is_answer k p.core.command_code
      then (if p.rest.package_type == k.package_type_response
          then (if p.core.tid_local == 0 then (true, p, c) else (
            true,
            record p { core = record p.core { tid_local = 0 } },
            count us_tid_local_invalid c,
          ))
          else if p.rest.package_type == k.names.package_type_conv
          then (if ltb 0 p.core.tid_local
              then (true, p, c)
              else assign_tid i p (count us_tid_local_invalid c))
          else assign_tid i p c)
      else assign_tid i p c

  -- The end of the case, with what set_flags_trap reads the old subscription id for.
  unfoldable pub save_rest : ℕ → DiamCtx → Us → Contexts → Saved
  unfolding trap_us save_avps
  save_rest i m p c =
      let (q, e) = trap_us i (record p { rest = record p.rest { tg_expiry = c.tg_expiry } }) c in
      save_succ (save_avps f.local_state_id m q) e

  -- All Diameter messages.
  unfoldable pub save_each : ℕ → DiamCtx → Us → Contexts → Saved
  unfolding save_package save_tid save_rest
  save_each i m p c =
      go_on (save_package m p c) (λ q d. go_on (save_tid i q d) (λ r e. save_rest i m r e))

  unfoldable pub save_diam : ℕ → DiamCtx → Us → Contexts → Saved
  unfolding save_new save_each
  save_diam i m p c =
      if f.ready
      then (if is_initial k m
          then go_on (save_new m p c) (λ q d. save_each i m q d)
          else save_each i m p c)
      else save_fail p (count api_conf_get_state_fail c)
