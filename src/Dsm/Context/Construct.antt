-- ===== src/Dsm/Context/Construct.antt =====
-- qmsg_diamctx_construct of dsm_ccdb.c.
use code_snippets.Dsm.Ccdb.Session.{us_null, us_list_null}
use code_snippets.Dsm.Timer.{update}
use Prim.Native.Nat.{bit_and}
use code_snippets.Dsm.Context.Report.{
  construct_fail, tids_diam, begin_alone, report_gdi, report_diam, Built,
}
use code_snippets.Dsm.Context.Save.{trap_us}
use code_snippets.Dsm.Context.Copy.{copy_bytes, copy_proxies, sec_of}
use code_snippets.Prelude.Int.{pos_part, pos}
use code_snippets.Prelude.{◌==◌, ℕ, true, some, none, if◌then◌else◌, false, Option, Bool}
use code_snippets.Dsm.Context.{
  pkg_gdi_invalid_xmit, pkg_gdi_abort_xmit, dc_null, us_at, dc_invalid, pkg_gdi_end_xmit,
  qmsg_diamctx_construct_fail, qmsg_diamctx_construct_succ, pkg_gdi_continue_xmit, Contexts,
  pkg_gdi_begin_xmit, Conf, Count, DiamCtx, Codes, Us, DiamctxType, count, gdi, tg_exp, gdi_int_str,
  diam,
}

abbrev pub is_tg_exp : DiamctxType → Bool
is_tg_exp tg_exp = true
is_tg_exp _ = false

abbrev pub is_gdi : DiamctxType → Bool
is_gdi gdi = true
is_gdi _ = false

-- The Session-Id of a message for an expired timer.
unfoldable pub put_session_id : Us → DiamCtx → DiamCtx
put_session_id p m = record m {
  session_id_offset = pos 0;
  session_id_length = p.core.session_id_len;
  buffer_data_off = pos 0;
  buffer_data_len = p.core.session_id_len;
  buffer_sid = copy_bytes (pos_part p.core.session_id_len) p.core.session_id m.buffer_sid;
}

-- The timer, the Diameter header and the AVPs.
unfoldable pub put_avps : Us → DiamCtx → DiamCtx
unfolding sec_of copy_proxies
put_avps p m = record m {
  timer = sec_of p.rest.tcc_expiry;
  version = p.rest.version;
  command_code = p.core.command_code;
  flags = p.core.command_flags;
  hop_by_hop_id = p.rest.hop_by_hop;
  end_to_end_id = p.rest.end_to_end;
  appl_id = p.core.app_id;
  auth_app_id = p.rest.auth_app_id;
  cc_request_type = p.rest.cc_request_type;
  cc_request_number = p.rest.cc_request_number;
  proxies = copy_proxies p.rest.proxies m.proxies;
  sub_id_type = p.rest.sub_id_type;
  sub_id = p.core.sub_id;
}

abbrev pub to_remote : Us → DiamCtx → DiamCtx
to_remote p m = record m {
  dest_host = p.rest.remote_host;
  dest_realm = p.rest.remote_realm;
  dest_state_id = p.rest.remote_state;
}

abbrev pub from_remote : Us → DiamCtx → DiamCtx
from_remote p m = record m {
  origin_host = p.rest.remote_host;
  origin_realm = p.rest.remote_realm;
  origin_state_id = p.rest.remote_state;
}

-- Set the origin data after the transaction ids.
unfoldable pub put_origin : Built → Built
put_origin (false, m, p, c) = (false, m, p, c)
put_origin (true, m, p, c) = (true, from_remote p m, p, c)

-- Store the session.
unfoldable pub store_built : ℕ → Built → Bool × Option DiamCtx × Contexts
store_built i (done, m, p, c) = (
  done,
  some m,
  record c {
    ccdb = record c.ccdb { session = update c.ccdb.session i p.core };
    rest = update c.rest i p.rest;
  },
)

abbrev pub alone : Bool × DiamCtx × Contexts → Bool × Option DiamCtx × Contexts
alone (done, m, c) = (done, some m, c)

module _ (k : Codes) where
  -- Origin and destination by type.
  unfoldable pub put_ends : DiamctxType → Us → DiamCtx → DiamCtx
  put_ends gdi p m =
      if bit_and p.core.command_flags k.names.diam_cmd_flag_r == 0 then to_remote p m else m
  put_ends gdi_int_str p m = record (from_remote p m) {
    dest_host = p.rest.local_host;
    dest_realm = p.rest.local_realm;
  }
  put_ends tg_exp p m = record (to_remote p m) {
    origin_host = k.uninitialized;
    origin_realm = k.uninitialized;
  }
  put_ends _ p m = m

  -- What the session passes for a GDI or Diameter message.
  unfoldable pub put_data : Us → DiamCtx → DiamCtx
  unfolding put_session_id put_avps put_ends
  put_data p m =
      put_ends m.diamctx_type p
        (put_avps p (if is_gdi m.diamctx_type then m else put_session_id p m))

  -- The counter of a package type.
  unfoldable pub package_count : ℕ → Count
  package_count type =
      if type == k.names.package_type_request
      then pkg_gdi_begin_xmit
      else if type == k.names.package_type_conv
      then pkg_gdi_continue_xmit
      else if type == k.package_type_response
      then pkg_gdi_end_xmit
      else if type == k.package_type_abort
      then pkg_gdi_abort_xmit
      else pkg_gdi_invalid_xmit

  -- The common data of session `i`, and the counters.
  unfoldable pub construct_end : ℕ → DiamCtx → Us → Contexts → Built
  unfolding trap_us package_count
  construct_end i m p c =
      let (q, d) = trap_us i p c in
      (
        true,
        record m {
          trap = q.rest.trap;
          cp = q.rest.cp;
          npk_config = q.rest.npk_config;
          orig_sys_id = q.rest.orig_sys_id;
          receiver_id = q.rest.receiver_id;
          invoke_id = q.rest.invoke_id;
        },
        q,
        count qmsg_diamctx_construct_succ (count (package_count m.package_type) d),
      )

  -- The common data after a step that has not failed.
  unfoldable pub end_after : ℕ → Built → Built
  unfolding construct_end
  end_after i (false, m, p, c) = (false, m, p, c)
  end_after i (true, m, p, c) = construct_end i m p c

module _ (k : Codes) (f : Conf) where
  -- DIAMCTX_DIAM.
  unfoldable pub construct_diam : Bool → DiamCtx → Us → Contexts → Built
  unfolding report_diam tids_diam put_origin
  construct_diam repterr m p c =
      if repterr then report_diam k f m p c else put_origin (tids_diam k f m p c)

  -- DIAMCTX_GDI, DIAMCTX_GDI_INT_STR and DIAMCTX_TG_EXP.
  unfoldable pub construct_gdi : Bool → DiamCtx → Us → Contexts → Built
  unfolding report_gdi put_data
  construct_gdi repterr m p c =
      if m.no_diam
      then (true, m, p, c)
      else if repterr
      then (let (n, q, d) = report_gdi k f m p c in
          (true, (if is_tg_exp m.diamctx_type then put_data k q n else n), q, d))
      else (
        true,
        put_data k p (record m {
          package_type = p.rest.package_type;
          local_tid = p.core.tid_local;
          remote_tid = p.core.tid_remote;
        }),
        p,
        c,
      )

  -- The switch on the type of the DiamCtx.
  unfoldable pub construct_by_type : DiamctxType → Bool → DiamCtx → Us → Contexts → Built
  unfolding construct_diam construct_gdi
  construct_by_type diam repterr m p c = construct_diam repterr m p c
  construct_by_type gdi repterr m p c = construct_gdi repterr m p c
  construct_by_type gdi_int_str repterr m p c = construct_gdi repterr m p c
  construct_by_type tg_exp repterr m p c = construct_gdi repterr m p c
  construct_by_type _ repterr m p c = construct_fail m p (count dc_invalid c)

  -- qmsg_diamctx_construct of a session on a list.
  unfoldable pub construct_us : Bool → ℕ → DiamCtx → Us → Contexts → Built
  unfolding construct_by_type end_after
  construct_us repterr i m p c = end_after k i (construct_by_type m.diamctx_type repterr m p c)

  -- qmsg_diamctx_construct of a session with this head.
  unfoldable pub construct_listed :
      Option ℕ → Bool → ℕ → DiamCtx → Contexts → Bool × Option DiamCtx × Contexts
  unfolding construct_us store_built begin_alone
  construct_listed none repterr i m c =
      alone (begin_alone k f m (record c { ccdb = us_list_null c.ccdb }))
  construct_listed (some _) repterr i m c = store_built i (construct_us repterr i m (us_at i c) c)

  -- qmsg_diamctx_construct: what it returns, the message and the memory.
  unfoldable pub qmsg_diamctx_construct :
      Option DiamCtx → Option ℕ → Bool → Contexts → Bool × Option DiamCtx × Contexts
  unfolding construct_listed begin_alone
  qmsg_diamctx_construct none p repterr c =
      (false, none, count qmsg_diamctx_construct_fail (count dc_null c))
  qmsg_diamctx_construct (some m) none repterr c =
      alone (begin_alone k f m (record c { ccdb = us_null c.ccdb }))
  qmsg_diamctx_construct (some m) (some i) repterr c =
      construct_listed (c.ccdb.session i).head repterr i m c
