-- ===== src/Dsm/Context/Gdi.antt =====
-- user_session_save of a GDI message, case DIAMCTX_GDI, and user_session_save itself.
use code_snippets.Dsm.Ccdb.Session.{us_null, us_list_null}
use code_snippets.Dsm.Timer.{update}
use code_snippets.Dsm.Context.Diam.{save_diam}
use code_snippets.Dsm.Context.Save.{
  is_command, is_dim_close, is_retransmission, closed, resaved, go_on, save_succ, save_fail, Saved,
  save_end, clear_tids, trap_us,
}
use code_snippets.Dsm.Context.Copy.{ms_of}
use code_snippets.Prelude.{◌||◌, ◌==◌, ℕ, true, some, none, if◌then◌else◌, false, Option, Bool}
use code_snippets.Dsm.Context.{
  us_at, dc_null, dc_invalid, dc_cc_invalid, dc_package_type_invalid, us_save_fail, DiamctxType,
  Contexts, Conf, Us, Codes, DiamCtx, count, diam, gdi,
}

-- The Diameter and GDI data of every GDI message.
unfoldable pub saved_gdi : ℕ → DiamCtx → Us → Us
saved_gdi local_state m p = record p {
  core = record p.core { command_code = m.command_code; command_flags = m.flags };
  rest = record p.rest {
    cc_request_type = m.cc_request_type;
    local_host = m.origin_host;
    local_realm = m.origin_realm;
    local_state = local_state;
    orig_sys_id = m.orig_sys_id;
    receiver_id = m.receiver_id;
    invoke_id = m.invoke_id;
  };
}

module _ (k : Codes) where
  -- GDI-CCA.
  unfoldable pub save_cca : DiamCtx → Us → Us
  unfolding ms_of
  save_cca m p =
      let q : Us = record p {
        rest = record p.rest { package_type = m.package_type; tcc_expiry = ms_of m.timer };
      } in
      if m.package_type == k.names.package_type_conv
      then record q { core = record q.core { tid_remote = m.remote_tid } }
      else if m.package_type == k.package_type_response
      then clear_tids q
      else q

  -- GDI-STA.
  unfoldable pub save_sta : DiamCtx → Us → Us
  save_sta m p =
      let q : Us = record p { rest = record p.rest { package_type = m.package_type } } in
      if m.package_type == k.package_type_response then clear_tids q else q

  -- GDI-ASR.
  unfoldable pub save_asr : DiamCtx → Us → Contexts → Saved
  save_asr m p c =
      let q : Us = record p { core = record p.core { package_type_asr = m.package_type } } in
      if m.package_type == k.names.package_type_request
      then (true, record q { rest = record q.rest { tid_remote_asr = m.remote_tid } }, c)
      else if m.package_type == k.names.package_type_conv
      then (
        true,
        record q {
          core = record q.core { tid_remote = m.remote_tid };
          rest = record q.rest { tid_remote_asr = 0 };
        },
        c,
      )
      else save_fail q (count dc_package_type_invalid c)

  -- GDI-RAR.
  unfoldable pub save_rar : DiamCtx → Us → Contexts → Saved
  save_rar m p c =
      let q : Us = record p { core = record p.core { package_type_rar = m.package_type } } in
      if m.package_type == k.names.package_type_request
      then (true, record q { rest = record q.rest { tid_remote_rar = m.remote_tid } }, c)
      else if m.package_type == k.names.package_type_conv
      then (
        true,
        record q {
          core = record q.core { tid_remote = m.remote_tid };
          rest = record q.rest { tid_remote_rar = 0 };
        },
        c,
      )
      else save_fail q (count dc_package_type_invalid c)

  -- The switch on the Command-Code.
  unfoldable pub save_command : DiamCtx → Us → Contexts → Saved
  unfolding save_cca save_sta save_asr save_rar
  save_command m p c =
      if m.command_code == k.diam_cmd_cca
      then (true, save_cca m p, c)
      else if m.command_code == k.diam_cmd_asr
      then save_asr m p c
      else if m.command_code == k.diam_cmd_rar
      then save_rar m p c
      else if m.command_code == k.diam_cmd_sta
      then (true, save_sta m p, c)
      else save_fail p (count dc_cc_invalid c)

  -- The end of the case.
  unfoldable pub end_gdi : ℕ → ℕ → DiamCtx → Us → Contexts → Saved
  unfolding trap_us saved_gdi
  end_gdi local_state i m p c =
      let (q, e) = trap_us i p c in save_succ (saved_gdi local_state m q) e

  unfoldable pub save_gdi : ℕ → ℕ → DiamCtx → Us → Contexts → Saved
  unfolding save_command end_gdi
  save_gdi local_state i m p c = go_on (save_command m p c) (λ q d. end_gdi local_state i m q d)

-- Store what a branch has made of session `i`.
unfoldable pub store : ℕ → Saved → Bool × Contexts
store i (done, p, c) = (
  done,
  record c {
    ccdb = record c.ccdb { session = update c.ccdb.session i p.core };
    rest = update c.rest i p.rest;
  },
)

module _ (k : Codes) (f : Conf) where
  -- The switch on the type of the DiamCtx.
  unfoldable pub save_by_type : DiamctxType → ℕ → DiamCtx → Us → Contexts → Saved
  unfolding save_diam save_gdi
  save_by_type diam i m p c = save_diam k f i m p c
  save_by_type gdi i m p c = save_gdi k f.local_state_id i m p c
  save_by_type _ i m p c = save_fail p (count dc_invalid c)

  -- user_session_save of a session on a list.
  unfoldable pub save_us : ℕ → DiamCtx → Us → Contexts → Saved
  unfolding save_end resaved closed save_by_type
  save_us i m p c =
      if is_retransmission k m p
      then save_end i (resaved m p) c
      else if m.package_type == k.package_type_abort || is_dim_close m.diamctx_type
      then save_end i (closed m p) c
      else if is_command k m.command_code
      then save_by_type m.diamctx_type i m p c
      else save_fail p (count dc_cc_invalid c)

  -- user_session_save of a session with this head.
  unfoldable pub save_listed : Option ℕ → ℕ → DiamCtx → Contexts → Bool × Contexts
  unfolding save_us store
  save_listed none i m c = (false, count us_save_fail (record c { ccdb = us_list_null c.ccdb }))
  save_listed (some _) i m c = store i (save_us i m (us_at i c) c)

  unfoldable pub user_session_save : Option DiamCtx → Option ℕ → Contexts → Bool × Contexts
  unfolding save_listed
  user_session_save none p c = (false, count us_save_fail (count dc_null c))
  user_session_save (some m) none c =
      (false, count us_save_fail (record c { ccdb = us_null c.ccdb }))
  user_session_save (some m) (some i) c = save_listed (c.ccdb.session i).head i m c
