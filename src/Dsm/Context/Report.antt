-- ===== src/Dsm/Context/Report.antt =====
-- The package type and the transaction ids that qmsg_diamctx_construct gives a DiamCtx.
use code_snippets.Dsm.Timer.{id_undef}
use code_snippets.Dsm.Ccdb.Tid.{set_tid_local}
use code_snippets.Dsm.Context.Save.{is_answer, set_peer_fe}
use code_snippets.Prelude.{◌==◌, ℕ, true, some, none, if◌then◌else◌, false, Option, Bool}
use code_snippets.Dsm.Context.{
  pkg_gdi_begin_xmit, us_package_type_invalid, qmsg_diamctx_construct_succ,
  qmsg_diamctx_construct_fail, Contexts, Conf, Us, Codes, DiamCtx, count,
}

-- What the branches of qmsg_diamctx_construct return; true is SUCCESS.
abbrev pub Built : Type 0
Built = Bool × DiamCtx × Us × Contexts

abbrev pub construct_fail : DiamCtx → Us → Contexts → Built
construct_fail m p c = (false, m, p, count qmsg_diamctx_construct_fail c)

module _ (k : Codes) (f : Conf) where
  -- set_tid_local (set_peer_fe (), ID_UNDEF)
  unfoldable pub new_tid : Contexts → ℕ × Contexts
  unfolding set_peer_fe set_tid_local
  new_tid c =
      let (peer, d) = set_peer_fe k f c in
      let (tid, t) = set_tid_local f.fe_number f.csi_number peer id_undef d.tids in
      (tid, record d { tids = t })

  -- Without a session, or for one on no list.
  unfoldable pub begin_alone : DiamCtx → Contexts → Bool × DiamCtx × Contexts
  unfolding new_tid
  begin_alone m c =
      let (tid, d) = new_tid c in
      (
        true,
        record m { package_type = k.names.package_type_request; local_tid = tid; remote_tid = 0 },
        count qmsg_diamctx_construct_succ (count pkg_gdi_begin_xmit d),
      )

  -- The local TID for an error report.
  unfoldable pub report_local : DiamCtx → Us → Contexts → DiamCtx × Us × Contexts
  unfolding new_tid
  report_local m p c =
      let (tid, d) = new_tid c in
      if p.core.tid_local == 0
      then (record m { local_tid = tid }, record p { core = record p.core { tid_local = tid } }, d)
      else (record m { local_tid = p.core.tid_local }, p, c)

  -- An error report without a remote TID.
  unfoldable pub report_begin : DiamCtx → Us → Contexts → DiamCtx × Us × Contexts
  unfolding report_local
  report_begin m p c =
      let (n, q, d) =
        report_local (record m { package_type = k.names.package_type_request })
          (record p { rest = record p.rest { package_type = k.names.package_type_request } }) c in
      (record n { remote_tid = 0 }, record q { core = record q.core { tid_remote = 0 } }, d)

  -- An error report with a remote TID, up to the message's remote TID.
  unfoldable pub report_continue : DiamCtx → Us → Contexts → DiamCtx × Us × Contexts
  unfolding report_local
  report_continue m p c =
      report_local (record m { package_type = k.names.package_type_conv })
        (record p { rest = record p.rest { package_type = k.names.package_type_conv } }) c

  -- The package type and the remote TID of the GDI request that the command answers.
  abbrev pub request_of : ℕ → Us → ℕ × ℕ
  request_of command p =
      if command == k.names.diam_cmd_asa
      then (p.core.package_type_asr, p.rest.tid_remote_asr)
      else (p.core.package_type_rar, p.rest.tid_remote_rar)

  -- The remote TID for a Diameter message; `none` where the package type is invalid.
  unfoldable pub remote_of : ℕ → Us → Option ℕ
  remote_of command p =
      let (type, tid) = request_of command p in
      if is_answer k command
      then (if type == k.names.package_type_request
          then some tid
          else if type == k.names.package_type_conv
          then some p.core.tid_remote
          else none)
      else some p.core.tid_remote

  unfoldable pub set_remote : Option ℕ → DiamCtx → Us → Contexts → Built
  set_remote none m p c = construct_fail m p (count us_package_type_invalid c)
  set_remote (some tid) m p c = (true, record m { remote_tid = tid }, p, c)

  -- DIAMCTX_DIAM with flag_repterr.
  unfoldable pub report_diam : DiamCtx → Us → Contexts → Built
  unfolding report_begin report_continue remote_of set_remote
  report_diam m p c =
      if p.core.tid_remote == 0
      then (let (n, q, d) = report_begin m p c in (true, n, q, d))
      else (let (n, q, d) = report_continue m p c in set_remote (remote_of n.command_code q) n q d)

  -- DIAMCTX_DIAM without flag_repterr, up to the origin data.
  unfoldable pub tids_diam : DiamCtx → Us → Contexts → Built
  unfolding remote_of set_remote
  tids_diam m p c =
      set_remote (remote_of m.command_code p)
        (record m { package_type = p.rest.package_type; local_tid = p.core.tid_local }) p c

  -- The other types with flag_repterr.
  unfoldable pub report_gdi : DiamCtx → Us → Contexts → DiamCtx × Us × Contexts
  unfolding report_begin report_continue
  report_gdi m p c =
      if p.core.tid_remote == 0
      then report_begin m p c
      else (let (n, q, d) = report_continue m p c in
          (record n { remote_tid = q.core.tid_remote }, q, d))
