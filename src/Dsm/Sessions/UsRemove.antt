-- ===== src/Dsm/Sessions/UsRemove.antt =====
-- process_us_remove of dsm_ccdb.c. A message is its local TID.
use code_snippets.Dsm.Sessions.Ops.{held, user_session_remove}
use code_snippets.Dsm.Ccdb.Tid.{us_id_of}
use code_snippets.Dsm.Timer.Ops.{callout_unset}
use code_snippets.Dsm.Timer.{bind, update, Pool, ok, Wheel, Run}
use code_snippets.Prelude.{◌==◌, ℕ, suc, some, none, if◌then◌else◌, Option}
use code_snippets.Dsm.Sessions.{
  Pool, Wheel, count, us_list_null, dc_null, dc_tid_local_invalid, us_tid_local_invalid,
}
use code_snippets.Dsm.Sessions.{
  msg_us_remove_rcvd, process_us_remove_fail, process_us_remove_succ, Db, System,
}
use code_snippets.Dsm.Ccdb.{user_session_id_valid}

module _ (E : System) where
  abbrev pub us_remove_fail : Db E → Run (Db E)
  us_remove_fail d = ok (count process_us_remove_fail d)

  -- The session's stats, with Tg's id.
  abbrev pub touched : ℕ → ℕ → Wheel (Pool.State E.callouts) → Db E → Db E
  touched tg_id s w d =
      let (now, world) = E.time d.world in
      let p = d.session s in
      record d {
        wheel = w;
        world = world;
        session =
            update d.session s
              (record p { tg_id = tg_id; ref_count = suc p.ref_count; time_last = now });
      }

  -- The end of process_us_remove: cancel Tg, update the stats and remove the session.
  unfoldable pub us_remove_valid : ℕ → ℕ → Db E → Run (Db E)
  unfolding callout_unset user_session_remove
  us_remove_valid fuel s d =
      bind (callout_unset E.callouts (some (d.session s).tg_id) d.wheel) (λ (p, w).
        bind (user_session_remove E fuel (some (some s)) (touched (held E p) s w d))
          (λ (_, e). ok (count process_us_remove_succ e)))

  -- process_us_remove of a session with this head.
  unfoldable pub us_remove_listed : ℕ → Option ℕ → ℕ → ℕ → Db E → Run (Db E)
  unfolding us_remove_valid
  us_remove_listed fuel none s tid d = us_remove_fail (count us_list_null d)
  us_remove_listed fuel (some _) s tid d =
      if (d.session s).tid_local == tid
      then us_remove_valid fuel s d
      else us_remove_fail (count us_tid_local_invalid d)

  unfoldable pub process_us_remove : ℕ → Option ℕ → Db E → Run (Db E)
  unfolding us_remove_listed us_id_of
  process_us_remove fuel none d = us_remove_fail (count dc_null d)
  process_us_remove fuel (some tid) d =
      let s = us_id_of tid in
      let e : Db E = count msg_us_remove_rcvd d in
      if user_session_id_valid s
      then us_remove_listed fuel (e.session s).head s tid e
      else us_remove_fail (count dc_tid_local_invalid e)
