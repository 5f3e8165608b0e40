-- ===== src/Dsm/Context/UpdateCp.antt =====
-- process_update_cp of dsm_ccdb.c. A qmsg is its fields from the second on.
use code_snippets.Dsm.Context.Copy.{to_short}
use code_snippets.Dsm.Context.Add.{put_us}
use code_snippets.Dsm.Ccdb.Tid.{us_id_of}
use code_snippets.Dsm.Ccdb.{user_session_id_valid, Ccdb}
use code_snippets.Dsm.Ccdb.Session.{next_ste, us_list_null, check_asm_state, state_set}
use code_snippets.Prelude.Int.{ℤ, pos}
use code_snippets.Prelude.{◌==◌, ℕ, true, suc, some, none, if◌then◌else◌, false, Option, Bool}
use code_snippets.Dsm.Fsm.{stt, State, rx_qmsg_up_cp}
use code_snippets.Dsm.Context.{
  Conf, us_at, Ccdb, Us, Contexts, count, dc_tid_local_invalid, us_tid_local_invalid,
}
use code_snippets.Dsm.Context.{process_update_cp_fail, process_update_cp_succ}

abbrev pub update_cp_fail : Contexts → Contexts
update_cp_fail c = count process_update_cp_fail c

-- The previous state for a failure of set_asm_state.
abbrev pub or_previous : State → State → State
or_previous previous State.undef = previous
or_previous previous s = s

-- The session with what the message brings and set_asm_state has returned.
unfoldable pub with_cp : ℤ → ℤ → ℕ → State → Us → Us
with_cp cp npk_config now s p = record p {
  core = record p.core { asm_state = or_previous p.core.asm_state s };
  rest = record p.rest {
    cp = cp;
    npk_config = npk_config;
    ref_count = suc p.rest.ref_count;
    time_last = now;
  };
}

-- process_update_cp of session `i` from the update of its state on.
unfoldable pub update_cp_us : ℤ → ℤ → ℕ → ℕ → Us → Contexts → Contexts
unfolding with_cp state_set stt
update_cp_us cp npk_config now i p c =
    let (s, e) = state_set p.core.head (next_ste p.core rx_qmsg_up_cp c.ccdb) c.ccdb in
    count process_update_cp_succ (put_us i (with_cp cp npk_config now s p) (record c { ccdb = e }))

-- process_update_cp with what check_asm_state has returned.
unfoldable pub update_cp_checked : ℤ → ℤ → ℕ → ℕ → Bool × Ccdb → Contexts → Contexts
unfolding update_cp_us
update_cp_checked cp npk_config now i (false, e) c = update_cp_fail (record c { ccdb = e })
update_cp_checked cp npk_config now i (true, e) c =
    let d : Contexts = record c { ccdb = e } in update_cp_us cp npk_config now i (us_at i d) d

-- process_update_cp of a session with this head.
unfoldable pub update_cp_listed : ℤ → ℤ → ℕ → Option ℕ → ℕ → ℕ → Contexts → Contexts
unfolding update_cp_checked check_asm_state
update_cp_listed cp npk_config now none i tid c =
    update_cp_fail (record c { ccdb = us_list_null c.ccdb })
update_cp_listed cp npk_config now (some _) i tid c =
    if (c.ccdb.session i).tid_local == tid
    then update_cp_checked cp npk_config now i (check_asm_state (some i) rx_qmsg_up_cp c.ccdb) c
    else update_cp_fail (count us_tid_local_invalid c)

-- process_update_cp of the local TID, the CP and the N+K configuration of a qmsg.
unfoldable pub process_update_cp : Conf → ℕ → ℕ → ℕ → Contexts → Contexts
unfolding update_cp_listed us_id_of
process_update_cp f tid cp npk_config c =
    let i = us_id_of tid in
    if user_session_id_valid i
    then update_cp_listed (to_short (pos cp)) (to_short (pos npk_config)) f.time
        (c.ccdb.session i).head i tid c
    else update_cp_fail (count dc_tid_local_invalid c)
