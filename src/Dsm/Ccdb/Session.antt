-- ===== src/Dsm/Ccdb/Session.antt =====
-- Functions of dsm_ccdb.c on a user session: its hash index, its package type, its state machine.
use code_snippets.Dsm.Hash.{hash_rs}
use code_snippets.Dsm.Ccdb.{State, user_session_mask, AppSm, Meas, UserSession, Names, Ccdb}
use code_snippets.Dsm.Fsm.{Ste, ccas, AppSm, Event, Action, stt}
use code_snippets.Prelude.Int.{neg_part, ℤ, pos_part, pos, negsuc}
use code_snippets.Prelude.{
  ◌∷◌, [], ◌||◌, ◌==◌, ◌-◌, ◌&&◌, ℕ, true, take, suc, some, none, ltb, if◌then◌else◌, false, Option,
  List, Bool,
}
use code_snippets.Dsm.Fsm
use Prim.Native.Nat.{bit_and}

abbrev pub count : Ccdb → Meas → Ccdb
count c m = record c { meas = m }

-- The counts of a null session pointer and of a session that is on no list.
abbrev pub us_null : Ccdb → Ccdb
us_null c = count c (record c.meas { us_null = suc c.meas.us_null })

abbrev pub us_list_null : Ccdb → Ccdb
us_list_null c = count c (record c.meas { us_list_null = suc c.meas.us_list_null })

abbrev pub package_fail : Ccdb → Ccdb
package_fail c =
    count c (record c.meas { set_package_type_fail = suc c.meas.set_package_type_fail })

abbrev pub package_succ : Ccdb → Ccdb
package_succ c =
    count c (record c.meas { set_package_type_succ = suc c.meas.set_package_type_succ })

module _ (k : Names) where
  -- set_package_type of a session with a Diameter request.
  unfoldable pub package_of_request : UserSession → Ccdb → ℕ × Ccdb
  package_of_request s c =
      if s.tid_local == 0 && s.tid_remote == 0
      then (k.package_type_request, package_succ c)
      else if ltb 0 s.tid_local && ltb 0 s.tid_remote
      then (k.package_type_conv, package_succ c)
      else (k.package_type_undef, package_fail c)

  -- The package type of the GDI request that the session's command answers, if it is one.
  abbrev pub package_type_req : UserSession → Option ℕ
  package_type_req s =
      if s.command_code == k.diam_cmd_asa
      then some s.package_type_asr
      else if s.command_code == k.diam_cmd_raa
      then some s.package_type_rar
      else none

  -- The package type that answers a GDI request of this type.
  unfoldable pub answer_of_type : Option ℕ → Ccdb → ℕ × Ccdb
  answer_of_type none c = (k.package_type_undef, package_fail c)
  answer_of_type (some r) c =
      if r == k.package_type_conv
      then (k.package_type_conv, package_succ c)
      else (k.package_type_undef, package_fail c)

  -- set_package_type of a session with a Diameter answer or error.
  unfoldable pub package_of_answer : UserSession → Ccdb → ℕ × Ccdb
  unfolding answer_of_type
  package_of_answer s c =
      if ltb 0 s.tid_local && ltb 0 s.tid_remote
      then answer_of_type (package_type_req s) c
      else (k.package_type_undef, package_fail c)

  -- set_package_type of a session with this head.
  unfoldable pub package_of : Option ℕ → UserSession → Ccdb → ℕ × Ccdb
  unfolding package_of_request package_of_answer
  package_of none s c = (k.package_type_undef, package_fail (us_list_null c))
  package_of (some _) s c =
      if bit_and s.command_flags k.diam_cmd_flag_r == 0
      then package_of_answer s c
      else package_of_request s c

  unfoldable pub set_package_type : Option ℕ → Ccdb → ℕ × Ccdb
  unfolding package_of
  set_package_type none c = (k.package_type_undef, package_fail (us_null c))
  set_package_type (some i) c = package_of (c.session i).head (c.session i) c

  abbrev pub asm_id_fail : Ccdb → Ccdb
  asm_id_fail c = count c (record c.meas { set_asm_id_fail = suc c.meas.set_asm_id_fail })

  -- set_asm_id of a session with this head and this Application-ID.
  unfoldable pub asm_id_of : Option ℕ → ℕ → Ccdb → AppSm × Ccdb
  asm_id_of none app_id c = (AppSm.undef, asm_id_fail (us_list_null c))
  asm_id_of (some _) app_id c =
      if app_id == k.app_id_cca
      then (ccas, count c (record c.meas { set_asm_id_succ = suc c.meas.set_asm_id_succ }))
      else (
        AppSm.undef,
        asm_id_fail (
            count c
              (record c.meas { set_asm_id_app_id_invalid = suc c.meas.set_asm_id_app_id_invalid })),
      )

  unfoldable pub set_asm_id : Option ℕ → Ccdb → AppSm × Ccdb
  unfolding asm_id_of
  set_asm_id none c = (AppSm.undef, asm_id_fail (us_null c))
  set_asm_id (some i) c = asm_id_of (c.session i).head (c.session i).app_id c

  -- The hash index of a session id, of which `none` is a null pointer; DSM_UNDEF is -1.
  unfoldable pub user_session_hash : Option (List ℤ) → ℤ → Ccdb → ℤ × Ccdb
  unfolding hash_rs
  user_session_hash none len c = (
    negsuc 0,
    count c (record c.meas {
      us_hash_sid_null = suc c.meas.us_hash_sid_null;
      us_hash_fail = suc c.meas.us_hash_fail;
    }),
  )
  user_session_hash (some session_id) len c =
      if pos_part len == 0 || ltb (k.max_sz_octetstring - 1) (pos_part len)
      then (
        negsuc 0,
        count c (record c.meas {
          us_hash_sid_invalid = suc c.meas.us_hash_sid_invalid;
          us_hash_fail = suc c.meas.us_hash_fail;
        }),
      )
      else (
        pos (bit_and (hash_rs (take (pos_part len) session_id)) user_session_mask),
        count c (record c.meas { us_hash_succ = suc c.meas.us_hash_succ }),
      )

-- The table's entry for an event in the session's state.
abbrev pub next_ste : UserSession → Event → Ccdb → Fsm.Meas × Ste
next_ste s e c = stt s.asm_id s.asm_state e c.meas.fsm

-- set_asm_state of a session with this head and this entry.
unfoldable pub state_set : Option ℕ → Fsm.Meas × Ste → Ccdb → State × Ccdb
state_set none _ c = (
  State.undef,
  count c (record c.meas {
    us_list_null = suc c.meas.us_list_null;
    set_asm_state_fail = suc c.meas.set_asm_state_fail;
  }),
)
state_set (some _) (m, t) c = (
  t.state,
  count c (record c.meas { fsm = m; set_asm_state_succ = suc c.meas.set_asm_state_succ }),
)

unfoldable pub set_asm_state : Option ℕ → Event → Ccdb → State × Ccdb
unfolding stt state_set
set_asm_state none e c = (
  State.undef,
  count c (record c.meas {
    us_null = suc c.meas.us_null;
    set_asm_state_fail = suc c.meas.set_asm_state_fail;
  }),
)
set_asm_state (some i) e c = state_set (c.session i).head (next_ste (c.session i) e c) c

-- Action numbers below 0 are ACTION_UNDEF alone; true is SUCCESS.
abbrev pub is_undef : Action → Bool
is_undef Action.undef = true
is_undef _ = false

-- check_asm_state of a session with this entry.
unfoldable pub checked : Fsm.Meas × Ste → Ccdb → Bool × Ccdb
checked (m, t) c =
    if is_undef t.action
    then (
      false,
      count c (record c.meas { fsm = m; check_asm_state_fail = suc c.meas.check_asm_state_fail }),
    )
    else (
      true,
      count c (record c.meas { fsm = m; check_asm_state_succ = suc c.meas.check_asm_state_succ }),
    )

unfoldable pub check_asm_state : Option ℕ → Event → Ccdb → Bool × Ccdb
unfolding stt checked
check_asm_state none e c = (
  false,
  count c (record c.meas {
    us_null = suc c.meas.us_null;
    check_asm_state_fail = suc c.meas.check_asm_state_fail;
  }),
)
check_asm_state (some i) e c = checked (next_ste (c.session i) e c) c

-- strcmp (a, b) == 0, over the chars before the terminator.
abbrev pub same_string : List ℤ → List ℤ → Bool
same_string [] [] = true
same_string (x ∷ xs) (y ∷ ys) =
    pos_part x == pos_part y && neg_part x == neg_part y && same_string xs ys
same_string _ _ = false

-- set_flags_trap of the session with this id, head and subscription id.
unfoldable pub trap_of : ℕ → Option ℕ → List ℤ → Ccdb → Bool × Ccdb
trap_of i none sub_id c = (false, us_list_null c)
trap_of i (some _) sub_id c =
    if c.trap.time_start == 0
    then (false, c)
    else if same_string sub_id c.trap.sub_id
    then (
      true,
      record c {
        trap = record c.trap { us = some i };
        meas = record c.meas { us_trap = suc c.meas.us_trap };
      },
    )
    else (false, c)

unfoldable pub set_flags_trap : Option ℕ → Ccdb → Bool × Ccdb
unfolding trap_of
set_flags_trap none c = (false, us_null c)
set_flags_trap (some i) c = trap_of i (c.session i).head (c.session i).sub_id c
