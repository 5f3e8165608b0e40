-- ===== src/Dsm/Ccdb/Tests.antt =====
-- The theorems on a database of two sessions.
use code_snippets.Dsm.Ccdb.States.{check_asm_state-set_asm_state}
use code_snippets.Dsm.Ccdb.Tids.{set_tid_local-IsOther, IsOther, set_tid_local-session}
use code_snippets.Dsm.Ccdb.Tid.{set_tid_local, us_id_of, Tids}
use code_snippets.Dsm.Ccdb.Session.{set_asm_state, check_asm_state, user_session_hash, count}
use code_snippets.Dsm.Ccdb.Lookup.{user_session_get, is_session}
use code_snippets.Dsm.Ccdb.Find.{
  user_session_get-First, user_session_get-user_session_hash, Looked, HashedAndLooked, First,
}
use code_snippets.Dsm.Ccdb.{user_session_id_valid, Ccdb, UserSession, Meas, Names}
use code_snippets.Dsm.Fsm.{rx_qmsg_up_cp, proc_req, ccas, State}
use code_snippets.Prelude.Int.{ℤ, pos, negsuc}
use code_snippets.Prelude.{
  ◌≢◌, ◌≡◌, ◌∷◌, ◌^◌, ◌==◌, ◌+◌, ◌*◌, ℕ, some, refl, none, if◌then◌else◌, false, arith, [], List,
}

abbrev names : Names
names = record {
  diam_cmd_flag_r = 128;
  diam_cmd_asa = 274;
  diam_cmd_raa = 258;
  package_type_undef = 0;
  package_type_request = 1;
  package_type_conv = 3;
  app_id_cca = 4;
  max_sz_octetstring = 256;
}

abbrev no_counts : Meas
no_counts = record {
  us_null = 0;
  us_list_null = 0;
  us_list_invalid = 0;
  us_trap = 0;
  set_package_type_fail = 0;
  set_package_type_succ = 0;
  set_asm_id_app_id_invalid = 0;
  set_asm_id_fail = 0;
  set_asm_id_succ = 0;
  set_asm_state_fail = 0;
  set_asm_state_succ = 0;
  check_asm_state_fail = 0;
  check_asm_state_succ = 0;
  us_hash_sid_null = 0;
  us_hash_sid_invalid = 0;
  us_hash_fail = 0;
  us_hash_succ = 0;
  us_get_sid_null = 0;
  us_get_sid_invalid = 0;
  us_get_fail = 0;
  us_get_succ = 0;
  fsm = record { asm_event_invalid = 0; asm_invalid = 0 };
}

-- Session 1 is on no list although its slot lists it.
abbrev sessions : ℕ → UserSession
sessions i = record {
  head = if i == 1 then none else some 9;
  asm_id = ccas;
  asm_state = proc_req;
  command_code = 272;
  command_flags = 192;
  app_id = 4;
  session_id = pos 97 ∷ pos i ∷ [];
  session_id_len = pos 2;
  sub_id = [];
  package_type_asr = 0;
  package_type_rar = 0;
  tid_local = 0;
  tid_remote = 0;
}

abbrev slots : ℕ → List ℕ
slots i = if i == 9 then 2 ∷ 1 ∷ [] else []

abbrev db : Ccdb
db = record {
  trap = record { time_start = 0; sub_id = []; us = none };
  bucket = slots;
  session = sessions;
  meas = no_counts;
}

abbrev first_sid : List ℤ
first_sid = pos 97 ∷ pos 1 ∷ []

user_session_get-First_example :
    First
      (λ q. is_session first_sid (pos 2) (sessions q))
      (2 ∷ 1 ∷ [])
      (user_session_get names (some first_sid) (pos 2) (pos 9) db).0
    × Looked 9
        (user_session_get names (some first_sid) (pos 2) (pos 9) db).0
        (count db (record no_counts { us_get_succ = 1 }))
        (user_session_get names (some first_sid) (pos 2) (pos 9) db).1
user_session_get-First_example =
    user_session_get-First names first_sid (pos 2) 9 db (omega arith) (omega arith) (omega arith)

user_session_get-user_session_hash_example :
    HashedAndLooked names
      (pos 2)
      db
      (user_session_hash names (some first_sid) (pos 2) db).0
      (user_session_get names
        (some first_sid)
        (pos 2)
        (user_session_hash names (some first_sid) (pos 2) db).0
        (user_session_hash names (some first_sid) (pos 2) db).1).0
      (user_session_get names
        (some first_sid)
        (pos 2)
        (user_session_hash names (some first_sid) (pos 2) db).0
        (user_session_hash names (some first_sid) (pos 2) db).1).1
user_session_get-user_session_hash_example =
    user_session_get-user_session_hash names first_sid (pos 2) db

proc_req_known : proc_req ≢ State.undef
proc_req_known = ground arith

abbrev tids : Tids
tids = record {
  non_us_id = 8388607;
  conf_get_fe_number_fail = 0;
  conf_get_csi_number_fail = 0;
  peer_fe_invalid = 0;
  set_tid_local_fail = 0;
  set_tid_local_succ = 0;
}

set_tid_local-session_example :
    (us_id_of (set_tid_local (pos 3) (pos 1) (pos 4) 77 tids).0 ≡ 77)
    × ((set_tid_local (pos 3) (pos 1) (pos 4) 77 tids).0
        ≡ 3 * 2 ^ 28 + 4 * 2 ^ 24 + 1 * 2 ^ 23 + 77)
    × ((set_tid_local (pos 3) (pos 1) (pos 4) 77 tids).1 ≡ record tids { set_tid_local_succ = 1 })
set_tid_local-session_example =
    set_tid_local-session 3 4 1 77 tids (omega arith) (omega arith) (omega arith) (omega arith)
      (omega arith) refl

set_tid_local-IsOther_example :
    (us_id_of (set_tid_local (pos 3) (negsuc 0) (pos 4) 0 tids).0 ≡ 8388607)
    × (user_session_id_valid (us_id_of (set_tid_local (pos 3) (negsuc 0) (pos 4) 0 tids).0) ≡ false)
    × ((set_tid_local (pos 3) (negsuc 0) (pos 4) 0 tids).1.set_tid_local_succ ≡ 1)
    × IsOther (set_tid_local (pos 3) (negsuc 0) (pos 4) 0 tids).1.non_us_id
    × ((set_tid_local (pos 3) (negsuc 0) (pos 4) 0 tids).1.non_us_id ≢ 8388607)
set_tid_local-IsOther_example =
    set_tid_local-IsOther (pos 3) (negsuc 0) (pos 4) 0 tids (omega arith) (omega arith)
      (omega arith) refl (omega arith, omega arith)

check_asm_state-set_asm_state_example :
    let (ok, c') = check_asm_state (some 2) rx_qmsg_up_cp db in
    let (s, _) = set_asm_state (some 2) rx_qmsg_up_cp db in
    if ok
    then (s ≢ State.undef) × (c'.meas.check_asm_state_succ ≡ 1) × (c'.meas.fsm ≡ no_counts.fsm)
    else (s ≡ State.undef)
      × (c'.meas.check_asm_state_fail ≡ 1)
      × (c'.meas.fsm.asm_event_invalid ≡ 1)
check_asm_state-set_asm_state_example =
    check_asm_state-set_asm_state 2 9 rx_qmsg_up_cp db refl refl proc_req_known
