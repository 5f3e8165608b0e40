-- ===== src/Dsm/Context/Samples.antt =====
-- A database of one session, a request and a GDI-CCA for the tests.
use code_snippets.Dsm.Fsm.{ccas, proc_req}
use code_snippets.Dsm.Context.Request.{Holds}
use code_snippets.Dsm.Ccdb.{Meas}
use code_snippets.Dsm.Context.{count, api_new_private_succ_us}
use code_snippets.Dsm.Context.Add.{put_head, Table, blank_us}
use code_snippets.Dsm.Context.Alone.{Fits}
use code_snippets.Prelude.Int.{pos, negsuc}
use code_snippets.Prelude.{
  ◌++◌, ℕ, Option, List, ◌∷◌, ◌==◌, true, some, refl, none, if◌then◌else◌, false, arith, [],
}
use code_snippets.Dsm.Context.{us_at, Contexts, DiamCtx, Conf, Codes, diam, gdi, gdi_dim_close}
use code_snippets.Dsm.Timer.{Pool}

abbrev pub codes : Codes
codes = record {
  names = record {
    diam_cmd_flag_r = 128;
    diam_cmd_asa = 274;
    diam_cmd_raa = 258;
    package_type_undef = 0;
    package_type_request = 1;
    package_type_conv = 3;
    app_id_cca = 4;
    max_sz_octetstring = 256;
  };
  diam_cmd_ccr = 272;
  diam_cmd_cca = 272;
  diam_cmd_asr = 274;
  diam_cmd_rar = 258;
  diam_cmd_str = 275;
  diam_cmd_sta = 275;
  diam_cmd_flag_t = 16;
  initial_request = pos 1;
  event_request = pos 4;
  package_type_response = 2;
  package_type_abort = 4;
  uninitialized = negsuc 0;
}

abbrev pub conf : Conf
conf = record {
  ready = true;
  fe_number = pos 1;
  csi_number = pos 0;
  associate = λ _. some (pos 2);
  local_state_id = 70;
  time = 1000;
}

pub conf-Fits : Fits codes conf
conf-Fits = record {
  fe = omega arith;
  csi = omega arith;
  peer = λ n p e. ground arith;
  uninitialized = omega arith;
}

-- A CCR of type INITIAL.
abbrev pub request : DiamCtx
request = record {
  diamctx_type = diam;
  no_diam = false;
  trap = false;
  cp = pos 0;
  npk_config = pos 0;
  package_type = 0;
  local_tid = 0;
  remote_tid = 0;
  orig_sys_id = pos 0;
  receiver_id = pos 0;
  invoke_id = pos 0;
  timer = pos 0;
  version = pos 1;
  command_code = 272;
  flags = 192;
  hop_by_hop_id = 11;
  end_to_end_id = 12;
  appl_id = 4;
  auth_app_id = 4;
  cc_request_type = pos 1;
  cc_request_number = 0;
  session_id_offset = pos 0;
  session_id_length = pos 2;
  buffer_data_off = pos 0;
  buffer_data_len = pos 2;
  buffer_sid = pos 65 ∷ pos 66 ∷ [];
  origin_host = pos 3;
  origin_realm = pos 4;
  origin_state_id = 5;
  dest_host = pos 6;
  dest_realm = pos 7;
  dest_state_id = 8;
  sub_id_type = pos 1;
  sub_id = pos 49 ∷ [];
  proxies = record { count = 1; host = λ _. pos 9; state_len = λ _. 2; states = λ _. pos 1 };
}

-- The GDI-CCA for it.
abbrev pub gdi_cca : DiamCtx
gdi_cca = record request {
  diamctx_type = gdi;
  package_type = 3;
  remote_tid = 99;
  flags = 64;
  timer = pos 30;
}

abbrev pub dim_close : DiamCtx
dim_close = record gdi_cca { diamctx_type = gdi_dim_close; package_type = 2; command_code = 0 }

abbrev pub no_counts : Meas
no_counts = record {
  us_null = 0;
  us_list_null = 0;
  us_list_invalid = 0;
  us_trap = 0;
  set_package_type_fail = 0;
  set_package_type_succ = 0;
  set_asm_id_app_id_invalid = 0;
  set_asm_id_fail = 0;
  set_asm_id_succ = 0;
  set_asm_state_fail = 0;
  set_asm_state_succ = 0;
  check_asm_state_fail = 0;
  check_asm_state_succ = 0;
  us_hash_sid_null = 0;
  us_hash_sid_invalid = 0;
  us_hash_fail = 0;
  us_hash_succ = 0;
  us_get_sid_null = 0;
  us_get_sid_invalid = 0;
  us_get_fail = 0;
  us_get_succ = 0;
  fsm = record { asm_event_invalid = 0; asm_invalid = 0 };
}

-- Session 1 has the state that user_session_init leaves, and is on list 5.
abbrev pub contexts : Contexts
contexts = record {
  ccdb = record {
    trap = record { time_start = 0; sub_id = []; us = none };
    bucket = λ i. if i == 5 then 1 ∷ [] else [];
    session = λ i. record (blank_us (negsuc 0)).core { head = if i == 1 then some 5 else none };
    meas = no_counts;
  };
  rest = λ i. (blank_us (negsuc 0)).rest;
  tg_expiry = pos 5000;
  tids = record {
    non_us_id = 262145;
    conf_get_fe_number_fail = 0;
    conf_get_csi_number_fail = 0;
    peer_fe_invalid = 0;
    set_tid_local_fail = 0;
    set_tid_local_succ = 0;
  };
  counted = [];
}

-- The session has the request, and Tg is pending.
abbrev pub held : Contexts
held = record contexts {
  ccdb = record contexts.ccdb {
    session = λ i. record (contexts.ccdb.session i) { app_id = 4; sub_id = request.sub_id };
  };
  rest = λ i. record (contexts.rest i) {
    tg_id = 1;
    version = pos 1;
    hop_by_hop = 11;
    end_to_end = 12;
    auth_app_id = 4;
    sub_id_type = pos 1;
    remote_host = pos 3;
    remote_realm = pos 4;
    remote_state = 5;
    proxies = request.proxies;
  };
}

pub held-Holds : Holds request (us_at 1 held)
held-Holds = record {
  version = refl;
  hop_by_hop = refl;
  end_to_end = refl;
  app_id = refl;
  auth_app_id = refl;
  cc_request_number = refl;
  sub_id_type = refl;
  sub_id = refl;
  remote_host = refl;
  remote_realm = refl;
  remote_state = refl;
  proxies = record {
    count = refl;
    host = λ i h. refl;
    state_len = λ i h. refl;
    states = λ i h. refl;
  };
}

-- The request with the 'T' bit.
abbrev pub again : DiamCtx
again = record request { flags = 208; hop_by_hop_id = 13 }

abbrev pub first : List ℕ → Option (ℕ × List ℕ)
first [] = none
first (x ∷ xs) = some (x, xs)

-- A pool that is a list of free ids.
abbrev pub ids : Pool
ids = record { State = List ℕ; new_private = first; delete_private = λ i xs. xs ++ i ∷ [] }

abbrev pub table : Table ids
table = record { contexts = contexts; by_time = 1 ∷ []; pool = 2 ∷ [] }

abbrev pub on_list : Contexts
on_list = put_head 2 7 (count api_new_private_succ_us contexts)

-- Session 1 is in processing of a request, with the local TID 1.
abbrev pub processing : Contexts
processing = record contexts {
  ccdb = record contexts.ccdb {
    session = λ i. record (contexts.ccdb.session i) {
      asm_id = ccas;
      asm_state = proc_req;
      tid_local = 1;
    };
  };
}
