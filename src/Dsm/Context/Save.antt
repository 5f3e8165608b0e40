-- ===== src/Dsm/Context/Save.antt =====
-- set_peer_fe and user_session_save of dsm_ccdb.c. A function of one branch takes the session as its
-- struct, and returns it with true for SUCCESS.
use code_snippets.Dsm.Timer.{callout_id_valid}
use Prim.Native.Nat.{bit_and}
use code_snippets.Dsm.Context.Copy.{copy_proxies}
use code_snippets.Dsm.Ccdb.Session.{trap_of}
use code_snippets.Dsm.Context.{
  gdi_dim_close, set_peer_fe_succ, api_conf_get_associate_fail, us_save_succ, us_save_fail,
  set_peer_fe_fail, count, DiamctxType, DiamCtx, Conf, Us, Codes, Contexts,
}
use code_snippets.Prelude.Int.{neg_part, ℤ, pos_part}
use code_snippets.Prelude.{
  ◌||◌, ◌==◌, ◌&&◌, ℕ, true, suc, some, none, if◌then◌else◌, false, Option, Bool,
}

-- What conf_get_associate has returned.
unfoldable pub peer_of : ℤ → Option ℤ → Contexts → ℤ × Contexts
peer_of uninitialized none c =
    (uninitialized, count set_peer_fe_fail (count api_conf_get_associate_fail c))
peer_of uninitialized (some next) c = (next, count set_peer_fe_succ c)

module _ (k : Codes) (f : Conf) where
  unfoldable pub set_peer_fe : Contexts → ℤ × Contexts
  unfolding peer_of
  set_peer_fe c =
      if pos_part f.fe_number == 0
      then (
        k.uninitialized,
        count set_peer_fe_fail (record c {
          tids = record c.tids { conf_get_fe_number_fail = suc c.tids.conf_get_fe_number_fail };
        }),
      )
      else peer_of k.uninitialized (f.associate f.fe_number) c

-- What the branches of user_session_save return.
abbrev pub Saved : Type 0
Saved = Bool × Us × Contexts

abbrev pub save_fail : Us → Contexts → Saved
save_fail p c = (false, p, count us_save_fail c)

abbrev pub save_succ : Us → Contexts → Saved
save_succ p c = (true, p, count us_save_succ c)

-- Go on after a step that has not failed.
abbrev pub go_on : Saved → (Us → Contexts → Saved) → Saved
go_on (true, p, c) next = next p c
go_on (false, p, c) next = (false, p, c)

-- p->call_context.flags.trap = set_flags_trap (p)
unfoldable pub trap_us : ℕ → Us → Contexts → Us × Contexts
unfolding trap_of
trap_us i p c =
    let (trap, e) = trap_of i p.core.head p.core.sub_id c.ccdb in
    (record p { rest = record p.rest { trap = trap } }, record c { ccdb = e })

-- Trap the session and return SUCCESS.
unfoldable pub save_end : ℕ → Us → Contexts → Saved
unfolding trap_us
save_end i p c = let (q, e) = trap_us i p c in save_succ q e

-- a == b
abbrev pub same : ℤ → ℤ → Bool
same a b = pos_part a == pos_part b && neg_part a == neg_part b

abbrev pub is_dim_close : DiamctxType → Bool
is_dim_close gdi_dim_close = true
is_dim_close _ = false

abbrev pub clear_remote : Us → Us
clear_remote p = record p {
  core = record p.core { tid_remote = 0 };
  rest = record p.rest { tid_remote_asr = 0; tid_remote_rar = 0 };
}

abbrev pub clear_tids : Us → Us
clear_tids p = record (clear_remote p) { core = record p.core { tid_local = 0; tid_remote = 0 } }

-- The session after a retransmitted request.
unfoldable pub resaved : DiamCtx → Us → Us
unfolding copy_proxies
resaved m p = record p {
  rest = record p.rest {
    hop_by_hop = m.hop_by_hop_id;
    proxies = copy_proxies m.proxies p.rest.proxies;
  };
}

-- The session after a GDI-Abort or a GDI-Dim_Close message.
unfoldable pub closed : DiamCtx → Us → Us
closed m p =
    let q : Us =
      clear_remote (record p { rest = record p.rest { package_type = m.package_type } }) in
    if is_dim_close m.diamctx_type then record q { core = record q.core { tid_local = 0 } } else q

module _ (k : Codes) where
  -- The three tests of a request with the 'T' bit.
  abbrev pub is_retransmission : DiamCtx → Us → Bool
  is_retransmission m p =
      if bit_and m.flags k.diam_cmd_flag_t == 0
      then false
      else m.end_to_end_id == p.rest.end_to_end && callout_id_valid p.rest.tg_id

  abbrev pub is_command : ℕ → Bool
  is_command x =
      x == k.diam_cmd_ccr
      || x == k.names.diam_cmd_asa
      || x == k.names.diam_cmd_raa
      || x == k.diam_cmd_str

  abbrev pub is_initial : DiamCtx → Bool
  is_initial m =
      m.command_code == k.diam_cmd_ccr
      && (same m.cc_request_type k.initial_request || same m.cc_request_type k.event_request)

  abbrev pub is_answer : ℕ → Bool
  is_answer x = x == k.names.diam_cmd_asa || x == k.names.diam_cmd_raa
