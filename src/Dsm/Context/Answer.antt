-- ===== src/Dsm/Context/Answer.antt =====
-- The answer to a Diameter request: user_session_save of the request, then of the GDI-CCA that
-- answers it, then qmsg_diamctx_construct of the Diameter answer.
use code_snippets.Dsm.Context.Report.{Built}
use mathlib.Core.Path.{subst}
use Prim.Native.Nat.{bit_and}
use code_snippets.Dsm.Context.Construct.{
  put_session_id, is_gdi, to_remote, construct_end, end_after, put_ends, put_avps, put_data,
  construct_gdi, construct_by_type, construct_us,
}
use code_snippets.Dsm.Context.Save.{trap_us}
use code_snippets.Dsm.Context.Request.{Holds}
use code_snippets.Dsm.Context.Copy.{sec_of, ms_of}
use code_snippets.Dsm.Context.Gdi.{save_command, save_gdi, saved_gdi, end_gdi, save_cca}
use code_snippets.Dsm.Context.Copied.{
  sec_of-ms_of, copy_proxies-AreSame, AreSame-trans, IsShort, AreSame,
}
use code_snippets.Prelude.{
  ◌∙◌, sym, ap, ◌==◌, true, refl, if◌then◌else◌, false, Bool, ◌≡◌, ℕ, arith,
}
use code_snippets.Dsm.Context.{Conf, Contexts, Us, Codes, DiamCtx, gdi}

-- What a session keeps of the GDI-CCA that has been saved in it.
pub record Answered (g : DiamCtx) (p : Us) : Type 0 where
  pub command_code : p.core.command_code ≡ g.command_code
  pub flags : p.core.command_flags ≡ g.flags
  pub cc_request_type : p.rest.cc_request_type ≡ g.cc_request_type
  pub package_type : p.rest.package_type ≡ g.package_type
  pub tcc_expiry : p.rest.tcc_expiry ≡ ms_of g.timer
  pub orig_sys_id : p.rest.orig_sys_id ≡ g.orig_sys_id
  pub receiver_id : p.rest.receiver_id ≡ g.receiver_id
  pub invoke_id : p.rest.invoke_id ≡ g.invoke_id

-- The answer `b` has the request's identifiers, AVPs and proxies, the command, package type, timer
-- and GDI data of the GDI-CCA `g`, and goes to where the request came from.
pub record Answers (m g b : DiamCtx) : Type 0 where
  pub version : b.version ≡ m.version
  pub hop_by_hop_id : b.hop_by_hop_id ≡ m.hop_by_hop_id
  pub end_to_end_id : b.end_to_end_id ≡ m.end_to_end_id
  pub appl_id : b.appl_id ≡ m.appl_id
  pub auth_app_id : b.auth_app_id ≡ m.auth_app_id
  pub cc_request_number : b.cc_request_number ≡ m.cc_request_number
  pub sub_id_type : b.sub_id_type ≡ m.sub_id_type
  pub sub_id : b.sub_id ≡ m.sub_id
  pub proxies : AreSame m.proxies b.proxies
  pub dest_host : b.dest_host ≡ m.origin_host
  pub dest_realm : b.dest_realm ≡ m.origin_realm
  pub dest_state_id : b.dest_state_id ≡ m.origin_state_id
  pub command_code : b.command_code ≡ g.command_code
  pub flags : b.flags ≡ g.flags
  pub cc_request_type : b.cc_request_type ≡ g.cc_request_type
  pub package_type : b.package_type ≡ g.package_type
  pub timer : b.timer ≡ g.timer
  pub orig_sys_id : b.orig_sys_id ≡ g.orig_sys_id
  pub receiver_id : b.receiver_id ≡ g.receiver_id
  pub invoke_id : b.invoke_id ≡ g.invoke_id

module _ (k : Codes) (m g : DiamCtx) where
  Holds-if : (t : Bool) (p q : Us) → Holds m p → Holds m q → Holds m (if t then p else q)
  Holds-if true p q h l = h
  Holds-if false p q h l = l

  save_cca-Holds : (p : Us) → Holds m p → Holds m (save_cca k g p)
  unfolding save_cca
  save_cca-Holds p h =
      Holds-if (g.package_type == k.names.package_type_conv) _ _ h
        (Holds-if (g.package_type == k.package_type_response) _ _ h h)

  save_cca-head : (p : Us) → (save_cca k g p).core.head ≡ p.core.head
  unfolding save_cca
  save_cca-head p = ground arith

  save_cca-kept :
      (p : Us)
      → ((save_cca k g p).rest.package_type ≡ g.package_type)
        × ((save_cca k g p).rest.tcc_expiry ≡ ms_of g.timer)
  unfolding save_cca
  save_cca-kept p = ground arith

  -- user_session_save of a GDI-CCA succeeds, keeps the request's data and saves its own.
  pub save_gdi-Answered :
      (s i : ℕ) (p : Us) (c : Contexts)
      → (g.command_code == k.diam_cmd_cca) ≡ true
      → Holds m p
      → let (done, q, d) = save_gdi k s i g p c in
        (done ≡ true) × (q.core.head ≡ p.core.head) × Holds m q × Answered g q
  unfolding save_gdi save_command end_gdi saved_gdi trap_us
  save_gdi-Answered s i p c e h =
      let (a, b) = save_cca-kept p in
      rw e (
        refl,
        save_cca-head p,
        save_cca-Holds p h,
        record {
          command_code = refl;
          flags = refl;
          cc_request_type = refl;
          package_type = a;
          tcc_expiry = b;
          orig_sys_id = refl;
          receiver_id = refl;
          invoke_id = refl;
        },
      )

-- qmsg_diamctx_construct of a Diameter answer, without an error report.
module _ (k : Codes) (f : Conf) (i : ℕ) (a : DiamCtx) (p : Us) (c : Contexts) where
  put_data-answer :
      (x : DiamCtx)
      → x.diamctx_type ≡ gdi
      → bit_and p.core.command_flags k.names.diam_cmd_flag_r ≡ 0
      → put_data k p x ≡ to_remote p (put_avps p x)
  unfolding put_data put_ends
  put_data-answer x t r =
      ap (λ u. put_ends k u p (put_avps p (if is_gdi u then x else put_session_id p x))) t
      ∙ rw r refl

  -- The message with the session's package type and transaction ids.
  abbrev with_tids : DiamCtx
  with_tids = record a {
    package_type = p.rest.package_type;
    local_tid = p.core.tid_local;
    remote_tid = p.core.tid_remote;
  }

  construct_us-answer :
      a.diamctx_type ≡ gdi
      → a.no_diam ≡ false
      → bit_and p.core.command_flags k.names.diam_cmd_flag_r ≡ 0
      → construct_us k f false i a p c ≡ construct_end k i (to_remote p (put_avps p with_tids)) p c
  unfolding construct_us construct_by_type construct_gdi end_after
  construct_us-answer t n r =
      ap (λ u. end_after k i (construct_by_type k f u false a p c)) t
      ∙ ap
          (λ b. end_after k i (if b then (true, a, p, c) else (true, put_data k p with_tids, p, c)))
          n
      ∙ ap (λ x. construct_end k i x p c) (put_data-answer with_tids t r)

  pub construct_us-Answers :
      (m g : DiamCtx)
      → a.diamctx_type ≡ gdi
      → a.no_diam ≡ false
      → bit_and g.flags k.names.diam_cmd_flag_r ≡ 0
      → IsShort g.timer
      → Holds m p
      → Answered g p
      → let (done, b, q, d) = construct_us k f false i a p c in (done ≡ true) × Answers m g b
  unfolding put_avps construct_end trap_us
  construct_us-Answers m g t n r z h l =
      subst (λ (x : Built). (x.0 ≡ true) × Answers m g x.1)
        (sym (construct_us-answer t n (ap (λ x. bit_and x k.names.diam_cmd_flag_r) l.flags ∙ r)))
        (
          refl,
          record {
            version = h.version;
            hop_by_hop_id = h.hop_by_hop;
            end_to_end_id = h.end_to_end;
            appl_id = h.app_id;
            auth_app_id = h.auth_app_id;
            cc_request_number = h.cc_request_number;
            sub_id_type = h.sub_id_type;
            sub_id = h.sub_id;
            proxies =
                AreSame-trans m.proxies p.rest.proxies _ h.proxies
                  (copy_proxies-AreSame p.rest.proxies a.proxies);
            dest_host = h.remote_host;
            dest_realm = h.remote_realm;
            dest_state_id = h.remote_state;
            command_code = l.command_code;
            flags = l.flags;
            cc_request_type = l.cc_request_type;
            package_type = l.package_type;
            timer = ap sec_of l.tcc_expiry ∙ sec_of-ms_of g.timer z;
            orig_sys_id = l.orig_sys_id;
            receiver_id = l.receiver_id;
            invoke_id = l.invoke_id;
          },
        )
