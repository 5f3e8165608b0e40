-- ===== src/Dsm/Context/Request.antt =====
-- What a session keeps of the Diameter request that user_session_save has saved in it.
use code_snippets.Prelude.Int.{ℤ}
use code_snippets.Dsm.Ccdb.Session.{asm_id_of}
use code_snippets.Dsm.Fsm.{AppSm, ccas}
use code_snippets.Dsm.Context.Save.{Saved, is_initial, go_on, trap_us}
use code_snippets.Dsm.Context.Diam.{
  with_tid, with_peer, identified, start_state, assign_tid, save_type, start_asm, save_avps,
  save_tid, save_package, save_new, save_diam, save_each, save_rest,
}
use code_snippets.Dsm.Context.Copied.{copy_proxies-AreSame, AreSame}
use code_snippets.Dsm.Context.{Proxies, Contexts, Conf, Us, Codes, DiamCtx}
use code_snippets.Prelude.{
  ◌⊎◌, if◌then◌else◌, ap, Option, List, ◌∙◌, ◌≡◌, ℕ, true, refl, inr, inl, false, arith, Bool-cases,
}

-- The identifiers, AVPs and proxies of a request, in the session's names.
pub record Avps : Type 0 where
  pub version : ℤ
  pub hop_by_hop : ℕ
  pub end_to_end : ℕ
  pub app_id : ℕ
  pub auth_app_id : ℕ
  pub cc_request_number : ℕ
  pub sub_id_type : ℤ
  pub sub_id : List ℤ
  pub remote_host : ℤ
  pub remote_realm : ℤ
  pub remote_state : ℕ
  pub proxies : Proxies

abbrev pub avps_of : Us → Avps
avps_of p = record {
  version = p.rest.version;
  hop_by_hop = p.rest.hop_by_hop;
  end_to_end = p.rest.end_to_end;
  app_id = p.core.app_id;
  auth_app_id = p.rest.auth_app_id;
  cc_request_number = p.rest.cc_request_number;
  sub_id_type = p.rest.sub_id_type;
  sub_id = p.core.sub_id;
  remote_host = p.rest.remote_host;
  remote_realm = p.rest.remote_realm;
  remote_state = p.rest.remote_state;
  proxies = p.rest.proxies;
}

-- They are those of the request `m`.
pub record AreOf (m : DiamCtx) (v : Avps) : Type 0 where
  pub version : v.version ≡ m.version
  pub hop_by_hop : v.hop_by_hop ≡ m.hop_by_hop_id
  pub end_to_end : v.end_to_end ≡ m.end_to_end_id
  pub app_id : v.app_id ≡ m.appl_id
  pub auth_app_id : v.auth_app_id ≡ m.auth_app_id
  pub cc_request_number : v.cc_request_number ≡ m.cc_request_number
  pub sub_id_type : v.sub_id_type ≡ m.sub_id_type
  pub sub_id : v.sub_id ≡ m.sub_id
  pub remote_host : v.remote_host ≡ m.origin_host
  pub remote_realm : v.remote_realm ≡ m.origin_realm
  pub remote_state : v.remote_state ≡ m.origin_state_id
  pub proxies : AreSame m.proxies v.proxies

abbrev pub Holds : DiamCtx → Us → Type 0
Holds m p = AreOf m (avps_of p)

-- The list and the Session-Id.
abbrev pub ident_of : Us → Option ℕ × List ℤ × ℤ
ident_of p = (p.core.head, p.core.session_id, p.core.session_id_len)

-- What the last of two steps establishes where it succeeds.
go_on-done {ℓ} :
    (P : Us → Type ℓ) (s : Saved) (next : Us → Contexts → Saved)
    → ((q : Us) (d : Contexts) → (next q d).0 ≡ true → P (next q d).1)
    → (go_on s next).0 ≡ true
    → P (go_on s next).1
go_on-done P (true, p, c) next h e = h p c e
go_on-done P (false, p, c) next h e = absurd (ground arith)

-- What two steps keep.
pub go_on-keeps {ℓ} :
    (P : Us → Type ℓ) (s : Saved) (next : Us → Contexts → Saved)
    → P s.1
    → ((q : Us) (d : Contexts) → P q → P (next q d).1)
    → P (go_on s next).1
go_on-keeps P (true, p, c) next h n = n p c h
go_on-keeps P (false, p, c) next h n = h

module _ (k : Codes) (f : Conf) (i : ℕ) (m : DiamCtx) where
  save_rest-Holds : (p : Us) (c : Contexts) → Holds m (save_rest k f i m p c).1
  unfolding save_rest save_avps trap_us
  save_rest-Holds p c = record {
    version = refl;
    hop_by_hop = refl;
    end_to_end = refl;
    app_id = refl;
    auth_app_id = refl;
    cc_request_number = refl;
    sub_id_type = refl;
    sub_id = refl;
    remote_host = refl;
    remote_realm = refl;
    remote_state = refl;
    proxies = copy_proxies-AreSame m.proxies p.rest.proxies;
  }

  save_each-Holds :
      (p : Us) (c : Contexts) → (save_each k f i m p c).0 ≡ true → Holds m (save_each k f i m p c).1
  unfolding save_each
  save_each-Holds p c =
      go_on-done (Holds m) (save_package k f m p c)
        (λ q d. go_on (save_tid k f i q d) (λ r e. save_rest k f i m r e))
        (λ q d.
          go_on-done (Holds m) (save_tid k f i q d) (λ r e. save_rest k f i m r e)
            (λ r e _. save_rest-Holds r e))

  pub save_diam-Holds :
      (p : Us) (c : Contexts) → (save_diam k f i m p c).0 ≡ true → Holds m (save_diam k f i m p c).1
  unfolding save_diam
  save_diam-Holds p c h = elim (Bool-cases f.ready) [
    | inr e ↦ absurd (let no = rw e at h in ground arith)
    | inl e ↦ elim (Bool-cases (is_initial k m)) [
      | inl n ↦
          rw (e, n)
            (go_on-done (Holds m) (save_new k f m p c) (λ q d. save_each k f i m q d)
              (λ q d. save_each-Holds q d) (rw (e, n) at h))
      | inr n ↦ rw (e, n) (save_each-Holds p c (rw (e, n) at h))
    ]
  ]

  start_asm-ident : (a : AppSm) (p : Us) (c : Contexts) → ident_of (start_asm a p c).1 ≡ ident_of p
  unfolding start_asm start_state
  start_asm-ident AppSm.undef p c = refl
  start_asm-ident ccas p c = refl

  save_new-ident :
      (p : Us) (c : Contexts) → ident_of (save_new k f m p c).1 ≡ ident_of (identified f.time m p)
  unfolding save_new
  save_new-ident p c =
      let q : Us = identified f.time m p in
      let (a, e) = asm_id_of k.names q.core.head q.core.app_id c.ccdb in
      start_asm-ident a q (record c { ccdb = e })

  save_package-ident : (p : Us) (c : Contexts) → ident_of (save_package k f m p c).1 ≡ ident_of p
  unfolding save_package with_peer save_type
  save_package-ident p c = ground arith

  save_tid-ident : (p : Us) (c : Contexts) → ident_of (save_tid k f i p c).1 ≡ ident_of p
  unfolding save_tid assign_tid with_tid
  save_tid-ident p c = ground arith

  save_rest-ident : (p : Us) (c : Contexts) → ident_of (save_rest k f i m p c).1 ≡ ident_of p
  unfolding save_rest trap_us save_avps
  save_rest-ident p c = refl

  save_each-ident : (p : Us) (c : Contexts) → ident_of (save_each k f i m p c).1 ≡ ident_of p
  unfolding save_each
  save_each-ident p c =
      go_on-keeps (λ q. ident_of q ≡ ident_of p) (save_package k f m p c) _ (save_package-ident p c)
        (λ q d h.
          go_on-keeps (λ r. ident_of r ≡ ident_of p) (save_tid k f i q d) _ (save_tid-ident q d ∙ h)
            (λ r e g. save_rest-ident r e ∙ g))

  -- A new session gets the message's Session-Id, and another keeps its own.
  pub save_diam-ident :
      (p : Us) (c : Contexts)
      → f.ready ≡ true
      → ident_of (save_diam k f i m p c).1
        ≡ ident_of (if is_initial k m then identified f.time m p else p)
  unfolding save_diam
  save_diam-ident p c e = go (Bool-cases (is_initial k m))
    where
      go :
          (is_initial k m ≡ true) ⊎ (is_initial k m ≡ false)
          → ident_of (save_diam k f i m p c).1
            ≡ ident_of (if is_initial k m then identified f.time m p else p)
      go (inl n) =
          rw (e, n)
            (go_on-keeps (λ q. ident_of q ≡ ident_of (identified f.time m p)) (save_new k f m p c) _
              (save_new-ident p c) (λ q d h. save_each-ident q d ∙ h))
      go (inr n) = rw (e, n) (save_each-ident p c)

  pub save_diam-ready : (p : Us) (c : Contexts) → (save_diam k f i m p c).0 ≡ true → f.ready ≡ true
  unfolding save_diam
  save_diam-ready p c h = elim (Bool-cases f.ready) [
    | inl e ↦ e
    | inr e ↦ absurd (let no = rw e at h in ground arith)
  ]

  pub save_diam-head :
      (p : Us) (c : Contexts)
      → (save_diam k f i m p c).0 ≡ true
      → (save_diam k f i m p c).1.core.head ≡ p.core.head
  save_diam-head p c h = ap (λ x. x.0) (save_diam-ident p c (save_diam-ready p c h)) ∙ ground arith
