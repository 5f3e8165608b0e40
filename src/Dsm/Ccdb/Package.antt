-- ===== src/Dsm/Ccdb/Package.antt =====
-- The package types of set_package_type.
use mathlib.Core.Path.{subst}
use code_snippets.Dsm.Ccdb.Session.{
  package_of, package_fail, package_succ, set_package_type, package_of_answer, answer_of_type,
  package_of_request,
}
use code_snippets.Dsm.Ccdb.{Ccdb, UserSession, Names}
use code_snippets.Prelude.{
  sym, ◌≢◌, ◌≡◌, ◌==◌, ◌<◌, ◌&&◌, ℕ, true, some, refl, none, ltb, inr, inl, false, arith, Option,
  Bool-cases, Bool, ==_iff,
}
use Prim.Native.Nat.{bit_and}

-- A package type with the transaction ids that it needs, and the count of a success; or none, and
-- the count of a failure.
pub data Packaged (k : Names) (s : UserSession) (c : Ccdb) : ℕ × Ccdb → Type 0 where
  request :
      (c' : Ccdb)
      → s.tid_local ≡ 0
      → s.tid_remote ≡ 0
      → bit_and s.command_flags k.diam_cmd_flag_r ≢ 0
      → c' ≡ package_succ c
      → Packaged k s c (k.package_type_request, c')
  conversation :
      (c' : Ccdb)
      → 0 < s.tid_local
      → 0 < s.tid_remote
      → c' ≡ package_succ c
      → Packaged k s c (k.package_type_conv, c')
  refused : (c' : Ccdb) → c' ≡ package_fail c → Packaged k s c (k.package_type_undef, c')

ltb-true : {n : ℕ} → ltb 0 n ≡ true → 0 < n
ltb-true h = ground arith

both : {a b : Bool} → (a && b) ≡ true → (a ≡ true) × (b ≡ true)
both {a = true} h = (refl, h)
both {a = false} h = cc

of_request :
    (k : Names) (s : UserSession) (c : Ccdb)
    → bit_and s.command_flags k.diam_cmd_flag_r ≢ 0
    → Packaged k s c (package_of_request k s c)
unfolding package_of_request
of_request k s c flag = elim (Bool-cases (s.tid_local == 0 && s.tid_remote == 0)) [
  | inl e ↦ let (l, r) = both e in rw e (request _ ((==_iff _ _).0 l) ((==_iff _ _).0 r) flag refl)
  | inr e ↦ elim (Bool-cases (ltb 0 s.tid_local && ltb 0 s.tid_remote)) [
    | inl f ↦ let (l, r) = both f in rw (e, f) (conversation _ (ltb-true l) (ltb-true r) refl)
    | inr f ↦ rw (e, f) (refused _ refl)
  ]
]

of_type :
    (k : Names) (s : UserSession) (c : Ccdb) (o : Option ℕ)
    → 0 < s.tid_local
    → 0 < s.tid_remote
    → Packaged k s c (answer_of_type k o c)
unfolding answer_of_type
of_type k s c none l r = refused _ refl
of_type k s c (some t) l r = elim (Bool-cases (t == k.package_type_conv)) [
  | inl e ↦ rw e (conversation _ l r refl)
  | inr e ↦ rw e (refused _ refl)
]

of_answer : (k : Names) (s : UserSession) (c : Ccdb) → Packaged k s c (package_of_answer k s c)
unfolding package_of_answer
of_answer k s c = elim (Bool-cases (ltb 0 s.tid_local && ltb 0 s.tid_remote)) [
  | inl f ↦ let (l, r) = both f in rw f (of_type k s c _ (ltb-true l) (ltb-true r))
  | inr f ↦ rw f (refused _ refl)
]

of_session :
    (k : Names) (s : UserSession) (c : Ccdb) (j : ℕ) → Packaged k s c (package_of k (some j) s c)
unfolding package_of
of_session k s c j = elim (Bool-cases (bit_and s.command_flags k.diam_cmd_flag_r == 0)) [
  | inl e ↦ rw e (of_answer k s c)
  | inr e ↦ rw e (of_request k s c (nonzero e))
]
  where
    nonzero : {n : ℕ} → (n == 0) ≡ false → n ≢ 0
    nonzero h = ground arith

-- For a session on a list set_package_type gives a request type only to a request without
-- transaction ids, a conversation only to a session that has both, and otherwise none; it counts a
-- success for a type and a failure for none, and changes nothing else.
pub set_package_type-Packaged :
    (k : Names) (i j : ℕ) (c : Ccdb)
    → (c.session i).head ≡ some j
    → Packaged k (c.session i) c (set_package_type k (some i) c)
unfolding set_package_type
set_package_type-Packaged k i j c on =
    subst (λ h. Packaged k (c.session i) c (package_of k h (c.session i) c)) (sym on)
      (of_session k (c.session i) c j)
