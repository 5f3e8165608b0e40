-- ===== src/Dsm/Timer/Linked.antt =====
-- A callout that names a list is on it: the wheel that initialize_tdb makes is so, and callout_set
-- and callout_unset keep it so.
use code_snippets.Dsm.Timer.Ops.{
  slot_of, expiry_invalid, unlink, callout_unset, callout_set, set_clamped, set_new, list_invalid,
  insert_tail, release, set_in_slot,
}
use code_snippets.Dsm.Timer.Lists.{Distinct, Ends-map, ends, Ends, has-append, has}
use code_snippets.Dsm.Timer.Start.{initialize_tdb, init_lists, init_callouts}
use code_snippets.Dsm.Timer.{
  id_undef, update, Callout, callouttimer, callwheelsize, ok, user_session_size, blank, Pool,
  remove, callout_id_valid, Wheel,
}
use code_snippets.Prelude.Int.{pos_part, pos, negsuc, ℤ}
use code_snippets.Prelude.{
  false, ==_iff, ◌/◌, ◌%◌, sym, Option-cases, none, ltb, leb, Option, ◌≤◌, ◌≢◌, ◌≡◌, ◌∷◌, ◌∙◌, ◌==◌,
  ◌<◌, ℕ, zero, true, suc, some, refl, inr, inl, if◌then◌else◌, arith, ap, [], List, Bool-cases,
}

valid_range : (k : ℕ) → callout_id_valid k ≡ true → (0 < k) × (k ≤ user_session_size)
valid_range k h = ground arith

module _ {S : Type 0} where
  abbrev pub IsLinked : Wheel S → Type 0
  IsLinked w =
      (k i : ℕ)
      → callout_id_valid k ≡ true
      → (w.callout k).head ≡ some i
      → has k (w.bucket i) ≡ true

  init_callouts-blank :
      (n : ℕ) (w : Wheel S) (k : ℕ) → 0 < k → k ≤ n → (init_callouts n w).callout k ≡ blank
  unfolding init_callouts
  init_callouts-blank zero w k p h = absurd (omega arith)
  init_callouts-blank (suc n) w k p h = elim (Bool-cases (k == suc n)) [
    | inl e ↦ rw e refl
    | inr e ↦ rw e (init_callouts-blank n w k p (ground arith))
  ]

  -- What init_callouts and init_lists leave as it was.
  init_callouts-rest :
      (n : ℕ) (w : Wheel S)
      → ((init_callouts n w).bucket ≡ w.bucket)
        × ((init_callouts n w).index ≡ w.index)
        × ((init_callouts n w).pool ≡ w.pool)
  unfolding init_callouts
  init_callouts-rest zero w = (refl, refl, refl)
  init_callouts-rest (suc n) w = init_callouts-rest n w

  init_lists-empty :
      (n : ℕ) (w : Wheel S)
      → ((i : ℕ) → w.bucket i ≡ [])
      → ((i : ℕ) → (init_lists n w).bucket i ≡ [])
        × ((init_lists n w).index ≡ w.index)
        × ((init_lists n w).pool ≡ w.pool)
  unfolding init_lists
  init_lists-empty zero w h = (h, refl, refl)
  init_lists-empty (suc n) w h =
      let (a, b, c) = init_lists-empty n w h in
      (λ i. elim (Bool-cases (i == n)) [ inl e ↦ rw e refl | inr e ↦ rw e (a i) ], b, c)

  -- The wheel that initialize_tdb makes, from any: its index is 0, its lists are empty, the
  -- callouts with a valid id are blank, and its pool is the one that fep_create_private has made.
  pub record Fresh (s : S) (w : Wheel S) : Type 0 where
    pub index : w.index ≡ 0
    pub pool : w.pool ≡ s
    pub lists : (i : ℕ) → w.bucket i ≡ []
    pub callouts : (k : ℕ) → callout_id_valid k ≡ true → w.callout k ≡ blank

  initialize-Fresh :
      (s : S) (n m : ℕ) (w : Wheel S)
      → ((k : ℕ) → callout_id_valid k ≡ true → (0 < k) × (k ≤ n))
      → w.index ≡ 0
      → w.pool ≡ s
      → ((i : ℕ) → w.bucket i ≡ [])
      → Fresh s (init_callouts n (init_lists m w))
  initialize-Fresh s n m w v i p h =
      let (a, b, c) = init_lists-empty m w h in
      let (d, e, f) = init_callouts-rest n (init_lists m w) in
      record {
        index = e ∙ b ∙ i;
        pool = f ∙ c ∙ p;
        lists = λ j. ap (λ g. g j) d ∙ a j;
        callouts = λ k z. init_callouts-blank n (init_lists m w) k (v k z).0 (v k z).1;
      }

  pub initialize_tdb-Fresh : (s : S) (w : Wheel S) → Fresh s (initialize_tdb s w)
  unfolding initialize_tdb
  initialize_tdb-Fresh s w =
      initialize-Fresh s user_session_size callwheelsize
        (record w {
          index = 0;
          bucket = λ _. [];
          pool = s;
          meas = record w.meas { api_fep_create_private_co = suc w.meas.api_fep_create_private_co };
        })
        valid_range refl refl (λ i. refl)

  pub Fresh-IsLinked : (s : S) (w : Wheel S) → Fresh s w → IsLinked w
  Fresh-IsLinked s w f k i v h = let e = ap (λ c. c.head) (f.callouts k v) in ground arith

-- TAILQ_REMOVE of a member.
abbrev pub without : ℕ → List ℕ → List ℕ
without k [] = []
without k (x ∷ xs) = let rest = without k xs in if x == k then xs else x ∷ rest

pub remove-member : (k : ℕ) (xs : List ℕ) → has k xs ≡ true → remove k xs ≡ ok (without k xs)
unfolding remove
remove-member k [] h = ground arith
remove-member k (x ∷ xs) h = elim (Bool-cases (x == k)) [
  | inl e ↦ rw e refl
  | inr e ↦ let m : has k xs ≡ true = ground arith in rw (e, remove-member k xs m) refl
]

pub has-without : (j k : ℕ) (xs : List ℕ) → j ≢ k → has j (without k xs) ≡ has j xs
has-without j k [] n = refl
has-without j k (x ∷ xs) n = let e = has-without j k xs n in ground (arith, n)

module _ (P : Pool) where
  open P use {State, new_private}

  -- A callout that is blanked, and one that joins the end of a list.
  release-IsLinked : (k : ℕ) (w : Wheel State) → IsLinked w → IsLinked (release P k w)
  unfolding release
  release-IsLinked k w l j i v h = elim (Bool-cases (j == k)) [
    | inl e ↦ ground arith
    | inr e ↦ l j i v (ground arith)
  ]

  insert_tail-IsLinked :
      (k slot : ℕ) (w : Wheel State) → IsLinked w → IsLinked (insert_tail P k slot w)
  unfolding insert_tail
  insert_tail-IsLinked k slot w l j i v h =
      let a = has-append j (w.bucket slot) (k ∷ []) in
      elim (Bool-cases (j == k)) [
        | inl e ↦ ground arith
        | inr e ↦ let m = l j i v (ground arith) in ground arith
      ]

  set_in_slot-IsLinked :
      (slot : ℤ) (new : ℕ) (w : Wheel State) → IsLinked w → IsLinked (set_in_slot P slot new w).1
  unfolding set_in_slot
  set_in_slot-IsLinked (pos i) new w l = elim (Bool-cases (leb callwheelsize i)) [
    | inl e ↦ rw e (release-IsLinked new (list_invalid w) l)
    | inr e ↦ rw e (insert_tail-IsLinked new i w l)
  ]
  set_in_slot-IsLinked (negsuc i) new w l = release-IsLinked new (list_invalid w) l

  set_new-IsLinked :
      (func arg expiry new : ℕ) (w : Wheel State)
      → IsLinked w
      → IsLinked (set_new P func arg expiry new w).1
  unfolding set_new
  set_new-IsLinked func arg expiry new w l =
      let ticks = expiry / callouttimer in
      let c : Callout = record {
        head = (w.callout new).head;
        c_func = func;
        c_arg = arg;
        c_time = expiry;
        c_period = ticks / callwheelsize;
      } in
      let filled : Wheel State = record w {
        callout = update w.callout new c;
        meas = record w.meas { api_new_private_succ_co = suc w.meas.api_new_private_succ_co };
      } in
      let same : (k : ℕ) → (filled.callout k).head ≡ (w.callout k).head = λ k. ground arith in
      set_in_slot-IsLinked (slot_of w.index (ticks % callwheelsize)) new filled
        (λ k i v h. l k i v (sym (same k) ∙ h))

  set_clamped-IsLinked :
      (func arg expiry : ℕ) (w : Wheel State)
      → IsLinked w
      → IsLinked (set_clamped P func arg expiry w).1
  unfolding set_clamped
  set_clamped-IsLinked func arg expiry w l = elim (Option-cases (new_private w.pool)) [
    | inl e ↦ rw (set_clamped, e) l
    | inr r ↦
        rw (set_clamped, r.1) (set_new-IsLinked func arg expiry r.0.0 (record w { pool = r.0.1 }) l)
  ]

  -- callout_set of any expiry keeps every callout that names a list on it.
  pub callout_set-IsLinked :
      (func arg : ℕ) (expiry : ℤ) (w : Wheel State)
      → IsLinked w
      → IsLinked (callout_set P func arg expiry w).1
  unfolding callout_set
  callout_set-IsLinked func arg expiry w l = elim (Bool-cases (pos_part expiry == 0)) [
    | inl e ↦ rw e l
    | inr e ↦ elim (Bool-cases (ltb (pos_part expiry) callouttimer)) [
      | inl f ↦ rw (e, f) (set_clamped-IsLinked func arg callouttimer (expiry_invalid w) l)
      | inr f ↦ rw (e, f) (set_clamped-IsLinked func arg (pos_part expiry) w l)
    ]
  ]

  -- What callout_unset of a callout's id leaves: the id is ID_UNDEF, the callout is on no list,
  -- none has joined one, and every callout that names a list is on it.
  pub record Off (k : ℕ) (w : Wheel State) (r : Option ℕ × Wheel State) : Type 0 where
    pub pointer : r.0 ≡ some id_undef
    pub linked : IsLinked r.1
    pub off : callout_id_valid k ≡ true → (r.1.callout k).head ≡ none
    pub stays_off : (j : ℕ) → (w.callout j).head ≡ none → (r.1.callout j).head ≡ none

  -- callout_unset's state after TAILQ_REMOVE of callout `k` from the list of slot `i`.
  abbrev unlinked : ℕ → ℕ → Wheel State → Wheel State
  unlinked k i w = record w {
    bucket = update w.bucket i (without k (w.bucket i));
    meas = record w.meas { co_tailq_remove = suc w.meas.co_tailq_remove };
  }

  unlinked-IsLinked :
      (k i : ℕ) (w : Wheel State) → IsLinked w → IsLinked (release P k (unlinked k i w))
  unfolding release
  unlinked-IsLinked k i w l j m v h = elim (Bool-cases (j == k)) [
    | inl e ↦ ground arith
    | inr e ↦
        let ne : j ≢ k = λ q. ground (arith, q) in
        let on = l j m v (ground arith) in let a = has-without j k (w.bucket i) ne in ground arith
  ]

  pub callout_unset-Off :
      (k : ℕ) (w : Wheel State) → IsLinked w → Ends (Off k w) (callout_unset P (some k) w)
  unfolding callout_unset unlink release
  callout_unset-Off k w l = elim (Bool-cases (callout_id_valid k)) [
    | inr e ↦ rw e (
        ends _
          (record { pointer = refl; linked = l; off = λ v. ground arith; stays_off = λ j h. h }))
    | inl e ↦ rw e (elim (Option-cases (w.callout k).head) [
      | inl h ↦
          rw h (ends _ (record { pointer = refl; linked = l; off = λ v. h; stays_off = λ j z. z }))
      | inr r ↦
          rw (r.1, remove-member k (w.bucket r.0) (l k r.0 e r.1))
            (ends _ (record {
              pointer = refl;
              linked = unlinked-IsLinked k r.0 w l;
              off = λ v. ground arith;
              stays_off = λ j z. ground arith;
            }))
    ])
  ]

  -- callout_unset of any pointer ends, with every callout that names a list on it.
  pub callout_unset-IsLinked :
      (p : Option ℕ) (w : Wheel State)
      → IsLinked w
      → Ends (λ (q, v). IsLinked v) (callout_unset P p w)
  callout_unset-IsLinked none w l = unfold callout_unset in ends _ l
  callout_unset-IsLinked (some k) w l = Ends-map (callout_unset-Off k w l) (λ r o. o.linked)

pub has-without_self : (k : ℕ) (xs : List ℕ) → Distinct xs → has k (without k xs) ≡ false
has-without_self k [] d = refl
has-without_self k (x ∷ xs) d = elim (Bool-cases (x == k)) [
  | inl e ↦ rw e (ap (λ j. has j xs) (sym ((==_iff _ _).0 e)) ∙ d.0)
  | inr e ↦ let r = has-without_self k xs d.1 in rw e (ground arith)
]

has-without_le : (j k : ℕ) (xs : List ℕ) → has j xs ≡ false → has j (without k xs) ≡ false
has-without_le j k [] h = refl
has-without_le j k (x ∷ xs) h = let r = has-without_le j k xs in ground arith

pub without-Distinct : (k : ℕ) (xs : List ℕ) → Distinct xs → Distinct (without k xs)
without-Distinct k [] d = tt
without-Distinct k (x ∷ xs) d = elim (Bool-cases (x == k)) [
  | inl e ↦ rw e d.1
  | inr e ↦ rw e ((has-without_le x k xs d.0, without-Distinct k xs d.1))
]

module _ (P : Pool) where
  open P use {State}

  -- A callout that names a list is on it: so it is on the wheel that initialize_tdb makes, and
  -- where it is so before callout_set of any expiry, or callout_unset of any pointer, which ends,
  -- it is so after.
  pub wheel-IsLinked :
      (s : State) (v : Wheel State) (func arg : ℕ) (expiry : ℤ) (p : Option ℕ) (w : Wheel State)
      → IsLinked w
      → IsLinked (initialize_tdb s v)
        × IsLinked (callout_set P func arg expiry w).1
        × Ends (λ (q, u). IsLinked u) (callout_unset P p w)
  wheel-IsLinked s v func arg expiry p w l = (
    Fresh-IsLinked s (initialize_tdb s v) (initialize_tdb-Fresh s v),
    callout_set-IsLinked P func arg expiry w l,
    callout_unset-IsLinked P p w l,
  )
