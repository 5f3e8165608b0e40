-- ===== src/Dsm/Timer/Sets.antt =====
-- callout_set.
use code_snippets.Prelude.Int.{ℤ, pos_part}
use code_snippets.Dsm.Timer.Due.{due-slot, due, slot_of-lem}
use code_snippets.Dsm.Timer.Ops.{expiry_invalid, set_clamped, callout_set, set_new}
use code_snippets.Dsm.Timer.{id_undef, Callout, callouttimer, Wheel, Pool, callwheelsize}
use code_snippets.Prelude.{
  ◌⊎◌, ◌∙◌, ◌==◌, none, ltb, inr, inl, if◌then◌else◌, ap, Bool-cases, refl, ◌≢◌, ◌≡◌, ◌∷◌, ◌<◌, ◌/◌,
  ◌+◌, ◌++◌, ◌%◌, ℕ, suc, some, leb, false, arith, [],
}

-- The slot that a callout of that many ticks goes to.
abbrev pub slot_for : ℕ → ℕ → ℕ
slot_for index ticks = (index + ticks % callwheelsize) % callwheelsize

module _ (P : Pool) where
  open P use {State, new_private, delete_private}

  -- What callout_set has done when it has got the callout `new`: it stands at the end of the list
  -- of its slot, with its function, argument, time and period, and nothing else of the wheel has
  -- changed.
  pub record Placed (func arg expiry new : ℕ) (s : State) (w v : Wheel State) : Type 0 where
    pub listed :
        v.bucket (slot_for w.index (expiry / callouttimer))
        ≡ w.bucket (slot_for w.index (expiry / callouttimer)) ++ new ∷ []
    pub other_lists :
        (j : ℕ) → j ≢ slot_for w.index (expiry / callouttimer) → v.bucket j ≡ w.bucket j
    pub filled : v.callout new ≡ record {
      head = some (slot_for w.index (expiry / callouttimer));
      c_func = func;
      c_arg = arg;
      c_time = expiry;
      c_period = expiry / callouttimer / callwheelsize;
    }
    pub other_callouts : (k : ℕ) → k ≢ new → v.callout k ≡ w.callout k
    pub rest : (v.index ≡ w.index) × (v.pool ≡ s) × (v.trace ≡ w.trace)
    pub counted :
        (v.meas.tdb_co_set_succ ≡ suc w.meas.tdb_co_set_succ)
        × (v.meas.tdb_co_set_fail ≡ w.meas.tdb_co_set_fail)
        × (v.meas.co_list_invalid ≡ w.meas.co_list_invalid)

  set_new-Placed :
      (func arg expiry new : ℕ) (w : Wheel State)
      → w.index < callwheelsize
      → let (id, v) = set_new P func arg expiry new w in
        (id ≡ new) × Placed func arg expiry new w.pool w v
  unfolding set_new
  set_new-Placed func arg expiry new w h =
      let ticks = expiry / callouttimer in
      let inside : leb callwheelsize (slot_for w.index ticks) ≡ false = ground arith in
      rw (slot_of-lem w.index (ticks % callwheelsize) h (omega arith), inside)
        (
          refl,
          record {
            listed = ground arith;
            other_lists = ground arith;
            filled = ground arith;
            other_callouts = ground arith;
            rest = (refl, refl, refl);
            counted = (refl, refl, refl);
          },
        )

  -- The expiry that callout_set uses.
  abbrev pub clamped : ℤ → ℕ
  clamped expiry = if ltb (pos_part expiry) callouttimer then callouttimer else pos_part expiry

  set_clamped-eq :
      (func arg expiry new : ℕ) (s : State) (w : Wheel State)
      → new_private w.pool ≡ some (new, s)
      → set_clamped P func arg expiry w ≡ set_new P func arg expiry new (record w { pool = s })
  unfolding set_clamped
  set_clamped-eq func arg expiry new s w p = rw (p, set_clamped)

  -- With the index on the wheel, a positive expiry and a callout from the pool callout_set returns
  -- its id and has placed it for the expiry, of at least the minimum callout timer; the slot's
  -- index is never out of range.
  pub callout_set-Placed :
      (func arg : ℕ) (expiry : ℤ) (new : ℕ) (s : State) (w : Wheel State)
      → w.index < callwheelsize
      → 0 < pos_part expiry
      → new_private w.pool ≡ some (new, s)
      → let (id, v) = callout_set P func arg expiry w in
        (id ≡ new) × Placed func arg (clamped expiry) new s w v
  unfolding callout_set
  callout_set-Placed func arg expiry new s w h e p =
      let positive : (pos_part expiry == 0) ≡ false = ground arith in
      elim (Bool-cases (ltb (pos_part expiry) callouttimer)) [
        | inl c ↦
            let (same, v) =
              set_new-Placed func arg callouttimer new (record (expiry_invalid w) { pool = s }) h in
            rw (positive, c, set_clamped-eq func arg callouttimer new s (expiry_invalid w) p)
              (
                same,
                record {
                  listed = v.listed;
                  other_lists = v.other_lists;
                  filled = v.filled;
                  other_callouts = v.other_callouts;
                  rest = v.rest;
                  counted = v.counted;
                },
              )
        | inr c ↦
            let (same, v) =
              set_new-Placed func arg (pos_part expiry) new (record w { pool = s }) h in
            rw (positive, c, set_clamped-eq func arg (pos_part expiry) new s w p)
              (
                same,
                record {
                  listed = v.listed;
                  other_lists = v.other_lists;
                  filled = v.filled;
                  other_callouts = v.other_callouts;
                  rest = v.rest;
                  counted = v.counted;
                },
              )
      ]

  -- With the index on the wheel, a positive expiry and a callout from the pool, the new callout
  -- falls due after expiry / 10 ticks, at least one, but a whole rotation later if the expiry is a
  -- multiple of the wheel's period.
  pub callout_set-due :
      (func arg : ℕ) (expiry : ℤ) (new : ℕ) (s : State) (w : Wheel State)
      → w.index < callwheelsize
      → 0 < pos_part expiry
      → new_private w.pool ≡ some (new, s)
      → let (id, v) = callout_set P func arg expiry w in
        let ticks = clamped expiry / callouttimer in
        (slot : ℕ) × ((v.callout id).head ≡ some slot)
        × (due v.index slot (v.callout id).c_period
            ≡ ticks + (if ticks % callwheelsize == 0 then callwheelsize else 0))
  callout_set-due func arg expiry new s w h e p =
      let (same, v) = callout_set-Placed func arg expiry new s w h e p in
      let ticks = clamped expiry / callouttimer in
      let c = ap (callout_set P func arg expiry w).1.callout same ∙ v.filled in
      (
        slot_for w.index ticks,
        ap (λ (k : Callout). k.head) c,
        rw (v.rest.0, ap (λ (k : Callout). k.c_period) c) (due-slot w.index ticks h),
      )

  -- The parts of the wheel other than the counters.
  pub record Same (w v : Wheel State) : Type 0 where
    pub index : v.index ≡ w.index
    pub bucket : v.bucket ≡ w.bucket
    pub callout : v.callout ≡ w.callout
    pub pool : v.pool ≡ w.pool
    pub trace : v.trace ≡ w.trace

  -- With an expiry that is not positive, or no memory, callout_set returns ID_UNDEF, counts one
  -- failure and changes nothing but the counters.
  pub callout_set-fails :
      (func arg : ℕ) (expiry : ℤ) (w : Wheel State)
      → (pos_part expiry ≡ 0) ⊎ (new_private w.pool ≡ none)
      → let (id, v) = callout_set P func arg expiry w in
        (id ≡ id_undef)
        × Same w v
        × (v.meas.tdb_co_set_fail ≡ suc w.meas.tdb_co_set_fail)
        × (v.meas.tdb_co_set_succ ≡ w.meas.tdb_co_set_succ)
  unfolding callout_set set_clamped
  callout_set-fails func arg expiry w (inl e) = rw e (
    refl,
    record { index = refl; bucket = refl; callout = refl; pool = refl; trace = refl },
    refl,
    refl,
  )
  callout_set-fails func arg expiry w (inr p) = ground arith
