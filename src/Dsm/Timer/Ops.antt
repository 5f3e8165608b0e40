-- ===== src/Dsm/Timer/Ops.antt =====
-- The functions of dsm_tdb.c over a pool of memory blocks and the callbacks.
use code_snippets.Dsm.Timer.{
  next_of, callout_id_valid, remove, first_of_list, out_of_fuel, ok, bind, Run, Callout, blank,
  callouttimer, callwheelsize, id_undef, update, Pool, Wheel,
}
use code_snippets.Prelude.Int.{pos_part, ◌-ℤ◌, ℤ, pos, negsuc}
use code_snippets.Prelude.{
  ◌==◌, ◌-◌, zero, ltb, ◌∷◌, ◌/◌, ◌+◌, ◌++◌, ◌%◌, ℕ, suc, some, none, leb, if◌then◌else◌, [],
  Option,
}

module _ {S : Type 0} where
  -- callout_init; `none` is a null pointer.
  unfoldable pub callout_init : Option ℕ → Wheel S → Wheel S
  callout_init none w = record w {
    meas = record w.meas {
      co_null = suc w.meas.co_null;
      tdb_co_init_fail = suc w.meas.tdb_co_init_fail;
    };
  }
  callout_init (some i) w = record w {
    callout = update w.callout i blank;
    meas = record w.meas { tdb_co_init_succ = suc w.meas.tdb_co_init_succ };
  }

  abbrev pub fail_set : Wheel S → ℕ × Wheel S
  fail_set w =
      (id_undef, record w { meas = record w.meas { tdb_co_set_fail = suc w.meas.tdb_co_set_fail } })

  abbrev pub list_invalid : Wheel S → Wheel S
  list_invalid w = record w {
    meas = record w.meas { co_list_invalid = suc w.meas.co_list_invalid };
  }

  abbrev pub expiry_invalid : Wheel S → Wheel S
  expiry_invalid w = record w {
    meas = record w.meas { tdb_co_set_expiry_invalid = suc w.meas.tdb_co_set_expiry_invalid };
  }

  abbrev pub new_private_fail : Wheel S → Wheel S
  new_private_fail w = record w {
    meas = record w.meas { api_new_private_fail_co = suc w.meas.api_new_private_fail_co };
  }

-- The index of the slot that lies `offset` slots ahead of `index`.
unfoldable pub slot_of : ℕ → ℕ → ℤ
unfolding ◌-ℤ◌
slot_of index offset =
    if leb callwheelsize (index + offset)
    then pos offset -ℤ (pos callwheelsize -ℤ pos index)
    else pos (index + offset)

module _ (P : Pool) where
  open P use {State, new_private, delete_private}

  -- callout_init and delete_private, as every caller runs them.
  unfoldable pub release : ℕ → Wheel State → Wheel State
  unfolding callout_init
  release i w =
      let v = callout_init (some i) w in
      record v {
        pool = delete_private i v.pool;
        meas = record v.meas { api_delete_private_co = suc v.meas.api_delete_private_co };
      }

  -- Insert the new callout to the end of the list of slot `i`.
  unfoldable pub insert_tail : ℕ → ℕ → Wheel State → Wheel State
  insert_tail new i w = record w {
    callout = update w.callout new (record (w.callout new) { head = some i });
    bucket = update w.bucket i (w.bucket i ++ new ∷ []);
    meas = record w.meas {
      co_tailq_insert_tail = suc w.meas.co_tailq_insert_tail;
      tdb_co_set_succ = suc w.meas.tdb_co_set_succ;
    };
  }

  -- The check of the slot's index, and the insertion.
  unfoldable pub set_in_slot : ℤ → ℕ → Wheel State → ℕ × Wheel State
  unfolding release insert_tail
  set_in_slot (pos i) new w =
      if leb callwheelsize i
      then fail_set (release new (list_invalid w))
      else (new, insert_tail new i w)
  set_in_slot (negsuc _) new w = fail_set (release new (list_invalid w))

  -- callout_set with the callout `new` that new_private has returned.
  unfoldable pub set_new : ℕ → ℕ → ℕ → ℕ → Wheel State → ℕ × Wheel State
  unfolding set_in_slot
  set_new func arg expiry new w =
      let ticks = expiry / callouttimer in
      let c : Callout = record {
        head = (w.callout new).head;
        c_func = func;
        c_arg = arg;
        c_time = expiry;
        c_period = ticks / callwheelsize;
      } in
      set_in_slot (slot_of w.index (ticks % callwheelsize)) new (record w {
        callout = update w.callout new c;
        meas = record w.meas { api_new_private_succ_co = suc w.meas.api_new_private_succ_co };
      })

  -- callout_set from the allocation on.
  unfoldable pub set_clamped : ℕ → ℕ → ℕ → Wheel State → ℕ × Wheel State
  unfolding set_new
  set_clamped func arg expiry w = elim (new_private w.pool) [
    | none ↦ fail_set (new_private_fail w)
    | some (new, s) ↦ set_new func arg expiry new (record w { pool = s })
  ]

  -- callout_set: the id of the new callout, or ID_UNDEF.
  unfoldable pub callout_set : ℕ → ℕ → ℤ → Wheel State → ℕ × Wheel State
  callout_set func arg expiry w =
      if pos_part expiry == 0
      then fail_set (expiry_invalid w)
      else if ltb (pos_part expiry) callouttimer
      then set_clamped func arg callouttimer (expiry_invalid w)
      else set_clamped func arg (pos_part expiry) w

  abbrev pub unset_fail : Wheel State → Wheel State
  unset_fail w = record w {
    meas = record w.meas { tdb_co_unset_fail = suc w.meas.tdb_co_unset_fail };
  }

  -- TAILQ_REMOVE from the list of slot `i`.
  unfoldable pub unlink : ℕ → ℕ → Wheel State → Run (Wheel State)
  unlink i id w = bind (remove id (w.bucket i)) (λ xs. ok (record w {
    bucket = update w.bucket i xs;
    meas = record w.meas { co_tailq_remove = suc w.meas.co_tailq_remove };
  }))

  -- callout_unset of a callout that is on the list of slot `i`.
  unfoldable pub unset_listed : ℕ → ℕ → Wheel State → Run (Wheel State)
  unfolding unlink release
  unset_listed i id w = bind (unlink i id w) (λ v.
      let u = release id v in
      ok (record u { meas = record u.meas { tdb_co_unset_succ = suc u.meas.tdb_co_unset_succ } }))

  -- callout_unset: `none` is a null pointer, and what the pointer holds afterwards comes first.
  unfoldable pub callout_unset : Option ℕ → Wheel State → Run (Option ℕ × Wheel State)
  unfolding unset_listed
  callout_unset none w =
      ok (
        none,
        unset_fail (record w { meas = record w.meas { co_id_null = suc w.meas.co_id_null } }),
      )
  callout_unset (some id) w =
      if callout_id_valid id
      then elim (w.callout id).head [
        | none ↦ ok (
          some id_undef,
          unset_fail (record w { meas = record w.meas { co_list_null = suc w.meas.co_list_null } }),
        )
        | some i ↦ bind (unset_listed i id w) (λ v. ok (some id_undef, v))
      ]
      else ok (
        some id_undef,
        unset_fail (record w { meas = record w.meas { co_id_invalid = suc w.meas.co_id_invalid } }),
      )

-- The callbacks: what a function does when it is called with an argument.
module _ (P : Pool) (call : ℕ → ℕ → Wheel (Pool.State P) → Wheel (Pool.State P)) where
  open P use {State}

  -- The call of an expired callout, or of no function.
  unfoldable pub call_back : Callout → Wheel State → Wheel State
  call_back c w =
      if c.c_func == 0
      then record w { meas = record w.meas { co_callback_null = suc w.meas.co_callback_null } }
      else call c.c_func c.c_arg (record w { trace = (c.c_func, c.c_arg) ∷ w.trace })

  -- One round of process_timer's loop, over the list of slot `i`.
  unfoldable pub process_callout : ℕ → ℕ → Wheel State → Run (Wheel State)
  process_callout i r w =
      if (w.callout r).c_period == 0
      then bind
          (unlink P i r (record w { meas = record w.meas { co_expire = suc w.meas.co_expire } }))
          (λ v. ok (release P r (call_back (v.callout r) v)))
      else ok (record w {
        callout =
            update w.callout r (record (w.callout r) { c_period = (w.callout r).c_period - 1 });
      })

  -- `q` is the next callout, which the loop reads before it handles the one before.
  unfoldable pub process_list : ℕ → ℕ → Option ℕ → Wheel State → Run (Wheel State)
  process_list zero i q w = out_of_fuel
  process_list (suc fuel) i none w = ok w
  process_list (suc fuel) i (some r) w =
      bind (process_callout i r w) (process_list fuel i (next_of r (w.bucket i)))

  abbrev pub advance : Wheel State → Wheel State
  advance w = record w { index = if leb callwheelsize (suc w.index) then 0 else suc w.index }

  unfoldable pub process_timer : ℕ → Wheel State → Run (Wheel State)
  process_timer fuel w =
      let v = advance w in process_list fuel v.index (first_of_list (v.bucket v.index)) v
