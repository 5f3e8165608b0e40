-- ===== src/Dsm/Sessions/Queue.antt =====
-- dgc_qmsg_init, dgc_qmsg_remove and dgc_qmsg_add of dsm_ccdb.c.
use code_snippets.Dsm.Timer.{update, remove, ok, bind, Run, Pool}
use code_snippets.Dsm.Sessions.{
  dgc_qmsg_remove_succ, no_qmsg, dgc_qmsg_ptr_null, dgc_qmsg_list_null, dgc_qmsg_tailq_remove,
  dgc_qmsg_init_succ, us_null, api_new_private_succ_us, dgc_qmsg_tailq_insert_tail,
  dgc_qmsg_remove_fail, dgc_qmsg_null, dc_null, us_list_null, api_new_private_fail_us,
  api_buf_to_parm_fail, dgc_qmsg_add_succ, dgc_qmsg_add_fail, api_delete_private_dgc_qmsg,
  dgc_qmsg_init_fail, count, Pool, Db, System,
}
use code_snippets.Prelude.Int.{ℤ, pos, negsuc}
use code_snippets.Prelude.{◌∷◌, ◌++◌, ℕ, true, suc, some, set, none, false, [], Option, List, Bool}

module _ (E : System) where
  unfoldable pub dgc_qmsg_init : Option ℕ → Db E → Db E
  dgc_qmsg_init none d = count dgc_qmsg_init_fail (count dgc_qmsg_null d)
  dgc_qmsg_init (some q) d = count dgc_qmsg_init_succ (record d { qmsg = update d.qmsg q no_qmsg })

  -- dgc_qmsg_init and delete_private, as every caller runs them.
  unfoldable pub free_qmsg : ℕ → Db E → Db E
  unfolding dgc_qmsg_init
  free_qmsg q d =
      let e = dgc_qmsg_init (some q) d in
      count api_delete_private_dgc_qmsg
        (record e { qmsg_pool = Pool.delete_private E.messages q e.qmsg_pool })

  -- TAILQ_REMOVE from the queue of session `s`.
  unfoldable pub unlink_qmsg : ℕ → ℕ → Db E → Run (Db E)
  unlink_qmsg s q d = bind (remove q (d.session s).dgc_qmsg) (λ xs. ok (
      count dgc_qmsg_tailq_remove
        (record d { session = update d.session s (record (d.session s) { dgc_qmsg = xs }) })))

  -- dgc_qmsg_remove of a message with this head.
  unfoldable pub remove_qmsg : Option ℕ → ℕ → Db E → Run (Db E)
  unfolding unlink_qmsg free_qmsg
  remove_qmsg none q d = ok (count dgc_qmsg_remove_fail (count dgc_qmsg_list_null d))
  remove_qmsg (some s) q d =
      bind (unlink_qmsg s q d) (λ e. ok (count dgc_qmsg_remove_succ (free_qmsg q e)))

  -- dgc_qmsg_remove. What its pointer holds afterwards is left out, since every caller drops it.
  unfoldable pub dgc_qmsg_remove : Option (Option ℕ) → Db E → Run (Db E)
  unfolding remove_qmsg
  dgc_qmsg_remove none d = ok (count dgc_qmsg_remove_fail (count dgc_qmsg_ptr_null d))
  dgc_qmsg_remove (some none) d = ok (count dgc_qmsg_remove_fail (count dgc_qmsg_null d))
  dgc_qmsg_remove (some (some q)) d = remove_qmsg (d.qmsg q).head q d

  abbrev pub add_fail : Db E → Bool × Db E
  add_fail d = (false, count dgc_qmsg_add_fail d)

  -- Save the new message with its parameter, insert it to the end of the queue, update the stats.
  unfoldable pub enqueue : List ℤ → ℤ → ℕ → ℕ → Db E → Db E
  enqueue qmsg parm new s d =
      let (now, w) = E.time d.world in
      let p = d.session s in
      count dgc_qmsg_add_succ (
        count dgc_qmsg_tailq_insert_tail (record d {
          qmsg = update d.qmsg new (record { head = some s; qmsg = set qmsg 1 parm });
          session = update d.session s (record p {
            dgc_qmsg = p.dgc_qmsg ++ new ∷ [];
            ref_count = suc p.ref_count;
            time_last = now;
          });
          world = w;
        }))

  -- dgc_qmsg_add with what buf_to_parm has returned; false is FAILURE.
  unfoldable pub add_with_parm : List ℤ → ℤ → ℕ → ℕ → Db E → Bool × Db E
  unfolding free_qmsg enqueue
  add_with_parm qmsg (negsuc _) new s d = add_fail (free_qmsg new (count api_buf_to_parm_fail d))
  add_with_parm qmsg (pos parm) new s d = (true, enqueue qmsg (pos parm) new s d)

  -- dgc_qmsg_add with what new_private has returned.
  unfoldable pub add_new : List ℤ → ℕ → ℕ → Option (ℕ × Pool.State E.messages) → Db E → Bool × Db E
  unfolding add_with_parm
  add_new qmsg pbuf s none d = add_fail (count api_new_private_fail_us d)
  add_new qmsg pbuf s (some (new, m)) d =
      let (parm, w) = E.buf_to_parm pbuf d.world in
      add_with_parm qmsg parm new s
        (count api_new_private_succ_us (record d { qmsg_pool = m; world = w }))

  -- dgc_qmsg_add for a session with this head.
  unfoldable pub add_listed : List ℤ → ℕ → Option ℕ → ℕ → Db E → Bool × Db E
  unfolding add_new
  add_listed qmsg pbuf none s d = add_fail (count us_list_null d)
  add_listed qmsg pbuf (some _) s d =
      add_new qmsg pbuf s (Pool.new_private E.messages d.qmsg_pool) d

  unfoldable pub dgc_qmsg_add : List ℤ → Option ℕ → Option ℕ → Db E → Bool × Db E
  unfolding add_listed
  dgc_qmsg_add qmsg none p d = add_fail (count dc_null d)
  dgc_qmsg_add qmsg (some pbuf) none d = add_fail (count us_null d)
  dgc_qmsg_add qmsg (some pbuf) (some s) d = add_listed qmsg pbuf (d.session s).head s d
