-- ===== src/Dsm/Context/Tests.antt =====
-- The theorems on a database of one session, and on one without sessions.
use code_snippets.Dsm.Context.UpdateCp.{process_update_cp}
use code_snippets.Dsm.Context.Updated.{process_update_cp-Updated, Updated}
use code_snippets.Dsm.Context.Samples.{
  processing, on_list, held-Holds, table, conf-Fits, held, gdi_cca, contexts, dim_close, again,
  request, conf, ids, codes,
}
use code_snippets.Dsm.Context.Found.{user_session_get-user_session_add}
use code_snippets.Dsm.Context.Errors.{qmsg_diamctx_construct-Reported}
use code_snippets.Dsm.Ccdb.Tid.{us_id_of}
use code_snippets.Dsm.Ccdb.Lookup.{find_session, mend_head, get_in_slot, user_session_get}
use code_snippets.Dsm.Context.Reported.{Reported}
use code_snippets.Dsm.Context.Closed.{
  Resaved, user_session_save-closed, user_session_save-retransmitted,
}
use code_snippets.Dsm.Ccdb.{user_session_id_valid}
use code_snippets.Dsm.Context.Exchange.{qmsg_diamctx_construct-Answers}
use code_snippets.Dsm.Context.Answer.{Answers}
use code_snippets.Dsm.Context.Construct.{qmsg_diamctx_construct}
use code_snippets.Dsm.Context.Created.{user_session_save-IsNew, IsNew}
use code_snippets.Dsm.Context.Add.{user_session_add}
use code_snippets.Dsm.Context.Gdi.{user_session_save}
use code_snippets.Dsm.Context.Alone.{qmsg_diamctx_construct-alone, Begins}
use code_snippets.Prelude.Int.{negsuc, pos}
use code_snippets.Prelude.{◌≡◌, ◌∷◌, true, some, refl, none, false, arith, []}
use code_snippets.Dsm.Context.{us_at, DiamCtx}

user_session_save-IsNew_example :
    let (done, d) = user_session_save codes conf (some request) (some 1) contexts in
    (done ≡ true) × IsNew codes 1 (us_at 1 d)
user_session_save-IsNew_example =
    user_session_save-IsNew codes conf 1 5 request 1 2 0 refl refl refl refl
      (omega arith, omega arith) (omega arith, omega arith) (omega arith) refl refl refl refl refl
      refl contexts refl refl refl refl refl

qmsg_diamctx_construct-Answers_example :
    let (_, d) = user_session_save codes conf (some request) (some 1) contexts in
    let (saved, e) = user_session_save codes conf (some gdi_cca) (some 1) d in
    let (built, x, _) = qmsg_diamctx_construct codes conf (some gdi_cca) (some 1) false e in
    (saved ≡ true) × (built ≡ true) × (y : DiamCtx) × (x ≡ some y) × Answers request gdi_cca y
qmsg_diamctx_construct-Answers_example =
    qmsg_diamctx_construct-Answers codes conf 1 5 request gdi_cca contexts refl refl refl refl
      (user_session_save-IsNew codes conf 1 5 request 1 2 0 refl refl refl refl
        (omega arith, omega arith) (omega arith, omega arith) (omega arith) refl refl refl refl refl
        refl contexts refl refl refl refl refl).0
      refl refl refl refl refl refl refl (omega arith, omega arith)

user_session_save-retransmitted_example :
    let (done, d) = user_session_save codes conf (some again) (some 1) held in
    let (saved, e) = user_session_save codes conf (some gdi_cca) (some 1) d in
    let (built, x, _) = qmsg_diamctx_construct codes conf (some gdi_cca) (some 1) false e in
    (done ≡ true)
    × Resaved 1 again held d
    × (saved ≡ true)
    × (built ≡ true)
    × (y : DiamCtx) × (x ≡ some y)
    × Answers (record request { hop_by_hop_id = 13; proxies = request.proxies }) gdi_cca y
user_session_save-retransmitted_example =
    user_session_save-retransmitted codes conf 1 5 request again gdi_cca held refl held-Holds refl
      refl refl refl refl refl refl refl (omega arith, omega arith)

user_session_save-closed_example :
    let (saved, d) = user_session_save codes conf (some dim_close) (some 1) contexts in
    let (built, x, _) = qmsg_diamctx_construct codes conf (some request) (some 1) true d in
    (saved ≡ true)
    × (built ≡ true)
    × (y : DiamCtx) × (x ≡ some y)
    × (y.package_type ≡ 1)
    × (y.remote_tid ≡ 0)
    × (true ≡ true → user_session_id_valid (us_id_of y.local_tid) ≡ false)
user_session_save-closed_example =
    user_session_save-closed codes conf 1 5 dim_close request contexts refl refl refl conf-Fits
      (omega arith, omega arith) refl

qmsg_diamctx_construct-Reported_example :
    let (done, x, e) = qmsg_diamctx_construct codes conf (some request) (some 1) true contexts in
    (done ≡ true) × (y : DiamCtx) × (x ≡ some y) × Reported codes (us_at 1 contexts) y (us_at 1 e)
qmsg_diamctx_construct-Reported_example =
    qmsg_diamctx_construct-Reported codes conf conf-Fits 1 5 request contexts refl refl
      (omega arith, omega arith)

qmsg_diamctx_construct-alone_example :
    Begins codes conf contexts (qmsg_diamctx_construct codes conf (some request) none true contexts)
qmsg_diamctx_construct-alone_example =
    qmsg_diamctx_construct-alone codes conf none true request contexts refl conf-Fits
      (omega arith, omega arith)

user_session_get-user_session_add_example :
    let (r, u) = user_session_add ids codes conf (some request) (pos 7) table in
    (r ≡ some 2)
    × (u.by_time ≡ 1 ∷ 2 ∷ [])
    × ((user_session_get codes.names (some request.buffer_sid) (pos 2) (pos 7) u.contexts.ccdb).0
        ≡ some 2)
unfolding user_session_get get_in_slot mend_head find_session
user_session_get-user_session_add_example =
    user_session_get-user_session_add ids codes conf request 7 2 [] table refl (omega arith) refl
      refl refl refl refl (omega arith) (omega arith) (omega arith)
      (user_session_save-IsNew codes conf 2 7 request 1 2 0 refl refl refl refl
        (omega arith, omega arith) (omega arith, omega arith) (omega arith) refl refl refl refl refl
        refl on_list refl refl refl refl refl).0
      refl

process_update_cp-Updated_example :
    Updated (pos 5) (negsuc 0) 1000 1 processing (process_update_cp conf 1 5 65535 processing)
unfolding us_id_of
process_update_cp-Updated_example = process_update_cp-Updated conf 1 5 65535 processing
