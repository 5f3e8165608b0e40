-- ===== src/Dsm/Sessions/Tests.antt =====
-- The theorems on a database with one session, which has a queued message.
use code_snippets.Dsm.Sessions.UsRemove.{process_us_remove}
use code_snippets.Dsm.Sessions.Gone.{process_us_remove-Gone, Gone}
use code_snippets.Dsm.Ccdb.Tid.{us_id_of}
use code_snippets.Dsm.Sessions.Add.{dgc_qmsg_add-IsConsistent}
use code_snippets.Dsm.Sessions.Indexed.{IsIndexed, user_session_remove-IsIndexed}
use code_snippets.Dsm.Sessions.Ops.{
  finalize_ccdb, user_session_remove, initialize_ccdb, blank_session,
}
use code_snippets.Dsm.Sessions.Queue.{dgc_qmsg_add}
use code_snippets.Dsm.Sessions.Start.{initialize_ccdb-Ready, Ready}
use code_snippets.Dsm.Sessions.Finalize.{finalize_ccdb-Closed, Closed, Short}
use code_snippets.Dsm.Timer.Lists.{Distinct, has, Ends}
use code_snippets.Dsm.Sessions.Linked.{IsConsistent}
use code_snippets.Dsm.Ccdb.{user_session_id_valid}
use code_snippets.Dsm.Sessions.{no_qmsg, Db, Session, System}
use code_snippets.Dsm.Timer.{no_counts, blank, Wheel, Pool}
use code_snippets.Prelude.Int.{pos_part, pos, negsuc}
use code_snippets.Prelude.{
  ◌⊎◌, ◌≡◌, ◌∷◌, ◌==◌, ℕ, true, suc, some, refl, none, inr, inl, if◌then◌else◌, false, arith, [],
  Bool-cases,
}

abbrev ids : Pool
ids = record { State = ℕ; new_private = λ s. some (suc s, suc s); delete_private = λ i s. s }

-- Buffers and parameters have the same numbers, the clock ticks, and the DGC takes every message.
abbrev system : System
system = record {
  uninitialized = negsuc 0;
  tg_def = pos 5000;
  callouts = ids;
  sessions = ids;
  messages = ids;
  World = ℕ;
  time = λ w. (w, suc w);
  parm_to_buf = λ p w. (some (pos_part p), w);
  buf_to_parm = λ b w. (pos b, w);
  tell_dgc = λ p w. (true, w);
  fep_free_buffer = λ b w. w;
}

-- The Tg timer of the session is callout 3, on the list of slot 20.
abbrev wheel : Wheel ℕ
wheel = record {
  index = 6;
  bucket = λ i. if i == 20 then 3 ∷ [] else [];
  callout = λ i.
      if i == 3
      then record { head = some 20; c_func = 9; c_arg = 1; c_time = 140; c_period = 0 }
      else blank;
  pool = 3;
  meas = no_counts;
  trace = [];
}

abbrev one : Session
one = record (blank_session system) { head = some 4; tg_id = 3; tid_local = 1; dgc_qmsg = 7 ∷ [] }

abbrev db : Db system
db = record {
  trap = record { time_start = 0; sub_id = []; us = none };
  tg_expiry = pos 5000;
  bucket = λ i. if i == 4 then 1 ∷ [] else [];
  by_time = 1 ∷ [];
  session = λ s. if s == 1 then one else blank_session system;
  qmsg = λ q. if q == 7 then record { head = some 1; qmsg = pos 2 ∷ pos 40 ∷ [] } else no_qmsg;
  diamctx = λ b. record { no_diam = false; no_gdi = false };
  wheel = wheel;
  us_pool = 1;
  qmsg_pool = 7;
  world = 100;
  counted = [];
}

db-IsConsistent : IsConsistent db
db-IsConsistent = record {
  wheel = λ k i v h. ground arith;
  in_bucket = λ s b v h. ground arith;
  in_time = λ s b v h. ground arith;
  listed = λ s z. only_listed s (Bool-cases (s == 1)) z;
  once = (refl, tt);
  queued = λ s q v z. ground arith;
  queue_once = λ s v. queue s (Bool-cases (s == 1));
}
  where
    only_listed :
        (s : ℕ)
        → ((s == 1) ≡ true) ⊎ ((s == 1) ≡ false)
        → has s (1 ∷ []) ≡ true
        → (user_session_id_valid s ≡ true) × ((b : ℕ) × ((db.session s).head ≡ some b))
    only_listed s (inl e) z = (ground arith, (4, rw e refl))
    only_listed s (inr e) z = absurd (not_member s e z)
      where
        not_member : (t : ℕ) → (t == 1) ≡ false → ¬ (has t (1 ∷ []) ≡ true)
        not_member t n y = ground arith

    queue : (s : ℕ) → ((s == 1) ≡ true) ⊎ ((s == 1) ≡ false) → Distinct (db.session s).dgc_qmsg
    queue s (inl e) = rw e ((refl, tt))
    queue s (inr e) = rw e tt

db-Short : Short system 2 db
db-Short s v = ground arith

db-IsIndexed : IsIndexed system db
db-IsIndexed = record {
  in_time = λ s b h. ground arith;
  names = λ s b h. ground arith;
  once = λ b. bucket_once b (Bool-cases (b == 4));
}
  where
    bucket_once : (b : ℕ) → ((b == 4) ≡ true) ⊎ ((b == 4) ≡ false) → Distinct (db.bucket b)
    bucket_once b (inl e) = rw e ((refl, tt))
    bucket_once b (inr e) = rw e tt

finalize_ccdb-Closed_example : Ends (Closed system db) (finalize_ccdb system 2 2 db)
finalize_ccdb-Closed_example =
    finalize_ccdb-Closed system 2 2 db db-IsConsistent db-IsIndexed db-Short (omega arith)

user_session_remove-IsIndexed_example :
    IsIndexed system (initialize_ccdb system 0 0 db)
    × Ends
        (λ (r, e). IsIndexed system e × ((i : ℕ) → has 1 (e.bucket i) ≡ false))
        (user_session_remove system 2 (some (some 1)) db)
user_session_remove-IsIndexed_example =
    user_session_remove-IsIndexed system 0 0 db 2 4 1 db db-IsConsistent.wheel db-IsConsistent
      db-IsIndexed refl refl (omega arith)

initialize_ccdb-Ready_example : Ready system (initialize_ccdb system 0 0 db)
initialize_ccdb-Ready_example = initialize_ccdb-Ready system 0 0 db db-IsConsistent.wheel

dgc_qmsg_add-IsConsistent_example :
    let (done, e) = dgc_qmsg_add system (pos 2 ∷ pos 0 ∷ []) (some 50) (some 1) db in
    ((e.session 1).dgc_qmsg ≡ (if done then 7 ∷ 8 ∷ [] else 7 ∷ [])) × IsConsistent e
dgc_qmsg_add-IsConsistent_example =
    dgc_qmsg_add-IsConsistent system (pos 2 ∷ pos 0 ∷ []) 50 1 4 8 8 db db-IsConsistent refl refl
      refl refl

process_us_remove-Gone_example : Ends (Gone system 4 1 db) (process_us_remove system 2 (some 1) db)
unfolding us_id_of
process_us_remove-Gone_example =
    process_us_remove-Gone system 2 4 1 db db-IsConsistent refl refl refl (omega arith)
