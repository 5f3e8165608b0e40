-- ===== src/Dsm/Sessions/Linked.antt =====
-- The links of the sessions and the queued messages.
use code_snippets.Dsm.Timer.Linked.{IsLinked}
use code_snippets.Dsm.Timer.Lists.{Distinct, has}
use code_snippets.Dsm.Ccdb.{user_session_id_valid}
use code_snippets.Dsm.Sessions.{Db, System}
use code_snippets.Prelude.{◌≡◌, ℕ, true, some}

-- Every session that names a list is on it and on the time-sorted list, which holds each session
-- once and no other; a queued message names the session whose queue it is on, once; and the
-- callouts of the wheel are on the lists that they name.
pub record IsConsistent {E : System} (d : Db E) : Type 0 where
  pub wheel : IsLinked d.wheel
  pub in_bucket :
      (s b : ℕ)
      → user_session_id_valid s ≡ true
      → (d.session s).head ≡ some b
      → has s (d.bucket b) ≡ true
  pub in_time :
      (s b : ℕ)
      → user_session_id_valid s ≡ true
      → (d.session s).head ≡ some b
      → has s d.by_time ≡ true
  pub listed :
      (s : ℕ)
      → has s d.by_time ≡ true
      → (user_session_id_valid s ≡ true) × ((b : ℕ) × ((d.session s).head ≡ some b))
  pub once : Distinct d.by_time
  pub queued :
      (s q : ℕ)
      → user_session_id_valid s ≡ true
      → has q (d.session s).dgc_qmsg ≡ true
      → (d.qmsg q).head ≡ some s
  pub queue_once : (s : ℕ) → user_session_id_valid s ≡ true → Distinct (d.session s).dgc_qmsg
