-- ===== src/Dsm/Ccdb/Tid.antt =====
-- GDI local transaction ids: set_tid_local, and how the receivers find the session id in one. An
-- ulong has 32 bits here, the width of the masks MASK_TID_*. What conf_get_fe_number and
-- conf_get_csi_number return are arguments.
use code_snippets.Dsm.Ccdb.{user_session_size, user_session_id_valid}
use code_snippets.Prelude.Int.{ℤ, pos_part, pos, negsuc}
use code_snippets.Prelude.{◌^◌, ◌==◌, ◌*◌, ◌%◌, ℕ, suc, ltb, if◌then◌else◌}
use Prim.Native.Nat.{bit_and, bit_or}

abbrev pub mask_tid_cc : ℕ
mask_tid_cc = 8388607

-- The static counter non_us_id and the counters of `meas`.
pub record Tids : Type 0 where
  pub non_us_id : ℕ
  pub conf_get_fe_number_fail : ℕ
  pub conf_get_csi_number_fail : ℕ
  pub peer_fe_invalid : ℕ
  pub set_tid_local_fail : ℕ
  pub set_tid_local_succ : ℕ

-- `a << k` for an ulong.
abbrev pub shift_left : ℕ → ℕ → ℕ
shift_left a k = a * 2 ^ k % 2 ^ 32

abbrev pub tid_fail : Tids → ℕ × Tids
tid_fail t = (0, record t { set_tid_local_fail = suc t.set_tid_local_fail })

-- The local TID from its four parts.
unfoldable pub pack : ℕ → ℕ → ℕ → ℕ → ℕ
pack fe peer csi cc =
    bit_or (bit_or (bit_or (bit_or 0 (shift_left fe 28)) (shift_left peer 24)) (shift_left csi 23))
      (shift_left cc 0)

-- The end of set_tid_local, with fe, peer_fe and csi checked.
unfoldable pub tid_pack : ℕ → ℕ → ℕ → ℕ → Tids → ℕ × Tids
unfolding pack
tid_pack fe peer csi id t =
    let succ : Tids = record t { set_tid_local_succ = suc t.set_tid_local_succ } in
    if user_session_id_valid id then (pack fe peer csi id, succ) else (
      pack fe peer csi t.non_us_id,
      record succ {
        non_us_id =
            if ltb mask_tid_cc (suc t.non_us_id) then suc user_session_size else suc t.non_us_id;
      },
    )

unfoldable pub tid_csi : ℕ → ℕ → ℤ → ℕ → Tids → ℕ × Tids
unfolding tid_pack
tid_csi fe peer (pos csi) id t = tid_pack fe peer csi id t
tid_csi fe peer (negsuc _) id t =
    let failed : Tids = record t { conf_get_csi_number_fail = suc t.conf_get_csi_number_fail } in
    if user_session_id_valid id then tid_fail failed else tid_pack fe peer 0 id failed

unfoldable pub tid_peer : ℕ → ℤ → ℤ → ℕ → Tids → ℕ × Tids
unfolding tid_csi
tid_peer fe peer csi id t =
    let failed : Tids = record t { peer_fe_invalid = suc t.peer_fe_invalid } in
    if pos_part peer == 0
    then (if user_session_id_valid id then tid_fail failed else tid_csi fe 0 csi id failed)
    else tid_csi fe (pos_part peer) csi id t

-- set_tid_local (peer_fe, id)
unfoldable pub set_tid_local : ℤ → ℤ → ℤ → ℕ → Tids → ℕ × Tids
unfolding tid_peer
set_tid_local fe csi peer id t =
    let failed : Tids = record t { conf_get_fe_number_fail = suc t.conf_get_fe_number_fail } in
    if pos_part fe == 0
    then (if user_session_id_valid id then tid_fail failed else tid_peer 0 peer csi id failed)
    else tid_peer (pos_part fe) peer csi id t

-- The session id in a local TID, as the receivers of an answer read it.
unfoldable pub us_id_of : ℕ → ℕ
us_id_of tid = bit_and tid mask_tid_cc
