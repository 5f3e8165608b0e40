-- ===== src/Dsm/Ccdb/Tids.antt =====
-- What the receivers of an answer find in a local TID.
use code_snippets.Dsm.Ccdb.{user_session_id_valid, user_session_size}
use code_snippets.Prelude.Int.{negsuc, ℤ, pos_part, pos}
use code_snippets.Dsm.Ccdb.Tid.{
  tid_peer, tid_csi, tid_pack, mask_tid_cc, Tids, set_tid_local, us_id_of, pack,
}
use code_snippets.Prelude.{
  leb, inr, inl, Bool-cases, ◌≤◌, ◌≢◌, ◌==◌, true, suc, refl, false, ◌≡◌, ◌^◌, ◌<◌, ◌+◌, ◌*◌, ◌%◌,
  ℕ, arith,
}
use code_snippets.Prelude.Bits.{bit_and-mask, bit_or-below, zero-bit_or}

pack-layout :
    (fe peer csi cc : ℕ)
    → fe < 16
    → peer < 16
    → csi < 2
    → cc < 2 ^ 23
    → pack fe peer csi cc ≡ fe * 2 ^ 28 + peer * 2 ^ 24 + csi * 2 ^ 23 + cc
unfolding pack
pack-layout fe peer csi cc h k l m =
    let a : fe * 2 ^ 28 % 2 ^ 32 ≡ fe * 2 ^ 28 = omega arith in
    let b : peer * 2 ^ 24 % 2 ^ 32 ≡ peer * 2 ^ 24 = omega arith in
    let c : csi * 2 ^ 23 % 2 ^ 32 ≡ csi * 2 ^ 23 = omega arith in
    let d : cc * 2 ^ 0 % 2 ^ 32 ≡ cc = omega arith in
    let first = bit_or-below 28 fe (peer * 2 ^ 24) (omega arith) in
    let two : fe * 2 ^ 28 + peer * 2 ^ 24 ≡ (fe * 16 + peer) * 2 ^ 24 = omega arith in
    let second = bit_or-below 24 (fe * 16 + peer) (csi * 2 ^ 23) (omega arith) in
    let three : (fe * 16 + peer) * 2 ^ 24 + csi * 2 ^ 23 ≡ (fe * 32 + peer * 2 + csi) * 2 ^ 23 =
      omega arith in
    let third = bit_or-below 23 (fe * 32 + peer * 2 + csi) cc m in
    rw (a, b, c, d, zero-bit_or (fe * 2 ^ 28), first, two, second, three, third) (omega arith)

-- A TID's last 23 digits.
us_id-lem :
    (fe peer csi cc : ℕ)
    → fe < 16
    → peer < 16
    → csi < 2
    → cc < 2 ^ 23
    → us_id_of (pack fe peer csi cc) ≡ cc
unfolding us_id_of
us_id-lem fe peer csi cc h k l m =
    omega (arith, bit_and-mask 23 (pack fe peer csi cc), pack-layout fe peer csi cc h k l m)

-- For a session, with the numbers of the FE, the peer FE and the CSI in the width of their fields,
-- set_tid_local succeeds, and the receiver of an answer finds the session's id in the local TID.
-- The TID holds the other numbers in their fields, and the counter of other ids does not move.
pub set_tid_local-session :
    (fe peer csi id : ℕ) (t : Tids)
    → 0 < fe
    → fe < 16
    → 0 < peer
    → peer < 16
    → csi < 2
    → user_session_id_valid id ≡ true
    → let (tid, t') = set_tid_local (pos fe) (pos csi) (pos peer) id t in
      (us_id_of tid ≡ id)
      × (tid ≡ fe * 2 ^ 28 + peer * 2 ^ 24 + csi * 2 ^ 23 + id)
      × (t' ≡ record t { set_tid_local_succ = suc t.set_tid_local_succ })
unfolding set_tid_local
set_tid_local-session fe peer csi id t f f' p p' c v =
    let in_fe : (fe == 0) ≡ false = ground arith in
    let in_peer : (peer == 0) ≡ false = ground arith in
    let below : id < 2 ^ 23 = ground arith in
    rw (in_fe, in_peer, v)
      (us_id-lem fe peer csi id f' p' c below, pack-layout fe peer csi id f' p' c below, refl)

-- The values that non_us_id takes.
abbrev pub IsOther : ℕ → Type 0
IsOther n = (user_session_size < n) × (n ≤ mask_tid_cc)

-- A TID without a session, made from these values of non_us_id and the counter of successes.
abbrev Other : ℕ → ℕ → ℕ × Tids → Type 0
Other n succ (tid, t) =
    (us_id_of tid ≡ n)
    × (user_session_id_valid (us_id_of tid) ≡ false)
    × (t.set_tid_local_succ ≡ suc succ)
    × IsOther t.non_us_id
    × (t.non_us_id ≢ n)

module _ (id : ℕ) (v : user_session_id_valid id ≡ false) where
  pack-Other :
      (fe peer csi : ℕ) (t : Tids)
      → fe < 16
      → peer < 16
      → csi < 2
      → IsOther t.non_us_id
      → Other t.non_us_id t.set_tid_local_succ (tid_pack fe peer csi id t)
  unfolding tid_pack
  pack-Other fe peer csi t f p c (above, within) =
      let found = us_id-lem fe peer csi t.non_us_id f p c (omega arith) in
      let past : leb t.non_us_id user_session_size ≡ false = ground arith in
      let none_valid : user_session_id_valid t.non_us_id ≡ false = ground arith in
      rw v (found, rw found none_valid, refl, ground arith, ground arith)

  csi-Other :
      (fe peer : ℕ) (csi : ℤ) (t : Tids)
      → fe < 16
      → peer < 16
      → pos_part csi < 2
      → IsOther t.non_us_id
      → Other t.non_us_id t.set_tid_local_succ (tid_csi fe peer csi id t)
  unfolding tid_csi
  csi-Other fe peer (pos csi) t f p c o = pack-Other fe peer csi t f p c o
  csi-Other fe peer (negsuc csi) t f p c o =
      let failed : Tids = record t { conf_get_csi_number_fail = suc t.conf_get_csi_number_fail } in
      let packed = pack-Other fe peer 0 failed f p (omega arith) o in rw v (rw v at packed)

  peer-Other :
      (fe : ℕ) (peer csi : ℤ) (t : Tids)
      → fe < 16
      → pos_part peer < 16
      → pos_part csi < 2
      → IsOther t.non_us_id
      → Other t.non_us_id t.set_tid_local_succ (tid_peer fe peer csi id t)
  unfolding tid_peer
  peer-Other fe peer csi t f p c o = elim (Bool-cases (pos_part peer == 0)) [
    | inl e ↦
        rw (e, v)
          (csi-Other fe 0 csi (record t { peer_fe_invalid = suc t.peer_fe_invalid }) f (omega arith)
            c o)
    | inr e ↦ rw e (csi-Other fe (pos_part peer) csi t f p c o)
  ]

-- Without a session, and with numbers of the FE, the peer FE and the CSI that are not above the
-- width of their fields, set_tid_local succeeds, also where the FE, the peer FE or the CSI is not
-- known: the receiver finds in the TID the counter non_us_id, which is no session's id, and the
-- counter moves on to another such value.
pub set_tid_local-IsOther :
    (fe csi peer : ℤ) (id : ℕ) (t : Tids)
    → pos_part fe < 16
    → pos_part peer < 16
    → pos_part csi < 2
    → user_session_id_valid id ≡ false
    → IsOther t.non_us_id
    → let (tid, t') = set_tid_local fe csi peer id t in
      (us_id_of tid ≡ t.non_us_id)
      × (user_session_id_valid (us_id_of tid) ≡ false)
      × (t'.set_tid_local_succ ≡ suc t.set_tid_local_succ)
      × IsOther t'.non_us_id
      × (t'.non_us_id ≢ t.non_us_id)
unfolding set_tid_local
set_tid_local-IsOther fe csi peer id t f p c v o = elim (Bool-cases (pos_part fe == 0)) [
  | inl e ↦
      let failed : Tids = record t { conf_get_fe_number_fail = suc t.conf_get_fe_number_fail } in
      let packed = peer-Other id v 0 peer csi failed (omega arith) p c o in
      rw (e, v) (rw v at packed)
  | inr e ↦ rw e (peer-Other id v (pos_part fe) peer csi t f p c o)
]
