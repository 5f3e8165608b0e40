-- ===== src/Dsm/Context/Copy.antt =====
-- The copies between a message and a session: Proxy-Info AVPs, the Session-Id, and the timer's
-- seconds.
use code_snippets.Dsm.Context.{Proxies}
use code_snippets.Prelude.Int.{ℤ, pos_part, pos, negsuc, neg_part}
use code_snippets.Prelude.{
  ◌^◌, ◌/◌, ◌-◌, ◌+◌, ◌++◌, ◌*◌, ◌%◌, ℕ, zero, take, suc, ltb, if◌then◌else◌, drop, List,
}
use code_snippets.Dsm.Timer.{update}

-- memcpy of the first `n` items of an array.
unfoldable pub copy_items : ℕ → (ℕ → ℤ) → (ℕ → ℤ) → ℕ → ℤ
copy_items n from to i = if ltb i n then from i else to i

-- The first `n` rounds of the loop over the proxies; `j` comes second.
unfoldable pub copy_rounds : ℕ → Proxies → Proxies → Proxies × ℕ
copy_rounds zero from to = (to, 0)
copy_rounds (suc n) from to =
    let (p, j) = copy_rounds n from to in
    (
      record p {
        host = update p.host n (from.host n);
        state_len = update p.state_len n (from.state_len n);
      },
      j + from.state_len n,
    )

-- Proxy-Info AVPs after the loop and the memcpy.
unfoldable pub copy_proxies : Proxies → Proxies → Proxies
unfolding copy_rounds copy_items
copy_proxies from to =
    let (p, j) = copy_rounds from.count from (record to { count = from.count }) in
    record p { states = copy_items j from.states p.states }

-- memcpy of the first `n` bytes of a string.
abbrev pub copy_bytes : ℕ → List ℤ → List ℤ → List ℤ
copy_bytes n from to = take n from ++ drop n to

-- - n
abbrev pub minus : ℕ → ℤ
minus zero = pos 0
minus (suc n) = negsuc n

-- The value of an int assigned to a short.
abbrev pub to_short : ℤ → ℤ
to_short z =
    let r = (pos_part z + (2 ^ 16 - 1) * neg_part z) % 2 ^ 16 in
    if ltb r (2 ^ 15) then pos r else minus (2 ^ 16 - r)

abbrev pub ms_per_sec : ℕ
ms_per_sec = 1000

-- timer * MS_PER_SEC, which fits an int for every short.
unfoldable pub ms_of : ℤ → ℤ
ms_of (pos n) = pos (n * ms_per_sec)
ms_of (negsuc n) = minus (suc n * ms_per_sec)

-- (short) (expiry / MS_PER_SEC); the quotient is rounded to 0.
unfoldable pub sec_of : ℤ → ℤ
sec_of (pos n) = to_short (pos (n / ms_per_sec))
sec_of (negsuc n) = to_short (minus (suc n / ms_per_sec))
