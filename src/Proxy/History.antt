-- ===== src/Proxy/History.antt =====
-- What may follow the records so far, and the flags that say so.
-- What the records so far, the latest first, hold; a CUSIP record ends what its client began.
use code_snippets.Proxy.Main.{
  unrecognized_id, write_row, exit, next, Step, Transmission, strip_crlf, process_record, Error,
}
use code_snippets.Proxy.Records.{kind_of, Kind}
use code_snippets.Prelude.{
  length-append, ap, ◌≡◌, ◌∷◌, ◌∙◌, ◌+◌, ℕ, true, sym, suc, some, refl, not, none, length,
  if◌then◌else◌, false, arith, [], Option, List, Bool,
}

abbrev pub has_solicitor : List Kind → Bool
has_solicitor [] = false
has_solicitor (Kind.solicitor ∷ ks) = true
has_solicitor (_ ∷ ks) = has_solicitor ks

abbrev pub has_cusip : List Kind → Bool
has_cusip [] = false
has_cusip (Kind.cusip ∷ ks) = true
has_cusip (_ ∷ ks) = has_cusip ks

abbrev pub has_client : List Kind → Bool
has_client [] = false
has_client (Kind.client ∷ ks) = true
has_client (Kind.cusip ∷ ks) = false
has_client (_ ∷ ks) = has_client ks

abbrev pub has_total : List Kind → Bool
has_total [] = false
has_total (Kind.total ∷ ks) = true
has_total (_ ∷ ks) = has_total ks

-- A record that may follow these.
abbrev pub may_follow : Kind → List Kind → Bool
may_follow Kind.solicitor ks = not (has_solicitor ks)
may_follow Kind.cusip ks = has_solicitor ks
may_follow Kind.client ks = has_cusip ks
may_follow Kind.initial_voting ks = has_client ks
may_follow Kind.revised_voting ks = has_client ks
may_follow Kind.director ks = has_client ks
may_follow Kind.total ks = not (has_total ks)
may_follow Kind.unrecognized ks = false

-- The number of records, after those so far, up to the first that may not follow.
abbrev pub accepted : List Kind → List Kind → ℕ
accepted h [] = 0
accepted h (k ∷ ks) = let rest = accepted (k ∷ h) ks in if may_follow k h then suc rest else 0

abbrev pub rows_of : Kind → ℕ
rows_of Kind.initial_voting = 1
rows_of Kind.revised_voting = 1
rows_of Kind.director = 1
rows_of _ = 0

abbrev pub rows : List Kind → ℕ
rows [] = 0
rows (k ∷ ks) = rows_of k + rows ks

unfoldable pub kinds : List (List ℕ) → List Kind
unfolding kind_of strip_crlf
kinds [] = []
kinds (l ∷ ls) = kind_of (strip_crlf l) ∷ kinds ls

abbrev pub is_none : Option Error → Bool
is_none none = true
is_none (some e) = false

-- The flags say what the records so far hold.
pub record Agrees (ks : List Kind) (t : Transmission) : Type 0 where
  pub solicitor : t.flag.solicitor ≡ has_solicitor ks
  pub cusip : t.flag.cusip ≡ has_cusip ks
  pub client : t.flag.client ≡ has_client ks
  pub total : t.flag.total ≡ has_total ks

pub data Stepped (k : Kind) (ks : List Kind) (t : Transmission) : Step → Type 0 where
  proceeds :
      (u : Transmission)
      → may_follow k ks ≡ true
      → Agrees (k ∷ ks) u
      → u.line ≡ t.line
      → length u.output ≡ rows_of k + length t.output
      → Stepped k ks t (next u)
  stops : (e : Error) → may_follow k ks ≡ false → Stepped k ks t (exit e)

-- A step that needs a flag, and one that needs it clear.
needs :
    (b : Bool) (k : Kind) (ks : List Kind) (t u : Transmission) (e : Error)
    → b ≡ may_follow k ks
    → Agrees (k ∷ ks) u
    → u.line ≡ t.line
    → length u.output ≡ rows_of k + length t.output
    → Stepped k ks t (if b then next u else exit e)
needs true k ks t u e m a l o = proceeds u (sym m) a l o
needs false k ks t u e m a l o = stops e (sym m)

needs_not :
    (b : Bool) (k : Kind) (ks : List Kind) (t u : Transmission) (e : Error)
    → not b ≡ may_follow k ks
    → Agrees (k ∷ ks) u
    → u.line ≡ t.line
    → length u.output ≡ rows_of k + length t.output
    → Stepped k ks t (if b then exit e else next u)
needs_not false k ks t u e m a l o = proceeds u (sym m) a l o
needs_not true k ks t u e m a l o = stops e (sym m)

-- A step that needs a client and writes a row.
writes :
    (k : Kind) (ks : List Kind) (t : Transmission) (row : List ℕ) (e : Error)
    → may_follow k ks ≡ has_client ks
    → rows_of k ≡ 1
    → Agrees ks t
    → Agrees (k ∷ ks) t
    → Stepped k ks t (if t.flag.client then next (write_row row t) else exit e)
writes k ks t row e m r a b =
    needs t.flag.client k ks t (write_row row t) e (a.client ∙ sym m)
      (record { solicitor = b.solicitor; cusip = b.cusip; client = b.client; total = b.total }) refl
      (omega (arith, length-append t.output (row ∷ []), r))

pub process_record-Stepped :
    (yy : List ℕ) (k : Kind) (line : List ℕ) (ks : List Kind) (t : Transmission)
    → Agrees ks t
    → Stepped k ks t (process_record yy k line t)
unfolding process_record
process_record-Stepped yy Kind.solicitor line ks t a =
    needs_not t.flag.solicitor Kind.solicitor ks t _ _ (ap not a.solicitor)
      (record { solicitor = refl; cusip = a.cusip; client = a.client; total = a.total }) refl
      (omega arith)
process_record-Stepped yy Kind.cusip line ks t a =
    needs t.flag.solicitor Kind.cusip ks t _ _ a.solicitor
      (record { solicitor = a.solicitor; cusip = refl; client = refl; total = a.total }) refl
      (omega arith)
process_record-Stepped yy Kind.client line ks t a =
    needs t.flag.cusip Kind.client ks t _ _ a.cusip
      (record { solicitor = a.solicitor; cusip = a.cusip; client = refl; total = a.total }) refl
      (omega arith)
process_record-Stepped yy Kind.initial_voting line ks t a =
    writes Kind.initial_voting ks t _ _ refl refl a
      (record { solicitor = a.solicitor; cusip = a.cusip; client = a.client; total = a.total })
process_record-Stepped yy Kind.revised_voting line ks t a =
    writes Kind.revised_voting ks t _ _ refl refl a
      (record { solicitor = a.solicitor; cusip = a.cusip; client = a.client; total = a.total })
process_record-Stepped yy Kind.director line ks t a =
    writes Kind.director ks t _ _ refl refl a
      (record { solicitor = a.solicitor; cusip = a.cusip; client = a.client; total = a.total })
process_record-Stepped yy Kind.total line ks t a =
    needs_not t.flag.total Kind.total ks t _ _ (ap not a.total)
      (record { solicitor = a.solicitor; cusip = a.cusip; client = a.client; total = refl }) refl
      (omega arith)
process_record-Stepped yy Kind.unrecognized line ks t a = stops unrecognized_id refl
