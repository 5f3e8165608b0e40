-- ===== src/Proxy/Accept.antt =====
-- The sequences of records that the program accepts.
-- The records up to the first that may not follow have been processed, and no more.
use code_snippets.Proxy.History.{
  rows_of, proceeds, process_record-Stepped, stops, rows, Stepped, is_none, Agrees, accepted,
  may_follow, kinds,
}
use code_snippets.Proxy.Main.{
  process_record, next_line, after, strip_crlf, Step, Error, initial, process_line, Transmission,
  process_lines,
}
use code_snippets.Proxy.Records.{kind_of, Kind}
use code_snippets.Prelude.{
  ◌≡◌, ◌∷◌, ◌∙◌, ◌==◌, ◌+◌, ℕ, true, take, sym, suc, refl, length, false, arith, ap, [], Option,
  List,
}

pub record Accepts (h ks : List Kind) (t : Transmission) (r : Option Error × Transmission)
    : Type 0 where
  pub ended : is_none r.0 ≡ (accepted h ks == length ks)
  pub line : r.1.line ≡ accepted h ks + t.line
  pub written : length r.1.output ≡ rows (take (accepted h ks) ks) + length t.output

accepted_next :
    (k : Kind) (h ks : List Kind)
    → may_follow k h ≡ true
    → accepted h (k ∷ ks) ≡ suc (accepted (k ∷ h) ks)
accepted_next k h ks m = rw m refl

accepted_none : (k : Kind) (h ks : List Kind) → may_follow k h ≡ false → accepted h (k ∷ ks) ≡ 0
accepted_none k h ks m = rw m refl

suc_test : (m n : ℕ) → (m == n) ≡ (suc m == suc n)
suc_test m n = ground arith

zero_test : (n : ℕ) → false ≡ (0 == suc n)
zero_test n = ground arith

after-Accepts :
    (k : Kind) (h ks : List Kind) (t : Transmission) (r : Step)
    (f : Transmission → Option Error × Transmission)
    → Stepped k h t r
    → ((u : Transmission) → Agrees (k ∷ h) u → Accepts (k ∷ h) ks u (f u))
    → Accepts h (k ∷ ks) t (after t (next_line r) f)
after-Accepts k h ks t _ f (stops e m) g =
    let a = accepted_none k h ks m in
    record {
      ended = zero_test (length ks) ∙ ap (λ n. n == suc (length ks)) (sym a);
      line = omega (arith, a);
      written =
          let same : length t.output ≡ 0 + length t.output = omega arith in
          same ∙ ap (λ n. rows (take n (k ∷ ks)) + length t.output) (sym a);
    }
after-Accepts k h ks t _ f (proceeds u m a l o) g =
    let v : Transmission = record u { line = suc u.line } in
    let r =
      g v
        (record { solicitor = a.solicitor; cusip = a.cusip; client = a.client; total = a.total }) in
    let n = accepted_next k h ks m in
    record {
      ended = r.ended ∙ suc_test _ _ ∙ ap (λ i. i == suc (length ks)) (sym n);
      line = omega (arith, r.line, l, n);
      written =
          let more : length (f v).1.output
              ≡ rows_of k + rows (take (accepted (k ∷ h) ks) ks) + length t.output =
            omega (arith, r.written, o) in
          more ∙ ap (λ i. rows (take i (k ∷ ks)) + length t.output) (sym n);
    }

process_lines-Accepts :
    (yy : List ℕ) (ls : List (List ℕ)) (h : List Kind) (t : Transmission)
    → Agrees h t
    → Accepts h (kinds ls) t (process_lines yy ls t)
unfolding process_lines process_line kinds
process_lines-Accepts yy [] h t a = record {
  ended = refl;
  line = omega arith;
  written = omega arith;
}
process_lines-Accepts yy (l ∷ ls) h t a =
    let line = strip_crlf l in
    after-Accepts (kind_of line) h (kinds ls) t (process_record yy (kind_of line) line t)
      (process_lines yy ls) (process_record-Stepped yy (kind_of line) line h t a)
      (λ u b. process_lines-Accepts yy ls (kind_of line ∷ h) u b)

-- The program ends without an error if and only if every record may follow those before it; it has
-- then, and where it stops with an error, processed the records up to the first that may not
-- follow, its line number is that of the next line, and it has written a row for each record of
-- voting details and of director exceptions among them.
pub program-Accepts :
    (yy : List ℕ) (ls : List (List ℕ)) → Accepts [] (kinds ls) initial (process_lines yy ls initial)
program-Accepts yy ls =
    process_lines-Accepts yy ls [] initial
      (record { solicitor = refl; cusip = refl; client = refl; total = refl })
