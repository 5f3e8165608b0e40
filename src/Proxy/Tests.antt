-- ===== src/Proxy/Tests.antt =====
-- Runs of the proxy transmission.
use code_snippets.Proxy.Accept.{program-Accepts, Accepts}
use code_snippets.Proxy.Columns.{delimit-columns, width_of, columns, IsWide, IsPlain, IsFull}
use code_snippets.Proxy.{delimit, string}
use code_snippets.Proxy.Records.{
  director, cusip_fields, initial_voting, client, cusip, voting_fields, revised_voting, solicitor,
  kind_of,
}
use code_snippets.Proxy.Main.{strip_crlf, no_client, initial, process_lines}
use code_snippets.Proxy.History.{kinds}
use code_snippets.Prelude.{
  ◌≡◌, ◌∷◌, ◌++◌, ℕ, zero, suc, some, replicate, refl, length, arith, [], List,
}

abbrev yy : List ℕ
yy = 50 ∷ 48 ∷ []

-- A line with this ID and as many letters after it.
abbrev record_line : ℕ → ℕ → ℕ → ℕ → List ℕ
record_line a b c n = a ∷ b ∷ c ∷ replicate n 65 ++ 13 ∷ 10 ∷ []

abbrev lines : List (List ℕ)
lines =
    record_line 49 48 48 77
    ∷ record_line 50 48 48 77
    ∷ record_line 50 53 48 77
    ∷ record_line 51 48 49 77
    ∷ record_line 53 52 48 77
    ∷ record_line 50 48 48 77
    ∷ record_line 52 49 48 77
    ∷ []

kinds-lines :
    kinds lines
    ≡ solicitor ∷ cusip ∷ client ∷ initial_voting ∷ director ∷ cusip ∷ revised_voting ∷ []
unfolding kinds
kinds-lines = refl

-- The second CUSIP record has no client.
lines_error : (process_lines yy lines initial).0 ≡ some no_client
unfolding process_lines
lines_error = refl

-- An ID 105 falls through to the voting details, an ID 150 to the client record.
falls_through :
    (kind_of (record_line 49 48 53 77) ≡ revised_voting)
    × (kind_of (record_line 49 53 48 77) ≡ client)
unfolding kind_of
falls_through = (refl, refl)

-- The last column of a CUSIP record of 80 chars, a date of one char, is cut off with its delimiter.
cusip_cut : columns (string (delimit (strip_crlf (record_line 50 48 48 77)) yy cusip_fields)) ≡ 10
unfolding string delimit strip_crlf
cusip_cut = refl

abbrev letters : List ℕ
letters = replicate 80 65

yy-IsFull : IsFull 2 yy
yy-IsFull = record { long = omega arith; clean = (refl, (refl, tt)) }

replicate-IsPlain : (n : ℕ) → IsPlain (replicate n 65)
replicate-IsPlain zero = tt
replicate-IsPlain (suc n) = (refl, replicate-IsPlain n)

letters-IsFull : IsFull (width_of voting_fields) letters
letters-IsFull = record { long = omega arith; clean = replicate-IsPlain 80 }

wide : IsWide voting_fields
wide = (
  omega arith,
  (
    omega arith,
    (
      omega arith,
      (
        omega arith,
        (
          omega arith,
          (
            omega arith,
            (omega arith, (omega arith, (omega arith, (omega arith, (omega arith, tt))))),
          ),
        ),
      ),
    ),
  ),
)

delimit-columns_example : columns (delimit letters yy voting_fields) ≡ length voting_fields
delimit-columns_example = delimit-columns letters yy voting_fields wide yy-IsFull letters-IsFull

program-Accepts_example : Accepts [] (kinds lines) initial (process_lines yy lines initial)
program-Accepts_example = program-Accepts yy lines
