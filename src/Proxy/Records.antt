-- ===== src/Proxy/Records.antt =====
-- The records of ProxyTransmission.c: what a line's ID says, and the columns.
-- A column of chars, one that ends with a sign, and a date.
use code_snippets.BigInt.Text.{atoi}
use code_snippets.Proxy.{string, delimiter, Field}
use code_snippets.Prelude.Int.{pos_part}
use code_snippets.Prelude.{
  ◌∷◌, ◌||◌, ◌==◌, ◌&&◌, ℕ, true, take, replicate, leb, if◌then◌else◌, get_or, false, drop, [],
  List, Bool,
}

abbrev plain : ℕ → Field
plain n = record { length = n; trailing_sign = false; date = false }

abbrev signed : ℕ → Field
signed n = record { length = n; trailing_sign = true; date = false }

abbrev dated : ℕ → Field
dated n = record { length = n; trailing_sign = false; date = true }

abbrev pub solicitor_fields : List Field
solicitor_fields =
    plain 3 ∷ plain 6 ∷ plain 5 ∷ plain 40 ∷ dated 6 ∷ plain 6 ∷ plain 3 ∷ plain 7 ∷ plain 4 ∷ []

abbrev pub cusip_fields : List Field
cusip_fields =
    plain 3
    ∷ plain 2
    ∷ plain 9
    ∷ plain 1
    ∷ plain 33
    ∷ plain 7
    ∷ plain 6
    ∷ dated 6
    ∷ dated 6
    ∷ dated 6
    ∷ dated 1
    ∷ []

abbrev pub client_fields : List Field
client_fields =
    plain 3 ∷ plain 2 ∷ plain 3 ∷ plain 10 ∷ plain 20 ∷ plain 34 ∷ plain 5 ∷ plain 3 ∷ []

abbrev pub voting_fields : List Field
voting_fields =
    plain 1
    ∷ plain 2
    ∷ plain 2
    ∷ plain 3
    ∷ plain 10
    ∷ signed 15
    ∷ plain 1
    ∷ signed 15
    ∷ signed 15
    ∷ signed 15
    ∷ plain 1
    ∷ []

abbrev pub director_fields : List Field
director_fields = plain 1 ∷ plain 2 ∷ plain 3 ∷ plain 20 ∷ plain 9 ∷ signed 15 ∷ plain 30 ∷ []

abbrev pub total_fields : List Field
total_fields = plain 3 ∷ plain 6 ∷ plain 9 ∷ plain 62 ∷ []

-- EMPTY_VOTING_DETAIL, EMPTY_DIRECTOR_EXCEPTION_TOTAL and EMPTY_TOTAL
abbrev pub empty_voting_detail : List ℕ
empty_voting_detail = replicate 11 delimiter

abbrev pub empty_director_exception_total : List ℕ
empty_director_exception_total = replicate 7 delimiter

abbrev pub empty_total : List ℕ
empty_total = replicate 4 delimiter

-- The kinds of record, and a line with an ID that is not recognized.
pub data Kind : Type 0 where
  solicitor cusip client initial_voting revised_voting director total unrecognized : Kind

-- The second and third char of a line are these.
abbrev pub has_id : ℕ → ℕ → List ℕ → Bool
has_id a b line = get_or line 1 0 == a && (get_or line 2 0 == b)

-- The number between 1 and `most` that atoi reads in the second and third char.
unfoldable pub has_number : ℕ → List ℕ → Bool
unfolding atoi string
has_number most line =
    let i = pos_part (atoi (string (take 2 (drop 1 line)))) in leb 1 i && leb i most

-- The cases of the switch, each of which falls through to the next if its test fails.
abbrev pub case_9 : List ℕ → Kind
case_9 line = if has_id 48 48 line then total else unrecognized

unfoldable pub case_5 : List ℕ → Kind
unfolding has_number
case_5 line = if has_number 40 line then director else case_9 line

unfoldable pub case_3 : List ℕ → Kind
unfolding has_number case_5
case_3 line =
    if has_number 20 line
    then (if get_or line 0 0 == 51 then initial_voting else revised_voting)
    else case_5 line

unfoldable pub case_2 : List ℕ → Kind
unfolding case_3
case_2 line = if has_id 48 48 line then cusip else if has_id 53 48 line then client else case_3 line

unfoldable pub case_1 : List ℕ → Kind
unfolding case_2
case_1 line = if has_id 48 48 line then solicitor else case_2 line

-- The switch on the line's first char.
unfoldable pub kind_of : List ℕ → Kind
unfolding case_1 case_2 case_3 case_5
kind_of line =
    let c = get_or line 0 0 in
    if c == 49
    then case_1 line
    else if c == 50
    then case_2 line
    else if c == 51 || c == 52
    then case_3 line
    else if c == 53
    then case_5 line
    else if c == 57
    then case_9 line
    else unrecognized
