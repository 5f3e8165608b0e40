-- ===== src/Proxy/Main.antt =====
-- The loop of main in ProxyTransmission.c over the lines of its input.
use code_snippets.Proxy.Records.{
  total_fields, director_fields, empty_director_exception_total, empty_voting_detail, voting_fields,
  client_fields, cusip_fields, solicitor_fields, Kind, empty_total, kind_of,
}
use code_snippets.Proxy.{delimit, string}
use code_snippets.Prelude.{
  ◌∷◌, ◌||◌, ◌==◌, ◌-◌, ◌++◌, ◌&&◌, ℕ, true, suc, some, set, none, length, leb, if◌then◌else◌,
  get_or, false, [], Option, List, Bool,
}

pub record Flag : Type 0 where
  pub solicitor : Bool
  pub cusip : Bool
  pub client : Bool
  pub total : Bool

-- PROXY_TRANSMISSION, and the rows that have been written to the output. ibuffer and obuffer are
-- cleared after each line.
pub record Transmission : Type 0 where
  pub flag : Flag
  pub line : ℕ
  pub solicitor : List ℕ
  pub cusip : List ℕ
  pub client : List ℕ
  pub total : List ℕ
  pub output : List (List ℕ)

pub data Error : Type 0 where
  multiple_solicitor no_solicitor no_cusip no_client multiple_total unrecognized_id : Error

-- A line ends the program with an error or leaves the next state.
pub data Step : Type 0 where
  exit : Error → Step
  next : Transmission → Step

abbrev pub initial : Transmission
initial = record {
  flag = record { solicitor = false; cusip = false; client = false; total = false };
  line = 1;
  solicitor = [];
  cusip = [];
  client = [];
  total = [];
  output = [];
}

-- Clear the char `j` before the end of the string, whose length is `i`, if it is CR or LF. The byte
-- before the line is pt.flag.total, which is neither.
unfoldable pub strip_at : ℕ → ℕ → List ℕ → List ℕ
strip_at i j line =
    let c = get_or line (i - j) 0 in
    if leb j i && (c == 13 || c == 10) then set line (i - j) 0 else line

-- Strip trailing CRLF.
unfoldable pub strip_crlf : List ℕ → List ℕ
unfolding strip_at
strip_crlf line = let i = length (string line) in strip_at i 2 (strip_at i 1 line)

-- What the first three %s and the total of a row print.
unfoldable pub row_start : Transmission → List ℕ
unfolding string
row_start t =
    string t.solicitor
    ++ (if t.flag.total then string t.total else empty_total)
    ++ string t.cusip
    ++ string t.client

abbrev pub write_row : List ℕ → Transmission → Transmission
write_row row t = record t { output = t.output ++ row ∷ [] }

-- ++pt.line
abbrev pub next_line : Step → Step
next_line (exit e) = exit e
next_line (next t) = next (record t { line = suc t.line })

-- A step and what is done after it.
abbrev pub after :
    Transmission → Step → (Transmission → Option Error × Transmission) → Option Error × Transmission
after t (exit e) k = (some e, t)
after t (next u) k = k u

module _ (yy : List ℕ) where
  -- A case of the switch: the guard on the flags, delimit, and the flags or the row.
  unfoldable pub process_record : Kind → List ℕ → Transmission → Step
  unfolding delimit row_start
  process_record Kind.solicitor line t =
      if t.flag.solicitor
      then exit multiple_solicitor
      else next (record t {
        solicitor = delimit line yy solicitor_fields;
        flag = record t.flag { solicitor = true };
      })
  process_record Kind.cusip line t =
      if t.flag.solicitor
      then next (record t {
        cusip = delimit line yy cusip_fields;
        flag = record t.flag { cusip = true; client = false };
      })
      else exit no_solicitor
  process_record Kind.client line t =
      if t.flag.cusip
      then next (record t {
        client = delimit line yy client_fields;
        flag = record t.flag { client = true };
      })
      else exit no_cusip
  process_record Kind.initial_voting line t =
      if t.flag.client
      then next (
          write_row
            (row_start t
              ++ string (delimit line yy voting_fields)
              ++ empty_voting_detail
              ++ empty_director_exception_total)
            t)
      else exit no_client
  process_record Kind.revised_voting line t =
      if t.flag.client
      then next (
          write_row
            (row_start t
              ++ empty_voting_detail
              ++ string (delimit line yy voting_fields)
              ++ empty_director_exception_total)
            t)
      else exit no_client
  process_record Kind.director line t =
      if t.flag.client
      then next (
          write_row
            (row_start t
              ++ empty_voting_detail
              ++ empty_voting_detail
              ++ string (delimit line yy director_fields))
            t)
      else exit no_client
  process_record Kind.total line t =
      if t.flag.total
      then exit multiple_total
      else next
          (record t { total = delimit line yy total_fields; flag = record t.flag { total = true } })
  process_record Kind.unrecognized line t = exit unrecognized_id

  unfoldable pub process_line : List ℕ → Transmission → Step
  unfolding process_record strip_crlf kind_of
  process_line ibuffer t =
      let line = strip_crlf ibuffer in next_line (process_record (kind_of line) line t)

  -- The loop: the error that ends it, or none, and the last state.
  unfoldable pub process_lines : List (List ℕ) → Transmission → Option Error × Transmission
  unfolding process_line
  process_lines [] t = (none, t)
  process_lines (l ∷ ls) t = after t (process_line l t) (process_lines ls)
