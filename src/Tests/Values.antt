-- ===== src/Tests/Values.antt =====
-- The memory of buffers at concrete inputs.
use exodbc.Prelude.{◌≡◌, refl, true, [], arith}
use exodbc.Prelude.Texts.{txt}
use exodbc.Odbc.{◌>>=◌, World, assertion, out_of_range, ok, raised}
use exodbc.Buffer.{sql_nts, sql_len}
use exodbc.Buffer.Values.{set_elements, set_string, get_string, Memory}
use exodbc.Buffer.Written.{ended, Written, set_elements_outcome}
use exodbc.Buffer.Strings.{set_string-get_string, full_string_lost}

-- A buffer for seven characters and a terminating 0, with a value.
abbrev eight_bytes : World Memory
eight_bytes = record {
  self = record { elements = txt "old text"; capacity = 8; cb = sql_len 8 };
  trace = [];
}

set_elements_outcome_example :
    Written
      (txt "exodbc")
      sql_nts
      true
      (ended sql_nts (txt "exodbc"))
      eight_bytes.self
      []
      (set_elements (txt "exodbc") sql_nts eight_bytes)
set_elements_outcome_example =
    set_elements_outcome (txt "exodbc") sql_nts eight_bytes (ground arith)

set_string-get_string_example :
    ((set_string (txt "exodbc") >>= λ a. get_string) eight_bytes).0 ≡ ok (txt "exodbc")
set_string-get_string_example =
    set_string-get_string (txt "exodbc") eight_bytes (ground arith) refl refl (ground arith)

full_string_lost_example :
    ((set_string (txt "database") eight_bytes).0 ≡ raised assertion)
    × ((get_string (set_string (txt "database") eight_bytes).1).0 ≡ raised out_of_range)
full_string_lost_example = full_string_lost (txt "database") eight_bytes refl refl refl refl refl
