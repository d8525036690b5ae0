-- ===== src/Tests/Sources.antt =====
-- The data sources of a driver manager at a concrete input.
use exodbc.Prelude.{ℕ, ◌-◌, ◌≡◌, refl, sym, Option, none, some, List, [], ◌∷◌, arith, length}
use exodbc.Prelude.Texts.{Text, txt}
use exodbc.Odbc.{
  Driver, Ret, Reply, World, success, no_data, fetch_first, fetch_next, sql_data_sources, ok,
}
use exodbc.SqlTypes.{sql_integer}
use exodbc.Handle.{}
use exodbc.Environment.{new_environment, Environment}
use exodbc.Environment.Sources.{list_data_sources, DataSource, all_sources}
use exodbc.Environment.Sources.Loops.{first_bytes, head_of, left, Answers, Lists}
use mathlib.Core.Path.{subst}
use exodbc.Environment.Sources.Listed.{list_data_sources-all}

abbrev two_sources : List DataSource
two_sources =
    record { dsn = txt "trac"; description = txt "tickets" }
    ∷ record { dsn = txt "hr"; description = txt "the persons of the company" }
    ∷ []

-- The reply for a source, or for none.
abbrev found_ret : Option DataSource → Ret
found_ret none = no_data
found_ret (some s) = success

abbrev found_length : Option DataSource → Option ℕ
found_length none = none
found_length (some s) = some (length s.description)

abbrev found_dsn : Option DataSource → Text
found_dsn none = []
found_dsn (some s) = s.dsn

abbrev found_description : ℕ → Option DataSource → Text
found_description n none = []
found_description n (some s) = first_bytes (n - 1) s.description

abbrev reply_for : ℕ → Option DataSource → Reply
reply_for n s = record {
  ret = found_ret s;
  out = found_length s;
  text = found_dsn s;
  description = found_description n s;
  sql_type = sql_integer;
  diag = [];
}

abbrev head_left : Option (List DataSource) → Option DataSource
head_left none = none
head_left (some r) = head_of r

abbrev listing_driver : Driver
listing_driver events (sql_data_sources h fetch_next n) =
    reply_for n (head_left (left fetch_first two_sources events))
listing_driver events (sql_data_sources h begin n) = reply_for n (head_of two_sources)
listing_driver events c = reply_for 0 none

reply_for-Answers : (n : ℕ) (s : Option DataSource) → Answers s n (reply_for n s)
reply_for-Answers n none = refl
reply_for-Answers n (some s) = (refl, refl, refl, refl)

listing_driver-Lists : Lists listing_driver fetch_first two_sources
listing_driver-Lists = record {
  begins = λ events h n. reply_for-Answers n (head_of two_sources);
  goes_on = λ events h n r e.
      subst (λ t. Answers (head_of r) n (reply_for n (head_left t))) (sym e)
        (reply_for-Answers n (head_of r));
}

abbrev allocated_environment : World Environment
allocated_environment = record {
  self = record (new_environment) { h_env = record { handle = some 1; parent = none } };
  trace = [];
}

list_data_sources-all_example :
    (list_data_sources listing_driver 2 all_sources allocated_environment).0 ≡ ok (some two_sources)
list_data_sources-all_example =
    list_data_sources-all listing_driver all_sources two_sources 2 allocated_environment
      listing_driver-Lists refl (ground arith)
