-- ===== src/Tests/Answering.antt =====
-- A driver that answers, a library of texts, databases and catalogs to test with.
use exodbc.Prelude.{
  ℕ, ◌+◌, ◌-◌, ◌*◌, refl, Bool, true, false, ◌&&◌, ◌||◌, Option, none, some, List, [], ◌∷◌, arith,
  leb, ◌==◌, if◌then◌else◌,
}
use exodbc.Prelude.Texts.{Text, txt}
use exodbc.Odbc.{
  Driver, Ret, Call, Event, DriverLaws, World, success, no_data, sql_fetch, sql_get_env_attr,
  sql_set_env_attr, called,
}
use exodbc.SqlTypes.{sql_integer, v_3}
use exodbc.Buffer.{ℤ, pos}
use exodbc.Handle.{new_handle}
use exodbc.Catalog.{new_database_catalog, DatabaseCatalog}
use exodbc.Catalog.Search.{Names}
use exodbc.Catalog.Escape.{substitute, ReplaceLaws}
use exodbc.Catalog.Ending.{rows_fetched, EndsWithin}
use exodbc.Props.Version.{TextLibrary}
use exodbc.Database.{new_database, Env, Database, manual_commit}
use exodbc.Database.Life.{IsSound}
use exodbc.Database.Laws.{LetsGo}
use exodbc.Logging.Handler.{Printing}
use exodbc.Environment.Laws.{RemembersVersion}

-- Every call succeeds with a value; there are two rows to fetch; an attribute of the environment has
-- the value that was set last.
abbrev last_version : List Event → Option ℕ
last_version [] = none
last_version (called (sql_set_env_attr h a v) ∷ r) = some v
last_version (_ ∷ r) = last_version r

abbrev answered : List Event → Call → Option ℕ
answered events (sql_get_env_attr h a) = last_version events
answered events _ = some 1

abbrev fetch_reply : List Event → Call → Ret
fetch_reply events (sql_fetch h) = if leb 2 (rows_fetched events) then no_data else success
fetch_reply events _ = success

abbrev pub answering_driver : Driver
answering_driver events c = record {
  ret = fetch_reply events c;
  out = answered events c;
  text = txt "03.80";
  description = [];
  sql_type = sql_integer;
  diag = [];
}

pub answering_driver-DriverLaws : DriverLaws answering_driver
answering_driver-DriverLaws = record { alloc_out = λ tr t p. refl }

pub answering_driver-EndsWithin : EndsWithin answering_driver 2
answering_driver-EndsWithin = record { ends = λ tr h k. ground (arith, k) }

pub answering_driver-LetsGo : LetsGo answering_driver
answering_driver-LetsGo = record {
  ends = λ tr h. refl;
  frees = λ tr t h. refl;
  disconnects = λ tr h. refl;
}

pub answering_driver-RemembersVersion : RemembersVersion answering_driver
answering_driver-RemembersVersion = record { reads_back = λ tr h v k. refl }

-- The parts of a text between its dots.
abbrev add_byte : ℕ → List Text → List Text
add_byte c [] = (c ∷ []) ∷ []
add_byte c (p ∷ r) = (c ∷ p) ∷ r

abbrev split_dots : Text → List Text
split_dots [] = [] ∷ []
split_dots (c ∷ s) = let rest = split_dots s in if c == b'.' then [] ∷ rest else add_byte c rest

abbrev read_digits : ℕ → Text → Option ℤ
read_digits n [] = some (pos n)
read_digits n (c ∷ s) =
    let rest = read_digits (n * 10 + (c - b'0')) s in
    if leb b'0' c && leb c b'9' then rest else none

abbrev cast_digits : Text → Option ℤ
cast_digits [] = none
cast_digits (c ∷ s) = read_digits 0 (c ∷ s)

abbrev begins_with : Text → Text → Bool
begins_with [] s = true
begins_with (c ∷ p) [] = false
begins_with (c ∷ p) (x ∷ s) = c == x && begins_with p s

abbrev has_part : Text → Text → Bool
has_part [] p = begins_with p []
has_part (c ∷ s) p = begins_with p (c ∷ s) || has_part s p

abbrev replace_byte : Text → Text → Text → Text
replace_byte s (c ∷ []) r = substitute c r s
replace_byte s _ r = s

abbrev pub plain_library : TextLibrary
plain_library = record {
  split = split_dots;
  lexical_cast = cast_digits;
  contains = has_part;
  replace_all = replace_byte;
  decimal = λ n. n ∷ [];
  hex = λ n. n ∷ [];
}

pub plain_library-ReplaceLaws : ReplaceLaws plain_library
plain_library-ReplaceLaws = record { replace_all-byte = λ s c r. refl }

pub plain_printing : Printing
plain_printing = record { decimal = λ n. n ∷ []; now = txt "00:00:00"; can_open = λ s. true }

abbrev pub open_catalog : World DatabaseCatalog
open_catalog = record {
  self = record (new_database_catalog) {
    h_dbc = some (some 3);
    h_stmt = record { handle = some 5; parent = some (some 3) };
  };
  trace = [];
}

abbrev pub open_database : World Database
open_database = record {
  self = record (new_database) {
    env = some (record { h_env = some 1; odbc_version = v_3 });
    h_dbc = record { handle = some 3; parent = some (some 1) };
    h_stmt_exec_sql = record { handle = some 4; parent = some (some 3) };
    db_is_open = true;
    commit_mode = manual_commit;
    db_catalog = some open_catalog.self;
  };
  trace = [];
}

pub sample_names : Names
sample_names = record { catalog = none; schema = some (txt "HR"); table = some (txt "PERSON") }

abbrev pub sample_env : Option Env
sample_env = some (record { h_env = some 1; odbc_version = v_3 })

pub new_database-IsSound : IsSound new_database
unfolding IsSound new_database new_handle
new_database-IsSound = (refl, refl)
