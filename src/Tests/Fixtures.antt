-- ===== src/Tests/Fixtures.antt =====
-- A driver, texts and a table to test with.
use exodbc.Prelude.{
  ℕ, ◌+◌, ◌≡◌, refl, Bool, true, false, Option, none, some, List, [], ◌∷◌, ◌++◌, arith,
  if◌then◌else◌, length, length-append,
}
use exodbc.Prelude.Texts.{Text, txt, text_eq, text_eq_refl, fill, Boost, BoostLaws}
use exodbc.Odbc.{
  sql_scrollable, Driver, Ret, Call, Event, DriverLaws, World, success, no_data, row,
  sql_alloc_handle, sql_get_cursor_scrollable, sql_execute, sql_get_descriptor, ok,
}
use exodbc.Flags.{Flags, no_flags, cf_select, cf_update, cf_insert, cf_primary_key}
use exodbc.SqlTypes.{sql_integer, v_3, my_sql}
use exodbc.TypeMap.{}
use exodbc.TypeMap.Defaults.{default_sql2_buffer_map}
use exodbc.Buffer.{ColumnBuffer, ColumnInfo, pos, long_buffer, sql_null_data}
use exodbc.Handle.{}
use exodbc.Statement.{Db, Statement}
use exodbc.Table.{Columns, Table, Catalog}
use exodbc.Table.Info.{TableInfo}

abbrev written : List Event → Call → Option ℕ
written events (sql_alloc_handle t p) = some (length events)
written events (sql_get_cursor_scrollable h) = some sql_scrollable
written events (sql_get_descriptor h row) = some 7
written events _ = none

-- Every call succeeds.
abbrev pub good_driver : Driver
good_driver events c = record {
  ret = success;
  out = written events c;
  text = [];
  description = [];
  sql_type = sql_integer;
  diag = [];
}

pub good_driver-DriverLaws : DriverLaws good_driver
good_driver-DriverLaws = record { alloc_out = λ tr t p. refl }

-- Every call succeeds, but that nothing is found to execute on.
abbrev executed : Call → Ret
executed (sql_execute h) = no_data
executed _ = success

abbrev pub empty_driver : Driver
empty_driver events c = record {
  ret = executed c;
  out = written events c;
  text = [];
  description = [];
  sql_type = sql_integer;
  diag = [];
}

-- Removes the second text from the end of the first.
unfoldable pub strip : Text → Text → Text
strip [] p = []
strip (c ∷ s) p = let rest = c ∷ strip s p in if text_eq (c ∷ s) p then [] else rest

text_eq-length : (s t : Text) → text_eq s t ≡ true → length s ≡ length t
unfolding text_eq
text_eq-length [] [] e = refl
text_eq-length [] (d ∷ t) e = ground arith
text_eq-length (c ∷ s) [] e = ground arith
text_eq-length (c ∷ s) (d ∷ t) e = ground (arith, text_eq-length s t)

strip-suffix : (s : Text) (c : ℕ) (x : Text) → strip (s ++ (c ∷ x)) (c ∷ x) ≡ s
unfolding strip
strip-suffix [] c x = ground (arith, text_eq_refl (c ∷ x))
strip-suffix (a ∷ s) c x = ground (
  arith,
  strip-suffix s c x,
  text_eq-length (a ∷ (s ++ (c ∷ x))) (c ∷ x),
  length-append s (c ∷ x),
)

abbrev pub plain_boost : Boost
plain_boost = record { erase_last = strip; format = fill; iequals = text_eq }

pub plain_boost-BoostLaws : BoostLaws plain_boost
unfolding strip
plain_boost-BoostLaws = record {
  erase_last-empty = λ c x. refl;
  erase_last-suffix = strip-suffix;
  format-fill = λ f args p. refl;
  iequals-refl = text_eq_refl;
}

abbrev pub sample_db : Db
sample_db = record { is_open = true; h_dbc = some 3; dbms = my_sql }

abbrev pub sample_info : TableInfo
sample_info = record {
  table_name = txt "PERSON";
  table_type = txt "TABLE";
  catalog_name = [];
  schema_name = txt "HR";
  dbms = my_sql;
  is_catalog_null = true;
  is_schema_null = false;
}

abbrev pub column : Text → Flags → ColumnBuffer
column name f = record {
  variant = long_buffer;
  cb = sql_null_data;
  flags = f;
  column_size = pos 0;
  decimal_digits = pos 0;
  sql_type = sql_integer;
  query_name = name;
  nr_of_elements = pos 1;
}

-- A key that is selected and inserted, and a column that is updated too.
abbrev pub id_column : ColumnBuffer
id_column = column (txt "ID") (cf_primary_key + cf_select + cf_insert)

abbrev pub age_column : ColumnBuffer
age_column = column (txt "AGE") (cf_select + cf_update + cf_insert)

abbrev pub sample_columns : Columns
sample_columns = (0, id_column) ∷ (1, age_column) ∷ []

-- A statement on a handle that has been prepared.
abbrev pub prepared_statement : Statement
prepared_statement = record {
  h_stmt = some (record { handle = some 5; parent = some (some 3) });
  db = some sample_db;
  is_prepared = true;
  scrollable_cursor = false;
  bound_columns = true;
  bound_params = true;
}

-- A table with two columns: whether it is open, and its access flags.
abbrev pub sample_table : Bool → Flags → Statement → Table
sample_table o f s = record {
  db = some sample_db;
  sql2_buffer_type_map = some (default_sql2_buffer_map v_3);
  initial_table_name = [];
  initial_schema_name = [];
  initial_catalog_name = [];
  initial_type_name = [];
  have_table_info = true;
  table_info = sample_info;
  columns = sample_columns;
  primary_key_column_indexes = [];
  auto_created_columns = false;
  is_open = o;
  table_access_flags = f;
  open_flags = no_flags;
  exec_stmt_select = s;
  exec_stmt_count_where = s;
  exec_stmt_insert = s;
  exec_stmt_update_pk = s;
  exec_stmt_delete_pk = s;
  select_count_result_buffer = none;
}

abbrev pub at_start : {S : Type 0} → S → World S
at_start s = record { self = s; trace = [] }

abbrev pub sample_column_info : Text → ColumnInfo
sample_column_info name = record {
  column_name = name;
  sql_type = sql_integer;
  column_size = pos 10;
  is_column_size_null = false;
  num_prec_radix = pos 10;
  is_num_prec_radix_null = false;
  decimal_digits = pos 0;
  is_decimal_digits_null = false;
  is_nullable = txt "NO";
  is_is_nullable_null = false;
}

-- The catalog of a database with that table.
abbrev pub sample_catalog : Catalog
sample_catalog = record {
  find_one_table = λ name schema catalog kind events. (ok sample_info, events);
  read_column_info = λ i events.
      (ok (sample_column_info (txt "ID") ∷ sample_column_info (txt "AGE") ∷ []), events);
  read_primary_key_info = λ i events. (ok (txt "ID" ∷ []), events);
  is_sql_type_supported = λ t. true;
}
