-- ===== src/Table/Columns.antt =====
-- The columns of a table: the methods of src/Table.cpp that look buffers up and change them. The map
-- owns its buffers together with the caller, so a change of a flag or a length is one of the entry.
pub mod Auto
pub mod Checks
pub mod Laws
use exodbc.Prelude.{
  ℕ, Bool, not, Option, none, some, List, [], ◌∷◌, map, ltb, ◌==◌, if◌then◌else◌, is_some, length,
  is_empty,
}
use exodbc.Prelude.Texts.{Text, text_eq, Boost}
use exodbc.Odbc.{
  Action, ◌>>=◌, ◌>>◌, pure, throw, get, modify, ex_assert, when, Exn, Result, assertion,
  illegal_argument, not_found, null_value, ok, raised,
}
use exodbc.Flags.{Flags, test, set, clear, cf_nullable, cf_primary_key}
use exodbc.SqlTypes.{SqlType, SqlCType}
use exodbc.TypeMap.{TypeMap}
use exodbc.Buffer.{
  is_null_data, new_sql_c_pointer_buffer, ℤ, LengthIndicator, ColumnBuffer, sql_null_data, sql_nts,
}
use exodbc.Table.{Columns, lift, Table}

-- `m_columns.find(columnIndex)`
unfoldable pub find_column : ℕ → Columns → Option ColumnBuffer
find_column i [] = none
find_column i ((j, c) ∷ cs) = if j == i then some c else find_column i cs

-- A change of the buffer at an index, which its pointer is followed for.
unfoldable pub update_column : ℕ → (ColumnBuffer → ColumnBuffer) → Columns → Columns
update_column i f [] = []
update_column i f ((j, c) ∷ cs) =
    let rest = update_column i f cs in if j == i then (j, f c) ∷ cs else (j, c) ∷ rest

-- `m_columns[columnIndex] = column` for an index that is not there: the map is in order.
unfoldable pub insert_column : ℕ → ColumnBuffer → Columns → Columns
insert_column i c [] = (i, c) ∷ []
insert_column i c ((j, x) ∷ cs) =
    let rest = insert_column i c cs in if ltb i j then (i, c) ∷ (j, x) ∷ cs else (j, x) ∷ rest

-- `GetColumnBufferIndexes`
unfoldable pub get_column_buffer_indexes : Columns → List ℕ
get_column_buffer_indexes = map (λ e. e.0)

-- `GetColumnBufferIndex` in a map
unfoldable pub get_column_buffer_index : Boost → Text → Columns → Bool → Result ℕ
get_column_buffer_index b name [] case_sensitive = raised not_found
get_column_buffer_index b name ((j, c) ∷ cs) case_sensitive =
    let rest = get_column_buffer_index b name cs case_sensitive in
    if is_empty c.query_name
    then raised assertion
    else if (if case_sensitive then text_eq c.query_name name else b.iequals c.query_name name)
    then ok j
    else rest

-- `GetPrimaryKeyColumnBuffers`
unfoldable pub get_primary_key_column_buffers : Columns → Columns
get_primary_key_column_buffers [] = []
get_primary_key_column_buffers ((j, c) ∷ cs) =
    let rest = get_primary_key_column_buffers cs in
    if test c.flags cf_primary_key then (j, c) ∷ rest else rest

abbrev pub or_raise : {A : Type 0} → Exn → Option A → Result A
or_raise e none = raised e
or_raise e (some a) = ok a

-- `GetColumnBufferPtrVariant`
unfoldable pub get_column_buffer_ptr_variant : ℕ → Action Table ColumnBuffer
get_column_buffer_ptr_variant i = do
  t ← get
  lift (or_raise illegal_argument (find_column i t.columns))

-- `ColumnBufferExists`
unfoldable pub column_buffer_exists : ℕ → Table → Bool
column_buffer_exists i t = is_some (find_column i t.columns)

-- A change of the buffer at an index of the table's map.
abbrev change_column : ℕ → (ColumnBuffer → ColumnBuffer) → Action Table (Unit {0})
change_column i f = modify (λ t. record t { columns = update_column i f t.columns })

unfoldable pub set_column_flag : ℕ → ℕ → Action Table (Unit {0})
set_column_flag i flag = do
  t ← get
  ex_assert (not t.is_open)
  get_column_buffer_ptr_variant i
  change_column i (λ c. record c { flags = set c.flags flag })

unfoldable pub clear_column_flag : ℕ → ℕ → Action Table (Unit {0})
clear_column_flag i flag = do
  t ← get
  ex_assert (not t.is_open)
  get_column_buffer_ptr_variant i
  change_column i (λ c. record c { flags = clear c.flags flag })

unfoldable pub set_column_null : ℕ → Action Table (Unit {0})
set_column_null i = do
  c ← get_column_buffer_ptr_variant i
  ex_assert (test c.flags cf_nullable)
  change_column i (λ c. record c { cb = sql_null_data })

unfoldable pub set_column_length_indicator : ℕ → LengthIndicator → Action Table (Unit {0})
set_column_length_indicator i cb = do
  get_column_buffer_ptr_variant i
  change_column i (λ c. record c { cb = cb })

unfoldable pub set_column_nts : ℕ → Action Table (Unit {0})
set_column_nts i = set_column_length_indicator i sql_nts

unfoldable pub is_column_null : ℕ → Action Table Bool
is_column_null i = do c ← get_column_buffer_ptr_variant i; pure (is_null_data c.cb)

unfoldable pub is_column_nullable : ℕ → Action Table Bool
is_column_nullable i = do c ← get_column_buffer_ptr_variant i; pure (test c.flags cf_nullable)

-- `GetNonNullColumnBufferPtrVariant`: the name is read for the text of the exception.
unfoldable pub get_non_null_column_buffer_ptr_variant : ℕ → Action Table ColumnBuffer
get_non_null_column_buffer_ptr_variant i = do
  c ← get_column_buffer_ptr_variant i
  when (is_null_data c.cb) (ex_assert (not (is_empty c.query_name)) >> throw null_value)
  pure c

unfoldable pub clear_columns : Action Table (Unit {0})
clear_columns = do t ← get; ex_assert (not t.is_open); modify (λ t. record t { columns = [] })

-- `SetColumn(columnIndex, column)`
unfoldable pub set_column : ℕ → ColumnBuffer → Action Table (Unit {0})
set_column i c = do
  t ← get
  ex_assert (not t.is_open)
  ex_assert (not (is_some (find_column i t.columns)))
  ex_assert (not (is_empty c.query_name))
  modify (λ t. record t { columns = insert_column i c t.columns })

-- `SetColumn` of a pointer that the caller owns
unfoldable pub set_pointer_column :
    ℕ → Text → SqlType → Bool → SqlCType → ℤ → Flags → ℤ → ℤ → Action Table (Unit {0})
set_pointer_column i name t given c length flags size digits =
    set_column i (new_sql_c_pointer_buffer name t given c length flags size digits)

unfoldable pub set_column_primary_key_indexes : List ℕ → Action Table (Unit {0})
set_column_primary_key_indexes indexes = do
  t ← get
  ex_assert (not t.is_open)
  modify (λ t. record t { primary_key_column_indexes = indexes })

unfoldable pub set_sql2_buffer_type_map : Option TypeMap → Action Table (Unit {0})
set_sql2_buffer_type_map m = do
  t ← get
  ex_assert (not t.is_open)
  ex_assert (is_some m)
  modify (λ t. record t { sql2_buffer_type_map = m })
