-- ===== src/Table/Setup.antt =====
-- `Init` and the access flags of src/Table.cpp.
use exodbc.Prelude.{ℕ, true, false, not, Option, some, is_some}
use exodbc.Prelude.Texts.{Text}
use exodbc.Odbc.{Action, ◌>>=◌, ◌>>◌, get, modify, ex_assert, when, Result}
use exodbc.Flags.{Flags, set, clear}
use exodbc.TypeMap.{TypeMap}
use exodbc.Statement.{db_is_open, Db}
use exodbc.Table.{has_access, lift, Table}
use exodbc.Table.Info.{TableInfo}

-- `SetAccessFlags`, `SetAccessFlag` and `ClearAccessFlag`
unfoldable pub set_access_flags : Flags → Action Table (Unit {0})
set_access_flags afs = do
  t ← get
  ex_assert (not t.is_open)
  modify (λ t. record t { table_access_flags = afs })

unfoldable pub set_access_flag : ℕ → Action Table (Unit {0})
set_access_flag af = do
  t ← get
  ex_assert (not t.is_open)
  when (not (has_access af t)) (set_access_flags (set t.table_access_flags af))

unfoldable pub clear_access_flag : ℕ → Action Table (Unit {0})
clear_access_flag af = do
  t ← get
  ex_assert (not t.is_open)
  when (has_access af t) (set_access_flags (clear t.table_access_flags af))

-- `Init(pDb, afs, tableInfo)`; the last argument is what the database gives as its type map.
unfoldable pub init_with_info :
    Option Db → Flags → TableInfo → Result TypeMap → Action Table (Unit {0})
init_with_info db afs i type_map = do
  ex_assert (is_some db)
  ex_assert (db_is_open db)
  t ← get
  ex_assert (not (is_some t.db))
  modify (λ t. record t { db = db; have_table_info = true; table_info = i })
  m ← lift type_map
  modify (λ t. record t { sql2_buffer_type_map = some m })
  set_access_flags afs

-- `Init(pDb, afs, tableName, schemaName, catalogName, tableType)`
unfoldable pub init_with_names :
    Option Db → Flags → Text → Text → Text → Text → Result TypeMap → Action Table (Unit {0})
init_with_names db afs name schema catalog type_name type_map = do
  ex_assert (is_some db)
  ex_assert (db_is_open db)
  t ← get
  ex_assert (not (is_some t.db))
  modify (λ t. record t {
    db = db;
    have_table_info = false;
    initial_table_name = name;
    initial_schema_name = schema;
    initial_catalog_name = catalog;
    initial_type_name = type_name;
  })
  m ← lift type_map
  modify (λ t. record t { sql2_buffer_type_map = some m })
  set_access_flags afs
