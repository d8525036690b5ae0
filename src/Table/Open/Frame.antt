-- ===== src/Table/Open/Frame.antt =====
-- What the steps of `Open` and `Close` in src/Table.cpp leave alone.
use exodbc.Prelude.{◌≡◌, Bool, Option, List}
use exodbc.Prelude.Texts.{Boost}
use exodbc.Odbc.{Driver, Action, Event, Exn, Result}
use exodbc.Odbc.Keeps.{Keeps, keeps_rules}
use exodbc.Flags.{Flags}
use exodbc.SqlTypes.{}
use exodbc.Buffer.{ℤ}
use exodbc.Statement.{Db, Statement}
use exodbc.Table.{
  Columns, ask, lift, on_select, on_count_where, on_insert, on_update_pk, on_delete_pk, Table,
  Catalog,
}
use exodbc.Table.Info.{}
use exodbc.Table.Columns.{}
use exodbc.Table.Columns.Auto.{read_table_info, create_auto_column_buffer_ptrs}
use exodbc.Table.Columns.Checks.{query_primary_keys_and_update_columns}
use exodbc.Table.Binding.{}
use exodbc.Table.Open.{
  keep_columns, free_statements, allocate_all, allocate_statements, search_table, find_keys,
  check_columns, open_failed,
}

-- What no step of `Open` but its last changes, and no step of `Close` but its last.
abbrev pub Fixed : Bool → Flags → Option Db → Table → Type 0
Fixed o f base t = (t.is_open ≡ o) × (t.table_access_flags ≡ f) × (t.db ≡ base)

module _ {P : Table → Type 0} where
  pub Keeps-lift : {A : Type 0} (r : Result A) → Keeps P (lift {S = Table} r)
  Keeps-lift r = record { at = λ w h. h }

  pub Keeps-ask : {A : Type 0} (f : List Event → Result A × List Event) → Keeps P (ask f)
  Keeps-ask f = record { at = λ w h. h }

module _ {o : Bool} {f : Flags} {base : Option Db} {A : Type 0} (m : Action Statement A) where
  pub Keeps-on_select : Keeps (Fixed o f base) (on_select m)
  Keeps-on_select = record { at = λ w h. h }

  pub Keeps-on_count_where : Keeps (Fixed o f base) (on_count_where m)
  Keeps-on_count_where = record { at = λ w h. h }

  pub Keeps-on_insert : Keeps (Fixed o f base) (on_insert m)
  Keeps-on_insert = record { at = λ w h. h }

  pub Keeps-on_update_pk : Keeps (Fixed o f base) (on_update_pk m)
  Keeps-on_update_pk = record { at = λ w h. h }

  pub Keeps-on_delete_pk : Keeps (Fixed o f base) (on_delete_pk m)
  Keeps-on_delete_pk = record { at = λ w h. h }

pub ruleset table_rules = (
  keeps_rules, Keeps-lift, Keeps-ask, Keeps-on_select, Keeps-on_count_where, Keeps-on_insert,
  Keeps-on_update_pk, Keeps-on_delete_pk,
)

module _ {o : Bool} {f : Flags} {base : Option Db} (d : Driver) where
  pub Keeps-free_statements : Keeps (Fixed o f base) (free_statements d)
  unfolding free_statements
  Keeps-free_statements = search table_rules depth 20 fits 5000

  Keeps-allocate_all : (b : Bool) → Keeps (Fixed o f base) (allocate_all d b)
  unfolding allocate_all
  Keeps-allocate_all b = search table_rules depth 20 fits 5000

  pub Keeps-allocate_statements : (b : Bool) → Keeps (Fixed o f base) (allocate_statements d b)
  unfolding allocate_statements
  Keeps-allocate_statements b =
      search (table_rules, Keeps-allocate_all, Keeps-free_statements) depth 20 fits 5000

module _ {o : Bool} {f : Flags} {base : Option Db} where
  Keeps-keep_columns : (r : Result (Unit {0}) × Columns) → Keeps (Fixed o f base) (keep_columns r)
  unfolding keep_columns
  Keeps-keep_columns (r, cs) = search table_rules depth 20 fits 5000

  Keeps-read_table_info : (c : Catalog) → Keeps (Fixed o f base) (read_table_info c)
  unfolding read_table_info
  Keeps-read_table_info c = search table_rules depth 20 fits 5000

  Keeps-query :
      (b : Boost) (c : Catalog) (cs : Columns)
      → Keeps (Fixed o f base) (query_primary_keys_and_update_columns b c cs)
  unfolding query_primary_keys_and_update_columns
  Keeps-query b c cs = search table_rules depth 20 fits 5000

  Keeps-create_auto :
      (b : Boost) (n : ℤ) (c : Catalog) (skip mine query : Bool)
      → Keeps (Fixed o f base) (create_auto_column_buffer_ptrs b n c skip mine query)
  unfolding create_auto_column_buffer_ptrs
  Keeps-create_auto b n c skip mine query =
      search (table_rules, Keeps-read_table_info, Keeps-query) depth 30 fits 20000

module _ {o : Bool} {f : Flags} {base : Option Db} (d : Driver) (b : Boost) (n : ℤ)
    (c : Catalog) where
  pub Keeps-search_table : Keeps (Fixed o f base) (search_table d b n c)
  unfolding search_table
  Keeps-search_table =
      search (table_rules, Keeps-read_table_info, Keeps-create_auto) depth 30 fits 20000

  pub Keeps-find_keys : Keeps (Fixed o f base) (find_keys d b n c)
  unfolding find_keys
  Keeps-find_keys = search (table_rules, Keeps-query, Keeps-keep_columns) depth 30 fits 20000

  pub Keeps-check_columns : Keeps (Fixed o f base) (check_columns d b n c)
  unfolding check_columns
  Keeps-check_columns = search (table_rules, Keeps-keep_columns) depth 30 fits 20000

  pub Keeps-open_failed : (e : Exn) → Keeps (Fixed o f base) (open_failed d b n c e)
  unfolding open_failed
  Keeps-open_failed e = search (table_rules, Keeps-free_statements) depth 30 fits 20000
