-- ===== src/Table/Columns/Laws.antt =====
-- What the methods of src/Table.cpp on columns promise.
use exodbc.Prelude.{
  ℕ, ◌≡◌, refl, ◌↔◌, ◌⊎◌, ◌||◌, is_some, Bool, true, false, none, some, [], ◌∷◌, arith, ◌==◌,
  if◌then◌else◌, is_empty, All,
}
use exodbc.Prelude.Texts.{}
use exodbc.Odbc.{Result, World, ok, raised}
use exodbc.Flags.{
  Flags, test, cf_select, cf_insert, cf_update, af_select_pk, af_select_where, af_insert,
  af_update_pk, af_update_where,
}
use exodbc.SqlTypes.{SqlType}
use exodbc.Buffer.{ColumnBuffer}
use exodbc.Table.{Columns, Table}
use exodbc.Table.Info.{TableInfo}
use exodbc.Table.Columns.{find_column, insert_column, set_column}
use exodbc.Table.Columns.Checks.{exceeds, check_column_flags, check_sql_types}

find-insert :
    (i j : ℕ) (c : ColumnBuffer) (cs : Columns)
    → find_column i cs ≡ none
    → find_column j (insert_column i c cs) ≡ (if i == j then some c else find_column j cs)
unfolding find_column insert_column
find-insert i j c [] e = ground arith
find-insert i j c ((k, x) ∷ cs) e = grind (arith, find-insert i j c cs)

-- What `SetColumn` may leave behind.
abbrev pub SetColumnOutcome :
    World Table → ℕ → ColumnBuffer → Result (Unit {0}) × World Table → Type 0
SetColumnOutcome w i c (ok _, w') =
    (w.self.is_open ≡ false)
    × (is_empty c.query_name ≡ false)
    × (find_column i w.self.columns ≡ none)
    × (w' ≡ record w { self = record (w.self) { columns = w'.self.columns } })
    × ((j : ℕ)
        → find_column j w'.self.columns ≡ (if i == j then some c else find_column j w.self.columns))
SetColumnOutcome w i c (raised e, w') =
    (w' ≡ w)
    × ((w.self.is_open || is_some (find_column i w.self.columns) || is_empty c.query_name) ≡ true)

-- `SetColumn`: if it returns, the table is not open, the column has a name, its index was free before
-- and now holds the column, every other index holds what it held, and nothing but the columns has
-- changed. If it throws, nothing has changed, and the table is open, the index is taken, or the
-- column has no name.
pub set_column_outcome :
    (i : ℕ) (c : ColumnBuffer) (w : World Table) → SetColumnOutcome w i c (set_column i c w)
unfolding set_column
set_column_outcome i c w = grind (arith, find-insert)

-- The access flags of a table that grant the flags of a column: the column is not selected, or the
-- table selects by the primary key or by a text; it is not inserted, or the table inserts; it is not
-- updated, or the table updates by the primary key or by a condition.
abbrev pub Granted : Flags → Flags → Type 0
Granted afs flags =
    ((test flags cf_select ≡ false)
      ⊎ ((test afs af_select_pk ≡ true) ⊎ (test afs af_select_where ≡ true)))
    × ((test flags cf_insert ≡ false) ⊎ (test afs af_insert ≡ true))
    × ((test flags cf_update ≡ false)
        ⊎ ((test afs af_update_pk ≡ true) ⊎ (test afs af_update_where ≡ true)))

Granted-sound : (afs flags : Flags) → exceeds afs flags ≡ false → Granted afs flags
unfolding exceeds
Granted-sound afs flags e = (ground (arith, e), ground (arith, e), ground (arith, e))

Granted-complete : (afs flags : Flags) → Granted afs flags → exceeds afs flags ≡ false
unfolding exceeds
Granted-complete afs flags (s, i, u) = ground (arith, s, i, u)

-- The columns pass `CheckColumnFlags` exactly if each has a name, and is selected only if the table
-- has AF_SELECT_PK or AF_SELECT_WHERE, inserted only if it has AF_INSERT, and updated only if it has
-- AF_UPDATE_PK or AF_UPDATE_WHERE.
pub check_column_flags_lem :
    (i : TableInfo) (afs : Flags) (cs : Columns)
    → (check_column_flags i afs cs ≡ ok tt)
      ↔ All (λ e. (is_empty e.1.query_name ≡ false) × Granted afs e.1.flags) cs
unfolding check_column_flags
check_column_flags_lem i afs [] = (λ e. tt, λ e. refl)
check_column_flags_lem i afs ((j, c) ∷ cs) =
    let ih = check_column_flags_lem i afs cs in
    (
      λ e. (
        (ground (arith, e), Granted-sound afs c.flags (ground (arith, e))),
        ih.0 (ground (arith, e)),
      ),
      λ e. ground (arith, e.0.0, Granted-complete afs c.flags e.0.1, ih.1 e.1),
    )

-- The entries whose SQL type a database supports.
unfoldable pub supported_columns : (SqlType → Bool) → Columns → Columns
supported_columns supported [] = []
supported_columns supported ((j, c) ∷ cs) =
    if supported c.sql_type
    then (j, c) ∷ supported_columns supported cs
    else supported_columns supported cs

-- `CheckSqlTypes` of columns that all have names: asked to remove the unsupported columns, it returns
-- and leaves exactly the supported ones, in their order; not asked to, it changes nothing, and
-- returns exactly if it supports them all.
pub check_sql_types_lem :
    (supported : SqlType → Bool) (cs : Columns)
    → All (λ e. is_empty e.1.query_name ≡ false) cs
    → (check_sql_types supported true cs ≡ (ok tt, supported_columns supported cs))
      × ((check_sql_types supported false cs).1 ≡ cs)
      × (((check_sql_types supported false cs).0 ≡ ok tt)
          ↔ All (λ e. supported e.1.sql_type ≡ true) cs)
unfolding check_sql_types supported_columns
check_sql_types_lem supported [] n = (refl, refl, (λ e. tt, λ e. refl))
check_sql_types_lem supported ((j, c) ∷ cs) n =
    let ih = check_sql_types_lem supported cs n.1 in
    (
      ground (arith, n.0, ih.0),
      ground (arith, n.0, ih.1),
      (λ e. ground (arith, n.0, ih.2.0), λ e. ground (arith, n.0, ih.2.1)),
    )

-- `CheckSqlTypes` leaves columns that pass `CheckColumnFlags` if all did before.
pub check_column_flags-check_sql_types :
    (i : TableInfo) (afs : Flags) (supported : SqlType → Bool) (remove : Bool) (cs : Columns)
    → check_column_flags i afs cs ≡ ok tt
    → check_column_flags i afs (check_sql_types supported remove cs).1 ≡ ok tt
unfolding check_column_flags check_sql_types
check_column_flags-check_sql_types i afs supported remove [] e = refl
check_column_flags-check_sql_types i afs supported remove ((j, c) ∷ cs) e =
    ground (arith, check_column_flags-check_sql_types i afs supported remove cs)
