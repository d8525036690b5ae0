-- ===== src/Table/Open/Laws.antt =====
-- What `Open` and `Close` of src/Table.cpp promise.
use exodbc.Prelude.{◌≡◌, refl, true, false, Option, arith}
use exodbc.Prelude.Texts.{Boost}
use exodbc.Odbc.{Driver, ◌>>◌, modify, Exn, Result, World, ok}
use exodbc.Odbc.Keeps.{keeps_rules}
use exodbc.Odbc.Triple.{
  Ended, Triple-modify, Triple-bind, Triple-step, Triple-weaken, Triple, triple_rules,
}
use exodbc.Flags.{Flags, tof_skip_unsupported_columns}
use exodbc.Buffer.{ℤ}
use exodbc.Statement.{Db}
use exodbc.Table.{has_open_flag, Table, Catalog}
use exodbc.Table.Open.{
  keep_columns, close_table, bind_all, search_table, find_keys, check_columns, open_body,
  open_failed, open_table,
}
use exodbc.Table.Columns.Laws.{check_column_flags-check_sql_types}
use exodbc.Table.Columns.Checks.{check_column_flags}
use exodbc.Table.Open.Settled.{Settled, HasKeys, bind_all-Triple}
use exodbc.Table.Open.Frame.{
  Fixed, Keeps-free_statements, Keeps-allocate_statements, Keeps-search_table, Keeps-find_keys,
}

-- What holds once the columns have been checked.
abbrev Checked : Flags → Option Db → Table → Type 0
Checked f base t = (Fixed false f base t) × (check_column_flags t.table_info f t.columns ≡ ok tt)

-- What holds of an open table.
abbrev pub Opened : Flags → Option Db → Table → Type 0
Opened f base t =
    (Fixed true f base t)
    × (check_column_flags t.table_info f t.columns ≡ ok tt)
    × HasKeys f t.columns

module _ {f : Flags} {base : Option Db} where
  opened :
      (t : Table)
      → Checked f base t × HasKeys f t.columns
      → Opened f base (record t { is_open = true })
  opened t (h, k) = ((refl, h.0.1, h.0.2), h.1, k)

  closed : (t : Table) → Fixed true f base t → Fixed false f base (record t { is_open = false })
  closed t h = (refl, h.1, h.2)

  Settled-Checked :
      (t s : Table)
      → check_column_flags t.table_info f t.columns ≡ ok tt
      → Settled f base t.table_info t.columns s × HasKeys f t.columns
      → Checked f base s × HasKeys f s.columns
  Settled-Checked t s e (h, k) = ((h.0, ground (arith, e, h.1, h.2)), ground (arith, k, h.2))

module _ {f : Flags} {base : Option Db} (d : Driver) (b : Boost) (n : ℤ) (c : Catalog) where
  check_columns-Triple :
      Triple (Fixed false f base) (Checked f base) (Fixed false f base) (check_columns d b n c)
  unfolding check_columns keep_columns
  check_columns-Triple = record {
    ends = λ w h. grind (
      arith,
      h.0,
      check_column_flags-check_sql_types w.self.table_info w.self.table_access_flags
          c.is_sql_type_supported (has_open_flag tof_skip_unsupported_columns w.self)
          w.self.columns,
    );
  }

  bind_all-Checked :
      Triple
        (Checked f base)
        (λ t. Checked f base t × HasKeys f t.columns)
        (Fixed false f base)
        (bind_all d b)
  bind_all-Checked = record {
    ends = λ w h.
        (Triple-weaken (bind_all d b) (λ s. Settled-Checked w.self s h.1) (λ s k. k.0)
            (bind_all-Triple {f = f} {base = base} {i = w.self.table_info} {cs = w.self.columns} d
              b)).ends
          w (h.0, refl, refl);
  }

  open_failed-Triple :
      (e : Exn)
      → Triple (Fixed false f base) (Opened f base) (Fixed false f base) (open_failed d b n c e)
  unfolding open_failed
  open_failed-Triple e =
      search (keeps_rules, triple_rules, Keeps-free_statements) depth 30 fits 20000

  open_body-Triple :
      Triple (Fixed false f base) (Opened f base) (Fixed false f base) (open_body d b n c)
  unfolding open_body
  open_body-Triple =
      Triple-step (search_table d b n c)
        (λ u.
          find_keys d b n c
          >> (check_columns d b n c >> (bind_all d b >> modify (λ t. record t { is_open = true }))))
        (Keeps-search_table d b n c)
        (λ u.
          Triple-step (find_keys d b n c)
            (λ v.
              check_columns d b n c >> (bind_all d b >> modify (λ t. record t { is_open = true })))
            (Keeps-find_keys d b n c)
            (λ v.
              Triple-bind (check_columns d b n c)
                (λ x. bind_all d b >> modify (λ t. record t { is_open = true }))
                check_columns-Triple
                (λ x.
                  Triple-bind (bind_all d b) (λ y. modify (λ t. record t { is_open = true }))
                    bind_all-Checked (λ y. Triple-modify _ opened))))

  open_table-Triple :
      (flags : Flags)
      → Triple (Fixed false f base) (Opened f base) (Fixed false f base) (open_table d b n c flags)
  unfolding open_table
  open_table-Triple flags =
      search
        (keeps_rules, triple_rules, Keeps-allocate_statements, open_body-Triple, open_failed-Triple)
        depth 30 fits 20000

module _ {f : Flags} {base : Option Db} (d : Driver) where
  close_table-Triple :
      Triple (Fixed true f base) (Fixed false f base) (Fixed true f base) (close_table d)
  unfolding close_table
  close_table-Triple =
      search (keeps_rules, triple_rules, closed, Keeps-free_statements) depth 30 fits 20000

-- What `Open` may leave behind.
abbrev pub OpenOutcome : World Table → Result (Unit {0}) × World Table → Type 0
OpenOutcome w =
    Ended (Opened w.self.table_access_flags w.self.db)
      (Fixed false w.self.table_access_flags w.self.db)

-- `Open` of a table that is not open, whatever the driver and the catalog answer. If it returns, the
-- table is open, no column has a flag that the access flags do not grant, and there is a column of
-- the primary key if the access flags need one. If it throws, at whichever step, the table is not
-- open. Either way the table keeps its access flags and its database.
pub open_table_outcome :
    (d : Driver) (b : Boost) (n : ℤ) (c : Catalog) (flags : Flags) (w : World Table)
    → w.self.is_open ≡ false
    → OpenOutcome w (open_table d b n c flags w)
open_table_outcome d b n c flags w e = (open_table-Triple d b n c flags).ends w (e, refl, refl)

-- `Close` of an open table, whatever the driver answers: if it returns, the table is not open; if it
-- throws, the table is still open. Either way the table keeps its access flags and its database.
pub close_table_outcome :
    (d : Driver) (w : World Table)
    → w.self.is_open ≡ true
    → Ended
        (Fixed false w.self.table_access_flags w.self.db)
        (Fixed true w.self.table_access_flags w.self.db)
        (close_table d w)
close_table_outcome d w e = (close_table-Triple d).ends w (e, refl, refl)
