-- ===== src/Catalog/Frame.antt =====
-- What reading result sets of src/DatabaseCatalog.cpp keeps: what is kept by asking for the limit of a
-- name.
use exodbc.Prelude.{ℕ, zero, suc, not, Option, none, some, List, [], ◌∷◌}
use exodbc.Prelude.Texts.{Text}
use exodbc.Odbc.{
  is_success, is_no_data, Driver, sql_result_without_handle, Action, ◌>>=◌, ◌>>◌, pure, throw, get,
  when, branch, invoke, Call, Reply, sql_fetch,
}
use exodbc.Odbc.Keeps.{
  Keeps-pure, Keeps-branch, Keeps-get, Keeps-invoke, Keeps-bind, Keeps, keeps_rules,
}
use exodbc.Handle.{}
use exodbc.Props.{}
use exodbc.Props.Getters.{get_max_name_len}
use exodbc.Catalog.{
  on_props, put_row, get_data, get_column, get_columns, fetch_rows, DatabaseCatalog, Datum, Column,
  plain, limited,
}
use exodbc.Catalog.Rows.{}
use exodbc.Catalog.Search.{open_and_fetch}

module _ (P : DatabaseCatalog → Type 0)
    (on : (name : Text) → Keeps P (on_props (get_max_name_len name))) where
  module _ (d : Driver) where
    Keeps-get_data : (n : ℕ) → Keeps P (get_data d n)
    unfolding get_data
    Keeps-get_data n = search keeps_rules depth 20 fits 5000

    Keeps-get_column : (c : Column) → Keeps P (get_column d c)
    unfolding get_column
    Keeps-get_column (plain n) = Keeps-get_data n
    Keeps-get_column (limited name n) = Keeps-bind _ _ (on name) (λ v. Keeps-get_data n)

    Keeps-get_columns : (cs : List Column) → Keeps P (get_columns d cs)
    unfolding get_columns
    Keeps-get_columns [] = Keeps-pure []
    Keeps-get_columns (c ∷ r) =
        Keeps-bind _ _ (Keeps-get_column c)
          (λ x. Keeps-bind _ _ (Keeps-get_columns r) (λ xs. Keeps-pure (x ∷ xs)))

    Keeps-rest :
        {A : Type 0} (r : Reply)
        → Keeps P (
            when (not (is_no_data r.ret)) (throw (sql_result_without_handle r.ret))
            >> pure {A = Option (List A)} (some []))
    Keeps-rest r = search keeps_rules depth 20 fits 5000

    Keeps-row :
        {A : Type 0} (cs : List Column) (f : List Datum → A)
        (m : Action DatabaseCatalog (Option (List A)))
        → Keeps P m
        → Keeps P (get_columns d cs >>= λ x. m >>= λ rest. pure (put_row (f x) rest))
    Keeps-row cs f m k =
        Keeps-bind _ _ (Keeps-get_columns cs) (λ x. Keeps-bind m _ k (λ rest. Keeps-pure _))

    Keeps-fetch :
        {A : Type 0} (m : Action DatabaseCatalog A) (n : Reply → Action DatabaseCatalog A)
        → Keeps P m
        → ((r : Reply) → Keeps P (n r))
        → Keeps P (
            get >>= λ s.
            invoke d (sql_fetch s.h_stmt.handle) >>= λ r. branch (is_success r.ret) m (n r))
    Keeps-fetch m n k l = Keeps-bind get _ Keeps-get (λ s.
        Keeps-bind (invoke d (sql_fetch s.h_stmt.handle)) (λ r. branch (is_success r.ret) m (n r))
          (Keeps-invoke d _) (λ r. Keeps-branch (is_success r.ret) m (n r) (λ e. k) (λ e. l r)))

    Keeps-fetch_rows :
        {A : Type 0} (cs : List Column) (f : List Datum → A) (fuel : ℕ)
        → Keeps P (fetch_rows d cs f fuel)
    unfolding fetch_rows
    Keeps-fetch_rows cs f zero = Keeps-pure none
    Keeps-fetch_rows cs f (suc fuel) =
        Keeps-fetch _ _ (Keeps-row cs f (fetch_rows d cs f fuel) (Keeps-fetch_rows cs f fuel))
          Keeps-rest

    pub Keeps-open_and_fetch :
        {A : Type 0} (fuel : ℕ) (call : Option ℕ → Call) (cs : List Column) (f : List Datum → A)
        → Keeps P (open_and_fetch d fuel call cs f)
    unfolding open_and_fetch
    Keeps-open_and_fetch fuel call cs f = search (keeps_rules, Keeps-fetch_rows) depth 20 fits 5000
