-- ===== src/Database/Opened.antt =====
-- What `Open` of src/Database.cpp leaves behind.
pub mod Laws
pub mod Steps
use exodbc.Prelude.{ℕ, ◌≡◌, refl, true, false, Option, none, some, List, is_some}
use exodbc.Prelude.Texts.{}
use exodbc.Odbc.{Driver, Action, modify, Completion}
use exodbc.Odbc.Keeps.{Keeps-pure, Keeps-modify, Keeps-bind, Keeps, keeps_rules}
use exodbc.Odbc.Triple.{}
use exodbc.SqlTypes.{}
use exodbc.TypeMap.{TypeMap}
use exodbc.Handle.{}
use exodbc.Handle.Laws.{}
use exodbc.Props.{Props}
use exodbc.Props.Version.{TextLibrary}
use exodbc.Props.Init.{}
use exodbc.Props.Getters.{}
use exodbc.Catalog.{DatabaseCatalog}
use exodbc.Catalog.Rows.{SqlTypeInfo}
use exodbc.Catalog.Search.{}
use exodbc.Database.{on_db_props, CommitMode, Database}
use exodbc.Database.Close.{}
use exodbc.Database.Open.{types_read, set_connection_attributes, read_from, read_datatypes}
use exodbc.Database.Transactions.{end_trans, read_commit_mode, set_commit_mode}

-- What the members that are set in the course of `OpenImpl` do not bear on.
pub record Indifferent (P : Database → Type 0) : Type 0 where
  pub to_props : (s : Database) (p : Props) → P s → P (record s { props = p })
  pub to_map : (s : Database) (m : Option TypeMap) → P s → P (record s { sql2_buffer_type_map = m })
  pub to_mode : (s : Database) (m : CommitMode) → P s → P (record s { commit_mode = m })
  pub to_types : (s : Database) (ts : List SqlTypeInfo) → P s → P (record s { datatypes = ts })
  pub to_catalog : (s : Database) (c : DatabaseCatalog) → P s → P (record s { db_catalog = some c })

module _ {P : Database → Type 0} (i : Indifferent P) where
  pub on_db_props-Keeps : {A : Type 0} (m : Action Props A) → Keeps P (on_db_props m)
  on_db_props-Keeps m = record { at = λ w h. i.to_props w.self _ h }

  pub map-Keeps :
      (f : Database → Option TypeMap)
      → Keeps P (modify (λ s. record s { sql2_buffer_type_map = f s }))
  map-Keeps f = Keeps-modify _ (λ s h. i.to_map s (f s) h)

  pub mode-Keeps : (m : CommitMode) → Keeps P (modify (λ s. record s { commit_mode = m }))
  mode-Keeps m = Keeps-modify _ (λ s h. i.to_mode s m h)

  pub types_read-Keeps : (o : Option (List SqlTypeInfo)) → Keeps P (types_read o)
  types_read-Keeps none = Keeps-pure none
  types_read-Keeps (some ts) =
      Keeps-bind _ _ (Keeps-modify _ (λ s h. i.to_types s ts h)) (λ x. Keeps-pure (some tt))

  module _ (d : Driver) where
    pub end_trans-Keeps : (c : Completion) → Keeps P (end_trans d c)
    unfolding end_trans
    end_trans-Keeps c = search keeps_rules depth 20 fits 5000

    pub read_commit_mode-Keeps : Keeps P (read_commit_mode d)
    unfolding read_commit_mode
    read_commit_mode-Keeps = search (keeps_rules, mode-Keeps) depth 20 fits 5000

    pub set_commit_mode-Keeps : (m : CommitMode) → Keeps P (set_commit_mode d m)
    unfolding set_commit_mode
    set_commit_mode-Keeps m = search (keeps_rules, end_trans-Keeps, mode-Keeps) depth 20 fits 5000

    module _ (char_size fuel : ℕ) (t : TextLibrary) where
      pub set_connection_attributes-Keeps : Keeps P (set_connection_attributes d char_size fuel t)
      unfolding set_connection_attributes
      set_connection_attributes-Keeps = search keeps_rules depth 20 fits 5000

      pub read_from-Keeps : (o : Option DatabaseCatalog) → Keeps P (read_from d char_size fuel t o)
      read_from-Keeps none = record { at = λ w h. h }
      read_from-Keeps (some c) = record { at = λ w h. i.to_catalog w.self _ h }

      pub read_datatypes-Keeps : Keeps P (read_datatypes d char_size fuel t)
      unfolding read_datatypes
      read_datatypes-Keeps =
          search (keeps_rules, read_from-Keeps, types_read-Keeps) depth 20 fits 5000

-- What a database needs to be used: a statement of its own and a catalog.
abbrev pub IsReady : Database → Type 0
IsReady s = (is_some s.h_stmt_exec_sql.handle ≡ true) × (is_some s.db_catalog ≡ true)

abbrev pub HasStmt : Database → Type 0
HasStmt s = is_some s.h_stmt_exec_sql.handle ≡ true

abbrev pub IsClosed : Database → Type 0
IsClosed s = s.db_is_open ≡ false

pub HasStmt-Indifferent : Indifferent HasStmt
HasStmt-Indifferent = record {
  to_props = λ s p h. h;
  to_map = λ s m h. h;
  to_mode = λ s m h. h;
  to_types = λ s ts h. h;
  to_catalog = λ s c h. h;
}

pub IsClosed-Indifferent : Indifferent IsClosed
IsClosed-Indifferent = record {
  to_props = λ s p h. h;
  to_map = λ s m h. h;
  to_mode = λ s m h. h;
  to_types = λ s ts h. h;
  to_catalog = λ s c h. h;
}

pub IsReady-Indifferent : Indifferent IsReady
IsReady-Indifferent = record {
  to_props = λ s p h. h;
  to_map = λ s m h. h;
  to_mode = λ s m h. h;
  to_types = λ s ts h. h;
  to_catalog = λ s c (h, k). (h, refl);
}
