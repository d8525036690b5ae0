-- ===== src/Catalog/Ending/Searches.antt =====
-- The loops over result sets of src/DatabaseCatalog.cpp on fuel, and the searches and readings that
-- they stand in.
use exodbc.Prelude.{
  ℕ, zero, suc, ◌+◌, ◌≤◌, ◌<◌, ◌≡◌, refl, Bool, true, false, not, Option, none, some, List, [], ◌∷◌,
  arith,
}
use exodbc.Prelude.Texts.{Text}
use exodbc.Odbc.{
  is_success, is_no_data, Driver, sql_result_without_handle, Action, ◌>>=◌, ◌>>◌, pure, throw, when,
  branch, throw_ifn_succeeded, Call, Reply, Event, Result, World, sql_fetch, called, ok, raised,
}
use exodbc.SqlTypes.{}
use exodbc.Buffer.{}
use exodbc.Catalog.{
  put_row, get_columns, fetch_rows, close_catalog_stmt, then_close, with_closer, MetadataMode,
  DatabaseCatalog, Datum, Column,
}
use exodbc.Catalog.Rows.{}
use exodbc.Catalog.Search.{
  open_and_fetch, read_result_set, query_tables, search_tables, read_columns, read_primary_keys,
  read_sql_type_info, Names,
}
use exodbc.Catalog.Ending.{rows_fetched, Reads-get_columns, EndsWithin}

abbrev pub ended : {A : Type 0} → Result (Option A) → Bool
ended (ok none) = false
ended (ok (some a)) = true
ended (raised e) = true

module _ {A : Type 0} where
  ended-put_row :
      (q : Result (Option (List A))) (w : World DatabaseCatalog) (x : A)
      → ended q ≡ true
      → ended
          (elim q as (λ z. Result (Option (List A)) × World DatabaseCatalog) [
            | ok rest ↦ (ok (put_row x rest), w)
            | raised e ↦ (raised e, w)
          ]).0
        ≡ true
  ended-put_row (ok none) w x e = e
  ended-put_row (ok (some xs)) w x e = refl
  ended-put_row (raised z) w x e = refl

module _ {A B : Type 0} where
  -- What has an end after one action that returns has an end.
  ended_on :
      (r : Result B) (w : World DatabaseCatalog) (f : B → Action DatabaseCatalog (Option A))
      → ((b : B) → ended (f b w).0 ≡ true)
      → ended
          (elim r as (λ z. Result (Option A) × World DatabaseCatalog) [
            | ok b ↦ f b w
            | raised e ↦ (raised e, w)
          ]).0
        ≡ true
  ended_on (ok b) w f k = k b
  ended_on (raised e) w f k = refl

  ended-bind :
      (m : Action DatabaseCatalog B) (f : B → Action DatabaseCatalog (Option A))
      (w : World DatabaseCatalog)
      → ((b : B) → ended (f b (m w).1).0 ≡ true)
      → ended ((m >>= f) w).0 ≡ true
  ended-bind m f w k = ended_on (m w).0 (m w).1 f k

module _ {A : Type 0} (d : Driver) (k : ℕ) (l : EndsWithin d k) (cs : List Column)
    (f : List Datum → A) where
  not_last :
      (tr : List Event) (h : Option ℕ)
      → is_success (d tr (sql_fetch h)).ret ≡ true
      → rows_fetched tr < k
  not_last tr h b = ground (arith, l.ends tr h)

  fetched_row :
      (fuel : ℕ) (b : Bool) (r : Reply) (w : World DatabaseCatalog)
      → (b ≡ true → ended (fetch_rows d cs f fuel (get_columns d cs w).1).0 ≡ true)
      → ended
          (branch b
            (get_columns d cs >>= λ x. fetch_rows d cs f fuel >>= λ rest. pure (put_row (f x) rest))
            (when (not (is_no_data r.ret)) (throw (sql_result_without_handle r.ret))
              >> pure (some []))
            w).0
        ≡ true
  fetched_row fuel true r w h =
      ended-bind (get_columns d cs)
        (λ x. fetch_rows d cs f fuel >>= λ rest. pure (put_row (f x) rest)) w
        (λ x. ended-put_row _ (fetch_rows d cs f fuel (get_columns d cs w).1).1 (f x) (h refl))
  fetched_row fuel false r w h =
      ended-bind (when (not (is_no_data r.ret)) (throw (sql_result_without_handle r.ret)))
        (λ x. pure (some [])) w (λ x. refl)

  fetch_rows-ended :
      (fuel : ℕ) (w : World DatabaseCatalog)
      → rows_fetched w.trace ≤ k
      → k < rows_fetched w.trace + fuel
      → ended (fetch_rows d cs f fuel w).0 ≡ true
  unfolding fetch_rows
  fetch_rows-ended zero w h e = absurd (omega arith)
  fetch_rows-ended (suc fuel) w h e =
      let at : World DatabaseCatalog = record {
        self = w.self;
        trace = called (sql_fetch w.self.h_stmt.handle) ∷ w.trace;
      } in
      let read = (Reads-get_columns d cs).same at in
      fetched_row fuel (is_success (d w.trace (sql_fetch w.self.h_stmt.handle)).ret)
        (d w.trace (sql_fetch w.self.h_stmt.handle)) at
        (λ b.
          let more = not_last w.trace w.self.h_stmt.handle b in
          fetch_rows-ended fuel (get_columns d cs at).1 (omega (arith, read, more))
            (omega (arith, read, more, e)))

-- An action whose loop ends, wherever it is run.
pub record Ends {A : Type 0} (m : Action DatabaseCatalog (Option A)) : Type 0 where
  pub at : (w : World DatabaseCatalog) → ended (m w).0 ≡ true

module _ {A B : Type 0} where
  Ends-bind :
      (m : Action DatabaseCatalog B) (f : B → Action DatabaseCatalog (Option A))
      → ((b : B) → Ends (f b))
      → Ends (m >>= f)
  Ends-bind m f k = record { at = λ w. ended-bind m f w (λ b. (k b).at (m w).1) }

module _ {A : Type 0} where
  Ends-branch :
      (b : Bool) (m n : Action DatabaseCatalog (Option A)) → Ends m → Ends n → Ends (branch b m n)
  Ends-branch true m n k l = record { at = k.at }
  Ends-branch false m n k l = record { at = l.at }

  Ends-with_closer :
      (d : Driver) (m : Action DatabaseCatalog (Option A)) → Ends m → Ends (with_closer d m)
  unfolding with_closer then_close
  Ends-with_closer d m k =
      Ends-bind (close_catalog_stmt d) (λ x. then_close d m) (λ x. record { at = k.at })

ruleset ends_rules = (Ends-bind, Ends-branch)

-- After the call that opens a result set.
abbrev opened : (Option ℕ → Call) → World DatabaseCatalog → World DatabaseCatalog
opened call w = record { self = w.self; trace = called (call w.self.h_stmt.handle) ∷ w.trace }

module _ (d : Driver) (k fuel : ℕ) (l : EndsWithin d k) (e : k < fuel) where
  module _ {A : Type 0} (call : Option ℕ → Call) (cs : List Column) (f : List Datum → A)
      (z : (h : Option ℕ) (tr : List Event) → rows_fetched (called (call h) ∷ tr) ≡ 0) where
    Ends-open_and_fetch : Ends (open_and_fetch d fuel call cs f)
    unfolding open_and_fetch
    Ends-open_and_fetch = record {
      at = λ w.
          ended-bind (throw_ifn_succeeded (d w.trace (call w.self.h_stmt.handle)))
            (λ x. fetch_rows d cs f fuel) (opened call w)
            (λ x.
              fetch_rows-ended d k l cs f fuel (opened call w)
                (omega (arith, z w.self.h_stmt.handle w.trace))
                (omega (arith, e, z w.self.h_stmt.handle w.trace)));
    }

    Ends-read_result_set : Ends (read_result_set d fuel call cs f)
    unfolding read_result_set
    Ends-read_result_set = Ends-with_closer d (open_and_fetch d fuel call cs f) Ends-open_and_fetch

  Ends-query_tables : (n : Names) (t : Text) → Ends (query_tables d fuel n t)
  unfolding query_tables
  Ends-query_tables n t = search (ends_rules, Ends-read_result_set) depth 20 fits 5000

  Ends-search_tables :
      (n : Names) (t : Text) (mode : MetadataMode) → Ends (search_tables d fuel n t mode)
  unfolding search_tables
  Ends-search_tables n t mode = search (ends_rules, Ends-query_tables) depth 20 fits 5000

  Ends-read_columns :
      (column : Option Text) (n : Names) (mode : MetadataMode)
      → Ends (read_columns d fuel column n mode)
  unfolding read_columns
  Ends-read_columns column n mode = search (ends_rules, Ends-read_result_set) depth 20 fits 5000

  Ends-read_primary_keys :
      (n : Names) (mode : MetadataMode) → Ends (read_primary_keys d fuel n mode)
  unfolding read_primary_keys
  Ends-read_primary_keys n mode = search (ends_rules, Ends-read_result_set) depth 20 fits 5000

  Ends-read_sql_type_info : Ends (read_sql_type_info d fuel)
  unfolding read_sql_type_info
  Ends-read_sql_type_info = search (ends_rules, Ends-read_result_set) depth 20 fits 5000

  -- If no result set of the driver has more than `k` rows, fuel of more than `k` is enough for the
  -- searches of tables and the readings of columns, primary keys and SQL types: each of them returns
  -- its rows or throws.
  pub readings_end :
      (n : Names) (t : Text) (column : Option Text) (mode : MetadataMode)
      (w : World DatabaseCatalog)
      → (ended (search_tables d fuel n t mode w).0 ≡ true)
        × (ended (read_columns d fuel column n mode w).0 ≡ true)
        × (ended (read_primary_keys d fuel n mode w).0 ≡ true)
        × (ended (read_sql_type_info d fuel w).0 ≡ true)
  readings_end n t column mode w = (
    (Ends-search_tables n t mode).at w,
    (Ends-read_columns column n mode).at w,
    (Ends-read_primary_keys n mode).at w,
    Ends-read_sql_type_info.at w,
  )
