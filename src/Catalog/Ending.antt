-- ===== src/Catalog/Ending.antt =====
-- The loops over result sets in src/DatabaseCatalog.cpp end.
pub mod Searches
use exodbc.Prelude.{ℕ, suc, ◌≤◌, ◌≡◌, refl, ◌∙◌, Bool, false, Option, none, some, List, [], ◌∷◌}
use exodbc.Prelude.Texts.{Text}
use exodbc.Odbc.{
  is_success, Driver, Action, ◌>>=◌, pure, throw, get, ex_assert, invoke, throw_ifn_succeeded,
  Reply, Event, Exn, Result, World, sql_fetch, sql_get_data, called, not_found, bad_get, ok, raised,
}
use exodbc.SqlTypes.{}
use exodbc.Props.{
  find_property, get_property, Value, SqlInfoProperty, Props, small_value, int_value, text_value,
}
use exodbc.Props.Getters.{as_small, get_max_name_len}
use exodbc.Catalog.{on_props, get_data, get_column, get_columns, Column, plain, limited}
use exodbc.Catalog.Rows.{}
use exodbc.Catalog.Search.{}

-- How many rows have been fetched since the last call that is neither a fetch nor a SQLGetData.
abbrev pub rows_fetched : List Event → ℕ
rows_fetched (called (sql_fetch h) ∷ r) = suc (rows_fetched r)
rows_fetched (called (sql_get_data h n) ∷ r) = rows_fetched r
rows_fetched _ = 0

-- A result set of the driver has `k` rows at most.
pub record EndsWithin (d : Driver) (k : ℕ) : Type 0 where
  pub ends :
      (tr : List Event) (h : Option ℕ)
      → k ≤ rows_fetched tr
      → is_success (d tr (sql_fetch h)).ret ≡ false

-- An action that fetches nothing.
pub record Reads {S A : Type 0} (m : Action S A) : Type 0 where
  pub same : (w : World S) → rows_fetched (m w).1.trace ≡ rows_fetched w.trace

module _ {S A : Type 0} where
  Reads-pure : (a : A) → Reads {S = S} (pure a)
  Reads-pure a = record { same = λ w. refl }

  Reads-throw : (e : Exn) → Reads {S = S} (throw {A = A} e)
  Reads-throw e = record { same = λ w. refl }

module _ {S : Type 0} where
  Reads-get : Reads {S = S} get
  Reads-get = record { same = λ w. refl }

  Reads-ex_assert : (b : Bool) → Reads {S = S} (ex_assert b)
  Reads-ex_assert b = record { same = λ w. refl }

  Reads-throw_ifn_succeeded : (r : Reply) → Reads {S = S} (throw_ifn_succeeded r)
  Reads-throw_ifn_succeeded r = record { same = λ w. refl }

  Reads-get_data : (d : Driver) (h : Option ℕ) (n : ℕ) → Reads {S = S} (invoke d (sql_get_data h n))
  Reads-get_data d h n = record { same = λ w. refl }

module _ {S A B : Type 0} where
  Reads-on :
      (r : Result A) (w : World S) (f : A → Action S B)
      → ((a : A) → Reads (f a))
      → rows_fetched
          (elim r as (λ z. Result B × World S) [ ok a ↦ f a w | raised e ↦ (raised e, w) ]).1.trace
        ≡ rows_fetched w.trace
  Reads-on (ok a) w f k = (k a).same w
  Reads-on (raised e) w f k = refl

  Reads-bind :
      (m : Action S A) (f : A → Action S B) → Reads m → ((a : A) → Reads (f a)) → Reads (m >>= f)
  Reads-bind m f k l = record { same = λ w. Reads-on (m w).0 (m w).1 f l ∙ k.same w }

ruleset reads_rules = (
  Reads-pure, Reads-throw, Reads-get, Reads-ex_assert, Reads-throw_ifn_succeeded, Reads-get_data,
  Reads-bind,
)

Reads-option :
    (o : Option SqlInfoProperty)
    → Reads
        (elim o as (λ x. Action Props SqlInfoProperty) [ none ↦ throw not_found | some p ↦ pure p ])
Reads-option none = Reads-throw not_found
Reads-option (some p) = Reads-pure p

Reads-as_small : (v : Value) → Reads (as_small v)
Reads-as_small (small_value n) = Reads-pure n
Reads-as_small (int_value n) = Reads-throw bad_get
Reads-as_small (text_value s) = Reads-throw bad_get

Reads-get_max_name_len : (n : Text) → Reads (get_max_name_len n)
unfolding get_max_name_len get_property
Reads-get_max_name_len n =
    Reads-bind _ _ (Reads-bind _ _ Reads-get (λ s. Reads-option (find_property n s.props)))
      (λ p. Reads-bind _ _ (Reads-as_small p.value) (λ v. Reads-pure _))

Reads-on_props : {A : Type 0} (m : Action Props A) → Reads m → Reads (on_props m)
Reads-on_props m k = record { same = λ w. k.same (record { self = w.self.props; trace = w.trace }) }

module _ (d : Driver) where
  Reads-get_datum : (n : ℕ) → Reads (get_data d n)
  unfolding get_data
  Reads-get_datum n = search reads_rules depth 20 fits 5000

  Reads-get_column : (c : Column) → Reads (get_column d c)
  unfolding get_column
  Reads-get_column (plain n) = Reads-get_datum n
  Reads-get_column (limited name n) =
      Reads-bind _ _ (Reads-on_props _ (Reads-get_max_name_len name)) (λ v. Reads-get_datum n)

  pub Reads-get_columns : (cs : List Column) → Reads (get_columns d cs)
  unfolding get_columns
  Reads-get_columns [] = Reads-pure []
  Reads-get_columns (c ∷ r) =
      Reads-bind _ _ (Reads-get_column c)
        (λ x. Reads-bind _ _ (Reads-get_columns r) (λ xs. Reads-pure (x ∷ xs)))
