-- ===== src/Table/Open/Settled.antt =====
-- What binding leaves alone, and what it finds out: the steps of `Open` in src/Table.cpp behind the
-- checks of the columns.
use exodbc.Prelude.{
  ◌≡◌, inl, inr, Bool, true, false, not, ◌||◌, Option, arith, Bool-cases, is_empty,
}
use exodbc.Prelude.Texts.{Boost}
use exodbc.Odbc.{Driver, Action, ◌>>◌, when, World}
use exodbc.Odbc.Keeps.{Keeps-when, Keeps, keeps_rules}
use exodbc.Odbc.Triple.{
  Ended, Triple-bind, Triple-get, Triple-then, Triple-known, Triple-still, Triple-and, Triple,
}
use exodbc.Flags.{Flags, test, af_select_pk, af_update_pk, af_insert, af_delete_pk, af_count_where}
use exodbc.Statement.{Db, Statement}
use exodbc.Table.{
  Columns, has_access, on_select, on_count_where, on_insert, on_update_pk, on_delete_pk, Table,
}
use exodbc.Table.Info.{TableInfo}
use exodbc.Table.Columns.{get_primary_key_column_buffers}
use exodbc.Table.Binding.{
  bind_columns, bind_delete_pk_parameters, bind_update_pk_parameters, bind_insert_parameters,
  bind_select_pk_parameters,
}
use exodbc.Table.Open.{needs_select, needs_keys, bind_count, bind_keys, bind_all}
use exodbc.Table.Open.Frame.{Fixed, Keeps-lift, Keeps-ask}

-- The table's name and columns are settled, too.
abbrev pub Settled : Flags → Option Db → TableInfo → Columns → Table → Type 0
Settled f base i cs t = (Fixed false f base t) × (t.table_info ≡ i) × (t.columns ≡ cs)

module _ {f : Flags} {base : Option Db} {i : TableInfo} {cs : Columns} {A : Type 0}
    (m : Action Statement A) where
  Settled-on_select : Keeps (Settled f base i cs) (on_select m)
  Settled-on_select = record { at = λ w h. h }

  Settled-on_count_where : Keeps (Settled f base i cs) (on_count_where m)
  Settled-on_count_where = record { at = λ w h. h }

  Settled-on_insert : Keeps (Settled f base i cs) (on_insert m)
  Settled-on_insert = record { at = λ w h. h }

  Settled-on_update_pk : Keeps (Settled f base i cs) (on_update_pk m)
  Settled-on_update_pk = record { at = λ w h. h }

  Settled-on_delete_pk : Keeps (Settled f base i cs) (on_delete_pk m)
  Settled-on_delete_pk = record { at = λ w h. h }

ruleset settled_rules = (
  keeps_rules, Keeps-lift, Keeps-ask, Settled-on_select, Settled-on_count_where, Settled-on_insert,
  Settled-on_update_pk, Settled-on_delete_pk,
)

module _ {f : Flags} {base : Option Db} {i : TableInfo} {cs : Columns} (d : Driver)
    (b : Boost) where
  Keeps-bind_insert : Keeps (Settled f base i cs) (bind_insert_parameters d b)
  unfolding bind_insert_parameters
  Keeps-bind_insert = search settled_rules depth 20 fits 5000

  Keeps-bind_update_pk : Keeps (Settled f base i cs) (bind_update_pk_parameters d b)
  unfolding bind_update_pk_parameters
  Keeps-bind_update_pk = search settled_rules depth 20 fits 5000

  Keeps-bind_delete_pk : Keeps (Settled f base i cs) (bind_delete_pk_parameters d b)
  unfolding bind_delete_pk_parameters
  Keeps-bind_delete_pk = search settled_rules depth 20 fits 5000

  Keeps-bind_select_pk : Keeps (Settled f base i cs) (bind_select_pk_parameters d b)
  unfolding bind_select_pk_parameters
  Keeps-bind_select_pk = search settled_rules depth 20 fits 5000

  Keeps-bind_count : Keeps (Settled f base i cs) (bind_count d b)
  unfolding bind_count
  Keeps-bind_count = search settled_rules depth 20 fits 5000

  Keeps-bind_keys : Keeps (Settled f base i cs) (bind_keys d b)
  unfolding bind_keys
  Keeps-bind_keys =
      search (settled_rules, Keeps-bind_update_pk, Keeps-bind_delete_pk, Keeps-bind_select_pk) depth
        20 fits 5000

  Keeps-bind_all : Keeps (Settled f base i cs) (bind_all d b)
  unfolding bind_all
  Keeps-bind_all =
      search (settled_rules, Keeps-bind_count, Keeps-bind_keys, Keeps-bind_insert) depth 20 fits
        5000

-- `needs_keys` of a table with these flags.
abbrev pub keys_needed : Flags → Bool
keys_needed f = test f af_update_pk || (test f af_delete_pk || test f af_select_pk)

-- There is a column of the primary key, if one is needed.
abbrev pub HasKeys : Flags → Columns → Type 0
HasKeys f cs = (not (keys_needed f) || not (is_empty (get_primary_key_column_buffers cs))) ≡ true

module _ {f : Flags} {base : Option Db} {i : TableInfo} {cs : Columns} (d : Driver)
    (b : Boost) where
  bind_keys-raised :
      (w : World Table)
      → Settled f base i cs w.self
      → is_empty (get_primary_key_column_buffers cs) ≡ true
      → Ended (λ t. HasKeys f cs) (λ t. Unit {0}) (bind_keys d b w)
  unfolding bind_keys
  bind_keys-raised w (h, e, k) n = ground (arith, k, n)

  bind_keys-Triple :
      Triple (Settled f base i cs) (λ t. HasKeys f cs) (λ t. Unit {0}) (bind_keys d b)
  bind_keys-Triple = elim (Bool-cases (is_empty (get_primary_key_column_buffers cs))) [
    | inl e ↦ record { ends = λ w h. bind_keys-raised w h e }
    | inr e ↦ Triple-known (bind_keys d b) (ground (arith, e))
  ]

  when_keys-Triple :
      (needed : Bool)
      → needed ≡ keys_needed f
      → Triple
          (Settled f base i cs)
          (λ t. HasKeys f cs)
          (λ t. Unit {0})
          (when needed (bind_keys d b))
  when_keys-Triple true e = record { ends = λ w h. (bind_keys-Triple).ends w h }
  when_keys-Triple false e = Triple-known (when false (bind_keys d b)) (ground (arith, e))

  bind_all-known : Triple (Settled f base i cs) (λ t. HasKeys f cs) (λ t. Unit {0}) (bind_all d b)
  unfolding bind_all
  bind_all-known =
      Triple-get
        (λ t.
          when (has_access af_count_where t) (bind_count d b)
          >> (when (needs_select t) (on_select (bind_columns d t.columns 1))
              >> (when (needs_keys t) (bind_keys d b)
                  >> when (has_access af_insert t) (bind_insert_parameters d b))))
        (λ t h.
          let count = when (has_access af_count_where t) (bind_count d b) in
          let select = when (needs_select t) (on_select (bind_columns d t.columns 1)) in
          let keys = when (needs_keys t) (bind_keys d b) in
          let insert = when (has_access af_insert t) (bind_insert_parameters d b) in
          Triple-then count (λ u. select >> (keys >> insert))
            (Keeps-when _ _ (λ e. Keeps-bind_count d b)) (λ s p. tt)
            (λ u.
              Triple-then select (λ v. keys >> insert)
                (Keeps-when (needs_select t) (on_select (bind_columns d t.columns 1))
                  (λ e. Settled-on_select (bind_columns d t.columns 1)))
                (λ s p. tt)
                (λ v.
                  Triple-bind keys (λ x. insert)
                    (when_keys-Triple (needs_keys t) (ground (arith, h.0)))
                    (λ x. Triple-still insert))))

  pub bind_all-Triple :
      Triple
        (Settled f base i cs)
        (λ t. Settled f base i cs t × HasKeys f cs)
        (Settled f base i cs)
        (bind_all d b)
  bind_all-Triple = Triple-and (bind_all d b) (Keeps-bind_all d b) bind_all-known
