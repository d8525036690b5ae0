-- ===== src/Table/Sql.antt =====
-- The SQL texts of src/Table.cpp, with the buffers whose values are put in for their markers: the
-- loops over the columns, as the source runs them.
pub mod Loops
pub mod Laws
use exodbc.Prelude.{ℕ, true, false, List, [], ◌∷◌, ◌++◌, if◌then◌else◌, is_empty}
use exodbc.Prelude.Texts.{Text, txt, Boost}
use exodbc.Odbc.{Result, ok, raised, assertion}
use exodbc.Flags.{test, cf_select, cf_update, cf_insert, cf_primary_key}
use exodbc.Buffer.{ColumnBuffer}
use exodbc.Table.{Columns}
use exodbc.Table.Info.{TableInfo, table_query_name}

-- The loop that collects "name, " of the columns with CF_SELECT.
unfoldable pub select_loop : Columns → Text → Result Text
select_loop [] fields = ok fields
select_loop ((i, c) ∷ cs) fields = elim (test c.flags cf_select) [
  | false ↦ select_loop cs fields
  | true ↦ elim (is_empty c.query_name) [
    | true ↦ raised assertion
    | false ↦ select_loop cs (fields ++ (c.query_name ++ txt ", "))
  ]
]

-- The loop that collects "name = ?, " and the buffer of the columns with a flag:
-- CF_PRIMARY_KEY for the WHERE of a delete and of a select, CF_UPDATE for the SET of `Update`.
unfoldable pub marker_loop :
    ℕ → Columns → Text → List ColumnBuffer → Result (Text × List ColumnBuffer)
marker_loop f [] markers bound = ok (markers, bound)
marker_loop f ((i, c) ∷ cs) markers bound = elim (test c.flags f) [
  | false ↦ marker_loop f cs markers bound
  | true ↦ elim (is_empty c.query_name) [
    | true ↦ raised assertion
    | false ↦ marker_loop f cs (markers ++ (c.query_name ++ txt " = ?, ")) (bound ++ (c ∷ []))
  ]
]

-- The four variables that the loop of `BindUpdatePkParameters` fills.
pub record UpdateParts : Type 0 where
  pub set_markers : Text
  pub set_params : List ColumnBuffer
  pub where_markers : Text
  pub where_params : List ColumnBuffer

-- A column of the primary key goes to WHERE, also if it has CF_UPDATE.
unfoldable pub update_loop : Columns → UpdateParts → Result UpdateParts
update_loop [] p = ok p
update_loop ((i, c) ∷ cs) p = elim (test c.flags cf_primary_key) [
  | true ↦ elim (is_empty c.query_name) [
    | true ↦ raised assertion
    | false ↦ update_loop cs (record p {
      where_markers = p.where_markers ++ (c.query_name ++ txt " = ?, ");
      where_params = p.where_params ++ (c ∷ []);
    })
  ]
  | false ↦ elim (test c.flags cf_update) [
    | false ↦ update_loop cs p
    | true ↦ elim (is_empty c.query_name) [
      | true ↦ raised assertion
      | false ↦ update_loop cs (record p {
        set_markers = p.set_markers ++ (c.query_name ++ txt " = ?, ");
        set_params = p.set_params ++ (c ∷ []);
      })
    ]
  ]
]

-- The three variables that the loop of `BindInsertParameters` fills.
pub record InsertParts : Type 0 where
  pub fields : Text
  pub markers : Text
  pub params : List ColumnBuffer

unfoldable pub insert_loop : Columns → InsertParts → Result InsertParts
insert_loop [] p = ok p
insert_loop ((i, c) ∷ cs) p = elim (test c.flags cf_insert) [
  | false ↦ insert_loop cs p
  | true ↦ elim (is_empty c.query_name) [
    | true ↦ raised assertion
    | false ↦ insert_loop cs (record {
      fields = p.fields ++ (c.query_name ++ txt ", ");
      markers = p.markers ++ txt "?, ";
      params = p.params ++ (c ∷ []);
    })
  ]
]

-- With `m_tableInfo.GetQueryName()`.
abbrev pub named : {A : Type 0} → TableInfo → (Text → Result A) → Result A
named i k = elim (table_query_name i) [ ok name ↦ k name | raised e ↦ raised e ]

-- `exASSERT_MSG(!params.empty(), ...)`
abbrev unless_empty : {A : Type 0} → List ColumnBuffer → Result A → Result A
unless_empty [] r = raised assertion
unless_empty (c ∷ cs) r = r

module _ (b : Boost) where
  abbrev erased : Text → Text
  erased s = b.erase_last s (txt ", ")

  -- `BuildSelectFieldsStatement`
  unfoldable pub build_select_fields_statement : Columns → Result Text
  build_select_fields_statement cs =
      if is_empty cs
      then raised assertion
      else elim (select_loop cs []) [ ok fields ↦ ok (erased fields) | raised e ↦ raised e ]

  -- The text of `BindDeletePkParameters`, and its parameters.
  unfoldable pub delete_pk_sql : TableInfo → Columns → Result (Text × List ColumnBuffer)
  delete_pk_sql i cs = elim (marker_loop cf_primary_key cs [] []) [
    | raised e ↦ raised e
    | ok (markers, bound) ↦ named i (λ name.
        unless_empty bound
          (ok (b.format (txt "DELETE FROM %s WHERE %s") (name ∷ erased markers ∷ []), bound)))
  ]

  -- The text of `BindUpdatePkParameters`, and its parameters: those of SET, then those of WHERE.
  unfoldable pub update_pk_sql : TableInfo → Columns → Result (Text × List ColumnBuffer)
  update_pk_sql i cs =
      elim (update_loop cs
        (record { set_markers = []; set_params = []; where_markers = []; where_params = [] })) [
          | raised e ↦ raised e
          | ok p ↦ named i (λ name. unless_empty p.set_params (
              unless_empty p.where_params (
                ok (
                  b.format (txt "UPDATE %s SET %s WHERE %s")
                      (name ∷ erased p.set_markers ∷ erased p.where_markers ∷ []),
                  p.set_params ++ p.where_params,
                ))))
        ]

  -- The text of `BindInsertParameters`, and its parameters.
  unfoldable pub insert_sql : TableInfo → Columns → Result (Text × List ColumnBuffer)
  insert_sql i cs = elim (insert_loop cs (record { fields = []; markers = []; params = [] })) [
    | raised e ↦ raised e
    | ok p ↦ named i (λ name. unless_empty p.params (
        ok (
          b.format (txt "INSERT INTO %s (%s) VALUES(%s)")
              (name ∷ erased p.fields ∷ erased p.markers ∷ []),
          p.params,
        )))
  ]

  -- The text of `BindSelectPkParameters`, and its parameters.
  unfoldable pub select_pk_sql : TableInfo → Columns → Result (Text × List ColumnBuffer)
  select_pk_sql i cs = elim (marker_loop cf_primary_key cs [] []) [
    | raised e ↦ raised e
    | ok (markers, bound) ↦ unless_empty bound (elim (build_select_fields_statement cs) [
      | raised e ↦ raised e
      | ok fields ↦ named i (λ name. ok (
        b.format (txt "SELECT %s FROM %s WHERE %s") (fields ∷ name ∷ erased markers ∷ []),
        bound,
      ))
    ])
  ]

  -- The text of `Update`, and its parameters.
  unfoldable pub update_sql : TableInfo → Columns → Text → Result (Text × List ColumnBuffer)
  update_sql i cs condition = elim (marker_loop cf_update cs [] []) [
    | raised e ↦ raised e
    | ok (markers, bound) ↦ named i (λ name. unless_empty bound (
        ok (
          b.format (txt "UPDATE %s SET %s WHERE %s") (name ∷ erased markers ∷ condition ∷ []),
          bound,
        )))
  ]

-- The text of `Select`.
unfoldable pub select_sql : Boost → TableInfo → Columns → Text → Text → Result Text
select_sql b i cs condition order = elim (build_select_fields_statement b cs) [
  | raised e ↦ raised e
  | ok fields ↦ named i (λ name. ok (
      txt "SELECT "
      ++ (fields
          ++ (txt " FROM "
              ++ (name
                  ++ ((if is_empty condition then [] else txt " WHERE " ++ condition)
                      ++ (if is_empty order then [] else txt " ORDER BY " ++ order)))))))
]
