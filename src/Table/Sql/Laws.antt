-- ===== src/Table/Sql/Laws.antt =====
-- The SQL that src/Table.cpp prepares.
use exodbc.Prelude.{
  refl, ◌≡◌, ◌∙◌, false, ◌||◌, List, [], ◌∷◌, ◌++◌, map, arith, if◌then◌else◌, is_empty, All,
}
use mathlib.Core.List.{append-nil}
use exodbc.Prelude.Texts.{Text, txt, Boost, BoostLaws}
use exodbc.Odbc.{assertion, ok, raised}
use exodbc.Flags.{cf_select, cf_insert, cf_primary_key}
use exodbc.Buffer.{ColumnBuffer}
use exodbc.Table.{Columns}
use exodbc.Table.Info.{table_query_name, TableInfo}
use exodbc.Table.Sql.{
  build_select_fields_statement, delete_pk_sql, update_pk_sql, insert_sql, select_pk_sql,
}
use exodbc.Table.Sql.Loops.{
  join, with_flag, IsNamed, marker, marker_loop_lem, set_columns, update_loop_lem, insert_loop_lem,
  select_loop_lem, erase-trailing,
}

-- The name of a buffer's column.
abbrev names : List ColumnBuffer → List Text
names = map (λ c. c.query_name)

abbrev marks : List ColumnBuffer → List Text
marks = map (λ c. txt "?")

module _ (b : Boost) (laws : BoostLaws b) where
  delete_format :
      (x y : Text)
      → b.format (txt "DELETE FROM %s WHERE %s") (x ∷ y ∷ [])
        ≡ txt "DELETE FROM " ++ (x ++ (txt " WHERE " ++ y))
  delete_format x y = laws.format-fill _ _ refl ∙ simp append-nil

  update_format :
      (x y z : Text)
      → b.format (txt "UPDATE %s SET %s WHERE %s") (x ∷ y ∷ z ∷ [])
        ≡ txt "UPDATE " ++ (x ++ (txt " SET " ++ (y ++ (txt " WHERE " ++ z))))
  update_format x y z = laws.format-fill _ _ refl ∙ simp append-nil

  insert_format :
      (x y z : Text)
      → b.format (txt "INSERT INTO %s (%s) VALUES(%s)") (x ∷ y ∷ z ∷ [])
        ≡ txt "INSERT INTO " ++ (x ++ (txt " (" ++ (y ++ (txt ") VALUES(" ++ (z ++ txt ")")))))
  insert_format x y z = laws.format-fill _ _ refl

  select_format :
      (x y z : Text)
      → b.format (txt "SELECT %s FROM %s WHERE %s") (x ∷ y ∷ z ∷ [])
        ≡ txt "SELECT " ++ (x ++ (txt " FROM " ++ (y ++ (txt " WHERE " ++ z))))
  select_format x y z = laws.format-fill _ _ refl ∙ simp append-nil

module _ (b : Boost) (laws : BoostLaws b) (i : TableInfo) (name : Text) where
  -- For a table with a name and key columns with names, `BindDeletePkParameters` builds
  -- "DELETE FROM name WHERE k1 = ?, k2 = ?, ..." over the columns of the primary key in their order,
  -- which are also its parameters; it fails an assertion exactly if there is none.
  delete_pk_sql_lem :
      (cs : Columns)
      → table_query_name i ≡ ok name
      → All IsNamed (with_flag cf_primary_key cs)
      → let keys = with_flag cf_primary_key cs in
        delete_pk_sql b i cs ≡ (
          if is_empty keys
          then raised assertion
          else ok (
            txt "DELETE FROM " ++ (name ++ (txt " WHERE " ++ join (txt ", ") (map marker keys))),
            keys,
          ))
  unfolding delete_pk_sql
  delete_pk_sql_lem cs t n =
      let keys = with_flag cf_primary_key cs in
      grind (
        arith,
        t,
        marker_loop_lem cf_primary_key cs [] [] n,
        erase-trailing b (map marker keys) laws,
        delete_format b laws name (join (txt ", ") (map marker keys)),
      )

  -- For a table with a name and key and updated columns with names, `BindUpdatePkParameters` builds
  -- "UPDATE name SET s1 = ?, ... WHERE k1 = ?, ..."; the keys are the columns of the primary key, and
  -- what is set are the columns with CF_UPDATE that are no key. The parameters are those that are
  -- set and then the keys, in the order of the markers. It fails an assertion exactly if there is no
  -- key or nothing to set.
  pub update_pk_sql_lem :
      (cs : Columns)
      → table_query_name i ≡ ok name
      → All IsNamed (with_flag cf_primary_key cs)
      → All IsNamed (set_columns cs)
      → let keys = with_flag cf_primary_key cs in
        let sets = set_columns cs in
        update_pk_sql b i cs ≡ (
          if is_empty sets || is_empty keys
          then raised assertion
          else ok (
            txt "UPDATE "
                ++ (name
                    ++ (txt " SET "
                        ++ (join (txt ", ") (map marker sets)
                            ++ (txt " WHERE " ++ join (txt ", ") (map marker keys))))),
            sets ++ keys,
          ))
  unfolding update_pk_sql
  update_pk_sql_lem cs t n m =
      let keys = with_flag cf_primary_key cs in
      let sets = set_columns cs in
      grind (
        arith,
        t,
        update_loop_lem cs
            (record { set_markers = []; set_params = []; where_markers = []; where_params = [] }) n
            m,
        erase-trailing b (map marker keys) laws,
        erase-trailing b (map marker sets) laws,
        update_format b laws name (join (txt ", ") (map marker sets))
            (join (txt ", ") (map marker keys)),
      )

  -- For a table with a name and inserted columns with names, `BindInsertParameters` builds
  -- "INSERT INTO name (c1, c2, ...) VALUES(?, ?, ...)" with a marker for each column with CF_INSERT;
  -- these columns, in their order, are its parameters. It fails an assertion exactly if there is
  -- none.
  pub insert_sql_lem :
      (cs : Columns)
      → table_query_name i ≡ ok name
      → All IsNamed (with_flag cf_insert cs)
      → let inserted = with_flag cf_insert cs in
        insert_sql b i cs ≡ (
          if is_empty inserted
          then raised assertion
          else ok (
            txt "INSERT INTO "
                ++ (name
                    ++ (txt " ("
                        ++ (join (txt ", ") (names inserted)
                            ++ (txt ") VALUES("
                                ++ (join (txt ", ") (marks inserted) ++ txt ")"))))),
            inserted,
          ))
  unfolding insert_sql
  insert_sql_lem cs t n =
      let inserted = with_flag cf_insert cs in
      grind (
        arith,
        t,
        insert_loop_lem cs (record { fields = []; markers = []; params = [] }) n,
        erase-trailing b (names inserted) laws,
        erase-trailing b (marks inserted) laws,
        insert_format b laws name (join (txt ", ") (names inserted))
            (join (txt ", ") (marks inserted)),
      )

  -- For a table with a name whose selected columns and keys have names, and that has a column,
  -- `BindSelectPkParameters` builds "SELECT f1, f2, ... FROM name WHERE k1 = ?, ..." over the
  -- columns with CF_SELECT and those of the primary key, which are its parameters. It fails an
  -- assertion exactly if there is no key.
  pub select_pk_sql_lem :
      (cs : Columns)
      → table_query_name i ≡ ok name
      → All IsNamed (with_flag cf_primary_key cs)
      → All IsNamed (with_flag cf_select cs)
      → is_empty cs ≡ false
      → let keys = with_flag cf_primary_key cs in
        let selected = with_flag cf_select cs in
        select_pk_sql b i cs ≡ (
          if is_empty keys
          then raised assertion
          else ok (
            txt "SELECT "
                ++ (join (txt ", ") (names selected)
                    ++ (txt " FROM "
                        ++ (name ++ (txt " WHERE " ++ join (txt ", ") (map marker keys))))),
            keys,
          ))
  unfolding select_pk_sql build_select_fields_statement
  select_pk_sql_lem cs t n m e =
      let keys = with_flag cf_primary_key cs in
      let selected = with_flag cf_select cs in
      grind (
        arith,
        t,
        e,
        marker_loop_lem cf_primary_key cs [] [] n,
        select_loop_lem cs [] m,
        erase-trailing b (map marker keys) laws,
        erase-trailing b (names selected) laws,
        select_format b laws (join (txt ", ") (names selected)) name
            (join (txt ", ") (map marker keys)),
      )
