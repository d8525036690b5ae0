-- ===== src/Tests/Tables.antt =====
-- A table at concrete inputs.
use exodbc.Table.Binding.{
  bind_parameters, bind_columns, prepare_and_bind, bind_update_pk_parameters,
  bind_insert_parameters,
}
use exodbc.Statement.Bind.{
  database_supports_describe_param, bind_column, describe_parameter, bind_parameter,
}
use exodbc.Statement.Cursor.{read_and_set_cursor, set_cursor_options, make_handle, init}
use exodbc.Statement.Execute.{prepare}
use exodbc.Handle.{new_handle, allocate_with_parent}
use exodbc.Table.Binding.Laws.{NumberedOutcome, bind_parameters_numbered}
use exodbc.Table.Columns.Auto.{create_for_info, with_nullable, describe_buffer, create_loop}
use exodbc.Table.Columns.Auto.Laws.{Matches, create_loop-Matches}
use exodbc.TypeMap.{get_buffer_type}
use exodbc.TypeMap.Defaults.{default_sql2_buffer_map}
use exodbc.Buffer.Create.{create_column_buffer_ptr}
use exodbc.Prelude.{◌+◌, ◌≡◌, refl, ◌↔◌, Bool, true, false, some, [], ◌∷◌, is_empty, All}
use exodbc.Prelude.Texts.{Text, txt, text_eq}
use exodbc.Odbc.{World, ok}
use exodbc.Odbc.Triple.{Ended}
use exodbc.Flags.{
  test, set, cf_select, af_select_where, af_update_pk, af_insert, af_delete_pk, tof_none,
}
use exodbc.SqlTypes.{SqlType, sql_integer, v_3}
use exodbc.Buffer.{get_sql_c_type, new_column_buffer, pos, negsuc}
use exodbc.Statement.{new_statement, reset}
use exodbc.Table.{Columns, Table}
use exodbc.Table.Info.{table_query_name}
use exodbc.Table.Sql.{update_loop, insert_loop, update_pk_sql, insert_sql, select_pk_sql}
use exodbc.Table.Sql.Loops.{with_flag, set_columns}
use exodbc.Table.Sql.Laws.{update_pk_sql_lem, insert_sql_lem, select_pk_sql_lem}
use exodbc.Table.Columns.{
  update_column, get_column_buffer_index, get_primary_key_column_buffers, set_column,
}
use exodbc.Table.Columns.Checks.{
  exceeds, check_column_flags, check_sql_types, mark_primary_keys,
  query_primary_keys_and_update_columns,
}
use exodbc.Table.Columns.Laws.{
  SetColumnOutcome, set_column_outcome, check_column_flags_lem, Granted, supported_columns,
  check_sql_types_lem,
}
use exodbc.Table.Access.{delete_by_pk_values}
use exodbc.Table.Access.Laws.{delete_by_pk_values_outcome, ReadyToDelete}
use exodbc.Table.Open.{
  keep_columns, free_statements, allocate_all, allocate_statements, close_table, bind_keys,
  bind_all, search_table, find_keys, check_columns, open_body, open_failed, open_table,
}
use exodbc.Table.Open.Frame.{Fixed}
use exodbc.Table.Open.Laws.{OpenOutcome, open_table_outcome, close_table_outcome}
use exodbc.Tests.Fixtures.{
  good_driver, empty_driver, strip, plain_boost, plain_boost-BoostLaws, sample_db, sample_info,
  column, id_column, age_column, sample_columns, prepared_statement, sample_table, at_start,
  sample_column_info, sample_catalog,
}

abbrev person : Text
person = txt "HR.PERSON"

sample_name : table_query_name sample_info ≡ ok person
unfolding table_query_name
sample_name = refl

update_pk_sql_lem_example :
    update_pk_sql plain_boost sample_info sample_columns
    ≡ ok (txt "UPDATE HR.PERSON SET AGE = ? WHERE ID = ?", age_column ∷ id_column ∷ [])
unfolding with_flag set_columns test
update_pk_sql_lem_example =
    update_pk_sql_lem plain_boost plain_boost-BoostLaws sample_info person sample_columns
      sample_name (refl, tt) (refl, tt)

insert_sql_lem_example :
    insert_sql plain_boost sample_info sample_columns
    ≡ ok (txt "INSERT INTO HR.PERSON (ID, AGE) VALUES(?, ?)", id_column ∷ age_column ∷ [])
unfolding with_flag test
insert_sql_lem_example =
    insert_sql_lem plain_boost plain_boost-BoostLaws sample_info person sample_columns sample_name
      (refl, (refl, tt))

select_pk_sql_lem_example :
    select_pk_sql plain_boost sample_info sample_columns
    ≡ ok (txt "SELECT ID, AGE FROM HR.PERSON WHERE ID = ?", id_column ∷ [])
unfolding with_flag test
select_pk_sql_lem_example =
    select_pk_sql_lem plain_boost plain_boost-BoostLaws sample_info person sample_columns
      sample_name (refl, tt) (refl, (refl, tt)) refl

abbrev closed_table : World Table
closed_table =
    at_start (sample_table false (af_select_where + af_update_pk + af_insert) new_statement)

open_table_outcome_example :
    OpenOutcome closed_table
      (open_table good_driver plain_boost (negsuc 3) sample_catalog tof_none closed_table)
open_table_outcome_example =
    open_table_outcome good_driver plain_boost (negsuc 3) sample_catalog tof_none closed_table refl

-- A table that is open for deleting by its key.
abbrev deleting_table : World Table
deleting_table = at_start (sample_table true af_delete_pk prepared_statement)

close_table_outcome_example :
    Ended
      (Fixed false af_delete_pk (some sample_db))
      (Fixed true af_delete_pk (some sample_db))
      (close_table good_driver deleting_table)
close_table_outcome_example = close_table_outcome good_driver deleting_table refl

deleting_table-ReadyToDelete : ReadyToDelete empty_driver 5 deleting_table
unfolding test
deleting_table-ReadyToDelete = record {
  open_for_deleting = refl;
  prepared = refl;
  handle_is = refl;
  closes = refl;
}

delete_by_pk_values_outcome_example :
    (delete_by_pk_values empty_driver false deleting_table).0 ≡ ok tt
delete_by_pk_values_outcome_example =
    delete_by_pk_values_outcome empty_driver 5 false deleting_table deleting_table-ReadyToDelete

abbrev reading_table : World Table
reading_table = at_start (sample_table true af_select_where prepared_statement)

set_column_outcome_example :
    SetColumnOutcome closed_table 2 id_column (set_column 2 id_column closed_table)
set_column_outcome_example = set_column_outcome 2 id_column closed_table

check_column_flags_lem_example :
    (check_column_flags sample_info (af_select_where + af_update_pk) sample_columns ≡ ok tt)
    ↔ All
        (λ e.
          (is_empty e.1.query_name ≡ false) × Granted (af_select_where + af_update_pk) e.1.flags)
        sample_columns
check_column_flags_lem_example =
    check_column_flags_lem sample_info (af_select_where + af_update_pk) sample_columns

abbrev is_number : SqlType → Bool
is_number sql_integer = true
is_number _ = false

check_sql_types_lem_example :
    (check_sql_types is_number true sample_columns
      ≡ (ok tt, supported_columns is_number sample_columns))
    × ((check_sql_types is_number false sample_columns).1 ≡ sample_columns)
    × (((check_sql_types is_number false sample_columns).0 ≡ ok tt)
        ↔ All (λ e. is_number e.1.sql_type ≡ true) sample_columns)
check_sql_types_lem_example = check_sql_types_lem is_number sample_columns (refl, (refl, tt))

-- `Open` returns on this table, with the columns that it had.
opens :
    (open_table good_driver plain_boost (negsuc 3) sample_catalog tof_none closed_table).0 ≡ ok tt
unfolding open_table open_body bind_all bind_keys bind_update_pk_parameters search_table find_keys
    check_columns allocate_statements allocate_all test set init make_handle allocate_with_parent
    new_handle new_statement set_cursor_options read_and_set_cursor
    query_primary_keys_and_update_columns mark_primary_keys get_column_buffer_index text_eq
    update_column keep_columns check_column_flags exceeds bind_columns bind_column prepare_and_bind
    bind_parameters bind_parameter prepare update_pk_sql update_loop bind_insert_parameters
    insert_sql insert_loop open_failed free_statements reset table_query_name strip
    get_primary_key_column_buffers database_supports_describe_param describe_parameter
    get_sql_c_type
opens = refl

bind_parameters_numbered_example :
    NumberedOutcome
      (age_column ∷ id_column ∷ [])
      1
      (at_start prepared_statement)
      (bind_parameters good_driver (age_column ∷ id_column ∷ []) 1 (at_start prepared_statement))
bind_parameters_numbered_example =
    bind_parameters_numbered good_driver (age_column ∷ id_column ∷ []) 1
      (at_start prepared_statement)

-- The column that is created for a number that may not be null.
abbrev created_column : Columns
created_column = (0, record (column (txt "AGE") cf_select) { column_size = pos 10 }) ∷ []

create_loop-Matches_example : Matches (sample_column_info (txt "AGE") ∷ []) created_column 0
unfolding create_loop create_for_info get_buffer_type default_sql2_buffer_map
    create_column_buffer_ptr new_column_buffer describe_buffer with_nullable text_eq
create_loop-Matches_example =
    create_loop-Matches plain_boost (negsuc 3) (default_sql2_buffer_map v_3)
      (sample_column_info (txt "AGE") ∷ []) cf_select 0 created_column refl
