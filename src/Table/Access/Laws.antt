-- ===== src/Table/Access/Laws.antt =====
-- What the methods of src/Table.cpp that execute statements promise.
use exodbc.Prelude.{
  ℕ, ◌≡◌, refl, Bool, true, false, not, ◌&&◌, ◌||◌, some, List, ◌∷◌, arith, if◌then◌else◌,
}
use exodbc.Prelude.Texts.{Text, Boost}
use exodbc.Odbc.{
  succeeded, is_no_data, Driver, Reply, Event, Result, World, sql_close, sql_free_stmt, sql_execute,
  called, assertion, sql_result, ok, raised,
}
use exodbc.Flags.{
  af_select_where, af_update_pk, af_update_where, af_insert, af_delete_pk, af_delete_where,
  af_count_where,
}
use exodbc.Statement.{stmt_handle}
use exodbc.Statement.Laws.{}
use exodbc.Table.{has_access, Table}
use exodbc.Statement.Execute.{close_stmt_handle, select_close, execute_prepared}
use exodbc.Table.Access.{
  forgive_no_data, is_query_only, select_by_sql_stmt, select_by_pk_values, insert_row,
  delete_by_pk_values, update_by_pk_values, count, delete_where, update_where,
}
use exodbc.Table.Binding.{}
use exodbc.Table.Sql.{}

-- The method fails an assertion at once: nothing is called and nothing changes.
abbrev pub Refused : World Table → Result (Unit {0}) × World Table → Type 0
Refused w r = r ≡ (raised assertion, w)

-- The method is refused unless a condition holds.
abbrev pub RefusedUnless : Bool → World Table → Result (Unit {0}) × World Table → Type 0
RefusedUnless true w r = Unit {0}
RefusedUnless false w r = Refused w r

refused_unless :
    (b : Bool) (w : World Table) (r : Result (Unit {0}) × World Table)
    → (b ≡ false → Refused w r)
    → RefusedUnless b w r
refused_unless true w r k = tt
refused_unless false w r k = k refl

refused :
    (b : Bool) (w : World Table) (r : Result (Unit {0}) × World Table)
    → b ≡ false
    → RefusedUnless b w r
    → Refused w r
refused true w r e k = ground (arith, e)
refused false w r e k = k

pub access-Refused :
    (d : Driver) (b : Boost) (sql : Text) (fail : Bool) (w : World Table)
    → RefusedUnless (w.self.is_open && has_access af_insert w.self) w (insert_row d w)
      × RefusedUnless (w.self.is_open && has_access af_update_pk w.self) w (update_by_pk_values d w)
      × RefusedUnless
          (w.self.is_open && has_access af_delete_pk w.self)
          w
          (delete_by_pk_values d fail w)
      × RefusedUnless
          (w.self.is_open && has_access af_select_where w.self)
          w
          (select_by_sql_stmt d sql w)
      × RefusedUnless (w.self.is_open && has_access af_count_where w.self) w (count d b sql w)
      × RefusedUnless (has_access af_update_where w.self) w (update_where d b sql w)
      × RefusedUnless (has_access af_delete_where w.self) w (delete_where d b sql fail w)
      × RefusedUnless w.self.is_open w (select_by_pk_values d w)
unfolding insert_row update_by_pk_values delete_by_pk_values select_by_sql_stmt count update_where
    delete_where select_by_pk_values
access-Refused d b sql fail w = (
  refused_unless _ w _ (λ e. ground (arith, e)),
  refused_unless _ w _ (λ e. ground (arith, e)),
  refused_unless _ w _ (λ e. ground (arith, e)),
  refused_unless _ w _ (λ e. ground (arith, e)),
  refused_unless _ w _ (λ e. ground (arith, e)),
  refused_unless _ w _ (λ e. ground (arith, e)),
  refused_unless _ w _ (λ e. ground (arith, e)),
  refused_unless _ w _ (λ e. ground (arith, e)),
)

-- A table for which `IsQueryOnly` holds refuses every change: inserting, and updating and deleting
-- by the primary key or by a condition, open or not.
is_query_only-Refused :
    (d : Driver) (b : Boost) (sql : Text) (fail : Bool) (w : World Table)
    → is_query_only w.self ≡ true
    → Refused w (insert_row d w)
      × Refused w (update_by_pk_values d w)
      × Refused w (delete_by_pk_values d fail w)
      × Refused w (update_where d b sql w)
      × Refused w (delete_where d b sql fail w)
unfolding is_query_only
is_query_only-Refused d b sql fail w e =
    let r = access-Refused d b sql fail w in
    (
      refused _ w _ (ground (arith, e)) r.0,
      refused _ w _ (ground (arith, e)) r.1,
      refused _ w _ (ground (arith, e)) r.2,
      refused _ w _ (ground (arith, e)) r.5,
      refused _ w _ (ground (arith, e)) r.6,
    )

-- A table that is ready to delete by its primary key on a statement handle.
pub record ReadyToDelete (d : Driver) (h : ℕ) (w : World Table) : Type 0 where
  pub open_for_deleting : (w.self.is_open && has_access af_delete_pk w.self) ≡ true
  pub prepared : w.self.exec_stmt_delete_pk.is_prepared ≡ true
  pub handle_is : stmt_handle w.self.exec_stmt_delete_pk.h_stmt ≡ some h
  pub closes : succeeded (d w.trace (sql_free_stmt (some h) sql_close)).ret ≡ true

-- The driver's answer to the execution, after pending results have been closed.
abbrev pub delete_reply : Driver → ℕ → List Event → Reply
delete_reply d h events =
    d (called (sql_free_stmt (some h) sql_close) ∷ events) (sql_execute (some h))

-- `DeleteByPkValues` of a table that is ready for it: it returns if the driver executes, and also if
-- the driver has no data and the caller did not ask to fail on that; otherwise it throws
-- SqlResultException with the driver's code and records.
pub delete_by_pk_values_outcome :
    (d : Driver) (h : ℕ) (fail : Bool) (w : World Table)
    → ReadyToDelete d h w
    → let reply = delete_reply d h w.trace in
      (delete_by_pk_values d fail w).0 ≡ (
        if succeeded reply.ret || (is_no_data reply.ret && not fail)
        then ok tt
        else raised (sql_result reply.ret reply.diag))
unfolding delete_by_pk_values execute_prepared select_close close_stmt_handle forgive_no_data
delete_by_pk_values_outcome d h fail w ready =
    ground (arith, ready.open_for_deleting, ready.prepared, ready.handle_is, ready.closes)
