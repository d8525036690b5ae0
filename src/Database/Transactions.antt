-- ===== src/Database/Transactions.antt =====
-- Commit modes, isolation levels and the ends of transactions in src/Database.cpp.
use exodbc.Prelude.{
  ℕ, zero, suc, ◌/◌, ◌%◌, Bool, false, not, Option, none, some, ◌==◌, if◌then◌else◌,
}
use exodbc.Prelude.Texts.{txt}
use exodbc.Odbc.{
  Driver, Action, ◌>>=◌, ◌>>◌, pure, get, modify, when, invoke, throw_ifn_succeeded, Completion,
  rollback, attr_autocommit, attr_txn_isolation, sql_end_tran, sql_get_connect_attr,
  sql_set_connect_attr,
}
use exodbc.Props.{get_property}
use exodbc.Props.Getters.{as_int}
use exodbc.Database.{
  is_auto, on_db_props, assert_dbc, close_exec_stmt, CommitMode, TransactionIsolationMode, Database,
  auto_commit, manual_commit, unknown_commit, read_uncommitted, read_committed, repeatable_read,
  serializable, unknown_isolation,
}

-- SQL_AUTOCOMMIT_OFF and SQL_AUTOCOMMIT_ON
abbrev pub sql_autocommit_off : ℕ
sql_autocommit_off = 0

abbrev pub sql_autocommit_on : ℕ
sql_autocommit_on = 1

abbrev pub autocommit_value : CommitMode → ℕ
autocommit_value manual_commit = sql_autocommit_off
autocommit_value _ = sql_autocommit_on

-- The variable is 0, which is SQL_AUTOCOMMIT_OFF, before the driver writes to it.
abbrev pub commit_mode_of : Option ℕ → CommitMode
commit_mode_of none = manual_commit
commit_mode_of (some v) =
    if v == sql_autocommit_off
    then manual_commit
    else (if v == sql_autocommit_on then auto_commit else unknown_commit)

-- SQL_TXN_READ_UNCOMMITTED and so on: 1, 2, 4 and 8.
abbrev isolation_of : Option ℕ → TransactionIsolationMode
isolation_of none = unknown_isolation
isolation_of (some v) =
    if v == 1
    then read_uncommitted
    else (if v == 2
        then read_committed
        else (if v == 4
            then repeatable_read
            else (if v == 8 then serializable else unknown_isolation)))

abbrev pub isolation_value : TransactionIsolationMode → ℕ
isolation_value read_uncommitted = 1
isolation_value read_committed = 2
isolation_value repeatable_read = 4
isolation_value serializable = 8
isolation_value unknown_isolation = 0

module _ (d : Driver) where
  -- `CommitTrans` and `RollbackTrans`
  unfoldable pub end_trans : Completion → Action Database (Unit {0})
  end_trans c = do
    assert_dbc
    s ← get
    r ← invoke d (sql_end_tran s.h_dbc.handle c)
    throw_ifn_succeeded r

  unfoldable pub read_commit_mode : Action Database CommitMode
  read_commit_mode = do
    assert_dbc
    s ← get
    r ← invoke d (sql_get_connect_attr s.h_dbc.handle attr_autocommit)
    throw_ifn_succeeded r
    modify (λ s. record s { commit_mode = commit_mode_of r.out })
    pure (commit_mode_of r.out)

  unfoldable pub set_commit_mode : CommitMode → Action Database (Unit {0})
  unfolding end_trans
  set_commit_mode mode = do
    assert_dbc
    s ← get
    when (not (is_auto s.commit_mode)) (end_trans rollback)
    r ← invoke d (sql_set_connect_attr s.h_dbc.handle attr_autocommit (autocommit_value mode))
    throw_ifn_succeeded r
    modify (λ s. record s { commit_mode = mode })

  unfoldable pub read_transaction_isolation_mode : Action Database TransactionIsolationMode
  read_transaction_isolation_mode = do
    assert_dbc
    s ← get
    r ← invoke d (sql_get_connect_attr s.h_dbc.handle attr_txn_isolation)
    throw_ifn_succeeded r
    pure (isolation_of r.out)

  unfoldable pub set_transaction_isolation_mode :
      TransactionIsolationMode → Action Database (Unit {0})
  unfolding close_exec_stmt end_trans
  set_transaction_isolation_mode mode = do
    assert_dbc
    close_exec_stmt d
    s ← get
    when (not (is_auto s.commit_mode)) (end_trans rollback)
    r ← invoke d (sql_set_connect_attr s.h_dbc.handle attr_txn_isolation (isolation_value mode))
    throw_ifn_succeeded r

-- `txnIsolationOpts & mode`, where a mode is one bit or none.
abbrev has_bit : ℕ → ℕ → Bool
has_bit opts zero = false
has_bit opts (suc m) = not (opts / suc m % 2 == 0)

unfoldable pub can_set_transaction_isolation_mode : TransactionIsolationMode → Action Database Bool
unfolding get_property
can_set_transaction_isolation_mode mode = on_db_props (do
  p ← get_property (txt "SQL_TXN_ISOLATION_OPTION")
  opts ← as_int p.value
  pure (has_bit opts (isolation_value mode)))
