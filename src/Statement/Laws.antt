-- ===== src/Statement/Laws.antt =====
-- What the operations of src/ExecutableStatement.cpp promise.
use exodbc.Prelude.{ℕ, ◌≡◌, ◌⊎◌, Bool, true, not, some, ◌∷◌, arith, is_empty}
use exodbc.Prelude.Texts.{Text}
use exodbc.Odbc.{
  Driver, Call, Result, World, sql_close, sql_free_stmt, sql_exec_direct, sql_execute, called, ok,
  raised,
}
use exodbc.Statement.{stmt_handle, Statement}
use exodbc.Statement.Execute.{execute_direct, execute_prepared}

-- The handle of a statement that is ready for calls.
abbrev pub HasHandle : World Statement → ℕ → Type 0
HasHandle w h = stmt_handle w.self.h_stmt ≡ some h

-- What an execution may leave behind: `run` is the call that executes, and `ready` what it asserts.
abbrev pub ExecuteOutcome :
    World Statement → ℕ → Call → Bool → Result (Unit {0}) × World Statement → Type 0
ExecuteOutcome w h run ready (ok _, w') =
    (ready ≡ true)
    × (w'.self ≡ w.self)
    × (w'.trace ≡ called run ∷ called (sql_free_stmt (some h) sql_close) ∷ w.trace)
ExecuteOutcome w h run ready (raised e, w') =
    (w'.self ≡ w.self)
    × ((w'.trace ≡ w.trace)
        ⊎ ((w'.trace ≡ called (sql_free_stmt (some h) sql_close) ∷ w.trace)
            ⊎ (w'.trace ≡ called run ∷ called (sql_free_stmt (some h) sql_close) ∷ w.trace)))

-- On a statement with an allocated handle, `ExecuteDirect` and `ExecutePrepared` leave the object as
-- it is, and make no calls but, in this order, one that closes pending results and one that
-- executes; both calls are made if they return. `ExecutePrepared` returns only if the statement
-- counts as prepared, `ExecuteDirect` only for a text that is not empty.
pub execute_outcome :
    (d : Driver) (h : ℕ) (sql : Text) (w : World Statement)
    → HasHandle w h
    → ExecuteOutcome w h
        (sql_exec_direct (some h) sql)
        (not (is_empty sql))
        (execute_direct d sql w)
      × ExecuteOutcome w h (sql_execute (some h)) w.self.is_prepared (execute_prepared d w)
unfolding execute_direct execute_prepared
execute_outcome d h sql w e = (ground arith, ground arith)
