-- ===== src/Lib.antt =====
-- exOdbc, an ODBC library in C++: its environment, databases, catalogs, properties, handles,
-- statements, buffers, type maps, tables and log.
--
-- The program. A `Database` is made on an `Environment`. When it is opened it reads the properties
-- of driver and product (`SqlInfoProperties`), and makes a `DatabaseCatalog`, which searches tables
-- and reads their columns and keys. A `Table` uses both; it owns five `ExecutableStatement`s, each of
-- which owns an `SqlHandle`. A table keeps column buffers, binds them to its statements when it is
-- opened, and executes prepared or given SQL. Which C type a buffer gets for an SQL type is answered
-- by an `Sql2BufferTypeMap`. Messages go to the handlers of a `LogManager`.
--
-- The model. An operation is an `Action`: it takes the object and the list of what has happened so
-- far, and gives back a value or an exception together with both (Odbc.antt). The ODBC driver is a
-- function from what has happened so far to the reply of the next call; a theorem holds for every
-- driver, or for those that behave as a named hypothesis says. A sequence of calls is thus a list of
-- events, and the order of calls can be stated.
--
-- The files.
--   Prelude      lists, tests and texts that the others share
--   Odbc         calls, replies, events, exceptions and actions; invariants and conditions of actions
--   Flags        include/exodbc/EnumFlags.h and its three enumerations
--   SqlTypes     the SQL types, C types, versions and products that the program names
--   TypeMap      src/Sql2BufferTypeMap.cpp: `RegisterType` is `register_type`, and so on
--   Buffer       include/exodbc/ColumnBuffer.h, src/ColumnBuffer.cpp: what a buffer is, how it is
--                made; its memory in Buffer/Values, strings in Buffer/Strings
--   Handle       include/exodbc/SqlHandle.h
--   Bindable     `ColumnBindable` of include/exodbc/ColumnBuffer.h with the signals of handles: the
--                connections of all buffers to all statement handles, and what the driver may still
--                write to in Bindable/Held
--   Statement    src/ExecutableStatement.cpp and src/SqlStatementCloser.cpp; binding in
--                Statement/Bind, the cursor in Statement/Cursor, running SQL in Statement/Execute,
--                descriptions of columns in Statement/Describe
--   Props        src/SqlInfoProperty.cpp: registrations in Props/Register, versions and the names of
--                products in Props/Version, `Init` in Props/Init, `GetMaxTableNameLen` and the like
--                in Props/Getters
--   Catalog      src/DatabaseCatalog.cpp, with src/GetDataWrapper.cpp: the rows and what becomes of
--                them in Catalog/Rows, the searches in Catalog/Search and Catalog/Find, special
--                columns in Catalog/Special
--   Database     src/Database.cpp: `Open` in Database/Open, `Close` in Database/Close, transactions and
--                modes in Database/Transactions, sequences of calls in Database/Life
--   Environment  src/Environment.cpp, and the streams of versions in src/exOdbc.cpp;
--                `ListDataSources` in Environment/Sources
--   Logging      src/LogManager.cpp, and src/LogHandler.cpp in Logging/Handler
--   Table        src/Table.cpp and src/TableInfo.cpp: SQL texts in Table/Sql, columns in
--                Table/Columns, binding in Table/Binding, rows in Table/Access, `Init` and the access
--                flags in Table/Setup, `Open` and `Close` in Table/Open
--   Structs      src/SqlStructHelper.cpp
--   Tests        runs at concrete inputs
-- Names are those of the source in lower case with underscores. Some methods have longer names:
-- `Open` is `open_table`, `open_with_string` or `open_with_dsn`, `Close` is `close_table` or
-- `close_database`, `Insert` is `insert_row`, `Init` is `init_database` and so on.
--
-- Numbers and bounds. Flags are natural numbers with the bits of the source. Display sizes are sums
-- of 32-bit integers that wrap around. The numbers of columns and parameters are counted without a
-- bound: the source counts them in 16 bits, which is enough for 32767 columns. Most loops run
-- over a list. The loops over the rows of a result set go on as long as the driver gives rows, and
-- take fuel: one more than the rows of the largest result set is enough, and a reading that
-- runs out of it returns `none`. The loops of `ListDataSources` take fuel too: the number of the data
-- sources is enough. Lengths of descriptions are not bounded, where the source has 16 bits. In
-- Bindable, buffers and handles are numbered, as by their addresses; that the assertions on a buffer's
-- memory hold is one truth value. The number of an information that SQLGetInfo is asked for is the
-- name of its constant.
--
-- Not modelled. What the driver writes into buffers; the texts of exceptions, and what the program
-- logs; the mutexes of the log; the order of the map of properties, whose entries are in the order
-- of their registration, and the 16-bit lengths of their texts. The conversions of texts in
-- src/exOdbc.cpp and src/Sql2StringHelper.cpp are left out. A table sees the database and its
-- catalog as the records `Db` and `Catalog`; binding in Statement and Table makes the calls of the
-- driver, and the connections that come with them are those of Bindable. The functions of boost on
-- texts are parameters, with what their documents say as `BoostLaws` and `ReplaceLaws`; so are the
-- texts of numbers and of the time, and whether a file can be opened, for the log, the capacity of
-- a new vector, and the formats of numbers in timestamps. A negative column index is not modelled:
-- the indexes of the map are unsigned.
pub mod Prelude
pub mod Odbc
pub mod Flags
pub mod SqlTypes
pub mod TypeMap
pub mod Buffer
pub mod Handle
pub mod Bindable
pub mod Statement
pub mod Props
pub mod Catalog
pub mod Table
pub mod Database
pub mod Environment
pub mod Logging
pub mod Structs
pub mod Tests
