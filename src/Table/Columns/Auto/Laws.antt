-- ===== src/Table/Columns/Auto/Laws.antt =====
-- The buffers that `CreateAutoColumnBufferPtrs` of src/Table.cpp creates.
use exodbc.Prelude.{ℕ, suc, ◌≡◌, false, List, [], ◌∷◌, arith}
use exodbc.Prelude.Texts.{Text, Boost}
use exodbc.Odbc.{ok}
use exodbc.Flags.{Flags}
use exodbc.SqlTypes.{SqlCType}
use exodbc.TypeMap.{TypeMap}
use exodbc.Buffer.{new_column_buffer, ℤ, ColumnBuffer, ColumnInfo}
use exodbc.Buffer.Create.{
  create_column_buffer_ptr, new_array_buffer, create_column_array_buffer_ptr,
}
use exodbc.Table.{Columns}
use exodbc.Table.Columns.{}
use exodbc.Table.Columns.Auto.{create_for_info, with_nullable, describe_buffer, create_loop}

create_ptr-name :
    (k : SqlCType) (name : Text) (c : ColumnBuffer)
    → create_column_buffer_ptr k name ≡ ok c
    → c.query_name ≡ name
unfolding create_column_buffer_ptr
create_ptr-name k name c e = ground arith

create_array-name :
    (n : ℤ) (k : SqlCType) (name : Text) (i : ColumnInfo) (c : ColumnBuffer)
    → create_column_array_buffer_ptr n k name i ≡ ok c
    → c.query_name ≡ name
unfolding create_column_array_buffer_ptr new_array_buffer new_column_buffer
create_array-name n k name i c e = ground arith

create_for_info-name :
    (n : ℤ) (m : TypeMap) (i : ColumnInfo) (c : ColumnBuffer)
    → create_for_info n m i ≡ ok c
    → c.query_name ≡ i.column_name
unfolding create_for_info
create_for_info-name n m i c e = grind (arith, create_ptr-name, create_array-name)

-- A buffer for each column, in their order, with the column's name and SQL type, at the indexes from
-- `n` on.
abbrev pub Matches : List ColumnInfo → Columns → ℕ → Type 0
Matches [] [] n = Unit {0}
Matches [] (e ∷ cs) n = ⊥
Matches (i ∷ is) [] n = ⊥
Matches (i ∷ is) ((j, c) ∷ cs) n =
    (j ≡ n) × (c.query_name ≡ i.column_name) × (c.sql_type ≡ i.sql_type) × Matches is cs (suc n)

-- If the loop that creates the buffers, asked not to skip any column, returns, there is a buffer for
-- each column in their order, with its name and its SQL type, and the indexes count up.
pub create_loop-Matches :
    (b : Boost) (z : ℤ) (m : TypeMap) (infos : List ColumnInfo) (f : Flags) (n : ℕ) (cs : Columns)
    → create_loop b z m false infos f n ≡ ok cs
    → Matches infos cs n
unfolding create_loop describe_buffer
create_loop-Matches b z m [] f n [] e = tt
create_loop-Matches b z m [] f n (x ∷ cs) e = ground (arith, e)
create_loop-Matches b z m (i ∷ is) f n [] e = ground (arith, e)
create_loop-Matches b z m (i ∷ is) f n ((j, c) ∷ cs) e =
    grind (
      arith,
      e,
      create_for_info-name,
      create_loop-Matches b z m is (with_nullable b i f) (suc n) cs,
    )
