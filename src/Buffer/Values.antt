-- ===== src/Buffer/Values.antt =====
-- The memory of a `ColumnBuffer<T, SQL_C_X>` of include/exodbc/ColumnBuffer.h with its length
-- indicator: how values and strings are written into it and read from it.
use exodbc.Prelude.{
  ℕ, zero, suc, not, Option, none, some, List, [], ◌∷◌, leb, ltb, ◌==◌, if◌then◌else◌, length,
}
use exodbc.Prelude.Texts.{Text}
use exodbc.Odbc.{
  Action, ◌>>=◌, ◌>>◌, Result, throw, get, pure, modify, ex_assert, when, ok, raised, null_value,
  out_of_range, assertion,
}
use exodbc.Buffer.{
  ℤ, pos, eq_ℤ, is_positive, is_null_data, LengthIndicator, sql_null_data, sql_nts, sql_len,
}
use exodbc.Buffer.Size.{sql_no_total_buffer_length}

-- `m_buffer`, a vector of elements of the C type, with what `capacity()` gives of it, and `m_cb`.
pub record Memory : Type 0 where
  pub elements : List ℕ
  pub capacity : ℕ
  pub cb : LengthIndicator

abbrev pub zeros : ℕ → List ℕ
zeros zero = []
zeros (suc n) = 0 ∷ zeros n

abbrev pub elements_of : ℤ → ℕ
elements_of (pos n) = n
elements_of _ = 0

-- The constructors of an array buffer; `capacity_of` is what the vector's library allocates for a size,
-- and `sql_no_total` the constant of sqlext.h.
unfoldable pub new_memory : (ℕ → ℕ) → ℤ → ℤ → Result Memory
new_memory capacity_of sql_no_total n =
    let m = if eq_ℤ n sql_no_total then pos sql_no_total_buffer_length else n in
    if is_positive m
    then ok (record {
      elements = zeros (elements_of m);
      capacity = capacity_of (elements_of m);
      cb = sql_null_data;
    })
    else raised assertion

abbrev pub last_of : List ℕ → Option ℕ
last_of [] = none
last_of (x ∷ []) = some x
last_of (x ∷ y ∷ r) = last_of (y ∷ r)

abbrev pub replace_at : ℕ → ℕ → List ℕ → Option (List ℕ)
replace_at i x [] = none
replace_at zero x (y ∷ r) = some (x ∷ r)
replace_at (suc i) x (y ∷ r) = elim (replace_at i x r) [ none ↦ none | some s ↦ some (y ∷ s) ]

abbrev pub put_elements : Option (List ℕ) → Action Memory (Unit {0})
put_elements none = throw out_of_range
put_elements (some xs) = modify (λ s. record s { elements = xs })

-- `m_buffer[i] = x`
unfoldable pub write_at : ℕ → ℕ → Action Memory (Unit {0})
write_at i x = do s ← get; put_elements (replace_at i x s.elements)

-- The loop of `SetValue` from an index, which gives back the index after it.
unfoldable pub write_all : List ℕ → ℕ → Action Memory ℕ
unfolding write_at
write_all [] i = pure i
write_all (x ∷ r) i = do write_at i x; write_all r (suc i)

-- `value.back()` of an empty vector is not defined.
unfoldable pub terminate : LengthIndicator → Option ℕ → ℕ → Action Memory (Unit {0})
unfolding write_at
terminate sql_nts none i = throw out_of_range
terminate sql_nts (some x) i =
    when (not (x == 0)) (do s ← get; ex_assert (ltb i s.capacity); write_at i 0)
terminate _ x i = pure tt

-- `SetValue(value, cb)` of a vector
unfoldable pub set_elements : List ℕ → LengthIndicator → Action Memory (Unit {0})
unfolding write_all terminate
set_elements value cb = do
  s ← get
  ex_assert (leb (length value) s.capacity)
  i ← write_all value 0
  terminate cb (last_of value) i
  modify (λ s. record s { cb = cb })

-- `SetValue(value)` of a vector of bytes
unfoldable pub set_bytes : List ℕ → Action Memory (Unit {0})
unfolding set_elements
set_bytes value = set_elements value (sql_len (length value))

-- `SetString` and `SetWString`
unfoldable pub set_string : Text → Action Memory (Unit {0})
unfolding set_elements
set_string s = set_elements s sql_nts

-- `SetValue(value, cb)` of one element
unfoldable pub set_element : ℕ → LengthIndicator → Action Memory (Unit {0})
unfolding write_at
set_element x cb = do write_at 0 x; modify (λ s. record s { cb = cb })

abbrev pub first_of : List ℕ → Result ℕ
first_of [] = raised out_of_range
first_of (x ∷ r) = ok x

abbrev pub or_null : {A : Type 0} → (List ℕ → Result A) → Action Memory A
or_null f = do s ← get; when (is_null_data s.cb) (throw null_value); λ w. (f s.elements, w)

-- `GetValue`
unfoldable pub get_value : Action Memory ℕ
get_value = or_null first_of

-- The string up to the first 0, which is looked for in the vector and beyond.
abbrev pub c_string : List ℕ → Option Text
c_string [] = none
c_string (x ∷ r) =
    let rest = c_string r in
    if x == 0 then some [] else elim rest [ none ↦ none | some s ↦ some (x ∷ s) ]

abbrev pub string_of : List ℕ → Result Text
string_of xs = elim (c_string xs) [ none ↦ raised out_of_range | some s ↦ ok s ]

-- `GetString` and `GetWString`
unfoldable pub get_string : Action Memory Text
get_string = or_null string_of

-- `SetNull`
unfoldable pub set_null : Action Memory (Unit {0})
set_null = modify (λ s. record s { cb = sql_null_data })
