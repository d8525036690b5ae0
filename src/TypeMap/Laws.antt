-- ===== src/TypeMap/Laws.antt =====
-- The type map is a finite map with an optional default (src/Sql2BufferTypeMap.cpp).
use exodbc.Prelude.{◌≡◌, refl, true, not, ◌&&◌, none, some, [], ◌∷◌, arith, if◌then◌else◌}
use exodbc.Odbc.{ok, raised, not_supported}
use exodbc.SqlTypes.{SqlType, SqlCType, same_type}
use exodbc.TypeMap.{
  Entries, TypeMap, find, assign, erase, new_type_map, register_type, clear_type, set_default,
  contains_type, get_buffer_type,
}

find-assign :
    (k j : SqlType) (v : SqlCType) (m : Entries)
    → find j (assign k v m) ≡ (if same_type k j then some v else find j m)
unfolding find assign
find-assign k j v [] = refl
find-assign k j v ((i, c) ∷ m) = ground (arith, find-assign k j v m)

-- What `GetBufferType` answers after `RegisterType`: the registered C type for that SQL type, whatever
-- was there before, and for any other SQL type what it answered before, its exception included.
pub get_buffer_type-register_type :
    (k j : SqlType) (v : SqlCType) (t : TypeMap)
    → get_buffer_type j (register_type k v t)
      ≡ (if same_type k j then ok v else get_buffer_type j t)
unfolding get_buffer_type register_type
get_buffer_type-register_type k j v t = ground (arith, find-assign k j v t.type_map)

-- Two names of one type find the same entry.
find-same : (k j : SqlType) (m : Entries) → same_type k j ≡ true → find k m ≡ find j m
unfolding find
find-same k j [] h = refl
find-same k j ((i, c) ∷ m) h = ground (arith, find-same k j m h)

-- No SQL type is a key twice, as in a `std::map`.
abbrev Distinct : Entries → Type 0
Distinct [] = Unit
Distinct ((k, v) ∷ m) = (find k m ≡ none) × Distinct m

pub record IsMap (t : TypeMap) : Type 0 where
  distinct : Distinct t.type_map

find-erase :
    (k j : SqlType) (m : Entries)
    → Distinct m
    → find j (erase k m) ≡ (if same_type k j then none else find j m)
unfolding find erase
find-erase k j [] d = ground arith
find-erase k j ((i, c) ∷ m) d = ground (arith, find-erase k j m d.1, find-same i j m)

assign-Distinct : (k : SqlType) (v : SqlCType) (m : Entries) → Distinct m → Distinct (assign k v m)
unfolding find assign
assign-Distinct k v [] d = (refl, tt)
assign-Distinct k v ((i, c) ∷ m) d = ground (arith, assign-Distinct k v m d.1, find-assign k i v m)

erase-Distinct : (k : SqlType) (m : Entries) → Distinct m → Distinct (erase k m)
unfolding find erase
erase-Distinct k [] d = tt
erase-Distinct k ((i, c) ∷ m) d = ground (arith, erase-Distinct k m d.1, find-erase k i m d.1)

pub new_type_map-IsMap : IsMap new_type_map
unfolding new_type_map
new_type_map-IsMap = record { distinct = tt }

-- `RegisterType`, `ClearType` and `SetDefault` keep each SQL type at one entry at most.
pub operations-IsMap :
    (k : SqlType) (v : SqlCType) (t : TypeMap)
    → IsMap t
    → IsMap (register_type k v t) × IsMap (clear_type k t) × IsMap (set_default v t)
unfolding register_type clear_type set_default
operations-IsMap k v t d = (
  record { distinct = assign-Distinct k v t.type_map d.distinct },
  ground (arith, erase-Distinct k t.type_map d.distinct),
  record { distinct = d.distinct },
)

-- After `ClearType`, in a map that lists no SQL type twice, the cleared SQL type is not contained
-- and gets the default buffer type, or NotSupportedException if there is no default; any other type
-- is contained, and gets the buffer type, as before.
pub get_buffer_type-clear_type :
    (k j : SqlType) (t : TypeMap)
    → IsMap t
    → (contains_type j (clear_type k t) ≡ (not (same_type k j) && contains_type j t))
      × (get_buffer_type j (clear_type k t) ≡ (
          if same_type k j
          then if t.has_default then ok t.default_buffer_type else raised not_supported
          else get_buffer_type j t))
unfolding get_buffer_type clear_type contains_type
get_buffer_type-clear_type k j t d = (
  ground (arith, find-erase k j t.type_map d.distinct, find-same k j t.type_map),
  ground (arith, find-erase k j t.type_map d.distinct, find-same k j t.type_map),
)
