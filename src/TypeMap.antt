-- ===== src/TypeMap.antt =====
-- src/Sql2BufferTypeMap.cpp: which SQL C type a buffer gets for an SQL type.
pub mod Cover
pub mod Defaults
pub mod Laws
use exodbc.Prelude.{Bool, true, false, Option, none, some, List, [], ◌∷◌, is_some, if◌then◌else◌}
use exodbc.Odbc.{assertion, not_supported, Result, ok, raised}
use exodbc.SqlTypes.{SqlType, SqlCType, other_c_type, same_type}

-- `std::map<SQLSMALLINT, SQLSMALLINT>`
abbrev pub Entries : Type 0
Entries = List (SqlType × SqlCType)

pub record TypeMap : Type 0 where
  pub type_map : Entries
  pub has_default : Bool
  pub default_buffer_type : SqlCType

-- `m_typeMap.find(sqlType)`
find : SqlType → Entries → Option SqlCType
find k [] = none
find k ((j, c) ∷ m) = if same_type j k then some c else find k m

-- `m_typeMap[sqlType] = sqlCType`
assign : SqlType → SqlCType → Entries → Entries
assign k v [] = (k, v) ∷ []
assign k v ((j, c) ∷ m) = if same_type j k then (j, v) ∷ m else (j, c) ∷ assign k v m

-- `m_typeMap.erase(it)`
erase : SqlType → Entries → Entries
erase k [] = []
erase k ((j, c) ∷ m) = if same_type j k then m else (j, c) ∷ erase k m

unfoldable pub new_type_map : TypeMap
new_type_map = record { type_map = []; has_default = false; default_buffer_type = other_c_type 0 }

unfoldable pub register_type : SqlType → SqlCType → TypeMap → TypeMap
unfolding assign
register_type k v t = record t { type_map = assign k v t.type_map }

unfoldable pub clear_type : SqlType → TypeMap → TypeMap
unfolding find erase
clear_type k t =
    if is_some (find k t.type_map) then record t { type_map = erase k t.type_map } else t

unfoldable pub contains_type : SqlType → TypeMap → Bool
unfolding find
contains_type k t = is_some (find k t.type_map)

unfoldable pub get_default : TypeMap → Result SqlCType
get_default t = if t.has_default then ok t.default_buffer_type else raised assertion

unfoldable pub get_buffer_type : SqlType → TypeMap → Result SqlCType
unfolding find get_default
get_buffer_type k t = elim (find k t.type_map) [
  | some c ↦ ok c
  | none ↦ if t.has_default then get_default t else raised not_supported
]

unfoldable pub set_default : SqlCType → TypeMap → TypeMap
set_default c t = record t { has_default = true; default_buffer_type = c }
