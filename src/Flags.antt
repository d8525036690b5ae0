-- ===== src/Flags.antt =====
-- include/exodbc/EnumFlags.h: `EnumFlags<ET>` over the bits of an `int`, and the masks of the three
-- flag enumerations.
pub mod Laws
use Prim.Native.Nat.{bit_and, bit_or, bit_xor}
use exodbc.Prelude.{ℕ, ◌-◌, ◌^◌, Bool, ◌==◌}

-- The value of `m_flags`.
abbrev pub Flags : Type 0
Flags = ℕ

-- `EnumFlags()`
abbrev pub no_flags : Flags
no_flags = 0

-- `~flag` on the 32 bits of the enumeration's `int`
abbrev complement : ℕ → ℕ
complement flag = bit_xor flag (2 ^ 32 - 1)

unfoldable pub test : Flags → ℕ → Bool
test m flag = bit_and m flag == flag

unfoldable pub set : Flags → ℕ → Flags
set m flag = bit_or m flag

unfoldable pub clear : Flags → ℕ → Flags
clear m flag = bit_and m (complement flag)

-- The values of `ColumnFlag`.
abbrev pub cf_select : ℕ
cf_select = 0x1

abbrev pub cf_update : ℕ
cf_update = 0x2

abbrev pub cf_insert : ℕ
cf_insert = 0x4

abbrev pub cf_nullable : ℕ
cf_nullable = 0x8

abbrev pub cf_primary_key : ℕ
cf_primary_key = 0x10

-- The values of `TableAccessFlag`.
abbrev pub af_none : ℕ
af_none = 0x0

abbrev pub af_select_pk : ℕ
af_select_pk = 0x1

abbrev pub af_select_where : ℕ
af_select_where = 0x2

abbrev pub af_update_pk : ℕ
af_update_pk = 0x4

abbrev pub af_update_where : ℕ
af_update_where = 0x8

abbrev pub af_insert : ℕ
af_insert = 0x10

abbrev pub af_delete_pk : ℕ
af_delete_pk = 0x20

abbrev pub af_delete_where : ℕ
af_delete_where = 0x40

abbrev pub af_count_where : ℕ
af_count_where = 0x80

-- The values of `TableOpenFlag`.
abbrev pub tof_none : ℕ
tof_none = 0x0

abbrev pub tof_check_existance : ℕ
tof_check_existance = 0x1

abbrev pub tof_skip_unsupported_columns : ℕ
tof_skip_unsupported_columns = 0x4

abbrev pub tof_do_not_query_primary_keys : ℕ
tof_do_not_query_primary_keys = 0x20

abbrev pub tof_check_db_type_infos : ℕ
tof_check_db_type_infos = 0x40

abbrev pub tof_scrollable_cursors : ℕ
tof_scrollable_cursors = 0x80
