-- ===== src/Header/IntTypes.antt =====
-- The type of an integer record, by its text: `int_record_typeid_impl` of
-- EleCfitsioWrapper/src/lib/HeaderWrapper.cpp.
use ele_fits.Prelude.{◌≡◌, true, false, Bool, if◌then◌else◌, arith}
use ele_fits.Prelude.Int.{ℤ, pos, negsuc, ◌≤ℤ◌, leb_ℤ}

-- The integer types, where `long` has 64 bits.
pub data IntType : Type 0 where
  int8 int16 int32 int64 int_long_long : IntType
  uint8 uint16 uint32 uint64 uint_long_long : IntType

abbrev pub lowest : IntType → ℤ
lowest int8 = negsuc 127
lowest int16 = negsuc 32767
lowest int32 = negsuc 2147483647
lowest int64 = negsuc 9223372036854775807
lowest int_long_long = negsuc 9223372036854775807
lowest _ = pos 0

abbrev pub highest : IntType → ℤ
highest int8 = pos 127
highest int16 = pos 32767
highest int32 = pos 2147483647
highest int64 = pos 9223372036854775807
highest int_long_long = pos 9223372036854775807
highest uint8 = pos 255
highest uint16 = pos 65535
highest uint32 = pos 4294967295
highest uint64 = pos 18446744073709551615
highest uint_long_long = pos 18446744073709551615

abbrev pub is_signed : IntType → Bool
is_signed int8 = true
is_signed int16 = true
is_signed int32 = true
is_signed int64 = true
is_signed int_long_long = true
is_signed _ = false

-- The two tests, on the number that `std::stoll` or `std::stoull` returns.
unfoldable pub negative_type : ℤ → IntType
negative_type parsed =
    if leb_ℤ (lowest int8) parsed
    then int8
    else if leb_ℤ (lowest int16) parsed
    then int16
    else if leb_ℤ (lowest int32) parsed
    then int32
    else if leb_ℤ (lowest int64) parsed
    then int64
    else int_long_long

unfoldable pub positive_type : ℤ → IntType
positive_type parsed =
    if leb_ℤ parsed (highest uint8)
    then uint8
    else if leb_ℤ parsed (highest uint16)
    then uint16
    else if leb_ℤ parsed (highest uint32)
    then uint32
    else if leb_ℤ parsed (highest uint64)
    then uint64
    else uint_long_long

-- `int_record_typeid_impl`, where the flag is whether the text starts by `-`.
unfoldable pub int_type : Bool → ℤ → IntType
unfolding negative_type positive_type
int_type minus parsed = if minus then negative_type parsed else positive_type parsed

abbrev pub Holds : IntType → ℤ → Type 0
Holds t parsed = (lowest t ≤ℤ parsed) × (parsed ≤ℤ highest t)

-- The numbers that a text of the sign can have without the conversion throwing.
abbrev pub IsParsed : Bool → ℤ → Type 0
IsParsed true parsed = (lowest int64 ≤ℤ parsed) × (parsed ≤ℤ pos 0)
IsParsed false parsed = (pos 0 ≤ℤ parsed) × (parsed ≤ℤ highest uint64)

-- The type of an integer record holds its value, and no type of the same signedness that holds it
-- has a smaller range: it is signed if the text starts by a minus sign, else unsigned.
pub int_type-Holds :
    (minus : Bool) (parsed : ℤ)
    → IsParsed minus parsed
    → Holds (int_type minus parsed) parsed
      × (is_signed (int_type minus parsed) ≡ minus)
      × ((t : IntType)
          → is_signed t ≡ minus
          → Holds t parsed
          → highest (int_type minus parsed) ≤ℤ highest t)
unfolding int_type
int_type-Holds true parsed h = ground arith
int_type-Holds false parsed h = ground arith
