-- ===== src/Values.antt =====
-- The dynamic values (`any`) of observations, as far as internal/collect and internal/publish
-- tell them apart, and Go's conversions of the numeric types to float64. A float64 and a float32
-- are their IEEE 754 bit patterns; the other numeric types are two's complement bit patterns.
use omnistat.Prelude.{
  ℕ, zero, suc, ◌+◌, ◌-◌, ◌*◌, ◌/◌, ◌%◌, ◌^◌, Bool, Bytes, ltb, leb, ◌==◌, ◌&&◌, ◌||◌, not,
  if◌then◌else◌,
}

pub data NumType : Type 0 where
  float64 float32 int int8 int16 int32 int64 uint uint8 uint16 uint32 uint64 : NumType

-- An instant is a number of nanoseconds since Go's zero time.
pub data Value : Type 0 where
  null : Value
  str : Bytes → Value
  num : NumType → ℕ → Value
  bool : Bool → Value
  time : ℕ → Value
  unknown : Value

-- The position of the highest bit of a positive number below 2 ^ fuel.
high_bit : ℕ → ℕ → ℕ
high_bit zero n = 0
high_bit (suc f) n = let rest = high_bit f (n / 2) in if ltb n 2 then 0 else suc rest

abbrev pub sign_bit : ℕ
sign_bit = 2 ^ 63

-- float64(n) for a natural number below 2 ^ 64: rounded to nearest, ties to even. A carry out of
-- the mantissa goes into the exponent, as it should.
unfoldable pub float_of_ℕ : ℕ → ℕ
unfolding high_bit
float_of_ℕ n =
    let e = high_bit 64 n in
    let exact = (e + 1023) * 2 ^ 52 + (n * 2 ^ (52 - e) - 2 ^ 52) in
    let unit = 2 ^ (e - 52) in
    let q = n / unit in
    let r = n % unit in
    let up = ltb unit (2 * r) || ((2 * r == unit) && (q % 2 == 1)) in
    let rounded = (e + 1023) * 2 ^ 52 + ((if up then q + 1 else q) - 2 ^ 52) in
    if n == 0 then 0 else if leb e 52 then exact else rounded

-- float64(x) for a two's complement number of 2 ^ w values.
float_of_signed : ℕ → ℕ → ℕ
unfolding float_of_ℕ
float_of_signed modulus n =
    if ltb (2 * n) modulus then float_of_ℕ n else sign_bit + float_of_ℕ (modulus - n)

-- float64(x) for a float32, which is exact; a subnormal becomes normal.
float_of_float32 : ℕ → ℕ
unfolding high_bit
float_of_float32 b =
    let sign = (b / 2 ^ 31) * sign_bit in
    let e = (b / 2 ^ 23) % 256 in
    let m = b % 2 ^ 23 in
    let top = high_bit 23 m in
    sign
    + (if e == 255
        then 2047 * 2 ^ 52 + m * 2 ^ 29
        else if e == 0
        then (if m == 0 then 0 else (top + 874) * 2 ^ 52 + (m * 2 ^ (52 - top) - 2 ^ 52))
        else (e + 896) * 2 ^ 52 + m * 2 ^ 29)

unfoldable pub to_float : NumType → ℕ → ℕ
unfolding float_of_ℕ float_of_signed float_of_float32
to_float NumType.float64 b = b
to_float NumType.float32 b = float_of_float32 b
to_float NumType.int b = float_of_signed (2 ^ 64) b
to_float NumType.int8 b = float_of_signed (2 ^ 8) b
to_float NumType.int16 b = float_of_signed (2 ^ 16) b
to_float NumType.int32 b = float_of_signed (2 ^ 32) b
to_float NumType.int64 b = float_of_signed (2 ^ 64) b
to_float _ b = float_of_ℕ b

-- NaN and the infinities have the largest exponent.
unfoldable pub is_finite : ℕ → Bool
is_finite b = not ((b / 2 ^ 52) % 2048 == 2047)
