-- ===== src/Strconv.antt =====
-- Go's machine integers as integers with their bounds, and strconv.Itoa and strconv.Atoi on them.
pub mod RoundTrip
use omnistat.Prelude.{
  ℕ, zero, suc, ◌+◌, ◌-◌, ◌*◌, ◌/◌, ◌%◌, ◌^◌, Bool, true, false, ◌&&◌, not, Bytes, [], ◌∷◌, ◌++◌,
  List, ltb, leb, ◌==◌, if◌then◌else◌,
}
use omnistat.Runes.{within}

pub data ℤ : Type 0 where
  pos negsuc : ℕ → ℤ

abbrev pub max_int : ℕ
max_int = 2 ^ 63 - 1

abbrev pub is_digit : ℕ → Bool
is_digit c = within b'0' b'9' c

-- The decimal digits of a number below 10 ^ fuel; `n` rounds are always enough for `n`.
unfoldable pub digits : ℕ → ℕ → Bytes
digits zero n = []
digits (suc fuel) n =
    let rest = digits fuel (n / 10) in (if ltb n 10 then [] else rest) ++ (b'0' + n % 10) ∷ []

unfoldable pub decimal : ℕ → Bytes
unfolding digits
decimal n = digits (suc n) n

-- strconv.Itoa
unfoldable pub itoa : ℤ → Bytes
unfolding decimal
itoa (pos n) = decimal n
itoa (negsuc n) = b'-' ∷ decimal (suc n)

unfoldable pub all_digits : Bytes → Bool
all_digits [] = true
all_digits (c ∷ s) = is_digit c && all_digits s

-- The number that digits spell behind `n`, with no bound.
unfoldable pub value : ℕ → Bytes → ℕ
value n [] = n
value n (c ∷ s) = value (n * 10 + (c - b'0')) s

-- What Atoi returns: the number, or an error with the number that goes with it.
pub data Parsed : Type 0 where
  number : ℤ → Parsed
  out_of_range : ℤ → Parsed
  bad_syntax : Parsed

unfoldable pub negated : ℕ → ℤ
negated zero = pos 0
negated (suc n) = negsuc n

unsigned : Bool → Bytes → Parsed
unfolding all_digits value negated
unsigned negative [] = bad_syntax
unsigned negative (c ∷ s) =
    let n = value 0 (c ∷ s) in
    if not (all_digits (c ∷ s))
    then bad_syntax
    else if negative
    then (if leb n (suc max_int) then number (negated n) else out_of_range (negsuc max_int))
    else if leb n max_int
    then number (pos n)
    else out_of_range (pos max_int)

-- strconv.Atoi
unfoldable pub atoi : Bytes → Parsed
unfolding unsigned
atoi [] = bad_syntax
atoi (c ∷ s) =
    if c == b'-'
    then unsigned true s
    else if c == b'+'
    then unsigned false s
    else unsigned false (c ∷ s)

-- The first result of Atoi.
unfoldable pub result : Parsed → ℤ
result (number n) = n
result (out_of_range n) = n
result bad_syntax = pos 0
