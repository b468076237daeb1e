-- ===== src/Runes.antt =====
-- Go's view of a string as runes, and the parts of packages strings and unicode that the program
-- uses on them: decoding UTF-8, white space, control characters.
pub mod Trim
pub mod Fields
use omnistat.Prelude.{
  ℕ, zero, suc, ◌+◌, ◌-◌, ◌*◌, Bool, false, Bytes, List, [], ◌∷◌, leb, ◌==◌, ◌&&◌, ◌||◌,
  if◌then◌else◌,
}

abbrev pub within : ℕ → ℕ → ℕ → Bool
within lo hi b = leb lo b && leb b hi

abbrev rune_error : ℕ × ℕ
rune_error = (0xfffd, 1)

-- The lowest and highest second byte after a lead byte of three or four.
second_bounds : ℕ → ℕ × ℕ
second_bounds a =
    if a == 0xe0
    then (0xa0, 0xbf)
    else if a == 0xed
    then (0x80, 0x9f)
    else if a == 0xf0
    then (0x90, 0xbf)
    else if a == 0xf4
    then (0x80, 0x8f)
    else (0x80, 0xbf)

-- The rune that stands for `n` bytes from the lead byte `a` on, of which the rest is given.
decode_lead : ℕ → Bytes → ℕ × ℕ
unfolding second_bounds
decode_lead a (b ∷ c ∷ d ∷ _) =
    let (lo, hi) = second_bounds a in
    if within 0xc2 0xdf a && within 0x80 0xbf b
    then ((a - 0xc0) * 64 + (b - 0x80), 2)
    else if within 0xe0 0xef a && (within lo hi b && within 0x80 0xbf c)
    then ((a - 0xe0) * 4096 + (b - 0x80) * 64 + (c - 0x80), 3)
    else if within 0xf0 0xf4 a && (within lo hi b && (within 0x80 0xbf c && within 0x80 0xbf d))
    then ((a - 0xf0) * 262144 + (b - 0x80) * 4096 + (c - 0x80) * 64 + (d - 0x80), 4)
    else rune_error
decode_lead a (b ∷ c ∷ []) =
    let (lo, hi) = second_bounds a in
    if within 0xc2 0xdf a && within 0x80 0xbf b
    then ((a - 0xc0) * 64 + (b - 0x80), 2)
    else if within 0xe0 0xef a && (within lo hi b && within 0x80 0xbf c)
    then ((a - 0xe0) * 4096 + (b - 0x80) * 64 + (c - 0x80), 3)
    else rune_error
decode_lead a (b ∷ []) =
    if within 0xc2 0xdf a && within 0x80 0xbf b
    then ((a - 0xc0) * 64 + (b - 0x80), 2)
    else rune_error
decode_lead a [] = rune_error

unfoldable pub decode_rune : ℕ → Bytes → ℕ × ℕ
unfolding decode_lead
decode_rune a rest = if leb a 0x7f then (a, 1) else decode_lead a rest

-- `skip` bytes of the rune before are still to be passed over.
decode_from : ℕ → Bytes → List ℕ
unfolding decode_rune
decode_from skip [] = []
decode_from zero (a ∷ rest) = (decode_rune a rest).0 ∷ decode_from ((decode_rune a rest).1 - 1) rest
decode_from (suc skip) (a ∷ rest) = decode_from skip rest

-- []rune(s)
unfoldable pub runes : Bytes → List ℕ
unfolding decode_from
runes s = decode_from 0 s

-- unicode.IsSpace
unfoldable pub is_space : ℕ → Bool
is_space r =
    within 9 13 r
    || (r == 0x20
        || (r == 0x85
            || (r == 0xa0
                || (r == 0x1680
                    || (within 0x2000 0x200a r
                        || (r == 0x2028
                            || (r == 0x2029 || (r == 0x202f || (r == 0x205f || r == 0x3000)))))))))

-- unicode.IsControl
unfoldable pub is_control : ℕ → Bool
is_control r = leb r 0x1f || within 0x7f 0x9f r

unfoldable pub any_control : List ℕ → Bool
unfolding is_control
any_control [] = false
any_control (r ∷ rs) = is_control r || any_control rs

unfoldable pub first_is_space : List ℕ → Bool
unfolding is_space
first_is_space [] = false
first_is_space (r ∷ rs) = is_space r

unfoldable pub last_is_space : List ℕ → Bool
unfolding is_space
last_is_space [] = false
last_is_space (r ∷ []) = is_space r
last_is_space (r ∷ q ∷ rs) = last_is_space (q ∷ rs)
