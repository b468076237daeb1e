-- ===== src/Runes/Trim.antt =====
-- strings.TrimSpace, TrimLeft and TrimSuffix on Go strings.
use omnistat.Prelude.{
  ℕ, zero, suc, ◌+◌, ◌-◌, Bool, true, false, ◌||◌, Bytes, [], ◌∷◌, ◌≡◌, refl, ap, ◌==◌,
  if◌then◌else◌, take, drop, length, take_all, arith, All,
}
use omnistat.Runes.{decode_rune, is_space, within}

-- The bytes of the leading white space; `skip` bytes of a rune are still to be passed over.
space_prefix : ℕ → Bytes → ℕ
unfolding decode_rune is_space
space_prefix skip [] = 0
space_prefix (suc skip) (a ∷ s) = suc (space_prefix skip s)
space_prefix zero (a ∷ s) =
    let rest = space_prefix ((decode_rune a s).1 - 1) s in
    if is_space ((decode_rune a s).0) then suc rest else 0

-- Where the last rune that is no white space ends; `pos` bytes are passed, `keep` is the answer
-- for these.
space_suffix : ℕ → ℕ → ℕ → Bytes → ℕ
unfolding decode_rune is_space
space_suffix skip pos keep [] = keep
space_suffix (suc skip) pos keep (a ∷ s) = space_suffix skip (suc pos) keep s
space_suffix zero pos keep (a ∷ s) =
    let w = (decode_rune a s).1 in
    space_suffix (w - 1) (suc pos) (if is_space ((decode_rune a s).0) then keep else pos + w) s

-- strings.TrimSpace
unfoldable pub trim_space : Bytes → Bytes
unfolding space_prefix space_suffix
trim_space s = let t = drop (space_prefix 0 s) s in take (space_suffix 0 0 0 t) t

-- c == ' ' || c == '\t'
abbrev pub is_blank : ℕ → Bool
is_blank c = (c == b' ') || (c == b'\t')

-- strings.TrimLeft(s, " \t")
unfoldable pub trim_blanks : Bytes → Bytes
trim_blanks [] = []
trim_blanks (c ∷ s) = let rest = trim_blanks s in if is_blank c then rest else c ∷ s

-- strings.TrimSuffix(s, "\r")
unfoldable pub trim_return : Bytes → Bytes
trim_return [] = []
trim_return (c ∷ []) = if c == b'\r' then [] else c ∷ []
trim_return (c ∷ d ∷ s) = c ∷ trim_return (d ∷ s)

-- A printable byte of ASCII.
abbrev pub Visible : ℕ → Type 0
Visible c = within 0x21 0x7e c ≡ true

decode-Visible : (c : ℕ) (s : Bytes) → Visible c → decode_rune c s ≡ (c, 1)
unfolding decode_rune
decode-Visible c s v = ground arith

space-Visible : (c : ℕ) → Visible c → is_space c ≡ false
unfolding is_space
space-Visible c v = ground arith

suffix-Visible : (pos : ℕ) (s : Bytes) → All Visible s → space_suffix 0 pos pos s ≡ pos + length s
unfolding space_suffix
suffix-Visible pos [] v = omega arith
suffix-Visible pos (c ∷ s) v =
    rw (decode-Visible c s v.0, space-Visible c v.0)
      (omega (
        arith,
        suffix-Visible (suc pos) s v.1,
        ap (λ k. space_suffix 0 (suc pos) k s) (let e : pos + 1 ≡ suc pos = omega arith in e),
      ))

prefix-Visible : (s : Bytes) → All Visible s → space_prefix 0 s ≡ 0
unfolding space_prefix
prefix-Visible [] v = refl
prefix-Visible (c ∷ s) v = rw (decode-Visible c s v.0, space-Visible c v.0) refl

-- Visible text has no white space to lose.
pub trim_space-Visible : (s : Bytes) → All Visible s → trim_space s ≡ s
unfolding trim_space
trim_space-Visible s v =
    rw (prefix-Visible s v, suffix-Visible 0 s v) (take_all (0 + length s) s (omega arith))
