-- ===== src/Runes/Fields.antt =====
-- strings.Fields and strings.ToLower (on ASCII), strings.CutPrefix and CutSuffix.
use omnistat.Prelude.{
  ℕ, zero, suc, ◌+◌, ◌-◌, Bool, false, ◌&&◌, not, Bytes, List, [], ◌∷◌, ◌++◌, Option, none, some,
  ◌==◌, if◌then◌else◌, length, take, drop, map, bytes_eq, leb,
}
use omnistat.Runes.{decode_rune, is_space, within}

add_field : Bytes → List Bytes → List Bytes
add_field [] fs = fs
add_field (c ∷ f) fs = (c ∷ f) ∷ fs

-- `f` is the field that is being read; `skip` bytes of a rune are still to come, which belong to
-- the field if `inside`.
fields_from : ℕ → Bool → Bytes → Bytes → List Bytes
unfolding decode_rune is_space add_field
fields_from skip inside f [] = add_field f []
fields_from (suc skip) inside f (a ∷ s) =
    fields_from skip inside (if inside then f ++ a ∷ [] else f) s
fields_from zero inside f (a ∷ s) =
    let space = is_space (decode_rune a s).0 in
    let rest =
      fields_from ((decode_rune a s).1 - 1) (not space) (if space then [] else f ++ a ∷ []) s in
    if space then add_field f rest else rest

-- strings.Fields
unfoldable pub fields : Bytes → List Bytes
unfolding fields_from
fields s = fields_from 0 false [] s

abbrev lower : ℕ → ℕ
lower c = if within b'A' b'Z' c then c + 32 else c

-- strings.ToLower of ASCII text.
abbrev pub to_lower : Bytes → Bytes
to_lower s = map lower s

-- strings.CutPrefix
unfoldable pub cut_prefix : Bytes → Bytes → Option Bytes
cut_prefix [] s = some s
cut_prefix (p ∷ ps) [] = none
cut_prefix (p ∷ ps) (c ∷ s) = let rest = cut_prefix ps s in if p == c then rest else none

-- strings.CutSuffix
unfoldable pub cut_suffix : Bytes → Bytes → Option Bytes
cut_suffix suffix s =
    let n = length s - length suffix in
    if leb (length suffix) (length s) && bytes_eq (drop n s) suffix then some (take n s) else none
