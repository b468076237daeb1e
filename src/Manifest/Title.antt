-- ===== src/Manifest/Title.antt =====
-- internal/manifest/manifest.go, `TitleFromSlug`: a human name for a slug.
use omnistat.Prelude.{ℕ, ◌-◌, Bytes, List, [], ◌∷◌, ◌++◌, map, leb, ◌&&◌, ltb, ◌==◌, if◌then◌else◌}

-- strings.Split at one byte.
unfoldable pub split_at : ℕ → Bytes → List Bytes
split_at b [] = [] ∷ []
split_at b (c ∷ s) =
    let rest = split_at b s in
    if c == b then [] ∷ rest else elim rest [ [] ↦ (c ∷ []) ∷ [] | p ∷ ps ↦ (c ∷ p) ∷ ps ]

-- strings.Join with one byte between the parts.
unfoldable pub join_with : ℕ → List Bytes → Bytes
join_with b [] = []
join_with b (p ∷ []) = p
join_with b (p ∷ q ∷ ps) = p ++ b ∷ join_with b (q ∷ ps)

-- strings.ToUpper of a string of one byte; one that is no rune becomes U+FFFD.
unfoldable pub upper_byte : ℕ → Bytes
upper_byte c =
    if leb b'a' c && leb c b'z'
    then (c - 32) ∷ []
    else if ltb c 0x80
    then c ∷ []
    else 0xef ∷ 0xbf ∷ 0xbd ∷ []

unfoldable pub capital : Bytes → Bytes
unfolding upper_byte
capital [] = []
capital (c ∷ s) = upper_byte c ++ s

unfoldable pub title_from_slug : Bytes → Bytes
unfolding split_at join_with capital
title_from_slug slug = join_with b' ' (map capital (split_at b'_' slug))
