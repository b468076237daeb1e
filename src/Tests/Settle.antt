-- ===== src/Tests/Settle.antt =====
-- A run of internal/settle/settle.go: the write becomes visible after the second delay.
use omnistat.Prelude.{ℕ, ◌+◌, Bool, true, List, [], ◌∷◌, ◌≡◌, refl, leb}
use omnistat.Settle.{finished, until}
use omnistat.Settle.Laws.{reading, sleeping, until_finds}

abbrev elapsed : ℕ → ℕ
elapsed t = t

abbrev pass : ℕ → ℕ → ℕ
pass d t = t + d

abbrev visible : ℕ → Bool
visible t = leb 300 t

abbrev delays : List ℕ
delays = 100 ∷ 200 ∷ 400 ∷ []

until_finds_example :
    (v : ℕ) × ((until (sleeping pass) (reading ℕ elapsed) visible delays 0).0 ≡ finished v true)
    × (visible v ≡ true)
until_finds_example = until_finds {E = ℕ} elapsed pass visible (100 ∷ 200 ∷ []) (400 ∷ []) 0 refl
