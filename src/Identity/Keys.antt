-- ===== src/Identity/Keys.antt =====
-- internal/identity/resolve.go: which strings may be the key of an entity.
use omnistat.Prelude.{ℕ, Bytes, [], ◌∷◌, Option, none, some, ltb, length, ◌||◌, if◌then◌else◌}
use omnistat.Runes.{runes, any_control, first_is_space, last_is_space}

abbrev pub max_key_len : ℕ
max_key_len = 128

pub data KeyError : Type 0 where
  empty_key padded_key long_key control_key : KeyError

-- `none` is the nil error. A string differs from its trimmed copy exactly if it begins or ends
-- with white space.
unfoldable pub valid_key : Bytes → Option KeyError
valid_key [] = some empty_key
valid_key (b ∷ bs) =
    let rs = runes (b ∷ bs) in
    if first_is_space rs || last_is_space rs
    then some padded_key
    else if ltb max_key_len (length rs)
    then some long_key
    else if any_control rs
    then some control_key
    else none
