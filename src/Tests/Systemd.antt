-- ===== src/Tests/Systemd.antt =====
-- Runs of internal/systemd/envfile.go: values that need each kind of quotes, and refused ones.
use omnistat.Prelude.{
  Bytes, codes, bytes_eq, bytes_Eq, Map, lookup, sort, insert_sorted, [], ◌∷◌, ◌≡◌, refl, All,
}
use omnistat.Runes.Trim.{trim_blanks, trim_return, trim_space}
use omnistat.Settle.{ok, err}
use omnistat.Systemd.EnvFile.{
  all_name_chars, cut, format_env, format_lines, has_break, has_byte, is_comment, is_special,
  line_break, line_continuation, name_char, parse_assignment, parse_env, parse_value, read,
  split_lines, step, valid_name, bad_value, parse_lines, unterminated_single,
}
use omnistat.Systemd.EnvFile.RoundTrip.{Storable, parse-format}

abbrev settings : Map Bytes Bytes
settings =
    (codes "OMNISTAT_TOKEN", codes "a 'quoted' $5 \\ token")
    ∷ (codes "HTTPS_PROXY", codes "http://proxy:3128")
    ∷ []

settings-Storable : All Storable settings
unfolding valid_name has_break all_name_chars has_byte name_char
settings-Storable = ((refl, refl), ((refl, refl), tt))

parse-format_example :
    (file : Bytes) × (back : Map Bytes Bytes) × (format_env settings ≡ ok file)
    × (parse_env file ≡ ok back)
    × ((k : Bytes) → lookup k back ≡ lookup k settings)
parse-format_example = parse-format settings settings-Storable

break_refused : format_env ((codes "A", b'\n' ∷ []) ∷ []) ≡ err (line_break (codes "A"))
unfolding format_env format_lines valid_name has_break lookup sort insert_sorted all_name_chars
    has_byte name_char bytes_eq
break_refused = refl

-- Parts concatenate, and quotes after another character are literal.
parts : parse_value (codes "'a' \"b\\$c\" d'e  ") ≡ ok (codes "ab$cd'e")
unfolding parse_value read step is_special
parts = refl

open_quote : parse_env (codes "# note\nA='b") ≡ err (2, bad_value unterminated_single)
unfolding parse_env parse_lines split_lines trim_blanks trim_return trim_space is_comment
    parse_assignment cut valid_name all_name_chars name_char parse_value read step
open_quote = refl

continued : parse_value (codes "a\\") ≡ err line_continuation
unfolding parse_value read step
continued = refl
