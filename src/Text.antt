-- ===== src/Text.antt =====
-- Rust strings. A text is the list of its Unicode scalar values; `len()` counts the bytes of its
-- UTF-8 encoding. UTF-8 keeps the order of scalar values, so `Ord` on texts is the order of lists.
use logik_smith.Prelude.{
  ℕ, ◌+◌, ◌/◌, ◌%◌, Bool, List, [], ◌∷◌, ltb, leb, if◌then◌else◌, length, flat_map, ◌&&◌,
}

abbrev pub Text : Type 0
Text = List ℕ

-- The bytes of one scalar value in UTF-8.
pub encode_utf8 : ℕ → List ℕ
encode_utf8 c =
    if ltb c 0x80
    then c ∷ []
    else if ltb c 0x800
    then (0xc0 + c / 64) ∷ (0x80 + c % 64) ∷ []
    else if ltb c 0x10000
    then (0xe0 + c / 4096) ∷ (0x80 + c / 64 % 64) ∷ (0x80 + c % 64) ∷ []
    else (0xf0 + c / 262144) ∷ (0x80 + c / 4096 % 64) ∷ (0x80 + c / 64 % 64) ∷ (0x80 + c % 64) ∷ []

-- `str::as_bytes`
unfoldable pub as_bytes : Text → List ℕ
unfolding encode_utf8
as_bytes t = flat_map encode_utf8 t

-- `str::len`
unfoldable pub byte_len : Text → ℕ
unfolding as_bytes
byte_len t = length (as_bytes t)

unfoldable pub is_ascii_lowercase : ℕ → Bool
is_ascii_lowercase c = leb b'a' c && leb c b'z'

unfoldable pub is_ascii_digit : ℕ → Bool
is_ascii_digit c = leb b'0' c && leb c b'9'
