-- ===== src/Identifiers/Grammar.antt =====
-- The grammars that the name checks of identifiers.rs decide.
use logik_smith.Prelude.{ℕ, ◌≤◌, ◌≡◌, ◌↔◌, refl, true, List, [], ◌∷◌, arith, All, ◌⊎◌}
use logik_smith.Prelude.Result.{ok}
use logik_smith.Text.{Text, byte_len, is_ascii_lowercase, is_ascii_digit}
use logik_smith.Identifiers.{
  is_endpoint_character, check_endpoint_characters, validate_endpoint_name, is_block_id_character,
  check_block_id_characters, validate_block_id,
}

abbrev pub InRange : ℕ → ℕ → ℕ → Type 0
InRange lo hi c = (lo ≤ c) × (c ≤ hi)

-- [a-z0-9_]
abbrev pub IsBlockIdChar : ℕ → Type 0
IsBlockIdChar c = InRange 97 122 c ⊎ (InRange 48 57 c ⊎ (c ≡ 95))

-- [a-z0-9_.-]
abbrev pub IsEndpointChar : ℕ → Type 0
IsEndpointChar c = IsBlockIdChar c ⊎ ((c ≡ 45) ⊎ (c ≡ 46))

-- [a-z][a-z0-9_.-]*
abbrev pub IsEndpointName : Text → Type 0
IsEndpointName [] = ⊥
IsEndpointName (c ∷ cs) = InRange 97 122 c × All IsEndpointChar cs

-- [a-z][a-z0-9_]*
abbrev pub IsBlockId : Text → Type 0
IsBlockId [] = ⊥
IsBlockId (c ∷ cs) = InRange 97 122 c × All IsBlockIdChar cs

is_ascii_lowercase_iff : (c : ℕ) → (is_ascii_lowercase c ≡ true) ↔ InRange 97 122 c
unfolding is_ascii_lowercase
is_ascii_lowercase_iff c = (λ h. ground arith, λ h. ground arith)

is_block_id_character_iff : (c : ℕ) → (is_block_id_character c ≡ true) ↔ IsBlockIdChar c
unfolding is_block_id_character is_ascii_lowercase is_ascii_digit
is_block_id_character_iff c = (λ h. ground arith, λ h. ground arith)

is_endpoint_character_iff : (c : ℕ) → (is_endpoint_character c ≡ true) ↔ IsEndpointChar c
unfolding is_endpoint_character
is_endpoint_character_iff c = (λ h. ground arith, λ h. ground arith)

endpoint_characters_iff :
    (cs : List ℕ) → (check_endpoint_characters cs ≡ ok tt) ↔ All IsEndpointChar cs
unfolding check_endpoint_characters
endpoint_characters_iff [] = (λ h. tt, λ h. refl)
endpoint_characters_iff (c ∷ cs) = (
  λ h. ground (arith, (is_endpoint_character_iff c).0, (endpoint_characters_iff cs).0),
  λ h. ground (arith, (is_endpoint_character_iff c).1 h.0, (endpoint_characters_iff cs).1 h.1),
)

-- A text is accepted as an endpoint or signal name exactly when it matches `[a-z][a-z0-9_.-]*`.
pub validate_endpoint_name_iff : (t : Text) → (validate_endpoint_name t ≡ ok tt) ↔ IsEndpointName t
unfolding validate_endpoint_name
validate_endpoint_name_iff [] = (λ h. cc, λ h. absurd h)
validate_endpoint_name_iff (c ∷ cs) = (
  λ h. ground (arith, (is_ascii_lowercase_iff c).0, (endpoint_characters_iff cs).0),
  λ h. ground (arith, (is_ascii_lowercase_iff c).1 h.0, (endpoint_characters_iff cs).1 h.1),
)

block_id_characters_iff :
    (cs : List ℕ) → (check_block_id_characters cs ≡ ok tt) ↔ All IsBlockIdChar cs
unfolding check_block_id_characters
block_id_characters_iff [] = (λ h. tt, λ h. refl)
block_id_characters_iff (c ∷ cs) = (
  λ h. ground (arith, (is_block_id_character_iff c).0, (block_id_characters_iff cs).0),
  λ h. ground (arith, (is_block_id_character_iff c).1 h.0, (block_id_characters_iff cs).1 h.1),
)

-- A text is accepted as a block ID exactly when it matches `[a-z][a-z0-9_]*` and has at most 64
-- bytes in UTF-8.
pub validate_block_id_iff :
    (t : Text) → (validate_block_id t ≡ ok tt) ↔ (IsBlockId t × (byte_len t ≤ 64))
unfolding validate_block_id
validate_block_id_iff [] = (λ h. cc, λ h. absurd h.0)
validate_block_id_iff (c ∷ cs) = (
  λ h. ground (arith, (is_ascii_lowercase_iff c).0, (block_id_characters_iff cs).0),
  λ h.
      ground (arith, h.1, (is_ascii_lowercase_iff c).1 h.0.0, (block_id_characters_iff cs).1 h.0.1),
)
