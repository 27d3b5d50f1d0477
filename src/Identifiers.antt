-- ===== src/Identifiers.antt =====
-- crates/logiksmith-core/src/identifiers.rs: endpoint, signal and block names and their grammars.
pub mod Grammar
use logik_smith.Prelude.{
  ℕ, Bool, true, false, Option, none, some, List, [], ◌∷◌, ltb, leb, ◌==◌, ◌||◌, if◌then◌else◌, not,
}
use logik_smith.Prelude.Result.{Result, ok, err, ◌>>=◌, ◌>>◌, reject, map_ok}
use logik_smith.Text.{Text, byte_len, is_ascii_lowercase, is_ascii_digit}

-- The newtypes `EndpointName`, `SignalName`, `BlockId`: the text that a constructor let through.
abbrev pub EndpointName : Type 0
EndpointName = Text

abbrev pub SignalName : Type 0
SignalName = Text

abbrev pub BlockId : Type 0
BlockId = Text

pub data EndpointNameError : Type 0 where
  empty : EndpointNameError
  invalid_start : ℕ → EndpointNameError
  invalid_character : ℕ → EndpointNameError

unfoldable pub is_endpoint_character : ℕ → Bool
unfolding is_ascii_lowercase is_ascii_digit
is_endpoint_character c =
    is_ascii_lowercase c || is_ascii_digit c || c == b'_' || c == b'-' || c == b'.'

-- The loop over the characters after the first.
unfoldable pub check_endpoint_characters : List ℕ → Result EndpointNameError (Unit {0})
check_endpoint_characters [] = ok tt
check_endpoint_characters (c ∷ cs) =
    let rest = check_endpoint_characters cs in
    if not (is_endpoint_character c) then err (invalid_character c) else rest

unfoldable pub validate_endpoint_name : Text → Result EndpointNameError (Unit {0})
unfolding check_endpoint_characters
validate_endpoint_name [] = err empty
validate_endpoint_name (first ∷ rest) =
    if not (is_ascii_lowercase first)
    then err (invalid_start first)
    else check_endpoint_characters rest

-- `EndpointName::new`, and `SignalName::new`, which has the same body.
pub new_endpoint_name : Text → Result EndpointNameError EndpointName
new_endpoint_name value = map_ok (λ _. value) (validate_endpoint_name value)

pub data BlockIdError : Type 0 where
  empty_id : BlockIdError
  too_long : (actual maximum : ℕ) → BlockIdError
  invalid_id_start : ℕ → BlockIdError
  invalid_id_character : ℕ → BlockIdError

abbrev pub max_block_id_bytes : ℕ
max_block_id_bytes = 64

unfoldable pub is_block_id_character : ℕ → Bool
is_block_id_character c = is_ascii_lowercase c || is_ascii_digit c || c == b'_'

unfoldable pub check_block_id_characters : List ℕ → Result BlockIdError (Unit {0})
check_block_id_characters [] = ok tt
check_block_id_characters (c ∷ cs) =
    let rest = check_block_id_characters cs in
    if not (is_block_id_character c) then err (invalid_id_character c) else rest

unfoldable pub validate_block_id : Text → Result BlockIdError (Unit {0})
validate_block_id [] = err empty_id
validate_block_id (first ∷ rest) =
    if ltb max_block_id_bytes (byte_len (first ∷ rest))
    then err (too_long (byte_len (first ∷ rest)) max_block_id_bytes)
    else if not (is_ascii_lowercase first)
    then err (invalid_id_start first)
    else check_block_id_characters rest
