-- ===== src/Control/Identity.antt =====
-- internal/control/identity.go and `SecretFor` of internal/auth/auth.go. A client ID is its bytes; a
-- byte from 128 on belongs to a rune that no case admits.
use gremlind.Prelude.{
  Bool, true, false, ◌&&◌, ◌||◌, [], ◌∷◌, Option, none, some, length, ltb, ◌==◌, nat_eq, list_eq,
  if◌then◌else◌,
}
use gremlind.Prelude.Bytes.{Bytes}
use gremlind.Prelude.Maps.{Map, lookup}
use gremlind.Gre.Names.{is_alphanumeric}

unfoldable pub id_chars : Bytes → Bool
id_chars [] = true
id_chars (r ∷ s) = (is_alphanumeric r || r == b'.' || r == b'_' || r == b'-') && id_chars s

-- `ValidClientID`
unfoldable pub valid_client_id : Bytes → Bool
unfolding id_chars
valid_client_id id = if length id == 0 || ltb 64 (length id) then false else id_chars id

-- A missing key of a map of strings reads as the empty string.
abbrev pub or_empty : Option Bytes → Bytes
or_empty none = []
or_empty (some s) = s

-- `SecretFor`
unfoldable pub secret_for : Bytes → Bytes → Map Bytes Bytes → Bytes
secret_for client_id psk clients =
    if ltb 0 (length clients) then or_empty (lookup client_id clients) else psk
