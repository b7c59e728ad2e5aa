-- ===== src/Server/RateLimit/Key.antt =====
-- `request_key` of apps/server/src/rate_limit.rs.
use free_box.Prelude.{ℕ, ◌+◌, Option, none, some, ◌++◌, length, map, all, ltb, ◌==◌, if◌then◌else◌}
use free_box.Prelude.Digits.{digits_be}
use free_box.Server.Files.Keys.{Text, codes, is_visible}
use free_box.Server.Auth.Handlers.{strip_prefix}
use free_box.Texts.Trim.{trim}

-- `{:016x}` of a number that 64 bits hold
abbrev pub hex_digit : ℕ → ℕ
hex_digit d = if ltb d 10 then d + 48 else d + 87

abbrev pub hex16 : ℕ → Text
hex16 n = map hex_digit (digits_be 16 16 n)

abbrev pub or_lower : Option Text → Option Text → Option Text
or_lower none o = o
or_lower (some t) o = some t

-- the token of a header that is readable, trimmed
abbrev pub trimmed : Option Text → Option Text
trimmed none = none
trimmed (some text) = let token = trim text in if length token == 0 then none else some token

abbrev pub token_of : Option Text → Option Text
token_of none = none
token_of (some value) =
    if all is_visible value
    then trimmed
        (or_lower (strip_prefix (codes "Bearer ") value) (strip_prefix (codes "bearer ") value))
    else none

abbrev pub key_of : (Text → ℕ) → Option Text → Option Text → Text
key_of hash (some token) ip = codes "bearer:" ++ hex16 (hash token)
key_of hash none (some ip) = codes "ip:" ++ ip
key_of hash none none = codes "anonymous"

-- `hash` is the standard library's `DefaultHasher`; then the Authorization header and the peer's address.
unfoldable pub request_key : (Text → ℕ) → Option Text → Option Text → Text
unfolding strip_prefix trim
request_key hash header ip = key_of hash (token_of header) ip
