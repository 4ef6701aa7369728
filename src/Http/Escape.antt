-- ===== src/Http/Escape.antt =====
-- `UnescapeString` of HttpServerLib/HttpServer.cpp, against the texts that stand for a text in a
-- url. The loop runs to the first NUL; `nRemaining` is the number of bytes from there on.
pub mod RoundTrip
use lib_abk.Common.{
  ℕ, ◌+◌, ◌-◌, ◌*◌, Bool, true, false, ◌&&◌, ◌||◌, ◌≡◌, [], ◌∷◌, ◌==◌, ltb, leb, Bytes,
  if◌then◌else◌,
}
use lib_abk.Http.Text.{to_upper}

-- `isxdigit`.
abbrev pub is_xdigit : ℕ → Bool
is_xdigit c = (leb b'0' c && leb c b'9') || (leb b'A' c && leb c b'F') || (leb b'a' c && leb c b'f')

-- The value of a hexadecimal digit.
abbrev pub digit_value : ℕ → ℕ
digit_value c = let u = to_upper c in if ltb u b'A' then u - b'0' else u - b'A' + 10

-- What the loop appends for a byte that starts no escape.
abbrev pub plain_byte : Bool → ℕ → ℕ
plain_byte is_url c = if is_url && c == b'+' then b' ' else c

unfoldable pub unescape_string : Bool → Bytes → Bytes
unescape_string is_url [] = []
unescape_string is_url (c ∷ []) = if c == 0 then [] else plain_byte is_url c ∷ []
unescape_string is_url (c ∷ d ∷ []) =
    let rest = unescape_string is_url (d ∷ []) in if c == 0 then [] else plain_byte is_url c ∷ rest
unescape_string is_url (c ∷ a ∷ b ∷ s) = elim (c == 0) [
  | true ↦ []
  | false ↦ elim (c == b'%') [
    | false ↦ plain_byte is_url c ∷ unescape_string is_url (a ∷ b ∷ s)
    | true ↦ elim (is_xdigit a && is_xdigit b) [
      | true ↦ (digit_value a * 16 + digit_value b) ∷ unescape_string is_url s
      | false ↦ unescape_string is_url (a ∷ b ∷ s)
    ]
  ]
]
