-- ===== src/Json/Scan.antt =====
-- The scanning functions of Common/JsonParser.cpp, over pointers into the text.
use lib_abk.Common.{◌||◌, ℕ, Bool, true, false, [], ◌∷◌, ◌==◌, if◌then◌else◌}
use lib_abk.Json.Unescape.{Ptr, peek, next}

unfoldable pub is_white : ℕ → Bool
is_white c = c == b' ' || c == b'\r' || c == b'\n' || c == b'\t'

unfoldable pub skip_white : Ptr → Ptr
unfolding is_white
skip_white [] = []
skip_white (c ∷ p) = let rest = skip_white p in if is_white c then rest else c ∷ p

-- A backslash takes the byte behind it along, unless that is the NUL.
unfoldable pub search_string_end : Ptr → Ptr
search_string_end [] = []
search_string_end (c ∷ []) = if c == b'"' then c ∷ [] else []
search_string_end (c ∷ d ∷ p) =
    let escaped = search_string_end p in
    let plain = search_string_end (d ∷ p) in
    if c == b'"' then c ∷ d ∷ p else if c == b'\\' then escaped else plain

unfoldable pub ends_numeric : ℕ → Bool
ends_numeric c =
    c == b',' || c == b']' || c == b'}' || c == b'\r' || c == b'\n' || c == b'\t' || c == b' '

unfoldable pub search_numeric_end : Ptr → Ptr
unfolding ends_numeric
search_numeric_end [] = []
search_numeric_end (c ∷ p) =
    let rest = search_numeric_end p in if ends_numeric c then c ∷ p else rest

-- The loop of `IsolateName` over a name without quotes.
unfoldable pub ends_name : ℕ → Bool
ends_name c =
    c == b' ' || c == b'\r' || c == b'\n' || c == b'\t' || c == b':' || c == b'}' || c == b']'

unfoldable pub search_name_end : Ptr → Ptr
unfolding ends_name
search_name_end [] = []
search_name_end (c ∷ p) = let rest = search_name_end p in if ends_name c then c ∷ p else rest

-- `!strncmp(a, b, n)`.
unfoldable pub strncmp_eq : ℕ → Ptr → Ptr → Bool
strncmp_eq ℕ.zero a b = true
strncmp_eq (ℕ.suc n) a b =
    let rest = strncmp_eq n (next a) (next b) in
    if peek a == peek b then (if peek a == 0 then true else rest) else false
