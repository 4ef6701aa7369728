-- ===== src/Json/Escape.antt =====
-- The string part of Common/JsonFormatter.cpp: the two overloads of `operator <<` that write a
-- text between quotes. A text of `Overload.c_str` holds no NUL, as a `const char *` does not.
use lib_abk.Common.{ℕ, ◌||◌, [], ◌∷◌, ◌++◌, ◌==◌, if◌then◌else◌, Bytes}

-- Which overload writes: `const char *` or `const std::string &`.
pub data Overload : Type 0 where
  c_str std_string : Overload

abbrev pub backspace : ℕ
backspace = 8

abbrev pub form_feed : ℕ
form_feed = 12

abbrev pub backslashed : ℕ → Bytes
backslashed c = b'\\' ∷ c ∷ []

-- The cases of the switch that both overloads have.
unfoldable pub escape_control : ℕ → Bytes
escape_control c =
    if c == backspace
    then backslashed b'b'
    else if c == form_feed
    then backslashed b'f'
    else if c == b'\n'
    then backslashed b'n'
    else if c == b'\r'
    then backslashed b'r'
    else if c == b'\t'
    then backslashed b't'
    else c ∷ []

-- One turn of the loop.
unfoldable pub escape_char : Overload → ℕ → Bytes
unfolding escape_control
escape_char c_str c =
    if c == b'"' || c == b'\\' || c == b'/' then backslashed c else escape_control c
escape_char std_string c =
    if c == b'"' || c == b'\\' || c == b'\'' then backslashed c else escape_control c

unfoldable pub escape : Overload → Bytes → Bytes
unfolding escape_char
escape o [] = []
escape o (c ∷ cs) = escape_char o c ++ escape o cs

-- What `operator <<` appends to the dump.
unfoldable pub quoted : Overload → Bytes → Bytes
unfolding escape
quoted o s = b'"' ∷ (escape o s ++ (b'"' ∷ []))
