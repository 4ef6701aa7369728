-- ===== src/Tests/Texts.antt =====
-- Texts that are escaped, unescaped and compared.
use lib_abk.Common.{true, false, ◌≡◌, refl, [], ◌++◌, Bytes, codes, length}
use lib_abk.Json.Escape.{c_str, std_string, escape}
use lib_abk.Json.Unescape.{unescape_char, unescape_string}
use lib_abk.Json.Unescape.Buffer.{unescape_string-unescaped}
use lib_abk.Json.Unescape.RoundTrip.{unescape_string-escape}

-- Both overloads escape, but not the same bytes.
escape_slash :
    (escape c_str (codes "a/'") ≡ codes "a\\/'") × (escape std_string (codes "a/'") ≡ codes "a/\\'")
unfolding escape
escape_slash = (refl, refl)

abbrev greeting : Bytes
greeting = codes "say \"hi\"\n"

unescape_string-unescaped_example :
    unescape_string 4 (codes "\\u4a\"") (codes "old") ≡ (codes "u4a", false)
unfolding unescape_char
unescape_string-unescaped_example = unescape_string-unescaped 4 (codes "\\u4a\"") (codes "old")

unescape_string-escape_example :
    unescape_string
      (length (escape std_string greeting))
      (escape std_string greeting ++ codes "\"}")
      []
    ≡ (greeting, true)
unescape_string-escape_example = unescape_string-escape std_string greeting (codes "\"}") []
