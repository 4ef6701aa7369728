-- ===== src/Server/Requests/Picked.antt =====
-- What the extraction of a text under a name gives at the members of a request.
use lib_abk.Common.{
  Bool, true, false, ◌||◌, ◌≡◌, refl, [], Bytes, equal, Option, none, some, if◌then◌else◌,
  Bool-cases, inl, inr,
}
use lib_abk.Json.Unescape.RoundTrip.{HasNoNul}
use lib_abk.Json.Parser.{ok, Parser}
use lib_abk.Json.Item.{extract_named, extract_string}
use lib_abk.Json.Document.{Value, token, text, arr, obj, Fields, no_fields, fields}
use lib_abk.Json.Escape.{c_str}
use lib_abk.Json.Reading.{Carries, HasName, content}
use lib_abk.Server.Requests.Members.{IsFlat, text_of}

-- What `ExtractValue` of a text under a name gives at a member.
abbrev pub picked : Bytes → Bytes → Option Bytes → Bytes → Bytes × Bool
picked key n none old = (old, false)
picked key n (some s) old = if equal key n then (s, true) else (old, false)

pub extract-picked :
    (key n old : Bytes) (q : Parser) (v : Value)
    → HasNoNul key
    → HasName q n
    → Carries q (content v)
    → IsFlat (fields c_str n v no_fields)
    → extract_named extract_string q key old ≡ ok (picked key n (text_of v) old)
unfolding extract_named content extract_string
extract-picked key n old q (token t) k h c g = elim (Bool-cases (equal key n)) [
  | inl y ↦ rw (h.tests key k, y, c.0) refl
  | inr y ↦ rw (h.tests key k, y) refl
]
extract-picked key n old q (text o t) k h c g = elim (Bool-cases (equal key n)) [
  | inl y ↦ rw (h.tests key k, y) (c.1 old)
  | inr y ↦ rw (h.tests key k, y) refl
]
extract-picked key n old q (arr vs) k h c g = absurd g
extract-picked key n old q (obj fs) k h c g = absurd g

-- The last text under a name, and whether there is one.
abbrev pub last_text : Bytes → Fields → Bytes → Bytes
last_text key no_fields old = old
last_text key (fields o n v fs) old = last_text key fs (picked key n (text_of v) old).0

abbrev pub has_text : Bytes → Fields → Bool → Bool
has_text key no_fields old = old
has_text key (fields o n v fs) old = has_text key fs (old || (picked key n (text_of v) []).1)
