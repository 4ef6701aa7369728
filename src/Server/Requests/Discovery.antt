-- ===== src/Server/Requests/Discovery.antt =====
-- What a client's search for servers comes to.
use lib_abk.Common.{
  ℕ, Bool, true, ◌||◌, ◌≡◌, refl, ap, ◌∙◌, arith, [], Bytes, codes, equal, Option, none, some,
  Bool-cases, inl, inr,
}
use lib_abk.Json.Parser.{Result, ok, ◌>>=◌, Parser}
use lib_abk.Json.Item.{skip_item}
use lib_abk.Json.Document.{
  Value, token, text, arr, obj, Fields, no_fields, fields, WellFormedFields, print,
}
use lib_abk.Json.Escape.{c_str}
use lib_abk.Json.Reading.{Carries, content}
use lib_abk.Server.Requests.{Search, no_search, search_item, accepted, decode_search}
use lib_abk.Server.Requests.Members.{
  IsFlat, Effect, text_of, effects, Follows, decode_items-effects,
}
use lib_abk.Server.Requests.Picked.{picked, extract-picked, last_text, has_text}

-- The effect of a member on a search.
abbrev pub search_effect : Effect Search
search_effect n t r = record {
  key = (picked (codes "Key") n t r.key).0;
  client_class = (picked (codes "Class") n t r.client_class).0;
  client_type = (picked (codes "Type") n t r.client_type).0;
  client_serial = (picked (codes "Serial") n t r.client_serial).0;
  class_decoded = r.class_decoded || (picked (codes "Class") n t r.client_class).1;
  type_decoded = r.type_decoded || (picked (codes "Type") n t r.client_type).1;
  serial_decoded = r.serial_decoded || (picked (codes "Serial") n t r.client_serial).1;
}

skip_item-flat :
    (fuel : ℕ) (q : Parser) (n : Bytes) (v : Value)
    → Carries q (content v)
    → IsFlat (fields c_str n v no_fields)
    → skip_item fuel none q ≡ ok (some (true, q))
unfolding skip_item content
skip_item-flat fuel q n (token t) c g = rw c.0 refl
skip_item-flat fuel q n (text o t) c g = rw c.0 refl
skip_item-flat fuel q n (arr vs) c g = absurd g
skip_item-flat fuel q n (obj fs) c g = absurd g

search_item-Follows : (fuel : ℕ) → Follows (search_item fuel) search_effect
unfolding search_item
search_item-Follows fuel q n v r h c g =
    rw
      (
        extract-picked (codes "Key") n r.key q v (ground arith) h c g,
        extract-picked (codes "Class") n r.client_class q v (ground arith) h c g,
        extract-picked (codes "Type") n r.client_type q v (ground arith) h c g,
        extract-picked (codes "Serial") n r.client_serial q v (ground arith) h c g,
        skip_item-flat fuel q n v c g,
      )
      refl

abbrev pub search_of : Fields → Search → Search
search_of fs r = record {
  key = last_text (codes "Key") fs r.key;
  client_class = last_text (codes "Class") fs r.client_class;
  client_type = last_text (codes "Type") fs r.client_type;
  client_serial = last_text (codes "Serial") fs r.client_serial;
  class_decoded = has_text (codes "Class") fs r.class_decoded;
  type_decoded = has_text (codes "Type") fs r.type_decoded;
  serial_decoded = has_text (codes "Serial") fs r.serial_decoded;
}

picked_found :
    (key n : Bytes) (t : Option Bytes) (a b : Bytes) → (picked key n t a).1 ≡ (picked key n t b).1
picked_found key n none a b = refl
picked_found key n (some s) a b = elim (Bool-cases (equal key n)) [
  | inl y ↦ rw y refl
  | inr y ↦ rw y refl
]

search_effects : (fs : Fields) (r : Search) → effects search_effect fs r ≡ search_of fs r
search_effects no_fields r = refl
search_effects (fields o n v fs) r =
    search_effects fs (search_effect n (text_of v) r)
    ∙ rw
        (
          picked_found (codes "Class") n (text_of v) r.client_class [],
          picked_found (codes "Type") n (text_of v) r.client_type [],
          picked_found (codes "Serial") n (text_of v) r.client_serial [],
        )
        refl

-- A search for servers by a client that sends a flat JSON object: it is accepted exactly when there
-- is a text under each of "Class", "Type" and "Serial" and the last text under "Key" is
-- "AbkSearchForServer", and what it holds are the last texts under these names. The conditions: no
-- member is an array or an object, no name or text holds a NUL, and every token is a token. The
-- fuel of `SkipItem` is never used up.
pub decode_search-accepted :
    (fuel : ℕ) (fs : Fields)
    → IsFlat fs
    → WellFormedFields fs
    → decode_search fuel (print (obj fs))
      ≡ ok (some (accepted (search_of fs no_search), search_of fs no_search))
unfolding decode_search
decode_search-accepted fuel fs g w =
    ap
      (λ x. x >>= λ found. elim found as (λ _. Result (Option (Bool × Search))) [
        | none ↦ ok none
        | some r ↦ ok (some (accepted r, r))
      ])
      (decode_items-effects (search_item fuel) search_effect fs no_search (search_item-Follows fuel)
          g w
        ∙ ap (λ r. ok (some r)) (search_effects fs no_search))
