-- ===== src/Server/ValueTable.antt =====
-- The value table of a variable's meta data, `VALUE_TO_TEXT` and `CValueTable` of ServerLib/VarRef:
-- ranges of values and the text that is shown for each. The floating-point type with its
-- constants, `nextafter` and its text form is a parameter.
pub mod Format
use lib_abk.Common.{
  ℕ, suc, ◌+◌, ◌<◌, Bool, true, false, ◌&&◌, ◌≡◌, refl, ap, ◌∙◌, arith, List, [], ◌∷◌, ◌++◌, Bytes,
  codes, Option, none, some, length, get_elem?, ltb, if◌then◌else◌, ℤ, pos, negsuc, as_int,
}
use lib_abk.Json.Escape.{c_str, std_string, quoted}
use lib_abk.Json.Document.{
  Value, token, text, arr, obj, Values, no_values, values, Fields, no_fields, fields,
}
use lib_abk.Json.Stream.{Store, array_in_object, object_in_array, close, write_field}
use lib_abk.Json.Stream.Text.{format_double}
use lib_abk.Json.Stream.Writer.{write_fields, write_values}

-- The type `double`.
pub record Doubles : Type 1 where
  pub Double : Type 0
  pub is_nan : Double → Bool
  pub is_finite : Double → Bool
  pub show : Double → Bytes
  pub zero_point : Double
  pub one_point : Double
  pub hundred_point : Double
  pub plus : Double → Double → Double
  pub next_after : Double → Double → Double

abbrev pub value_name : Bytes
value_name = codes "Value"

abbrev pub value_to_name : Bytes
value_to_name = codes "To"

abbrev pub text_name : Bytes
text_name = codes "Text"

abbrev pub fallback_name : Bytes
fallback_name = codes "TextFallback"

-- `VALUE_TO_TEXT`.
pub record Entity (D : Doubles) : Type 0 where
  pub str_text : Bytes
  pub text_valid : Bool
  pub lower : D.Double
  pub upper : D.Double

-- `CValueTable`.
pub record Table (D : Doubles) : Type 0 where
  pub entities : List (Entity D)
  pub fallback : Entity D

module _ (D : Doubles) where
  -- The text of a `double` in the dump.
  abbrev pub number : D.Double → Bytes
  number d = format_double D.is_nan D.is_finite D.show d

  unfoldable pub new_entity : Entity D
  new_entity = record {
    str_text = [];
    text_valid = false;
    lower = D.zero_point;
    upper = D.zero_point;
  }

  unfoldable pub new_table : Table D
  unfolding new_entity
  new_table = record { entities = []; fallback = new_entity }

  unfoldable pub get_count : Table D → ℕ
  get_count t = length t.entities

  -- `CheckIndex`, where the size is converted to `int`.
  unfoldable pub check_index : Table D → ℤ → Bool
  check_index t (negsuc n) = false
  check_index t (pos n) = elim (as_int (length t.entities)) [
    | pos size ↦ ltb n size
    | negsuc _ ↦ false
  ]

  -- `operator[]`, of a vector without a test of its own.
  abbrev pub element : List (Entity D) → ℤ → Option (Entity D)
  element es (pos n) = get_elem? es n
  element es (negsuc n) = none

  unfoldable pub at_index : Table D → ℤ → Option (Entity D)
  unfolding check_index
  at_index t i = if check_index t i then element t.entities i else some t.fallback

  -- The overloads of `Add`.
  unfoldable pub add_entity : Entity D → Table D → Table D
  add_entity e t = record t { entities = t.entities ++ (e ∷ []) }

  unfoldable pub add_range : D.Double → D.Double → Bytes → Table D → Table D
  unfolding add_entity
  add_range a b s t =
      add_entity (record { str_text = s; text_valid = true; lower = a; upper = b }) t

  unfoldable pub add_value : D.Double → Bytes → Table D → Table D
  unfolding add_range
  add_value a s t = add_range a (D.next_after a (D.plus a D.one_point)) s t

  -- The overloads of `SetFallback`.
  unfoldable pub set_fallback : Entity D → Table D → Table D
  set_fallback e t = record t { fallback = record e { lower = D.zero_point; upper = D.zero_point } }

  unfoldable pub set_fallback_text : Bytes → Table D → Table D
  set_fallback_text s t = record t {
    fallback = record t.fallback { str_text = s; text_valid = true };
  }

module _ (D : Doubles) (experimental : Bool) where
  -- `VALUE_TO_TEXT::FormatAsJson`, into the object `i`; whether `EXPERIMENTAL` is defined is a
  -- parameter.
  unfoldable pub format_entity : ℕ → Entity D → Store → Store
  format_entity i e s =
      let t = write_field i value_name (number D e.lower) s in
      let u = if experimental then write_field i value_to_name (number D e.upper) t else t in
      if e.text_valid then write_field i text_name (quoted std_string e.str_text) u else u

  -- The loop of `CValueTable::FormatAsJson`, into the array `a`.
  unfoldable pub format_entities : ℕ → List (Entity D) → Store → Store
  unfolding format_entity
  format_entities a [] s = s
  format_entities a (e ∷ es) s =
      format_entities a es (close s.fresh (format_entity s.fresh e (object_in_array a s)))

  -- `CValueTable::FormatAsJson`. The destructors find the array and the objects closed.
  unfoldable pub format_table : ℕ → Table D → Bytes → Store → Store
  unfolding format_entities
  format_table i t name s =
      let u = close s.fresh (format_entities s.fresh t.entities (array_in_object i c_str name s)) in
      if t.fallback.text_valid
      then write_field i fallback_name (quoted std_string t.fallback.str_text) u
      else u

  -- The members that describe an entity, and those that describe a table, in front of others.
  abbrev pub text_fields : Bytes → Entity D → Fields → Fields
  text_fields name e fs =
      if e.text_valid then fields c_str name (text std_string e.str_text) fs else fs

  abbrev pub upper_fields : Entity D → Fields → Fields
  upper_fields e fs =
      if experimental then fields c_str value_to_name (token (number D e.upper)) fs else fs

  abbrev pub entity_fields : Entity D → Fields
  entity_fields e =
      fields c_str value_name (token (number D e.lower))
        (upper_fields e (text_fields text_name e no_fields))

  abbrev pub entity_values : List (Entity D) → Values
  entity_values [] = no_values
  entity_values (e ∷ es) = values (obj (entity_fields e)) (entity_values es)

  abbrev pub table_fields : Table D → Bytes → Fields → Fields
  table_fields t name fs =
      fields c_str name (arr (entity_values t.entities)) (text_fields fallback_name t.fallback fs)
