-- ===== src/Tests/Samples.antt =====
-- The documents and parser states that the tests use.
use lib_abk.Common.{ℕ, Bool, [], Bytes, codes, none, some}
use lib_abk.Json.Escape.{c_str, std_string}
use lib_abk.Json.Parser.{ItemType, Parser}
use lib_abk.Json.Document.{
  token, text, arr, obj, Values, no_values, values, Fields, no_fields, fields,
}

-- An event as the logger interface queues it.
abbrev pub event : Fields
event =
    fields c_str (codes "type") (text c_str (codes "log"))
      (fields c_str (codes "ok") (token (codes "true")) no_fields)

abbrev pub events : Values
events = values (obj event) (values (token (codes "12")) no_values)

-- `{"reply":[{"type":"log","ok":true},12],"path":"a/b"}`, the slash escaped.
abbrev pub reply : Fields
reply =
    fields std_string (codes "reply") (arr events)
      (fields c_str (codes "path") (text c_str (codes "a/b")) no_fields)

-- A parser inside of an array (`false`) or an object (`true`) at a nesting level.
abbrev pub inside : Bool → ℕ → ItemType → Bytes → Parser
inside b level type pos = record {
  pos = pos;
  name_start = some [];
  name_end = some [];
  value_start = none;
  value_end = none;
  type = type;
  objects = λ j. b;
  nesting_level = level;
}
