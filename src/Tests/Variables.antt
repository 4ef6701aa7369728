-- ===== src/Tests/Variables.antt =====
-- Variables, their meta data and trends, and the log.
use lib_abk.Common.{
  ℕ, ◌+◌, true, false, ◌≡◌, refl, arith, List, [], ◌∷◌, ◌++◌, Bytes, codes, ℤ, pos, negsuc,
}
use lib_abk.Json.Document.{obj, print}
use lib_abk.Json.Escape.{quoted}
use lib_abk.Json.Stream.{formatter, init_new, get_stream}
use lib_abk.Json.Stream.Text.{format_double}
use lib_abk.Server.ValueTable.{Doubles, Entity, Table}
use lib_abk.Server.Meta.{Meta, new_meta, set_unit, set_value_table, format_meta_as_json}
use lib_abk.Server.Meta.Format.{meta_fields, member_if}
use lib_abk.Server.Meta.Reply.{reply_fields, format_meta_as_json-print}
use lib_abk.Server.LogQueue.{Call, adds, pops, error, info, run_log, added, run_log-added}
use lib_abk.Server.Dependants.{Change, run_changes, AreUnique, contains, run_changes-wanted}

-- Whole numbers below ten, in place of `double`.
abbrev digits : Doubles
digits = record {
  Double = ℕ;
  is_nan = λ d. false;
  is_finite = λ d. true;
  show = λ d. (b'0' + d) ∷ [];
  zero_point = 0;
  one_point = 1;
  hundred_point = 9;
  plus = λ a b. a + b;
  next_after = λ a b. a + 1;
}

abbrev gear : Entity digits
gear = record { str_text = codes "gear"; text_valid = true; lower = 1; upper = 2 }

abbrev gears : Table digits
gears = record {
  entities = gear ∷ [];
  fallback = record { str_text = codes "none"; text_valid = true; lower = 0; upper = 0 };
}

-- A logger that knows the unit and the table.
abbrev get_meta : Meta digits → Meta digits
get_meta m = set_value_table digits gears (set_unit digits (codes "km/h") m)

abbrev show_digit : ℤ → Bytes
show_digit (pos n) = (b'0' + n) ∷ []
show_digit (negsuc n) = b'-' ∷ (b'1' + n) ∷ []

format_meta_as_json-print_example :
    (get_stream (
      format_meta_as_json digits false show_digit get_meta 0
        (codes "Speed")
        (init_new formatter))).dump
    ≡ print (obj (reply_fields digits false show_digit get_meta (codes "Speed")))
unfolding formatter
format_meta_as_json-print_example =
    format_meta_as_json-print digits false show_digit get_meta (codes "Speed") formatter
      (ground arith)

-- The members of this reply.
speed_members :
    print (obj (reply_fields digits false show_digit get_meta (codes "Speed")))
    ≡ codes
        "{\"Name\":\"Speed\",\"Unit\":\"km/h\",\"Text\":[{\"Value\":1,\"Text\":\"gear\"}],\"TextFallback\":\"none\"}"
unfolding meta_fields member_if set_value_table set_unit new_meta format_double print quoted
speed_members = refl

abbrev calls : List Call
calls = adds error (codes "a") ∷ pops ∷ pops ∷ adds info (codes "b") ∷ []

-- Stated for any calls.
run_log-added_example : (run_log calls []).0 ++ (run_log calls []).1 ≡ added calls
run_log-added_example = run_log-added calls []

abbrev changes : List Change
changes = Change.adds 1 ∷ Change.adds 2 ∷ Change.adds 1 ∷ Change.removes 1 ∷ []

run_changes-wanted_example :
    AreUnique (run_changes changes []) × (contains 1 (run_changes changes []) ≡ false)
run_changes-wanted_example = run_changes-wanted changes [] 1 tt
