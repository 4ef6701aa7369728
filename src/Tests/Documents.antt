-- ===== src/Tests/Documents.antt =====
-- Documents that are written and read.
use lib_abk.Common.{
  ℕ, zero, suc, ◌∷◌, ◌<◌, true, false, ◌≡◌, ◌≢◌, refl, arith, [], ◌++◌, Bytes, codes, none, some,
  length, inr,
}
use lib_abk.Json.Escape.{c_str, std_string, quoted}
use lib_abk.Json.Parser.{
  Result, ok, fault, past_end, array, object, Parser, iterate, restart, in_object, isolate_name,
  isolate_value, in_array, numeric, bump, member, change_nesting, push_nesting,
}
use lib_abk.Json.Scan.{ends_numeric, search_string_end, search_numeric_end, skip_white}
use lib_abk.Json.Item.{skip_item}
use lib_abk.Json.Document.{
  Value, Fields, no_values, values, no_fields, fields, token, arr, obj, print, depth,
}
use lib_abk.Json.Reading.{inner, stop}
use lib_abk.Json.Reading.RoundTrip.{ReadsDocument, read_document}
use lib_abk.Json.Reading.State.{is_delimiter}
use lib_abk.Json.Reading.Skip.{skip_item-member, skip_item-unfinished}
use lib_abk.Json.Stream.{
  Store, formatter, init_new, get_stream, array_in_object, construct, begin_member, close, close_on,
}
use lib_abk.Json.Stream.Writer.{write_fields, get_stream-print}
use lib_abk.Json.RoundTrip.{restart-get_stream}
use lib_abk.Json.Progress.{Progress, iterate-Progress}
use lib_abk.Json.Progress.Done.{run_to_done, run_to_done-ends}
use lib_abk.Json.Progress.Stack.{begun, Mirrors, restart-Mirrors, step, here}
use lib_abk.Json.Faults.{iterate_unterminated}
use lib_abk.Json.Reading.TooDeep.{RestartOverflows, restart_too_deep}
use lib_abk.Tests.Samples.{events, reply, inside}

restart-get_stream_example :
    ReadsDocument
      (restart
        (λ j. true)
        ((get_stream (write_fields 0 reply (init_new formatter))).dump ++ codes " "))
      (inner (obj reply))
      (codes " ")
unfolding formatter init_new depth ends_numeric
restart-get_stream_example =
    restart-get_stream reply formatter (λ j. true) (codes " ") (ground arith) (ground arith)
      (ground arith) (ground arith)

read_document_example :
    ReadsDocument
      (restart (λ j. true) (print (arr events) ++ codes "]"))
      (inner (arr events))
      (codes "]")
unfolding depth ends_numeric
read_document_example =
    read_document (arr events) (λ j. true) (codes "]") tt (ground arith) (ground arith)

get_stream-print_example :
    (get_stream (write_fields 0 reply (init_new (get_stream formatter)))).dump ≡ print (obj reply)
unfolding formatter get_stream close close_on init_new
get_stream-print_example =
    get_stream-print reply (get_stream formatter) (ground arith) (ground arith)

-- The text of the document.
print-reply :
    print (obj reply) ≡ codes "{\"reply\":[{\"type\":\"log\",\"ok\":true},12],\"path\":\"a\\/b\"}"
unfolding print quoted
print-reply = refl

abbrev half_open : Store
half_open = array_in_object 0 c_str (codes "a") formatter

half_open-Above : (p : ℕ) → (half_open.nodes 0).parent ≡ some p → p < 0
unfolding array_in_object construct begin_member formatter init_new
half_open-Above p e = cc

-- `"a":[..],"b":1}`, in front of `SkipItem`.
abbrev member_text : Bytes
member_text = print (arr events) ++ codes ",\"b\":1}"

abbrev at_member : Parser
at_member = inside true 1 object (codes "\"a\":" ++ member_text)

skip_item-member_example :
    (q last : Parser) × (iterate at_member ≡ ok q)
    × (skip_item (suc (length (inner (arr events)))) none q ≡ ok (some (true, last)))
    × (last.pos ≡ codes ",\"b\":1}")
    × (last.nesting_level ≡ 1)
unfolding depth print quoted ends_numeric is_delimiter
skip_item-member_example =
    skip_item-member true c_str (codes "a") (arr events) (codes ",\"b\":1}") 1 at_member tt
      (ground arith) (ground arith) refl refl refl refl refl

-- `[1`, cut off: behind the bracket, and behind the number.
abbrev behind_bracket : Parser
behind_bracket = inside false 1 array (codes "1")

skip_item-unfinished_example : skip_item 1000 none (inside false 1 array []) ≡ ok none
skip_item-unfinished_example =
    skip_item-unfinished 1000 (inside false 1 array []) (inside false 1 array []) [] (inr refl) stop
      refl refl (ground arith)

abbrev broken : Parser
broken = inside true 1 object (codes "\"a\":[")

iterate-Progress_example : Progress broken (iterate broken)
iterate-Progress_example = iterate-Progress broken refl

run_to_done-ends_example : run_to_done 7 broken ≢ ok none
run_to_done-ends_example = run_to_done-ends 7 broken (ground arith)

-- The state behind a step that is no fault.
abbrev state : Parser → Result Parser → Parser
state p (ok q) = q
state p (fault e) = p

-- `{"a":[1`, in front of the number and behind it.
abbrev unfinished : Bytes
unfinished = codes "{\"a\":[1"

abbrev at_number : Parser
at_number = let start = begun (λ j. true) unfinished in state start (iterate start)

abbrev behind_number : Parser
behind_number = state at_number (iterate at_number)

restart-Mirrors_example :
    (restart (λ j. true) unfinished ≡ iterate (begun (λ j. true) unfinished))
    × Mirrors (false ∷ true ∷ []) behind_number
unfolding iterate in_object in_array isolate_name isolate_value bump search_string_end
    search_numeric_end ends_numeric skip_white member change_nesting push_nesting
restart-Mirrors_example =
    restart-Mirrors (λ j. true) unfinished (array ∷ numeric ∷ []) behind_number
      (step refl refl refl (step refl refl refl here))

iterate_unterminated_example : iterate (inside true 1 object (codes "\"abc:1}")) ≡ fault past_end
iterate_unterminated_example =
    iterate_unterminated true (codes "abc:1}") (inside true 1 object (codes "\"abc:1}"))
      (ground arith) refl refl

-- `[[..[]..]]`, and an object with a number and ten arrays in one another.
abbrev nested : ℕ → Value
nested zero = arr no_values
nested (suc n) = arr (values (nested n) no_values)

abbrev too_deep : Fields
too_deep =
    fields c_str (codes "n") (token (codes "1"))
      (fields std_string (codes "a") (nested 9) no_fields)

restart_too_deep_example :
    RestartOverflows (restart (λ j. true) (print (obj too_deep) ++ codes " "))
unfolding depth ends_numeric
restart_too_deep_example =
    restart_too_deep (obj too_deep) (λ j. true) (codes " ") tt (ground arith) (omega arith)
