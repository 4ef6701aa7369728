-- ===== src/Json/Reading/Shows.antt =====
-- The name and the value that the parser tells of a member which was written by `operator <<`.
use lib_abk.Common.{true, ◌≡◌, ◌++◌, ◌∷◌, ap, sym, subst, ◌∙◌, Bytes, some, equal, length}
use lib_abk.Json.Escape.{Overload, escape}
use lib_abk.Json.Unescape.{Ptr, compare_unescaped}
use lib_abk.Json.Unescape.RoundTrip.{HasNoNul, unescaped-escape, compare_unescaped-equal}
use lib_abk.Json.Parser.{ok, Parser}
use lib_abk.Json.Item.{
  extract_string, get_value_string, test_for_name, get_name, compare_between, checked,
}
use lib_abk.Json.Reading.{HasName}
use lib_abk.Json.Reading.Slices.{sub-append, unescape_between-escape}
use lib_abk.Json.Reading.Members.{named_state, text_state}

pub extract_string-text :
    (o : Overload) (s : Bytes) (rest : Ptr) (p : Parser) (old : Bytes)
    → extract_string (text_state o s rest p) old ≡ ok (s, true)
unfolding extract_string get_value_string
extract_string-text o s rest p old = unescape_between-escape o s (b'"' ∷ rest) old

compare_unescaped-escape :
    (o : Overload) (n name : Bytes) (rest : Ptr)
    → HasNoNul n
    → HasNoNul name
    → compare_unescaped (length (escape o n)) (escape o n ++ rest) name ≡ some (equal name n)
compare_unescaped-escape o n name rest h k =
    let e = unescaped-escape o n rest in
    compare_unescaped-equal _ _ name k (subst HasNoNul (sym e) h) ∙ ap (λ m. some (equal name m)) e

compare_between-escape :
    (o : Overload) (n name : Bytes) (rest : Ptr)
    → HasNoNul n
    → HasNoNul name
    → compare_between name (some (escape o n ++ rest)) (some rest) ≡ ok (equal name n)
unfolding compare_between
compare_between-escape o n name rest h k =
    rw (sub-append (escape o n) rest) (ap checked (compare_unescaped-escape o n name rest h k))

pub HasName-named_state :
    (o : Overload) (n : Bytes) (value : Ptr) (p q : Parser)
    → HasNoNul n
    → q.name_start ≡ (named_state o n value p).name_start
    → q.name_end ≡ (named_state o n value p).name_end
    → HasName q n
unfolding get_name test_for_name
HasName-named_state o n value p q h a b = record {
  gets = λ old. rw (a, b) (unescape_between-escape o n (b'"' ∷ b':' ∷ value) old);
  tests = λ name k. rw (a, b) (compare_between-escape o n name (b'"' ∷ b':' ∷ value) h k);
}
