-- ===== src/Json/Faults.antt =====
-- Texts on which `CJsonParser` leaves its memory: strings that do not end. Deep nesting is
-- in Json/Reading/TooDeep.
use lib_abk.Common.{
  Bool, true, false, ◌≡◌, refl, ap, ◌∙◌, arith, [], ◌∷◌, ◌==◌, Bytes, inl, inr, Bool-cases,
}
use lib_abk.Json.Unescape.{Ptr}
use lib_abk.Json.Scan.{search_string_end, skip_white}
use lib_abk.Json.Parser.{
  past_end, fault, Parser, is_invalid, iterate, bump, isolate_name, isolate_value, member,
  in_object, in_array,
}
use lib_abk.Json.Document.{comma}
use lib_abk.Json.Reading.Members.{at}

abbrev pub HasNoQuote : Bytes → Type 0
HasNoQuote [] = Unit {0}
HasNoQuote (c ∷ s) = ((c == b'"') ≡ false) × HasNoQuote s

search_string_end-HasNoQuote : (s : Ptr) → HasNoQuote s → search_string_end s ≡ []
unfolding search_string_end
search_string_end-HasNoQuote [] h = refl
search_string_end-HasNoQuote (c ∷ []) h = rw h.0
search_string_end-HasNoQuote (c ∷ d ∷ s) h =
    ground (arith, search_string_end-HasNoQuote s h.1.1, search_string_end-HasNoQuote (d ∷ s) h.1)

unterminated_name :
    (first : Bool) (s : Bytes) (p : Parser)
    → HasNoQuote s
    → is_invalid p.type ≡ false
    → p.objects p.nesting_level ≡ true
    → iterate (at (comma first (b'"' ∷ s)) p) ≡ fault past_end
unfolding iterate in_object isolate_name bump skip_white
unterminated_name true s p h t k = rw (t, k, search_string_end-HasNoQuote s h)
unterminated_name false s p h t k = rw (t, k, search_string_end-HasNoQuote s h)

unterminated_value :
    (first : Bool) (s : Bytes) (p : Parser)
    → HasNoQuote s
    → is_invalid p.type ≡ false
    → p.objects p.nesting_level ≡ false
    → iterate (at (comma first (b'"' ∷ s)) p) ≡ fault past_end
unfolding iterate in_array member isolate_value bump skip_white
unterminated_value true s p h t k = rw (t, k, search_string_end-HasNoQuote s h)
unterminated_value false s p h t k = rw (t, k, search_string_end-HasNoQuote s h)

-- If a member begins with a quote, behind a comma or not, no other quote follows in the text, and
-- the item was not invalid before, `Iterate` steps behind the terminating NUL: in an object,
-- where this is a name, and in an array, where it is a value.
pub iterate_unterminated :
    (first : Bool) (s : Bytes) (p : Parser)
    → HasNoQuote s
    → is_invalid p.type ≡ false
    → p.pos ≡ comma first (b'"' ∷ s)
    → iterate p ≡ fault past_end
iterate_unterminated first s p h t e = elim (Bool-cases (p.objects p.nesting_level)) [
  | inl k ↦ ap (λ x. iterate (at x p)) e ∙ unterminated_name first s p h t k
  | inr k ↦ ap (λ x. iterate (at x p)) e ∙ unterminated_value first s p h t k
]
