-- ===== src/Json/Reading/Slices.antt =====
-- The scanning functions at the end of a text, a name or a token that was written.
use lib_abk.Common.{
  ℕ, ◌-◌, Bool, true, false, not, ◌&&◌, ◌≡◌, refl, ap, ◌∙◌, arith, List, [], ◌∷◌, ◌++◌, ◌==◌,
  length, length-append, take, Bytes, some, append_assoc,
}
use lib_abk.Json.Escape.{Overload, c_str, std_string, escape_char, escape, quoted}
use lib_abk.Json.Unescape.{Ptr}
use lib_abk.Json.Unescape.RoundTrip.{unescape_string-escape}
use lib_abk.Json.Scan.{ends_numeric, search_string_end, search_numeric_end, skip_white}
use lib_abk.Json.Parser.{ok}
use lib_abk.Json.Item.{slice, unescape_between}
use lib_abk.Json.Document.{Value, token, text, arr, obj, render, TokenBytes, WellFormed}

search_string_end-plain :
    (c : ℕ) (p : Ptr)
    → (c == b'"') ≡ false
    → (c == b'\\') ≡ false
    → search_string_end (c ∷ p) ≡ search_string_end p
unfolding search_string_end
search_string_end-plain c [] h k = rw h
search_string_end-plain c (d ∷ p) h k = rw (h, k)

search_string_end-escape_char :
    (o : Overload) (c : ℕ) (p : Ptr)
    → search_string_end (escape_char o c ++ p) ≡ search_string_end p
unfolding escape_char search_string_end
search_string_end-escape_char c_str c p = ground (arith, search_string_end-plain c p)
search_string_end-escape_char std_string c p = ground (arith, search_string_end-plain c p)

-- The scan for the end of a text stops at the quote that `operator <<` wrote behind it.
pub search_string_end-escape :
    (o : Overload) (s rest : Bytes) → search_string_end (escape o s ++ (b'"' ∷ rest)) ≡ b'"' ∷ rest
unfolding escape
search_string_end-escape o [] [] = unfold search_string_end in refl
search_string_end-escape o [] (d ∷ rest) = unfold search_string_end in refl
search_string_end-escape o (c ∷ s) rest =
    rw (append_assoc (escape_char o c) (escape o s) (b'"' ∷ rest)) (
      search_string_end-escape_char o c (escape o s ++ (b'"' ∷ rest))
      ∙ search_string_end-escape o s rest)

pub search_numeric_end-token :
    (t : Bytes) (d : ℕ) (rest : Bytes)
    → TokenBytes t
    → ends_numeric d ≡ true
    → search_numeric_end (t ++ (d ∷ rest)) ≡ d ∷ rest
unfolding search_numeric_end
search_numeric_end-token [] d rest h e = rw e
search_numeric_end-token (c ∷ t) d rest h e = rw h.0 (search_numeric_end-token t d rest h.2 e)

pub sub-append {ℓ} : {A : Type ℓ} (a b : List A) → length (a ++ b) - length b ≡ length a
sub-append a b = omega (arith, length-append a b)

pub take-append {ℓ} : {A : Type ℓ} (a b : List A) → take (length a) (a ++ b) ≡ a
take-append [] b = refl
take-append (x ∷ a) b = ap (◌∷◌ x) (take-append a b)

pub slice-append : (a b : Bytes) → slice (some (a ++ b)) (some b) ≡ ok (length a, a ++ b)
unfolding slice
slice-append a b = ap (λ n. ok (n, a ++ b)) (sub-append a b)

pub unescape_between-escape :
    (o : Overload) (s rest old : Bytes)
    → unescape_between (some (escape o s ++ rest)) (some rest) old ≡ ok (s, true)
unfolding unescape_between
unescape_between-escape o s rest old =
    rw (sub-append (escape o s) rest) (ap ok (unescape_string-escape o s rest old))

-- A value's text begins with no blank, NUL, comma or bracket that closes.
abbrev pub begins_value : Ptr → Bool
begins_value [] = false
begins_value (c ∷ p) = not (ends_numeric c) && not (c == 0)

pub render-begins_value :
    (v : Value) (rest : Bytes) → WellFormed v → begins_value (render v rest) ≡ true
unfolding render quoted ends_numeric
render-begins_value (token []) rest h = absurd h
render-begins_value (token (c ∷ t)) rest h = ground arith
render-begins_value (text o s) rest h = refl
render-begins_value (arr vs) rest h = refl
render-begins_value (obj fs) rest h = refl

pub skip_white-begins_value : (p : Ptr) → begins_value p ≡ true → skip_white p ≡ p
unfolding skip_white ends_numeric
skip_white-begins_value [] h = refl
skip_white-begins_value (c ∷ p) h = ground arith

pub quoted-append :
    (o : Overload) (s rest : Bytes) → quoted o s ++ rest ≡ b'"' ∷ (escape o s ++ (b'"' ∷ rest))
unfolding quoted
quoted-append o s rest = ap (◌∷◌ b'"') (append_assoc (escape o s) (b'"' ∷ []) rest)
