-- ===== src/Json/Unescape/RoundTrip.antt =====
-- Reading back what `operator <<` wrote between the quotes.
use lib_abk.Common.{
  ℕ, zero, suc, true, false, ◌≡◌, refl, ap, ap₂, ◌∙◌, arith, [], ◌∷◌, ◌++◌, ◌==◌, length, Bytes,
  some, equal, inl, inr, Bool-cases,
}
use lib_abk.Json.Escape.{Overload, c_str, std_string, escape_char, escape}
use lib_abk.Json.Unescape.{
  Ptr, peek, next, unescape_char, unescape_string, compare_char, compare_unescaped,
}
use lib_abk.Json.Unescape.Buffer.{unescaped, supported, unescape_string-unescaped}

unescaped-plain :
    (n c : ℕ) (p : Ptr) → (c == b'\\') ≡ false → unescaped (suc n) (c ∷ p) ≡ c ∷ unescaped n p
unescaped-plain zero c p h = rw h
unescaped-plain (suc n) c p h = rw h

supported-plain :
    (n c : ℕ) (p : Ptr) → (c == b'\\') ≡ false → supported (suc n) (c ∷ p) ≡ supported n p
supported-plain zero c p h = rw h
supported-plain (suc n) c p h = rw h

unescaped-escape_char :
    (o : Overload) (c : ℕ) (e rest : Bytes)
    → unescaped (length (escape_char o c ++ e)) ((escape_char o c ++ e) ++ rest)
      ≡ c ∷ unescaped (length e) (e ++ rest)
unfolding escape_char unescape_char
unescaped-escape_char c_str c e rest = ground (arith, unescaped-plain (length e) c (e ++ rest))
unescaped-escape_char std_string c e rest = ground (arith, unescaped-plain (length e) c (e ++ rest))

supported-escape_char :
    (o : Overload) (c : ℕ) (e rest : Bytes)
    → supported (length (escape_char o c ++ e)) ((escape_char o c ++ e) ++ rest)
      ≡ supported (length e) (e ++ rest)
unfolding escape_char
supported-escape_char c_str c e rest = ground (arith, supported-plain (length e) c (e ++ rest))
supported-escape_char std_string c e rest = ground (arith, supported-plain (length e) c (e ++ rest))

pub unescaped-escape :
    (o : Overload) (s rest : Bytes) → unescaped (length (escape o s)) (escape o s ++ rest) ≡ s
unfolding escape
unescaped-escape o [] rest = refl
unescaped-escape o (c ∷ s) rest =
    unescaped-escape_char o c (escape o s) rest ∙ ap (◌∷◌ c) (unescaped-escape o s rest)

pub supported-escape :
    (o : Overload) (s rest : Bytes) → supported (length (escape o s)) (escape o s ++ rest) ≡ true
unfolding escape
supported-escape o [] rest = refl
supported-escape o (c ∷ s) rest =
    supported-escape_char o c (escape o s) rest ∙ supported-escape o s rest

-- Unescaping what either overload of `operator <<` wrote between the quotes gives the text back
-- and succeeds, whatever stands behind the text and whatever the target string held.
pub unescape_string-escape :
    (o : Overload) (s rest old : Bytes)
    → unescape_string (length (escape o s)) (escape o s ++ rest) old ≡ (s, true)
unescape_string-escape o s rest old =
    unescape_string-unescaped (length (escape o s)) (escape o s ++ rest) old
    ∙ ap₂ (λ a b. (a, b)) (unescaped-escape o s rest) (supported-escape o s rest)

-- No byte of the text is a NUL.
abbrev pub HasNoNul : Bytes → Type 0
HasNoNul [] = Unit {0}
HasNoNul (c ∷ s) = ((c == 0) ≡ false) × HasNoNul s

compare_char-cons : (u c : ℕ) (us : Ptr) → compare_char (u ∷ us) c ≡ some ((u == c), us)
unfolding compare_char
compare_char-cons u c us = ground arith

-- Comparing a text with a slice is comparing it with the unescaped slice, if neither of these two
-- holds a NUL.
pub compare_unescaped-equal :
    (n : ℕ) (p u : Ptr)
    → HasNoNul u
    → HasNoNul (unescaped n p)
    → compare_unescaped n p u ≡ some (equal u (unescaped n p))
unfolding compare_unescaped
compare_unescaped-equal zero p [] hu h = refl
compare_unescaped-equal zero p (x ∷ u) hu h = rw hu.0
compare_unescaped-equal (suc zero) p [] hu h = ground arith
compare_unescaped-equal (suc zero) p (x ∷ []) hu h = ground arith
compare_unescaped-equal (suc zero) p (x ∷ y ∷ u) hu h = ground arith
compare_unescaped-equal (suc (suc n)) p [] hu h = ground arith
compare_unescaped-equal (suc (suc n)) p (x ∷ u) hu h = elim (Bool-cases (peek p == b'\\')) [
  | inl e ↦ ground (arith, compare_unescaped-equal n (next (next p)) u hu.1)
  | inr e ↦ ground (arith, compare_unescaped-equal (suc n) (next p) u hu.1)
]
