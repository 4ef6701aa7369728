-- ===== src/Http/Escape/RoundTrip.antt =====
-- The texts that `UnescapeString` turns into a text: each byte as it is or as its code.
use lib_abk.Common.{
  ℕ, ◌+◌, ◌-◌, ◌*◌, ◌/◌, ◌%◌, ◌<◌, Bool, true, false, ◌&&◌, ◌||◌, ◌≡◌, refl, ap, ap₂, ◌∙◌, subst,
  arith, [], ◌∷◌, ◌==◌, ltb, leb, Bytes, if◌then◌else◌, Bool-cases, inl, inr,
}
use lib_abk.Http.Escape.{is_xdigit, digit_value, plain_byte, unescape_string}

-- A byte that stands for itself: no NUL, no `%`, and in a url no `+`.
abbrev pub is_plain : Bool → ℕ → Bool
is_plain is_url c = elim (c == 0 || c == b'%') [
  | true ↦ false
  | false ↦ if is_url && c == b'+' then false else true
]

-- The texts that stand for a text in a url or a query.
pub data Escapes : Bool → Bytes → Bytes → Type 0 where
  nothing : {u : Bool} → Escapes u [] []
  itself :
      {u : Bool} {t s : Bytes} (c : ℕ)
      → is_plain u c ≡ true
      → Escapes u t s
      → Escapes u (c ∷ t) (c ∷ s)
  space : {t s : Bytes} → Escapes true t s → Escapes true (b'+' ∷ t) (b' ' ∷ s)
  coded :
      {u : Bool} {t s : Bytes} (a b : ℕ)
      → (is_xdigit a && is_xdigit b) ≡ true
      → Escapes u t s
      → Escapes u (b'%' ∷ a ∷ b ∷ t) ((digit_value a * 16 + digit_value b) ∷ s)

unescape-plain :
    (u : Bool) (c : ℕ) (t : Bytes)
    → (c == 0) ≡ false
    → (c == b'%') ≡ false
    → unescape_string u (c ∷ t) ≡ plain_byte u c ∷ unescape_string u t
unfolding unescape_string
unescape-plain u c [] z p = rw z refl
unescape-plain u c (a ∷ []) z p = rw z refl
unescape-plain u c (a ∷ b ∷ t) z p = rw (z, p, unescape_string) refl

is_plain-not_nul : (u : Bool) (c : ℕ) → is_plain u c ≡ true → (c == 0) ≡ false
is_plain-not_nul u c h = ground arith

is_plain-not_percent : (u : Bool) (c : ℕ) → is_plain u c ≡ true → (c == b'%') ≡ false
is_plain-not_percent u c h = ground arith

is_plain-plain_byte : (u : Bool) (c : ℕ) → is_plain u c ≡ true → plain_byte u c ≡ c
is_plain-plain_byte u c h = ground arith

unescape-itself :
    (u : Bool) (c : ℕ) (t : Bytes)
    → is_plain u c ≡ true
    → unescape_string u (c ∷ t) ≡ c ∷ unescape_string u t
unescape-itself u c t h =
    unescape-plain u c t (is_plain-not_nul u c h) (is_plain-not_percent u c h)
    ∙ ap (λ (x : ℕ). x ∷ unescape_string u t) (is_plain-plain_byte u c h)

-- A text that stands for another one in a url or a query, byte by byte as it is, as a `+` for a
-- space in a url, or as `%` with two hexadecimal digits of either case, is turned into it.
pub unescape_string-Escapes : (u : Bool) (t s : Bytes) → Escapes u t s → unescape_string u t ≡ s
unfolding unescape_string
unescape_string-Escapes u _ _ nothing = refl
unescape_string-Escapes u _ _ (itself {t} {s} c h e) =
    unescape-itself u c t h ∙ ap (λ r. c ∷ r) (unescape_string-Escapes u t s e)
unescape_string-Escapes _ _ _ (space {t} {s} e) =
    unescape-plain true b'+' t refl refl ∙ ap (λ r. b' ' ∷ r) (unescape_string-Escapes true t s e)
unescape_string-Escapes u _ _ (coded {t} {s} a b h e) =
    rw (h, unescape_string)
      (ap (λ r. (digit_value a * 16 + digit_value b) ∷ r) (unescape_string-Escapes u t s e))

-- The encoding of a byte by a client: letters, digits and some marks as they are.
abbrev is_unreserved : ℕ → Bool
is_unreserved c =
    (leb b'0' c && leb c b'9')
    || (leb b'A' c && leb c b'Z')
    || (leb b'a' c && leb c b'z')
    || c == b'-'
    || c == b'.'
    || c == b'_'
    || c == b'~'

abbrev hex_digit : ℕ → ℕ
hex_digit n = if ltb n 10 then n + b'0' else n + b'A' - 10

abbrev pub percent_encode : Bytes → Bytes
percent_encode [] = []
percent_encode (c ∷ s) =
    let rest = percent_encode s in
    if is_unreserved c then c ∷ rest else b'%' ∷ hex_digit (c / 16) ∷ hex_digit (c % 16) ∷ rest

abbrev pub AreBytes : Bytes → Type 0
AreBytes [] = Unit {0}
AreBytes (c ∷ s) = (c < 256) × AreBytes s

hex_digit-is_xdigit : (n : ℕ) → n < 16 → is_xdigit (hex_digit n) ≡ true
hex_digit-is_xdigit n h = ground arith

hex_digit-digit_value : (n : ℕ) → n < 16 → digit_value (hex_digit n) ≡ n
hex_digit-digit_value n h = ground arith

is_unreserved-is_plain : (u : Bool) (c : ℕ) → is_unreserved c ≡ true → is_plain u c ≡ true
is_unreserved-is_plain u c h = ground arith

digits-are_xdigits :
    (c : ℕ) → c < 256 → (is_xdigit (hex_digit (c / 16)) && is_xdigit (hex_digit (c % 16))) ≡ true
digits-are_xdigits c h =
    ap₂ (λ a b. a && b) (hex_digit-is_xdigit (c / 16) (omega arith))
      (hex_digit-is_xdigit (c % 16) (omega arith))

value-digits :
    (c : ℕ) → c < 256 → digit_value (hex_digit (c / 16)) * 16 + digit_value (hex_digit (c % 16)) ≡ c
value-digits c h =
    rw
      (
        hex_digit-digit_value (c / 16) (omega arith),
        hex_digit-digit_value (c % 16) (omega arith),
        digit_value,
        hex_digit,
      )
      (omega arith)

percent_encode-cons :
    (u : Bool) (c : ℕ) (t s : Bytes)
    → c < 256
    → Escapes u t s
    → Escapes u
        (if is_unreserved c then c ∷ t else b'%' ∷ hex_digit (c / 16) ∷ hex_digit (c % 16) ∷ t)
        (c ∷ s)
percent_encode-cons u c t s b e = elim (Bool-cases (is_unreserved c)) [
  | inl h ↦ rw h (itself c (is_unreserved-is_plain u c h) e)
  | inr h ↦ rw h (
      subst (λ x. Escapes u (b'%' ∷ hex_digit (c / 16) ∷ hex_digit (c % 16) ∷ t) (x ∷ s))
        (value-digits c b)
        (coded (hex_digit (c / 16)) (hex_digit (c % 16)) (digits-are_xdigits c b) e))
]

percent_encode-Escapes : (u : Bool) (s : Bytes) → AreBytes s → Escapes u (percent_encode s) s
percent_encode-Escapes u [] l = nothing
percent_encode-Escapes u (c ∷ s) (b, l) =
    percent_encode-cons u c (percent_encode s) s b (percent_encode-Escapes u s l)

-- The encoding of any bytes, with every byte but letters, digits and `-._~` as its code, is turned
-- into these bytes, in a url as well as in a query.
pub unescape_string-percent_encode :
    (u : Bool) (s : Bytes) → AreBytes s → unescape_string u (percent_encode s) ≡ s
unescape_string-percent_encode u s l =
    unescape_string-Escapes u (percent_encode s) s (percent_encode-Escapes u s l)
