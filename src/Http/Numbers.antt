-- ===== src/Http/Numbers.antt =====
-- Decimal numbers as `sprintf` writes them and `sscanf` reads them in HttpServerLib/HttpServer.cpp,
-- with `%d`. A number beyond the range of `int`, which the standard leaves open, is read as it is.
use mathlib.Core.Option
use lib_abk.Common.{
  ℕ, zero, suc, ◌+◌, ◌-◌, ◌*◌, ◌/◌, ◌%◌, ◌<◌, Bool, true, false, ◌&&◌, ◌||◌, ◌≡◌, refl, ap, ◌∙◌,
  arith, [], ◌∷◌, ◌++◌, ◌==◌, ltb, leb, Bytes, Option, none, some, if◌then◌else◌, ℤ, pos, negsuc,
  Bool-cases, inl, inr, append_assoc, sym,
}

abbrev pub is_digit : ℕ → Bool
is_digit c = leb b'0' c && leb c b'9'

abbrev digits : ℕ → ℕ → Bytes
digits zero n = []
digits (suc fuel) n =
    let more = digits fuel (n / 10) in
    if ltb n 10 then (n + b'0') ∷ [] else more ++ ((n % 10 + b'0') ∷ [])

-- The decimal digits of a number; each round divides it by ten.
abbrev pub decimal : ℕ → Bytes
decimal n = digits (suc n) n

abbrev read_digits : ℕ → Bytes → ℕ
read_digits acc [] = acc
read_digits acc (c ∷ s) =
    let more = read_digits (acc * 10 + (c - b'0')) s in if is_digit c then more else acc

abbrev unsigned : Bytes → Option ℕ
unsigned [] = none
unsigned (c ∷ s) = if is_digit c then some (read_digits 0 (c ∷ s)) else none

abbrev negated : ℕ → ℤ
negated zero = pos 0
negated (suc n) = negsuc n

abbrev signed : Bytes → Option ℤ
signed [] = none
signed (c ∷ s) =
    if c == b'-'
    then Option.map negated (unsigned s)
    else if c == b'+'
    then Option.map pos (unsigned s)
    else Option.map pos (unsigned (c ∷ s))

-- `isspace`.
abbrev is_space : ℕ → Bool
is_space c = c == b' ' || (leb 9 c && leb c 13)

abbrev skip_space : Bytes → Bytes
skip_space [] = []
skip_space (c ∷ s) = let rest = skip_space s in if is_space c then rest else c ∷ s

-- `sscanf` with `%d`.
unfoldable pub scan_int : Bytes → Option ℤ
scan_int s = signed (skip_space s)

-- No digit follows.
abbrev pub EndsNumber : Bytes → Type 0
EndsNumber [] = Unit {0}
EndsNumber (c ∷ s) = is_digit c ≡ false

read_digits-end : (n : ℕ) (s : Bytes) → EndsNumber s → read_digits n s ≡ n
read_digits-end n [] h = refl
read_digits-end n (c ∷ s) h = rw h refl

digit-byte : (n : ℕ) → n < 10 → is_digit (n + b'0') ≡ true
digit-byte n h = ground arith

read_digits-digits :
    (fuel n : ℕ) (s : Bytes) → n < fuel → read_digits 0 (digits fuel n ++ s) ≡ read_digits n s
read_digits-digits zero n s h = absurd (omega arith)
read_digits-digits (suc fuel) n s h = elim (Bool-cases (ltb n 10)) [
  | inl l ↦ rw (l, digit-byte n (ground arith)) (ap (λ k. read_digits k s) (omega arith))
  | inr l ↦
      rw (l, append_assoc)
        (read_digits-digits fuel (n / 10) ((n % 10 + b'0') ∷ s) (ground arith)
          ∙ rw (digit-byte (n % 10) (omega arith)) (ap (λ k. read_digits k s) (omega arith)))
]

digits-first :
    (fuel n : ℕ)
    → n < fuel
    → (d : ℕ) × (ds : Bytes) × (digits fuel n ≡ d ∷ ds) × (is_digit d ≡ true)
digits-first zero n h = absurd (omega arith)
digits-first (suc fuel) n h = elim (Bool-cases (ltb n 10)) [
  | inl l ↦ (n + b'0', [], rw l refl, digit-byte n (ground arith))
  | inr l ↦
      let (d, ds, e, i) = digits-first fuel (n / 10) (ground arith) in
      (d, ds ++ ((n % 10 + b'0') ∷ []), rw (l, e) refl, i)
]

-- The text of a number starts with a digit.
pub decimal-first : (n : ℕ) → (d : ℕ) × (ds : Bytes) × (decimal n ≡ d ∷ ds) × (is_digit d ≡ true)
decimal-first n = digits-first (suc n) n (omega arith)

scan_int-first :
    (d : ℕ) (s : Bytes) → is_digit d ≡ true → scan_int (d ∷ s) ≡ some (pos (read_digits 0 (d ∷ s)))
unfolding scan_int
scan_int-first d s h =
    let solid : is_space d ≡ false = ground arith in
    let minus : (d == b'-') ≡ false = ground arith in
    let plus : (d == b'+') ≡ false = ground arith in
    rw (solid, minus, plus, h, skip_space, signed, unsigned) refl

-- A number that was written in decimal is read again, whatever follows but a digit.
pub scan_int-decimal : (n : ℕ) (s : Bytes) → EndsNumber s → scan_int (decimal n ++ s) ≡ some (pos n)
scan_int-decimal n s e =
    let (d, ds, f, i) = decimal-first n in
    let whole : decimal n ++ s ≡ d ∷ (ds ++ s) = ap (λ b. b ++ s) f in
    ap scan_int whole
    ∙ scan_int-first d (ds ++ s) i
    ∙ ap (λ k. some (pos k))
        (ap (read_digits 0) (sym whole)
          ∙ read_digits-digits (suc n) n s (omega arith)
          ∙ read_digits-end n s e)
