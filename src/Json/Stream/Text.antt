-- ===== src/Json/Stream/Text.antt =====
-- The values without quotes that Common/JsonFormatter.cpp writes: Booleans and floating-point
-- numbers. The number format of `std::ostream` for a finite number is the parameter `show`.
use lib_abk.Common.{
  Bool, true, false, not, ◌≡◌, refl, arith, [], ◌∷◌, if◌then◌else◌, Bytes, Bool-cases, inl, inr,
}
use lib_abk.Json.Item.{true_text, false_text}
use lib_abk.Json.Scan.{ends_numeric}
use lib_abk.Json.Document.{IsToken}

abbrev pub null_text : Bytes
null_text = b'n' ∷ b'u' ∷ b'l' ∷ b'l' ∷ []

null_text-IsToken : IsToken null_text
unfolding ends_numeric
null_text-IsToken = ground arith

unfoldable pub format_bool : Bool → Bytes
format_bool b = if b then true_text else false_text

module _ {D : Type 0} (is_nan is_finite : D → Bool) (show : D → Bytes) where
  unfoldable pub format_double : D → Bytes
  format_double d = if is_nan d then null_text else if not (is_finite d) then null_text else show d

  -- If finite numbers are shown as tokens, every number is written as one, and every number that
  -- is not finite as `null`.
  pub format_double-IsToken :
      ((d : D) → is_nan d ≡ false → is_finite d ≡ true → IsToken (show d))
      → (d : D) → IsToken (format_double d) × (is_finite d ≡ false → format_double d ≡ null_text)
  unfolding format_double ends_numeric
  format_double-IsToken h d = elim (Bool-cases (is_nan d)) [
    | inl n ↦ rw n (null_text-IsToken, λ _. refl)
    | inr n ↦ elim (Bool-cases (is_finite d)) [
      | inl f ↦ rw (n, f) (h d n f, λ e. cc)
      | inr f ↦ rw (n, f) (null_text-IsToken, λ _. refl)
    ]
  ]

-- A Boolean is written as a token.
pub format_bool-IsToken : (b : Bool) → IsToken (format_bool b)
unfolding format_bool ends_numeric
format_bool-IsToken true = ground arith
format_bool-IsToken false = ground arith
