-- ===== src/Http/Options/Longest.antt =====
-- The specification of `FindUrlOption`: the longest start of a url for which there are options.
use lib_abk.Common.{
  ℕ, zero, suc, ◌<◌, ◌≤◌, true, ◌≡◌, refl, ap, ◌∙◌, arith, [], ◌∷◌, ◌==◌, Bytes, Option, none, some,
  length, take, compare, subst, inl, inr,
}
use lib_abk.Server.Dispatch.Order.{Ordering-cases}
use lib_abk.Http.Text.{starts}

module _ {O : Type 0} where
  abbrev pub longest_up_to : (Bytes → Option O) → Bytes → ℕ → Option O
  longest_up_to f url zero = f []
  longest_up_to f url (suc n) =
      let shorter = longest_up_to f url n in
      elim (f (take (suc n) url)) [ none ↦ shorter | some o ↦ some o ]

  -- The options of the longest text that starts the url and has some.
  abbrev pub longest_start : (Bytes → Option O) → Bytes → Option O
  longest_start f url = longest_up_to f url (length url)

starts-take : (n : ℕ) (url : Bytes) → starts ◌==◌ (take n url) url ≡ true
starts-take zero url = refl
starts-take (suc n) [] = refl
starts-take (suc n) (c ∷ url) = ground (arith, starts-take n url)

take-starts : (p url : Bytes) → starts ◌==◌ p url ≡ true → take (length p) url ≡ p
take-starts [] url h = refl
take-starts (x ∷ p) (y ∷ url) h = ground (arith, take-starts p url)
take-starts (x ∷ p) [] h = cc

length-take : (n : ℕ) (url : Bytes) → n ≤ length url → length (take n url) ≡ n
length-take zero url h = refl
length-take (suc n) [] h = absurd (omega arith)
length-take (suc n) (c ∷ url) h = omega (arith, length-take n url)

starts-length : (p url : Bytes) → starts ◌==◌ p url ≡ true → length p ≤ length url
starts-length [] url h = omega arith
starts-length (x ∷ p) (y ∷ url) h = ground (arith, starts-length p url)
starts-length (x ∷ p) [] h = cc

module _ {O : Type 0} (f : Bytes → Option O) (url : Bytes) where
  longest_up_to-none :
      (n : ℕ) → ((p : Bytes) → starts ◌==◌ p url ≡ true → f p ≡ none) → longest_up_to f url n ≡ none
  longest_up_to-none zero h = h [] refl
  longest_up_to-none (suc n) h =
      rw (h (take (suc n) url) (starts-take (suc n) url), longest_up_to) (longest_up_to-none n h)

  pub longest_start-none :
      ((p : Bytes) → starts ◌==◌ p url ≡ true → f p ≡ none) → longest_start f url ≡ none
  longest_start-none h = longest_up_to-none (length url) h

  module _ (p : Bytes) (o : O) (s : starts ◌==◌ p url ≡ true) (e : f p ≡ some o)
      (longer : (q : Bytes) → starts ◌==◌ q url ≡ true → length p < length q → f q ≡ none) where
    longest_up_to-some : (n : ℕ) → length p ≤ n → n ≤ length url → longest_up_to f url n ≡ some o
    longest_up_to-some zero l b =
        let empty : length p ≡ 0 = omega arith in
        ap f (subst (λ k. take k url ≡ p) empty (take-starts p url s)) ∙ e
    longest_up_to-some (suc n) l b = elim (Ordering-cases (compare (length p) (suc n))) [
      | inl less ↦
          rw
            (
              longer (take (suc n) url) (starts-take (suc n) url) (fits (ground arith)),
              longest_up_to,
            )
            (longest_up_to-some n (ground arith) (omega arith))
      | inr (inl same) ↦ rw (here (ground arith), longest_up_to) refl
      | inr (inr more) ↦ absurd (ground arith)
    ]
      where
        fits : length p < suc n → length p < length (take (suc n) url)
        fits h = omega (arith, length-take (suc n) url b)

        here : length p ≡ suc n → f (take (suc n) url) ≡ some o
        here h = ap f (subst (λ k. take k url ≡ p) h (take-starts p url s)) ∙ e

    pub longest_start-some : longest_start f url ≡ some o
    longest_start-some = longest_up_to-some (length url) (starts-length p url s) (omega arith)
