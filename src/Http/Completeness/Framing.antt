-- ===== src/Http/Completeness/Framing.antt =====
-- A request with a `Content-Length` header, read in pieces: when `TestRequestCompleteness` tells
-- that it is complete.
use mathlib.Core.Option.{some-injective}
use lib_abk.Common.{
  ℕ, suc, ◌+◌, ◌-◌, ◌%◌, ◌^◌, ◌<◌, ◌≤◌, true, false, ◌≡◌, refl, sym, ap, ◌∙◌, arith, [], ◌∷◌, ◌++◌,
  ◌==◌, leb, Bytes, some, if◌then◌else◌, pos, negsuc, length, as_int-small, ◌⊎◌, inl, inr,
  Option-cases, length-append, append_assoc, subst,
}
use lib_abk.Http.Text.{
  find, find_substring_ci, same_letter, drop, search-append, search-length, drop-append,
}
use lib_abk.Http.Numbers.{scan_int, decimal, is_digit, EndsNumber, decimal-first, scan_int-decimal}
use lib_abk.Http.Completeness.{
  end_mark, content_key, content_at, content_length, int_or_zero, test_request_completeness,
}

content_at-digit :
    (k d : ℕ) (s : Bytes)
    → is_digit d ≡ true
    → content_at (suc k) (d ∷ s) ≡ int_or_zero (scan_int (d ∷ s))
content_at-digit k d s h =
    let solid : (d == b' ') ≡ false = ground arith in rw (solid, content_at) refl

content_at-number :
    (k n : ℕ) (y : Bytes)
    → EndsNumber y
    → content_at (suc (suc k)) (b' ' ∷ (decimal n ++ y)) ≡ pos n
content_at-number k n y e =
    let (d, ds, f, i) = decimal-first n in
    let whole : decimal n ++ y ≡ d ∷ (ds ++ y) = ap (λ b. b ++ y) f in
    ap (content_at (suc k)) whole
    ∙ content_at-digit k d (ds ++ y) i
    ∙ ap int_or_zero (ap scan_int (sym whole) ∙ scan_int-decimal n y e)

-- The headers with the one that tells the length, between the others.
abbrev pub headers : Bytes → ℕ → Bytes → Bytes
headers front n more = (front ++ content_key) ++ (b' ' ∷ (decimal n ++ more))

-- A text that reaches beyond the start of the text that it continues to has all of that start.
append-split :
    (a b p q : Bytes)
    → p ++ q ≡ a ++ b
    → length a ≤ length p
    → (x : Bytes) × (p ≡ a ++ x) × (x ++ q ≡ b)
append-split [] b p q e l = (p, refl, e)
append-split (c ∷ a) b [] q e l = absurd (omega arith)
append-split (c ∷ a) b (d ∷ p) q e l =
    let (x, f, g) = append-split a b p q (ap tail_of e) (omega arith) in (x, cc (f, e), g)
  where
    tail_of : Bytes → Bytes
    tail_of [] = []
    tail_of (z ∷ s) = s

module _ (front more : Bytes) (n : ℕ)
    (key_first : find_substring_ci (front ++ content_key) content_key ≡ some (length front))
    (ends : EndsNumber (more ++ end_mark)) where
  headers-find_key :
      (x : Bytes) → find_substring_ci (headers front n more ++ x) content_key ≡ some (length front)
  headers-find_key x =
      subst (λ s. find_substring_ci s content_key ≡ some (length front))
        (sym (append_assoc (front ++ content_key) (b' ' ∷ (decimal n ++ more)) x))
        (search-append same_letter content_key (front ++ content_key)
          ((b' ' ∷ (decimal n ++ more)) ++ x) (length front) key_first)

  length-key : length (front ++ content_key) ≡ length front + 15
  length-key = length-append front content_key

  headers-drop :
      (x : Bytes)
      → drop (length front + 15) (headers front n more ++ x) ≡ b' ' ∷ (decimal n ++ (more ++ x))
  headers-drop x =
      ap (λ k. drop k (headers front n more ++ x)) (sym length-key)
      ∙ ap (drop (length (front ++ content_key)))
          (append_assoc (front ++ content_key) (b' ' ∷ (decimal n ++ more)) x)
      ∙ drop-append (front ++ content_key) ((b' ' ∷ (decimal n ++ more)) ++ x)
      ∙ ap (λ s. b' ' ∷ s) (append_assoc (decimal n) more x)

  ends-append : (x : Bytes) → EndsNumber (more ++ (end_mark ++ x))
  ends-append x = go more ends
    where
      go : (m : Bytes) → EndsNumber (m ++ end_mark) → EndsNumber (m ++ (end_mark ++ x))
      go [] e = refl
      go (c ∷ m) e = e

  headers-rest : (k : ℕ) × (length (headers front n more) - (length front + 15) ≡ suc (suc k))
  headers-rest =
      let (d, ds, f, i) = decimal-first n in
      (
        length (ds ++ more),
        omega (
          arith,
          length-append (front ++ content_key) (b' ' ∷ (decimal n ++ more)),
          length-key,
          ap (λ b. length (b ++ more)) f,
        ),
      )

  headers-content_length :
      (x : Bytes)
      → content_length (length (headers front n more)) (headers front n more ++ (end_mark ++ x))
        ≡ pos n
  headers-content_length x =
      let (k, e) = headers-rest in
      rw (headers-find_key (end_mark ++ x), e, content_length)
        (ap (content_at (suc (suc k))) (headers-drop (end_mark ++ x))
          ∙ content_at-number k n (more ++ (end_mark ++ x)) (ends-append x))

  module _
      (mark_first : find end_mark (headers front n more ++ end_mark)
        ≡ some (length (headers front n more)))
      (small : length (headers front n more) + 4 + n < 2147483648) where
    headers-find_mark :
        (x : Bytes)
        → find end_mark (headers front n more ++ (end_mark ++ x))
          ≡ some (length (headers front n more))
    headers-find_mark x =
        subst (λ s. find end_mark s ≡ some (length (headers front n more)))
          (append_assoc (headers front n more) end_mark x)
          (search-append ◌==◌ end_mark (headers front n more ++ end_mark) x
            (length (headers front n more)) mark_first)

    length-message :
        (x : Bytes)
        → length (headers front n more ++ (end_mark ++ x))
          ≡ length (headers front n more) + 4 + length x
    length-message x =
        omega
          (arith, length-append (headers front n more) (end_mark ++ x), length-append end_mark x)

    enough :
        (x : Bytes)
        → leb
            ((length (headers front n more) + 4 + n) % 2 ^ 64)
            (length (headers front n more) + 4 + length x)
          ≡ leb n (length x)
    enough x = ground arith

    test-headers :
        (x : Bytes)
        → test_request_completeness (headers front n more ++ (end_mark ++ x))
          ≡ (if leb n (length x) then pos (length (headers front n more) + 4) else pos 0)
    unfolding test_request_completeness
    test-headers x =
        rw
          (
            headers-find_mark x,
            headers-content_length x,
            length-message x,
            as_int-small (length (headers front n more) + 4) (omega arith),
            test_request_completeness,
          )
          (ap (λ b. if b then pos (length (headers front n more) + 4) else pos 0) (enough x))

    -- The whole message is complete, and its data starts behind the mark.
    pub test-message :
        (body : Bytes)
        → length body ≡ n
        → test_request_completeness (headers front n more ++ (end_mark ++ body))
          ≡ pos (length (headers front n more) + 4)
    test-message body l =
        let enough_read : leb n (length body) ≡ true = ground arith in
        test-headers body
        ∙ ap (λ b. if b then pos (length (headers front n more) + 4) else pos 0) enough_read

    -- A part of the message that ends earlier is not complete.
    pub test-part :
        (body p : Bytes) (c : ℕ) (q : Bytes)
        → length body ≡ n
        → p ++ (c ∷ q) ≡ headers front n more ++ (end_mark ++ body)
        → (test_request_completeness p ≡ negsuc 0) ⊎ (test_request_completeness p ≡ pos 0)
    unfolding test_request_completeness
    test-part body p c q l e = elim (Option-cases (find end_mark p)) [
      | inl f ↦ inl (rw (f, test_request_completeness) refl)
      | inr (j, f) ↦
          let whole = search-append ◌==◌ end_mark p (c ∷ q) j f in
          let first : j ≡ length (headers front n more) =
            some-injective _ _ (sym whole ∙ ap (find end_mark) e ∙ headers-find_mark body) in
          let reach = search-length ◌==◌ end_mark p j f in
          let (x, g, h) =
            append-split (headers front n more ++ end_mark) body p (c ∷ q)
              (e ∙ sym (append_assoc (headers front n more) end_mark body))
              (omega (arith, length-append (headers front n more) end_mark)) in
          let missing : leb n (length x) ≡ false =
            too_short x (omega (arith, length-append x (c ∷ q), ap length h)) in
          inr (
            ap test_request_completeness (g ∙ append_assoc (headers front n more) end_mark x)
            ∙ test-headers x
            ∙ ap (λ b. if b then pos (length (headers front n more) + 4) else pos 0) missing)
    ]
      where
        too_short : (x : Bytes) → length x < n → leb n (length x) ≡ false
        too_short x h = ground arith
