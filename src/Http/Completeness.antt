-- ===== src/Http/Completeness.antt =====
-- `TestRequestCompleteness` of HttpServerLib/HttpServer.cpp: where the data of a request starts, or
-- that more of it has to be read. `size_t` has 64 bits.
pub mod Framing
use lib_abk.Common.{
  ℕ, zero, suc, ◌+◌, ◌-◌, ◌%◌, ◌^◌, ◌<◌, ◌≤◌, Bool, true, false, ◌≡◌, refl, sym, ap, ◌∙◌, arith, [],
  ◌∷◌, ◌++◌, ◌==◌, leb, Bytes, codes, Option, none, some, if◌then◌else◌, ℤ, pos, negsuc, as_int,
  length, as_int-small, ◌⊎◌, inl, inr, Option-cases, length-append, append_assoc, subst,
}
use lib_abk.Http.Text.{
  find, find_substring_ci, search, same_letter, drop, search-append, search-length, drop-append,
}
use lib_abk.Http.Numbers.{scan_int, decimal, is_digit, EndsNumber, decimal-first, scan_int-decimal}

-- The mark at the end of the headers.
abbrev pub end_mark : Bytes
end_mark = b'\r' ∷ b'\n' ∷ b'\r' ∷ b'\n' ∷ []

abbrev pub content_key : Bytes
content_key = codes "Content-Length:"

abbrev int_or_zero : Option ℤ → ℤ
int_or_zero none = pos 0
int_or_zero (some n) = n

-- The loop over the blanks behind the name of the header, up to the end of the headers.
abbrev content_at : ℕ → Bytes → ℤ
content_at zero s = pos 0
content_at (suc n) [] = pos 0
content_at (suc n) (c ∷ s) =
    let rest = content_at n s in if c == b' ' then rest else int_or_zero (scan_int (c ∷ s))

abbrev content_length : ℕ → Bytes → ℤ
content_length end_of_headers request = elim (find_substring_ci request content_key) [
  | none ↦ pos 0
  | some at ↦ content_at (end_of_headers - (at + 15)) (drop (at + 15) request)
]

-- The sum of a `size_t` and an `int`.
abbrev add_size : ℕ → ℤ → ℕ
add_size start (pos n) = (start + n) % 2 ^ 64
add_size start (negsuc n) = (start + (2 ^ 64 - 1 - n)) % 2 ^ 64

unfoldable pub test_request_completeness : Bytes → ℤ
unfolding scan_int
test_request_completeness request = elim (find end_mark request) [
  | none ↦ negsuc 0
  | some end_of_headers ↦
      if leb (add_size (end_of_headers + 4) (content_length end_of_headers request))
        (length request)
      then as_int (end_of_headers + 4)
      else pos 0
]
