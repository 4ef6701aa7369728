-- ===== src/Json/Unescape/Buffer.antt =====
-- The 256-byte buffer of `UnescapeString` against a loop that appends each byte at once.
use lib_abk.Common.{
  ℕ, zero, suc, Bool, true, false, not, ◌&&◌, inl, inr, ◌≡◌, ◌≢◌, refl, sym, ap, ap₂, ◌∙◌, arith,
  [], ◌∷◌, ◌++◌, ◌==◌, if◌then◌else◌, Bool-cases, Bytes, append_assoc, append-nil,
}
use lib_abk.Json.Unescape.{
  Ptr, peek, next, unescape_char, Chunks, put, put_escaped, unescape_loop, finish, unescape_string,
}

-- The slice with its escapes replaced.
abbrev pub unescaped : ℕ → Ptr → Bytes
unescaped zero p = []
unescaped (suc zero) p = (if peek p == b'\\' then unescape_char (peek (next p)) else peek p) ∷ []
unescaped (suc (suc n)) p =
    if peek p == b'\\'
    then unescape_char (peek (next p)) ∷ unescaped n (next (next p))
    else peek p ∷ unescaped (suc n) (next p)

-- No escape of the slice is a `\u`.
abbrev pub supported : ℕ → Ptr → Bool
supported zero p = true
supported (suc zero) p = if peek p == b'\\' then not (peek (next p) == b'u') else true
supported (suc (suc n)) p =
    if peek p == b'\\'
    then not (peek (next p) == b'u') && supported n (next (next p))
    else supported (suc n) (next p)

-- What the buffered state stands for.
abbrev content : Chunks → Bytes
content s = if s.junk_count == 0 then s.buf else s.get ++ s.buf

content-put : (s : Chunks) (c : ℕ) → content (put s c) ≡ content s ++ (c ∷ [])
unfolding put
content-put s c = ground (
  arith,
  append_assoc s.get s.buf (c ∷ []),
  append-nil (s.buf ++ (c ∷ [])),
  append-nil (s.get ++ (s.buf ++ (c ∷ []))),
)

success-put : (s : Chunks) (c : ℕ) → (put s c).success ≡ s.success
unfolding put
success-put s c = ground arith

-- A state whose content and success are known.
abbrev Holds : Chunks → Bytes → Bool → Type 0
Holds s out good = (content s ≡ out) × (s.success ≡ good)

put-Holds :
    (s : Chunks) (c : ℕ) (out : Bytes) (good : Bool)
    → Holds s out good
    → Holds (put s c) (out ++ (c ∷ [])) good
put-Holds s c out good h = (content-put s c ∙ ap (λ l. l ++ (c ∷ [])) h.0, success-put s c ∙ h.1)

put_escaped-Holds :
    (s : Chunks) (c : ℕ) (out : Bytes) (good : Bool)
    → Holds s out good
    → Holds (put_escaped s c) (out ++ (unescape_char c ∷ [])) (good && not (c == b'u'))
unfolding put_escaped
put_escaped-Holds s c out good h =
    put-Holds (record s { success = s.success && not (c == b'u') }) (unescape_char c) out _
      (h.0, ap (λ b. b && not (c == b'u')) h.1)

&&_assoc : (a b c : Bool) → ((a && b) && c) ≡ (a && (b && c))
&&_assoc true b c = refl
&&_assoc false b c = refl

unescape_loop-Holds :
    (n : ℕ) (p : Ptr) (s : Chunks) (out : Bytes) (good : Bool)
    → Holds s out good
    → Holds (unescape_loop n p s) (out ++ unescaped n p) (good && supported n p)
unfolding unescape_loop
unescape_loop-Holds zero p s out good h = ground (arith, append-nil out)
unescape_loop-Holds (suc zero) p s out good h = elim (Bool-cases (peek p == b'\\')) [
  | inl e ↦ rw e (put_escaped-Holds s (peek (next p)) out good h)
  | inr e ↦ rw e (ground (arith, put-Holds s (peek p) out good h))
]
unescape_loop-Holds (suc (suc n)) p s out good h = elim (Bool-cases (peek p == b'\\')) [
  | inl e ↦
      let x = unescape_char (peek (next p)) in
      let ih =
        unescape_loop-Holds n (next (next p)) (put_escaped s (peek (next p))) (out ++ (x ∷ []))
          (good && not (peek (next p) == b'u')) (put_escaped-Holds s (peek (next p)) out good h) in
      rw e (ih.0 ∙ append_assoc out (x ∷ []) _, ih.1 ∙ &&_assoc good _ _)
  | inr e ↦
      let ih =
        unescape_loop-Holds (suc n) (next p) (put s (peek p)) (out ++ (peek p ∷ [])) good
          (put-Holds s (peek p) out good h) in
      rw e (ih.0 ∙ append_assoc out (peek p ∷ []) _, ih.1)
]

unescaped-ne-nil : (n : ℕ) (p : Ptr) → unescaped (suc n) p ≢ []
unescaped-ne-nil zero p = ground arith
unescaped-ne-nil (suc n) p = ground arith

finish-content : (s : Chunks) (b : Bytes) → s.buf ≡ b → content s ≢ [] → (finish s).get ≡ content s
unfolding finish
finish-content s [] e h = ground (arith, append-nil s.get)
finish-content s (c ∷ b) e h = ground arith

finish-success : (s : Chunks) → (finish s).success ≡ s.success
unfolding finish
finish-success s = ground arith

-- The buffered loop gives what a plain loop over the slice gives, whatever the string held before
-- and however often the buffer runs full; the result says whether every escape is supported.
pub unescape_string-unescaped :
    (n : ℕ) (p : Ptr) (old : Bytes) → unescape_string n p old ≡ (unescaped n p, supported n p)
unfolding unescape_string
unescape_string-unescaped zero p old = refl
unescape_string-unescaped (suc n) p old =
    let start : Chunks = record { buf = []; junk_count = 0; get = old; success = true } in
    let s = unescape_loop (suc n) p start in
    let (out, good) = unescape_loop-Holds (suc n) p start [] true (refl, refl) in
    let copied = finish-content s s.buf refl (λ e. unescaped-ne-nil n p (sym out ∙ e)) in
    ap₂ (λ a b. (a, b)) (copied ∙ out) (finish-success s ∙ good)
