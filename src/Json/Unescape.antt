-- ===== src/Json/Unescape.antt =====
-- `UnescapeString` and `CompareUnescapedString` of Common/JsonParser.cpp. A pointer into the text
-- is the list of bytes from it to the terminating NUL. In `UnescapeString` an escape `\u` takes
-- the course of a build without assertions: it is copied, and the result says failure.
pub mod Buffer
pub mod RoundTrip
use lib_abk.Common.{
  ℕ, zero, suc, ◌+◌, ◌-◌, Bool, true, false, not, ◌&&◌, List, [], ◌∷◌, ◌++◌, ◌==◌, leb, length,
  if◌then◌else◌, Bytes, Option, none, some,
}
use lib_abk.Json.Escape.{backspace, form_feed}

-- A `const char *` that is not NULL.
abbrev pub Ptr : Type 0
Ptr = Bytes

-- `*p`: the NUL stands behind the last byte.
abbrev pub peek : Ptr → ℕ
peek [] = 0
peek (c ∷ p) = c

-- `p + 1`, within the text.
abbrev pub next : Ptr → Ptr
next [] = []
next (c ∷ p) = p

-- The switch behind a backslash.
unfoldable pub unescape_char : ℕ → ℕ
unescape_char c =
    if c == b'b'
    then backspace
    else if c == b'f'
    then form_feed
    else if c == b'n'
    then b'\n'
    else if c == b'r'
    then b'\r'
    else if c == b't'
    then b'\t'
    else c

-- The variables of the loop: the buffer `cBuf` with its fill, and what was copied out of it.
pub record Chunks : Type 0 where
  pub buf : Bytes
  pub junk_count : ℕ
  pub get : Bytes
  pub success : Bool

-- `assign` for the first junk, `append` for the others.
unfoldable pub copy_out : Chunks → Chunks
copy_out s = record s {
  buf = [];
  junk_count = s.junk_count + 1;
  get = if s.junk_count == 0 then s.buf else s.get ++ s.buf;
}

-- `cBuf[nBufEntities++]=c`, and the flush of a full buffer.
unfoldable pub put : Chunks → ℕ → Chunks
unfolding copy_out
put s c =
    let filled = record s { buf = s.buf ++ (c ∷ []) } in
    if leb 256 (length filled.buf) then copy_out filled else filled

-- `case 'u'`.
unfoldable pub put_escaped : Chunks → ℕ → Chunks
unfolding put unescape_char
put_escaped s c = put (record s { success = s.success && not (c == b'u') }) (unescape_char c)

-- The loop over the `n` bytes from `p` to `pEnd`. A backslash at the end reads the byte at `pEnd`.
unfoldable pub unescape_loop : ℕ → Ptr → Chunks → Chunks
unfolding put_escaped
unescape_loop zero p s = s
unescape_loop (suc zero) p s =
    if peek p == b'\\' then put_escaped s (peek (next p)) else put s (peek p)
unescape_loop (suc (suc n)) p s =
    let skip = unescape_loop n (next (next p)) (put_escaped s (peek (next p))) in
    let step = unescape_loop (suc n) (next p) (put s (peek p)) in
    if peek p == b'\\' then skip else step

-- The copy of what is left in the buffer.
unfoldable pub finish : Chunks → Chunks
unfolding copy_out
finish s = if length s.buf == 0 then s else copy_out s

-- The new `*pGet` and the result, for the slice of `n` bytes at `p` and the old `*pGet`.
unfoldable pub unescape_string : ℕ → Ptr → Bytes → Bytes × Bool
unfolding unescape_loop finish
unescape_string zero p old = ([], true)
unescape_string (suc n) p old =
    let s =
      finish (
        unescape_loop (suc n) p (record { buf = []; junk_count = 0; get = old; success = true })) in
    (s.get, s.success)

-- One comparison: `none` if the text that is compared with would be left behind its NUL.
unfoldable pub compare_char : Ptr → ℕ → Option (Bool × Ptr)
compare_char [] c = if c == 0 then none else some (false, [])
compare_char (u ∷ us) c = if u == c then some (true, us) else some (false, us)

-- The loop of `CompareUnescapedString`, and the test of the length behind it.
unfoldable pub compare_unescaped : ℕ → Ptr → Ptr → Option Bool
unfolding compare_char
compare_unescaped zero p u = some (peek u == 0)
compare_unescaped (suc zero) p u =
    elim (compare_char u (if peek p == b'\\' then unescape_char (peek (next p)) else peek p)) [
      | none ↦ none
      | some (false, _) ↦ some false
      | some (true, rest) ↦ some (peek rest == 0)
    ]
compare_unescaped (suc (suc n)) p u = elim (peek p == b'\\') [
  | true ↦ elim (compare_char u (unescape_char (peek (next p)))) [
    | none ↦ none
    | some (false, _) ↦ some false
    | some (true, rest) ↦ compare_unescaped n (next (next p)) rest
  ]
  | false ↦ elim (compare_char u (peek p)) [
    | none ↦ none
    | some (false, _) ↦ some false
    | some (true, rest) ↦ compare_unescaped (suc n) (next p) rest
  ]
]
