-- ===== src/Json/Item.antt =====
-- The properties of the actual item of a `CJsonParser` and `SkipItem`, of Common/JsonParser. What a
-- function writes through its pointer comes back beside its result, the old value if it writes
-- nothing. `sscanf` is a parameter: `scan` gives the converted value of a text, if there is one.
use lib_abk.Common.{
  ℕ, zero, suc, ◌-◌, Bool, true, false, ◌||◌, [], ◌∷◌, leb, length, take, if◌then◌else◌, Bytes,
  Option, none, some,
}
use lib_abk.Json.Unescape.{Ptr, unescape_string, compare_unescaped}
use lib_abk.Json.Scan.{strncmp_eq}
use lib_abk.Json.Parser.{
  past_end, null_pointer, Result, ok, fault, ◌>>=◌, ItemType, object, array, string, numeric,
  Parser, iterate, is_invalid,
}

-- The text between two pointers: its length and its start. A NULL pointer is refused by an assert.
unfoldable pub slice : Option Ptr → Option Ptr → Result (ℕ × Ptr)
slice (some start) (some stop) = ok (length start - length stop, start)
slice _ _ = fault null_pointer

-- `UnescapeString` between two pointers.
unfoldable pub unescape_between : Option Ptr → Option Ptr → Bytes → Result (Bytes × Bool)
unfolding slice
unescape_between start stop old = do (n, p) ← slice start stop; ok (unescape_string n p old)

-- A comparison that leaves the text behind its NUL is a fault.
abbrev pub checked : Option Bool → Result Bool
checked none = fault past_end
checked (some b) = ok b

-- `CompareUnescapedString` between two pointers.
unfoldable pub compare_between : Bytes → Option Ptr → Option Ptr → Result Bool
unfolding slice
compare_between name start stop = do (n, p) ← slice start stop; checked (compare_unescaped n p name)

unfoldable pub get_name : Parser → Bytes → Result (Bytes × Bool)
unfolding unescape_between
get_name p = unescape_between p.name_start p.name_end

unfoldable pub get_value_string : Parser → Bytes → Result (Bytes × Bool)
unfolding unescape_between
get_value_string p = unescape_between p.value_start p.value_end

unfoldable pub test_for_name : Parser → Bytes → Result Bool
unfolding compare_between
test_for_name p name = elim p.name_start [
  | none ↦ ok false
  | some start ↦ compare_between name (some start) p.name_end
]

abbrev pub is_array_type : ItemType → Bool
is_array_type array = true
is_array_type _ = false

abbrev pub is_object_type : ItemType → Bool
is_object_type object = true
is_object_type _ = false

abbrev pub is_string_type : ItemType → Bool
is_string_type string = true
is_string_type _ = false

abbrev pub is_numeric_type : ItemType → Bool
is_numeric_type numeric = true
is_numeric_type _ = false

unfoldable pub test_array : Parser → Bytes → Result Bool
test_array p name = if is_array_type p.type then test_for_name p name else ok false

unfoldable pub test_object : Parser → Bytes → Result Bool
test_object p name =
    if is_object_type p.type
    then elim p.name_start [ none ↦ ok true | some _ ↦ test_for_name p name ]
    else ok false

-- The overloads that return the name.
unfoldable pub test_array_named : Parser → Bytes → Result (Bytes × Bool)
unfolding get_name
test_array_named p old = if is_array_type p.type then get_name p old else ok (old, false)

unfoldable pub test_object_named : Parser → Bytes → Result (Bytes × Bool)
unfolding get_name
test_object_named p old = if is_object_type p.type then get_name p old else ok (old, false)

unfoldable pub extract_string : Parser → Bytes → Result (Bytes × Bool)
unfolding get_value_string
extract_string p old =
    if is_string_type p.type
    then elim p.value_start [ none ↦ ok (old, false) | some _ ↦ get_value_string p old ]
    else ok (old, false)

-- The two `strncmp` tests of `GetValueBool`, on the slice of `n` bytes at `p`.
unfoldable pub read_bool : ℕ → Ptr → Bytes → Bytes → Bool → Bool × Bool
unfolding strncmp_eq
read_bool n p yes_text no_text old =
    if strncmp_eq n yes_text p
    then (true, true)
    else if strncmp_eq n no_text p
    then (false, true)
    else (old, false)

abbrev pub true_text : Bytes
true_text = b't' ∷ b'r' ∷ b'u' ∷ b'e' ∷ []

abbrev pub false_text : Bytes
false_text = b'f' ∷ b'a' ∷ b'l' ∷ b's' ∷ b'e' ∷ []

unfoldable pub get_value_bool : Parser → Bool → Result (Bool × Bool)
unfolding slice read_bool
get_value_bool p old = do
  (n, start) ← slice p.value_start p.value_end
  ok (read_bool n start true_text false_text old)

unfoldable pub extract_bool : Parser → Bool → Result (Bool × Bool)
unfolding get_value_bool
extract_bool p old =
    if is_numeric_type p.type
    then elim p.value_start [ none ↦ ok (old, false) | some _ ↦ get_value_bool p old ]
    else ok (old, false)

-- A named value is extracted if the name fits.
unfoldable pub extract_named {ℓ} :
    {A : Type ℓ} → (Parser → A → Result (A × Bool)) → Parser → Bytes → A → Result (A × Bool)
extract_named extract p name old = do
  here ← test_for_name p name
  if here then extract p old else ok (old, false)

module _ {I : Type 0} (scan : Bytes → Option I) where
  -- `GetValueInt`: `sscanf` sees the slice, since a NUL is put behind it meanwhile.
  unfoldable pub get_value_int : Parser → I → Result (I × Bool)
  unfolding slice
  get_value_int p old = do
    (n, start) ← slice p.value_start p.value_end
    elim (scan (take n start)) [ none ↦ ok (old, false) | some v ↦ ok (v, true) ]

  unfoldable pub extract_int : Parser → I → Result (I × Bool)
  unfolding get_value_int
  extract_int p old =
      if is_numeric_type p.type
      then elim p.value_start [ none ↦ ok (old, false) | some _ ↦ get_value_int p old ]
      else ok (old, false)

-- The loop of `SkipItem` on fuel, `none` when it runs out.
unfoldable pub skip_loop : ℕ → ℕ → Parser → Result (Option (Bool × Parser))
skip_loop zero level p = ok none
skip_loop (suc fuel) level p = elim (leb level p.nesting_level) [
  | false ↦ ok (some (true, p))
  | true ↦ iterate p >>= λ q. elim (is_invalid q.type) [
    | true ↦ ok (some (false, q))
    | false ↦ skip_loop fuel level q
  ]
]

unfoldable pub skip_item : ℕ → Option Bytes → Parser → Result (Option (Bool × Parser))
unfolding skip_loop compare_between
skip_item fuel name p =
    let skip = skip_loop fuel p.nesting_level p in
    if is_array_type p.type || is_object_type p.type
    then elim name [
      | none ↦ skip
      | some n ↦ compare_between n p.name_start p.name_end >>= λ same.
          if same then skip else ok (some (true, p))
    ]
    else ok (some (true, p))
