-- ===== src/Json/Reading/Members.antt =====
-- One call of `Iterate` in front of a member of a container.
use lib_abk.Common.{
  ℕ, ◌+◌, ◌-◌, ◌<◌, Bool, true, false, ◌≡◌, arith, [], ◌∷◌, ◌++◌, ◌==◌, if◌then◌else◌, Bytes,
  length, length-append, lt→ltb, some,
}
use lib_abk.Json.Escape.{Overload, escape, quoted}
use lib_abk.Json.Unescape.{Ptr, peek}
use lib_abk.Json.Scan.{ends_numeric, skip_white}
use lib_abk.Json.Parser.{
  Result, ok, ◌>>=◌, invalid, Parser, is_invalid, isolate_name, isolate_value, member,
  change_nesting, in_object, in_array, iterate, push_nesting, update, pop_nesting, string, numeric,
  object, array, end,
}
use lib_abk.Json.Document.{comma, IsToken, starts_value}
use lib_abk.Json.Reading.Slices.{
  begins_value, search_string_end-escape, skip_white-begins_value, search_numeric_end-token,
  quoted-append,
}

-- What `Iterate` does behind the comma and the name.
abbrev pub enter : Parser → Result Parser
enter p =
    member p >>= λ r. change_nesting r.type r >>= λ s. ok (record s { pos = skip_white s.pos })

-- The name was read, and the parser stands in front of the value's text.
abbrev pub named_state : Overload → Bytes → Ptr → Parser → Parser
named_state o n value p = record p {
  pos = value;
  name_start = some (escape o n ++ (b'"' ∷ b':' ∷ value));
  name_end = some (b'"' ∷ b':' ∷ value);
  type = invalid;
}

abbrev pub at : Ptr → Parser → Parser
at text p = record p { pos = text }

isolate_name-quoted :
    (o : Overload) (n : Bytes) (value : Ptr) (p : Parser)
    → begins_value value ≡ true
    → isolate_name (record p { pos = b'"' ∷ (escape o n ++ (b'"' ∷ b':' ∷ value)); type = invalid })
      ≡ ok (named_state o n value p)
unfolding isolate_name skip_white
isolate_name-quoted o n value p b =
    rw (search_string_end-escape o n (b':' ∷ value), skip_white-begins_value value b)

in_object-field :
    (first : Bool) (o : Overload) (n : Bytes) (value : Ptr) (p : Parser)
    → begins_value value ≡ true
    → in_object (record p { pos = comma first (quoted o n ++ (b':' ∷ value)); type = invalid })
      ≡ member (named_state o n value p)
unfolding in_object
in_object-field true o n value p b =
    rw (quoted-append o n (b':' ∷ value), isolate_name-quoted o n value p b)
in_object-field false o n value p b =
    rw (quoted-append o n (b':' ∷ value), isolate_name-quoted o n value p b)

pub iterate-in_object :
    (first : Bool) (o : Overload) (n : Bytes) (value : Ptr) (p : Parser)
    → is_invalid p.type ≡ false
    → p.objects p.nesting_level ≡ true
    → begins_value value ≡ true
    → iterate (at (comma first (quoted o n ++ (b':' ∷ value))) p) ≡ enter (named_state o n value p)
unfolding iterate
iterate-in_object true o n value p t k b = rw (
  t,
  quoted-append o n (b':' ∷ value),
  k,
  rw quoted-append at (in_object-field true o n value p b),
)
iterate-in_object false o n value p t k b = rw (t, k, in_object-field false o n value p b)

begins_value-tests :
    (p : Ptr)
    → begins_value p ≡ true
    → ((peek p == 0) ≡ false) × ((peek p == b']') ≡ false) × ((peek p == b',') ≡ false)
unfolding ends_numeric
begins_value-tests [] h = cc
begins_value-tests (c ∷ p) h = ground arith

pub iterate-in_array :
    (first : Bool) (value : Ptr) (p : Parser)
    → is_invalid p.type ≡ false
    → p.objects p.nesting_level ≡ false
    → begins_value value ≡ true
    → iterate (at (comma first value) p)
      ≡ enter (record p { pos = value; name_start = p.name_end; type = invalid })
unfolding iterate in_array
iterate-in_array true value p t k b =
    let (z, c, m) = begins_value-tests value b in rw (t, z, k, c, m)
iterate-in_array false value p t k b = rw (t, k)

-- The state behind the closing bracket.
abbrev pub closed_state : Ptr → Parser → Parser
closed_state rest p = record p {
  pos = skip_white rest;
  type = end;
  nesting_level = p.nesting_level - 1;
}

pub iterate-object_end :
    (rest : Ptr) (p : Parser)
    → is_invalid p.type ≡ false
    → p.objects p.nesting_level ≡ true
    → (p.nesting_level == 0) ≡ false
    → iterate (at (b'}' ∷ rest) p) ≡ ok (closed_state rest p)
unfolding iterate in_object change_nesting pop_nesting
iterate-object_end rest p t k l = rw (t, k, l)

pub iterate-array_end :
    (rest : Ptr) (p : Parser)
    → is_invalid p.type ≡ false
    → p.objects p.nesting_level ≡ false
    → (p.nesting_level == 0) ≡ false
    → iterate (at (b']' ∷ rest) p) ≡ ok (record (closed_state rest p) { name_start = p.name_end })
unfolding iterate in_array change_nesting pop_nesting
iterate-array_end rest p t k l = rw (t, k, l)

-- The states behind the start of a value, whose text ends in front of `rest`.
abbrev pub text_state : Overload → Bytes → Ptr → Parser → Parser
text_state o s rest p = record p {
  pos = rest;
  value_start = some (escape o s ++ (b'"' ∷ rest));
  value_end = some (b'"' ∷ rest);
  type = string;
}

abbrev pub token_state : Bytes → Ptr → Parser → Parser
token_state t rest p = record p {
  pos = rest;
  value_start = some (t ++ rest);
  value_end = some rest;
  type = numeric;
}

abbrev pub container_state : Bool → Ptr → Parser → Parser
container_state b text p = record p {
  pos = text;
  type = if b then object else array;
  objects = update p.objects (p.nesting_level + 1) b;
  nesting_level = p.nesting_level + 1;
}

pub enter-text :
    (o : Overload) (s : Bytes) (rest : Ptr) (p : Parser)
    → skip_white rest ≡ rest
    → enter (at (quoted o s ++ rest) p) ≡ ok (text_state o s rest p)
unfolding member isolate_value skip_white change_nesting
enter-text o s rest p w = rw (quoted-append o s rest, search_string_end-escape o s rest, w, w)

starts_value-tests :
    (c : ℕ)
    → starts_value c ≡ true
    → ((c == b'{') ≡ false) × ((c == b'[') ≡ false) × ((c == b'"') ≡ false)
starts_value-tests c h = ground arith

shorter : (c : ℕ) (t rest : Bytes) → (length rest == length (c ∷ (t ++ rest))) ≡ false
shorter c t rest = ground (arith, length-append t rest)

pub enter-token :
    (t : Bytes) (d : ℕ) (rest : Ptr) (p : Parser)
    → IsToken t
    → ends_numeric d ≡ true
    → skip_white (d ∷ rest) ≡ d ∷ rest
    → enter (at (t ++ (d ∷ rest)) p) ≡ ok (token_state t (d ∷ rest) p)
unfolding member isolate_value change_nesting
enter-token [] d rest p h e w = absurd h
enter-token (c ∷ t) d rest p (s, h) e w =
    let (o, a, q) = starts_value-tests c s in
    let b = skip_white-begins_value (c ∷ (t ++ (d ∷ rest))) (rw (h.0, h.1)) in
    let n = search_numeric_end-token (c ∷ t) d rest h e in
    rw (o, a, b, q, n, shorter c t (d ∷ rest), w, w)

pub enter-container :
    (b : Bool) (inside : Ptr) (p : Parser)
    → p.nesting_level < 9
    → skip_white inside ≡ inside
    → enter (at ((if b then b'{' else b'[') ∷ inside) p) ≡ ok (container_state b inside p)
unfolding member change_nesting push_nesting
enter-container true inside p l w = rw (lt→ltb p.nesting_level 9 l, w)
enter-container false inside p l w = rw (lt→ltb p.nesting_level 9 l, w)
