-- ===== src/Json/Naming.antt =====
-- The names and the Boolean values that the parser tells where no document writer was at work.
use lib_abk.Common.{
  ℕ, zero, suc, ◌-◌, ◌≤◌, Bool, true, false, ◌&&◌, ◌≡◌, refl, arith, [], ◌∷◌, ◌==◌, if◌then◌else◌,
  Bytes, some, inl, inr, Bool-cases, length, take, subst,
}
use lib_abk.Json.Unescape.{Ptr, peek, next, compare_unescaped}
use lib_abk.Json.Unescape.RoundTrip.{HasNoNul}
use lib_abk.Json.Scan.{search_string_end, skip_white, strncmp_eq}
use lib_abk.Json.Parser.{
  Result, ok, fault, ◌>>=◌, ItemType, invalid, object, string, Parser, is_invalid, iterate, bump,
  isolate_value, member, in_array, change_nesting, push_nesting, pop_nesting, skip_comma,
}
use lib_abk.Json.Item.{
  test_object, test_for_name, compare_between, read_bool, true_text, false_text,
}
use lib_abk.Json.Progress.{settle}

-- The name is the empty text at `x`.
abbrev NamedAt : Ptr → Result Parser → Type 0
NamedAt x (ok q) = (q.name_start ≡ some x) × (q.name_end ≡ some x)
NamedAt x (fault e) = Unit {0}

bump-NamedAt :
    (x at : Ptr) (g : Ptr → Parser)
    → ((b : Ptr) → (g b).name_start ≡ some x)
    → ((b : Ptr) → (g b).name_end ≡ some x)
    → NamedAt x (bump at >>= λ b. ok (g b))
unfolding bump
bump-NamedAt x [] g h k = tt
bump-NamedAt x (c ∷ at) g h k = (h at, k at)

isolate_value-NamedAt : (x : Ptr) (p : Parser) → NamedAt x (ok p) → NamedAt x (isolate_value p)
unfolding isolate_value
isolate_value-NamedAt x p h =
    let value = next (skip_white p.pos) in
    let stop = search_string_end value in
    elim (Bool-cases (peek (skip_white p.pos) == b'"')) [
      | inl e ↦ rw e (
          bump-NamedAt x stop
            (λ b. record p {
              pos = skip_white b;
              value_start = some value;
              value_end = some stop;
              type = string;
            })
            (λ b. h.0) (λ b. h.1))
      | inr e ↦ rw e h
    ]

member-NamedAt : (x : Ptr) (p : Parser) → NamedAt x (ok p) → NamedAt x (member p)
unfolding member
member-NamedAt x p h = ground (arith, isolate_value-NamedAt x p h)

in_array-NamedAt : (x : Ptr) (p : Parser) → p.name_end ≡ some x → NamedAt x (in_array p)
unfolding in_array
in_array-NamedAt x p h =
    let q = record p { name_start = p.name_end } in
    elim (Bool-cases (peek p.pos == b']')) [
      | inl e ↦ rw e (h, h)
      | inr e ↦ rw e (member-NamedAt x (skip_comma q) (ground arith))
    ]

settle_type-NamedAt :
    (x : Ptr) (r : Parser) (t : ItemType)
    → NamedAt x (ok r)
    → NamedAt x (change_nesting t r >>= λ s. ok (record s { pos = skip_white s.pos }))
unfolding change_nesting push_nesting pop_nesting
settle_type-NamedAt x r invalid h = h
settle_type-NamedAt x r _ h = ground arith

settle-NamedAt : (x : Ptr) (r : Result Parser) → NamedAt x r → NamedAt x (r >>= settle)
settle-NamedAt x (ok r) h = settle_type-NamedAt x r r.type h
settle-NamedAt x (fault e) h = tt

no_length : (x : Ptr) → length x - length x ≡ 0
no_length x = omega arith

test_for_name-NamedAt :
    (x : Ptr) (q : Parser) (name : Bytes)
    → NamedAt x (ok q)
    → test_for_name q name ≡ ok (peek name == 0)
unfolding test_for_name compare_between compare_unescaped
test_for_name-NamedAt x q name (a, b) = rw (a, b, no_length x)

-- In an array at a place where a name was read before, as in an array somewhere inside of an
-- object: if a step of `Iterate`, with a byte of text left and no invalid item before, gives an
-- object, `TestObject(name)` is true for the empty name alone.
test_object-in_array :
    (x : Ptr) (name : Bytes) (p q : Parser)
    → is_invalid p.type ≡ false
    → (peek p.pos == 0) ≡ false
    → p.objects p.nesting_level ≡ false
    → p.name_end ≡ some x
    → iterate p ≡ ok q
    → q.type ≡ object
    → test_object q name ≡ ok (peek name == 0)
unfolding iterate test_object
test_object-in_array x name p q t z k n e o =
    let r = record p { type = invalid } in
    let h = subst (NamedAt x) (rw (t, z, k) at e) (settle-NamedAt x _ (in_array-NamedAt x r n)) in
    rw (o, h.0) (test_for_name-NamedAt x q name h)

-- The text `s` begins `t`.
abbrev pub starts : Bytes → Bytes → Bool
starts [] t = true
starts (c ∷ s) [] = false
starts (c ∷ s) (d ∷ t) = c == d && starts s t

strncmp_eq-starts :
    (n : ℕ) (t p : Ptr)
    → n ≤ length p
    → HasNoNul (take n p)
    → strncmp_eq n t p ≡ starts (take n p) t
unfolding strncmp_eq
strncmp_eq-starts zero t p l h = refl
strncmp_eq-starts (suc n) t [] l h = elim l [ ]
strncmp_eq-starts (suc n) [] (c ∷ p) l h = ground arith
strncmp_eq-starts (suc n) (d ∷ t) (c ∷ p) l h =
    ground (arith, strncmp_eq-starts n t p (omega arith) h.1)

-- A value, within its text and without NUL, is read as true exactly if its bytes begin the word
-- `true`, and else as false exactly if they begin `false`: also the letters `t` and `fal` are
-- values.
read_bool-starts :
    (n : ℕ) (p : Ptr) (old : Bool)
    → n ≤ length p
    → HasNoNul (take n p)
    → read_bool n p true_text false_text old ≡ (
        if starts (take n p) true_text
        then (true, true)
        else if starts (take n p) false_text
        then (false, true)
        else (old, false))
unfolding read_bool
read_bool-starts n p old l h =
    rw (strncmp_eq-starts n true_text p l h, strncmp_eq-starts n false_text p l h)
