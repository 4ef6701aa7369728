-- ===== src/Json/Progress.antt =====
-- `Iterate` on any text: it moves on, or the item is invalid or the end.
pub mod Done
pub mod Nesting
pub mod Stack
use lib_abk.Common.{
  ℕ, zero, suc, ◌+◌, ◌-◌, ◌≤◌, ◌<◌, Bool, true, false, not, ◌&&◌, ◌||◌, ◌≡◌, refl, sym, ap, ◌∙◌,
  arith, List, [], ◌∷◌, ◌++◌, ◌==◌, length, Bool-cases, ==_iff, inl, inr, ◌⊎◌, ltb, if◌then◌else◌,
  Bytes, Option, none, some, ◌≢◌,
}
use lib_abk.Json.Unescape.{Ptr, peek, next}
use lib_abk.Json.Scan.{
  is_white, ends_numeric, ends_name, skip_white, search_string_end, search_numeric_end,
  search_name_end,
}
use lib_abk.Json.Parser.{
  Fault, past_end, nesting_overflow, Result, ok, fault, ◌>>=◌, ItemType, invalid, object, array,
  string, numeric, end, Parser, is_invalid, iterate, bump, isolate_name, isolate_value, member,
  change_nesting, in_object, in_array, push_nesting, pop_nesting, restart, skip_colon, skip_comma,
  max_nesting,
}

length-skip_white : (p : Ptr) → length (skip_white p) ≤ length p
unfolding skip_white
length-skip_white [] = omega arith
length-skip_white (c ∷ p) = ground (arith, length-skip_white p)

length-search_string_end : (p : Ptr) → length (search_string_end p) ≤ length p
unfolding search_string_end
length-search_string_end [] = omega arith
length-search_string_end (c ∷ []) = ground arith
length-search_string_end (c ∷ d ∷ p) =
    ground (arith, length-search_string_end p, length-search_string_end (d ∷ p))

length-search_numeric_end : (p : Ptr) → length (search_numeric_end p) ≤ length p
unfolding search_numeric_end
length-search_numeric_end [] = omega arith
length-search_numeric_end (c ∷ p) = ground (arith, length-search_numeric_end p)

length-search_name_end : (p : Ptr) → length (search_name_end p) ≤ length p
unfolding search_name_end
length-search_name_end [] = omega arith
length-search_name_end (c ∷ p) = ground (arith, length-search_name_end p)

length-next : (p : Ptr) → length (next p) ≤ length p
length-next [] = omega arith
length-next (c ∷ p) = omega arith

-- The position of a result is not in front of this one.
abbrev NotBefore : ℕ → Result Parser → Type 0
NotBefore n (ok q) = length q.pos ≤ n
NotBefore n (fault e) = Unit {0}

length-skip_colon : (p : Parser) → length (skip_colon p).pos ≤ length p.pos
length-skip_colon p =
    let at = skip_white p.pos in
    ground (
      arith,
      length-skip_white p.pos,
      length-skip_white at,
      length-skip_white (next at),
      length-next at,
    )

-- Behind the terminator of a text the rest is shorter than the text with its quote.
bump-NotBefore :
    (p : Ptr) (k : Ptr → Result Parser)
    → ((b : Ptr) → length b ≤ length p → NotBefore (length p) (k b))
    → NotBefore (length p) (bump p >>= k)
unfolding bump
bump-NotBefore [] k h = tt
bump-NotBefore (c ∷ p) k h = h p (omega arith)

NotBefore-mono : {m n : ℕ} (r : Result Parser) → m ≤ n → NotBefore m r → NotBefore n r
NotBefore-mono (ok q) h k = omega arith
NotBefore-mono (fault e) h k = tt

isolate_name-NotBefore : (p : Parser) → NotBefore (length p.pos) (isolate_name p)
unfolding isolate_name
isolate_name-NotBefore p =
    let start = skip_white p.pos in
    let name = next start in
    let stop = search_string_end name in
    let found = search_name_end start in
    elim (Bool-cases (peek start == b'"')) [
      | inl e ↦ rw e (
          NotBefore-mono _
            (omega
              (arith, length-search_string_end name, length-next start, length-skip_white p.pos))
            (bump-NotBefore stop _
              (λ b h. omega (arith, length-skip_colon (record p { pos = b })))))
      | inr e ↦ rw e (
          omega (
            arith,
            length-skip_colon (record p { pos = found }),
            length-search_name_end start,
            length-skip_white p.pos,
          ))
    ]

-- A value is read, or the item is invalid, or the position moves on.
abbrev Moves : ℕ → Result Parser → Type 0
Moves n (ok q) = (q.type ≡ invalid) ⊎ (length q.pos < n)
Moves n (fault e) = Unit {0}

bump-Moves :
    (n : ℕ) (p : Ptr) (k : Ptr → Result Parser)
    → length p ≤ n
    → ((b : Ptr) → length b < length p → Moves n (k b))
    → Moves n (bump p >>= k)
unfolding bump
bump-Moves n [] k l h = tt
bump-Moves n (c ∷ p) k l h = h p (omega arith)

numeric-Moves :
    (n : ℕ) (at start : Ptr) (q : Parser)
    → length at ≤ length start
    → length start ≤ n
    → length q.pos ≤ length at
    → q.type ≡ (if length at == length start then invalid else numeric)
    → Moves n (ok q)
numeric-Moves n at start q h k l t = ground arith

isolate_value-Moves : (p : Parser) → Moves (length p.pos) (isolate_value p)
unfolding isolate_value
isolate_value-Moves p =
    let start = skip_white p.pos in
    let value = next start in
    let stop = search_string_end value in
    let found = search_numeric_end start in
    elim (Bool-cases (peek start == b'"')) [
      | inl e ↦ rw e (
          bump-Moves (length p.pos) stop _
            (omega
              (arith, length-search_string_end value, length-next start, length-skip_white p.pos))
            (λ b h. inr (
              omega (
                arith,
                length-skip_white b,
                length-search_string_end value,
                length-next start,
                length-skip_white p.pos,
              ))))
      | inr e ↦
          let q = record p {
            pos = skip_white found;
            value_start = some start;
            value_end = some found;
            type = if length found == length start then invalid else numeric;
          } in
          rw e (
            numeric-Moves (length p.pos) found start q (length-search_numeric_end start)
              (length-skip_white p.pos) (length-skip_white found) refl)
    ]

length-next_lt : (p : Ptr) → (peek p == 0) ≡ false → length (next p) < length p
length-next_lt [] h = cc
length-next_lt (c ∷ p) h = omega arith

member-Moves : (p : Parser) → Moves (length p.pos) (member p)
unfolding member
member-Moves p = ground (arith, isolate_value-Moves p, length-next_lt p.pos)

Moves-mono : {m n : ℕ} (r : Result Parser) → m ≤ n → Moves m r → Moves n r
Moves-mono (ok q) h k = ground arith
Moves-mono (fault e) h k = tt

NotBefore-Moves : (n : ℕ) (r : Result Parser) → NotBefore n r → Moves n (r >>= member)
NotBefore-Moves n (ok q) h = Moves-mono (member q) h (member-Moves q)
NotBefore-Moves n (fault e) h = tt

skip_comma-NotBefore : (p : Parser) → length (skip_comma p).pos ≤ length p.pos
skip_comma-NotBefore p = ground (arith, length-next p.pos)

in_object-Moves : (p : Parser) → (peek p.pos == 0) ≡ false → Moves (length p.pos) (in_object p)
unfolding in_object
in_object-Moves p z = elim (Bool-cases (peek p.pos == b'}')) [
  | inl e ↦ rw e (inr (length-next_lt p.pos z))
  | inr e ↦ rw e (
      NotBefore-Moves (length p.pos) (isolate_name (skip_comma p))
        (NotBefore-mono _ (skip_comma-NotBefore p) (isolate_name-NotBefore (skip_comma p))))
]

in_array-Moves : (p : Parser) → (peek p.pos == 0) ≡ false → Moves (length p.pos) (in_array p)
unfolding in_array
in_array-Moves p z =
    let q = record p { name_start = p.name_end } in
    elim (Bool-cases (peek p.pos == b']')) [
      | inl e ↦ rw e (inr (length-next_lt p.pos z))
      | inr e ↦ rw e (Moves-mono _ (skip_comma-NotBefore q) (member-Moves (skip_comma q)))
    ]

-- The end of `Iterate`: the switch and the blanks.
abbrev pub settle : Parser → Result Parser
settle r = change_nesting r.type r >>= λ s. ok (record s { pos = skip_white s.pos })

settle_type-Moves :
    (n : ℕ) (r : Parser) (t : ItemType)
    → r.type ≡ t
    → Moves n (ok r)
    → Moves n (change_nesting t r >>= λ s. ok (record s { pos = skip_white s.pos }))
unfolding change_nesting push_nesting pop_nesting
settle_type-Moves n r invalid e m = inl e
settle_type-Moves n r _ e m = ground (arith, length-skip_white r.pos)

settle-Moves : (n : ℕ) (r : Result Parser) → Moves n r → Moves n (r >>= settle)
settle-Moves n (ok r) m = settle_type-Moves n r r.type refl m
settle-Moves n (fault e) m = tt

abbrev pub Progress : Parser → Result Parser → Type 0
Progress p (ok q) =
    (q.type ≡ invalid)
    ⊎ (length q.pos < length p.pos)
    ⊎ ((peek p.pos ≡ 0) × (q ≡ record p { type = end }))
Progress p (fault e) = Unit {0}

Moves-Progress : (p : Parser) (r : Result Parser) → Moves (length p.pos) r → Progress p r
Moves-Progress p (ok q) (inl e) = inl e
Moves-Progress p (ok q) (inr h) = inr (inl h)
Moves-Progress p (fault e) m = tt

live-Moves :
    (p : Parser)
    → (peek p.pos == 0) ≡ false
    → Moves
        (length p.pos)
        ((if p.objects p.nesting_level then in_object p else in_array p) >>= settle)
live-Moves p z = elim (Bool-cases (p.objects p.nesting_level)) [
  | inl k ↦ rw k (settle-Moves (length p.pos) (in_object p) (in_object-Moves p z))
  | inr k ↦ rw k (settle-Moves (length p.pos) (in_array p) (in_array-Moves p z))
]

-- On any text, unless the item was invalid before: after `Iterate` the item is invalid, or at
-- least one byte of the text was consumed, or the text was at its end and only the type has
-- changed, to the end; or the step was a fault.
pub iterate-Progress : (p : Parser) → is_invalid p.type ≡ false → Progress p (iterate p)
unfolding iterate
iterate-Progress p t = elim (Bool-cases (peek p.pos == 0)) [
  | inl z ↦ rw (t, z) (inr (inr ((==_iff _ _).0 z, refl)))
  | inr z ↦ rw (t, z) (Moves-Progress p _ (live-Moves (record p { type = invalid }) z))
]
