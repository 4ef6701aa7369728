-- ===== src/Json/Progress/Nesting.antt =====
-- The nesting stack of the parser: which level and kind each item type leaves.
use lib_abk.Common.{
  ℕ, Bool, ◌+◌, ◌≤◌, true, false, ◌≡◌, refl, ◌∙◌, arith, ◌==◌, Bool-cases, inl, inr, if◌then◌else◌,
  [], ◌∷◌, some, subst,
}
use lib_abk.Json.Unescape.{Ptr, peek, next}
use lib_abk.Json.Scan.{skip_white, search_string_end}
use lib_abk.Json.Parser.{
  update, Result, ok, fault, ◌>>=◌, ItemType, invalid, object, array, string, numeric, end, Parser,
  is_invalid, iterate, bump, isolate_name, isolate_value, member, change_nesting, in_object,
  in_array, push_nesting, pop_nesting, skip_comma, skip_colon,
}
use lib_abk.Json.Progress.{settle}

-- The stack is as it was.
abbrev Keeps : Parser → Result Parser → Type 0
Keeps p (ok q) = (q.nesting_level ≡ p.nesting_level) × (q.objects ≡ p.objects)
Keeps p (fault e) = Unit {0}

bump-Keeps :
    (p : Parser) (at : Ptr) (g : Ptr → Parser)
    → ((b : Ptr) → (g b).nesting_level ≡ p.nesting_level)
    → ((b : Ptr) → (g b).objects ≡ p.objects)
    → Keeps p (bump at >>= λ b. ok (g b))
unfolding bump
bump-Keeps p [] g h k = tt
bump-Keeps p (c ∷ at) g h k = (h at, k at)

isolate_name-Keeps : (p : Parser) → Keeps p (isolate_name p)
unfolding isolate_name
isolate_name-Keeps p =
    let name = next (skip_white p.pos) in
    let stop = search_string_end name in
    elim (Bool-cases (peek (skip_white p.pos) == b'"')) [
      | inl e ↦ rw e (
          bump-Keeps p stop
            (λ b. skip_colon (record p { pos = b; name_start = some name; name_end = some stop }))
            (λ b. refl) (λ b. refl))
      | inr e ↦ rw e (refl, refl)
    ]

isolate_value-Keeps : (p : Parser) → Keeps p (isolate_value p)
unfolding isolate_value
isolate_value-Keeps p =
    let value = next (skip_white p.pos) in
    let stop = search_string_end value in
    elim (Bool-cases (peek (skip_white p.pos) == b'"')) [
      | inl e ↦ rw e (
          bump-Keeps p stop
            (λ b. record p {
              pos = skip_white b;
              value_start = some value;
              value_end = some stop;
              type = string;
            })
            (λ b. refl) (λ b. refl))
      | inr e ↦ rw e (refl, refl)
    ]

member-Keeps : (p : Parser) → Keeps p (member p)
unfolding member
member-Keeps p = ground (arith, isolate_value-Keeps p)

Keeps-trans : (p q : Parser) (r : Result Parser) → Keeps p (ok q) → Keeps q r → Keeps p r
Keeps-trans p q (ok r) h k = (k.0 ∙ h.0, k.1 ∙ h.1)
Keeps-trans p q (fault e) h k = tt

member_after-Keeps : (p : Parser) (r : Result Parser) → Keeps p r → Keeps p (r >>= member)
member_after-Keeps p (ok q) h = Keeps-trans p q (member q) h (member-Keeps q)
member_after-Keeps p (fault e) h = tt

skip_comma-Keeps : (p : Parser) → Keeps p (ok (skip_comma p))
skip_comma-Keeps p = elim (Bool-cases (peek p.pos == b',')) [
  | inl e ↦ rw e (refl, refl)
  | inr e ↦ rw e (refl, refl)
]

in_object-Keeps : (p : Parser) → Keeps p (in_object p)
unfolding in_object
in_object-Keeps p = elim (Bool-cases (peek p.pos == b'}')) [
  | inl e ↦ rw e (refl, refl)
  | inr e ↦ rw e (
      member_after-Keeps p _
        (Keeps-trans p (skip_comma p) _ (skip_comma-Keeps p) (isolate_name-Keeps (skip_comma p))))
]

in_array-Keeps : (p : Parser) → Keeps p (in_array p)
unfolding in_array
in_array-Keeps p =
    let q = record p { name_start = p.name_end } in
    elim (Bool-cases (peek p.pos == b']')) [
      | inl e ↦ rw e (refl, refl)
      | inr e ↦
          rw e (Keeps-trans p (skip_comma q) _ (skip_comma-Keeps q) (member-Keeps (skip_comma q)))
    ]

-- What the type of the new item says of the stack, from the level and the array before.
abbrev pub Nested : ItemType → ℕ → (ℕ → Bool) → Parser → Type 0
Nested object n f q =
    (q.nesting_level ≡ n + 1) × (q.nesting_level ≤ 9) × (q.objects ≡ update f (n + 1) true)
Nested array n f q =
    (q.nesting_level ≡ n + 1) × (q.nesting_level ≤ 9) × (q.objects ≡ update f (n + 1) false)
Nested end n f q = (q.nesting_level + 1 ≡ n) × (q.objects ≡ f)
Nested invalid n f q = (q.nesting_level ≡ n) × (q.objects ≡ f)
Nested string n f q = (q.nesting_level ≡ n) × (q.objects ≡ f)
Nested numeric n f q = (q.nesting_level ≡ n) × (q.objects ≡ f)

abbrev Settled : Parser → Result Parser → Type 0
Settled p (ok q) = Nested q.type p.nesting_level p.objects q
Settled p (fault e) = Unit {0}

settle_type-Settled :
    (p r : Parser) (t : ItemType)
    → r.type ≡ t
    → Keeps p (ok r)
    → Settled p (change_nesting t r >>= λ s. ok (record s { pos = skip_white s.pos }))
unfolding change_nesting push_nesting pop_nesting
settle_type-Settled p r invalid e k = rw e k
settle_type-Settled p r object e k = ground arith
settle_type-Settled p r array e k = ground arith
settle_type-Settled p r string e k = rw e k
settle_type-Settled p r numeric e k = rw e k
settle_type-Settled p r end e k = ground arith

settle-Settled : (p : Parser) (r : Result Parser) → Keeps p r → Settled p (r >>= settle)
settle-Settled p (ok r) k = settle_type-Settled p r r.type refl k
settle-Settled p (fault e) k = tt

live-Settled :
    (p : Parser)
    → Settled p ((if p.objects p.nesting_level then in_object p else in_array p) >>= settle)
live-Settled p = elim (Bool-cases (p.objects p.nesting_level)) [
  | inl k ↦ rw k (settle-Settled p (in_object p) (in_object-Keeps p))
  | inr k ↦ rw k (settle-Settled p (in_array p) (in_array-Keeps p))
]

-- A step that does not leave `m_bObject`, on a text with a byte left, unless the item was invalid
-- before: to the start of an object or array it pushes its kind, at a level of at most nine; to an
-- end it pops one level; any other step leaves the stack alone.
pub iterate-Nested :
    (p q : Parser)
    → is_invalid p.type ≡ false
    → (peek p.pos == 0) ≡ false
    → iterate p ≡ ok q
    → Nested q.type p.nesting_level p.objects q
unfolding iterate
iterate-Nested p q t z e =
    subst (Settled (record p { type = invalid })) (rw (t, z) at e)
      (live-Settled (record p { type = invalid }))
