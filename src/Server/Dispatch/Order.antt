-- ===== src/Server/Dispatch/Order.antt =====
-- The order of the handler table: by address as `strcmp` tells it, then by method.
use lib_abk.Common.{
  true, false, ◌≡◌, refl, sym, ap, ◌∙◌, arith, [], ◌∷◌, Bytes, Ordering, lt, eq, gt, ◌⊎◌, inl, inr,
}
use lib_abk.Server.Dispatch.{Key, strcmp, compare_keys, is_behind}

pub Ordering-cases : (o : Ordering) → (o ≡ lt) ⊎ (o ≡ eq) ⊎ (o ≡ gt)
Ordering-cases lt = inl refl
Ordering-cases eq = inr (inl refl)
Ordering-cases gt = inr (inr refl)

pub strcmp_refl : (a : Bytes) → strcmp a a ≡ eq
strcmp_refl [] = refl
strcmp_refl (x ∷ a) = ground (arith, strcmp_refl a)

pub strcmp-eq : (a b : Bytes) → strcmp a b ≡ eq → a ≡ b
strcmp-eq [] [] h = refl
strcmp-eq (x ∷ a) (y ∷ b) h = ground (arith, strcmp-eq a b)
strcmp-eq [] (y ∷ b) h = ground arith
strcmp-eq (x ∷ a) [] h = ground arith

pub strcmp-gt : (a b : Bytes) → strcmp a b ≡ gt → strcmp b a ≡ lt
strcmp-gt [] [] h = ground arith
strcmp-gt [] (y ∷ b) h = ground arith
strcmp-gt (x ∷ a) [] h = refl
strcmp-gt (x ∷ a) (y ∷ b) h = ground (arith, strcmp-gt a b)

pub strcmp_trans : (a b c : Bytes) → strcmp a b ≡ lt → strcmp b c ≡ lt → strcmp a c ≡ lt
strcmp_trans (x ∷ a) (y ∷ b) (z ∷ c) h k = ground (arith, strcmp_trans a b c)
strcmp_trans [] b (z ∷ c) h k = refl
strcmp_trans [] [] [] h k = ground arith
strcmp_trans [] (y ∷ b) [] h k = ground arith
strcmp_trans (x ∷ a) [] c h k = ground arith
strcmp_trans (x ∷ a) (y ∷ b) [] h k = ground arith

-- One key stands in front of the other.
abbrev pub Precedes : Key → Key → Type 0
Precedes a b = compare_keys a b ≡ lt

pub compare_keys_refl : (a : Key) → compare_keys a a ≡ eq
compare_keys_refl a = ground (arith, strcmp_refl a.uri)

pub compare_keys-eq : (a b : Key) → compare_keys a b ≡ eq → a ≡ b
compare_keys-eq a b h = ground (arith, strcmp-eq a.uri b.uri)

pub compare_keys-gt : (a b : Key) → compare_keys a b ≡ gt → Precedes b a
compare_keys-gt a b h =
    ground (arith, strcmp-gt a.uri b.uri, strcmp-eq a.uri b.uri, strcmp_refl b.uri)

pub Precedes-trans : (a b c : Key) → Precedes a b → Precedes b c → Precedes a c
Precedes-trans a b c h k =
    ground (arith, strcmp_trans a.uri b.uri c.uri, strcmp-eq a.uri b.uri, strcmp-eq b.uri c.uri)

pub is_eq : (a b : Key) → (compare_keys a b ≡ eq) ⊎ (¬ (compare_keys a b ≡ eq))
is_eq a b = elim (Ordering-cases (compare_keys a b)) [
  | inl h ↦ inr (λ e. cc)
  | inr (inl h) ↦ inl h
  | inr (inr h) ↦ inr (λ e. cc)
]

pub ne_sym : (a b : Key) → ¬ (compare_keys a b ≡ eq) → ¬ (compare_keys b a ≡ eq)
ne_sym a b n e = n (ap (λ z. compare_keys z b) (sym (compare_keys-eq b a e)) ∙ compare_keys_refl b)

pub not_behind : (a b : Key) → is_behind a b ≡ false → ¬ (compare_keys a b ≡ eq) → Precedes a b
not_behind a b h n = elim (Ordering-cases (compare_keys a b)) [
  | inl l ↦ l
  | inr (inl e) ↦ absurd (n e)
  | inr (inr g) ↦ ground (arith, h, g)
]

pub behind : (a b : Key) → is_behind a b ≡ true → Precedes b a
behind a b h = elim (Ordering-cases (compare_keys a b)) [
  | inl l ↦ ground (arith, h, l)
  | inr (inl e) ↦ ground (arith, h, e)
  | inr (inr g) ↦ compare_keys-gt a b g
]
