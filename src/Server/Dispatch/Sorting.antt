-- ===== src/Server/Dispatch/Sorting.antt =====
-- The sorted handler table: each entry precedes the later ones, and each key is looked up as before.
use lib_abk.Common.{
  ℕ, zero, suc, ◌≤◌, true, false, ◌≡◌, refl, sym, ap, ◌∙◌, arith, List, [], ◌∷◌, eq, ◌⊎◌, inl, inr,
  Option, none, some, length, Bool-cases, subst,
}
use lib_abk.Server.Dispatch.{Key, Entry, compare_keys, is_behind, exchange, sort_from, sort_table}
use lib_abk.Server.Dispatch.Order.{
  Precedes, compare_keys-eq, Precedes-trans, is_eq, ne_sym, behind, not_behind,
}

module _ {H : Type 0} where
  -- The handler of the first entry with a key.
  abbrev pub lookup : List (Entry H) → Key → Option H
  lookup [] k = none
  lookup (e ∷ t) k = elim (compare_keys k e.key) [ eq ↦ some e.handler | _ ↦ lookup t k ]

  -- No two entries have the same key.
  abbrev pub AreDistinct : List (Entry H) → Type 0
  AreDistinct [] = Unit {0}
  AreDistinct (e ∷ t) = (lookup t e.key ≡ none) × AreDistinct t

  -- A key precedes all entries.
  abbrev pub Least : Key → List (Entry H) → Type 0
  Least k [] = Unit {0}
  Least k (e ∷ t) = Precedes k e.key × Least k t

  abbrev pub IsSorted : List (Entry H) → Type 0
  IsSorted [] = Unit {0}
  IsSorted (e ∷ t) = Least e.key t × IsSorted t

  exchange-swapped :
      (x y : Entry H) (ys : List (Entry H))
      → is_behind x.key y.key ≡ true
      → exchange x (y ∷ ys) ≡ ((exchange y ys).0, x ∷ (exchange y ys).1)
  unfolding exchange
  exchange-swapped x y ys h = rw h refl

  exchange-kept :
      (x y : Entry H) (ys : List (Entry H))
      → is_behind x.key y.key ≡ false
      → exchange x (y ∷ ys) ≡ ((exchange x ys).0, y ∷ (exchange x ys).1)
  unfolding exchange
  exchange-kept x y ys h = rw h refl

  -- The list that the exchanges leave.
  abbrev all : Entry H × List (Entry H) → List (Entry H)
  all (m, r) = m ∷ r

  pub lookup-here :
      (e : Entry H) (t : List (Entry H)) (k : Key)
      → compare_keys k e.key ≡ eq
      → lookup (e ∷ t) k ≡ some e.handler
  lookup-here e t k h = ground (arith, h)

  pub lookup-there :
      (e : Entry H) (t : List (Entry H)) (k : Key)
      → ¬ (compare_keys k e.key ≡ eq)
      → lookup (e ∷ t) k ≡ lookup t k
  lookup-there e t k n = ground (arith, n)

  lookup-head-ne :
      (x y : Entry H) (t : List (Entry H))
      → lookup (y ∷ t) x.key ≡ none
      → ¬ (compare_keys x.key y.key ≡ eq)
  lookup-head-ne x y t h e = ground (arith, h, e)

  lookup-tail-none :
      (x y : Entry H) (t : List (Entry H)) → lookup (y ∷ t) x.key ≡ none → lookup t x.key ≡ none
  lookup-tail-none x y t h = sym (lookup-there y t x.key (lookup-head-ne x y t h)) ∙ h

  -- Two entries with different keys may change places.
  lookup-swap :
      (x y : Entry H) (t : List (Entry H)) (k : Key)
      → ¬ (compare_keys x.key y.key ≡ eq)
      → lookup (x ∷ y ∷ t) k ≡ lookup (y ∷ x ∷ t) k
  lookup-swap x y t k n = elim (is_eq k x.key) [
    | inl e ↦
        let m : ¬ (compare_keys k y.key ≡ eq) =
          λ f. n (ap (λ z. compare_keys z y.key) (sym (compare_keys-eq k x.key e)) ∙ f) in
        lookup-here x (y ∷ t) k e ∙ sym (lookup-here x t k e) ∙ sym (lookup-there y (x ∷ t) k m)
    | inr a ↦ elim (is_eq k y.key) [
      | inl f ↦ lookup-there x (y ∷ t) k a ∙ lookup-here y t k f ∙ sym (lookup-here y (x ∷ t) k f)
      | inr b ↦
          lookup-there x (y ∷ t) k a
          ∙ lookup-there y t k b
          ∙ sym (lookup-there x t k a)
          ∙ sym (lookup-there y (x ∷ t) k b)
    ]
  ]

  lookup-cons :
      (x : Entry H) (s t : List (Entry H)) (k : Key)
      → lookup s k ≡ lookup t k
      → lookup (x ∷ s) k ≡ lookup (x ∷ t) k
  lookup-cons x s t k h = elim (is_eq k x.key) [
    | inl e ↦ lookup-here x s k e ∙ sym (lookup-here x t k e)
    | inr n ↦ lookup-there x s k n ∙ h ∙ sym (lookup-there x t k n)
  ]

  -- What the exchanges keep: the lookups, that keys are distinct, and a least key; the first entry
  -- is then the least, and not behind the one from before.
  record Exchanged (x : Entry H) (xs : List (Entry H)) (p : Entry H × List (Entry H)) : Type 0 where
    looks : (k : Key) → lookup (all p) k ≡ lookup (x ∷ xs) k
    distinct : AreDistinct (all p)
    least : Least p.0.key p.1
    first : (p.0 ≡ x) ⊎ Precedes p.0.key x.key

  first-Precedes :
      (m x y : Entry H)
      → (m ≡ x) ⊎ Precedes m.key x.key
      → Precedes x.key y.key
      → Precedes m.key y.key
  first-Precedes m x y (inl e) h = ap (λ (z : Entry H). compare_keys z.key y.key) e ∙ h
  first-Precedes m x y (inr p) h = Precedes-trans m.key x.key y.key p h

  -- An entry is put between the first entry and the rest.
  Exchanged-insert :
      (x y : Entry H) (ys : List (Entry H)) (p : Entry H × List (Entry H))
      → Exchanged y ys p
      → lookup (y ∷ ys) x.key ≡ none
      → Precedes p.0.key x.key
      → ((k : Key) → lookup (p.0 ∷ x ∷ p.1) k ≡ lookup (x ∷ y ∷ ys) k)
        × AreDistinct (p.0 ∷ x ∷ p.1)
        × Least p.0.key (x ∷ p.1)
  Exchanged-insert x y ys (m, r) c h q =
      let gone = c.looks x.key ∙ h in
      let n = lookup-head-ne x m r gone in
      let back = ne_sym x.key m.key n in
      (
        λ k. lookup-swap m x r k back ∙ lookup-cons x (m ∷ r) (y ∷ ys) k (c.looks k),
        (lookup-there x r m.key back ∙ c.distinct.0, (lookup-tail-none x m r gone, c.distinct.1)),
        (q, c.least),
      )

  exchange-Exchanged :
      (x : Entry H) (xs : List (Entry H)) → AreDistinct (x ∷ xs) → Exchanged x xs (exchange x xs)
  exchange-Exchanged x [] d =
      unfold exchange in record { looks = λ k. refl; distinct = d; least = tt; first = inl refl }
  exchange-Exchanged x (y ∷ ys) (n, d) = elim (Bool-cases (is_behind x.key y.key)) [
    | inl b ↦ subst (Exchanged x (y ∷ ys)) (sym (exchange-swapped x y ys b)) (
        let c = exchange-Exchanged y ys d in
        let q = first-Precedes (exchange y ys).0 y x c.first (behind x.key y.key b) in
        let i = Exchanged-insert x y ys (exchange y ys) c n q in
        record { looks = i.0; distinct = i.1; least = i.2; first = inr q })
    | inr b ↦ subst (Exchanged x (y ∷ ys)) (sym (exchange-kept x y ys b)) (
        let ne = lookup-head-ne x y ys n in
        let c = exchange-Exchanged x ys (lookup-tail-none x y ys n, d.1) in
        let q = first-Precedes (exchange x ys).0 x y c.first (not_behind x.key y.key b ne) in
        let back = ne_sym x.key y.key ne in
        let i = Exchanged-insert y x ys (exchange x ys) c (lookup-there x ys y.key back ∙ d.0) q in
        record {
          looks = λ k. i.0 k ∙ lookup-swap y x ys k back;
          distinct = i.1;
          least = i.2;
          first = c.first;
        })
  ]

  exchange-Least :
      (k : Key) (x : Entry H) (xs : List (Entry H))
      → Least k (x ∷ xs)
      → Least k (all (exchange x xs))
  exchange-Least k x [] h = unfold exchange in h
  exchange-Least k x (y ∷ ys) h = elim (Bool-cases (is_behind x.key y.key)) [
    | inl b ↦
        subst (λ p. Least k (all p)) (sym (exchange-swapped x y ys b))
          (let i = exchange-Least k y ys h.1 in (i.0, (h.0, i.1)))
    | inr b ↦
        subst (λ p. Least k (all p)) (sym (exchange-kept x y ys b))
          (let i = exchange-Least k x ys (h.0, h.1.1) in (i.0, (h.1.0, i.1)))
  ]

  exchange-length : (x : Entry H) (xs : List (Entry H)) → length (exchange x xs).1 ≡ length xs
  exchange-length x [] = unfold exchange in refl
  exchange-length x (y ∷ ys) = elim (Bool-cases (is_behind x.key y.key)) [
    | inl b ↦
        ap (λ (p : Entry H × List (Entry H)). length p.1) (exchange-swapped x y ys b)
        ∙ ap suc (exchange-length y ys)
    | inr b ↦
        ap (λ (p : Entry H × List (Entry H)). length p.1) (exchange-kept x y ys b)
        ∙ ap suc (exchange-length x ys)
  ]

  sort_from-Least : (n : ℕ) (k : Key) (t : List (Entry H)) → Least k t → Least k (sort_from n t)
  unfolding sort_from
  sort_from-Least zero k t h = h
  sort_from-Least (suc n) k [] h = tt
  sort_from-Least (suc n) k (x ∷ xs) h =
      let i = exchange-Least k x xs h in (i.0, sort_from-Least n k (exchange x xs).1 i.1)

  -- Sorting sorts the table, and changes no lookup.
  sort_from-IsSorted :
      (n : ℕ) (t : List (Entry H))
      → length t ≤ n
      → AreDistinct t
      → IsSorted (sort_from n t) × ((k : Key) → lookup (sort_from n t) k ≡ lookup t k)
  unfolding sort_from
  sort_from-IsSorted zero [] l d = (tt, λ k. refl)
  sort_from-IsSorted zero (x ∷ xs) l d = absurd (omega arith)
  sort_from-IsSorted (suc n) [] l d = (tt, λ k. refl)
  sort_from-IsSorted (suc n) (x ∷ xs) l d =
      let c = exchange-Exchanged x xs d in
      let (m, r) = exchange x xs in
      let i = sort_from-IsSorted n r (omega (arith, l, exchange-length x xs)) c.distinct.1 in
      (
        (sort_from-Least n m.key r c.least, i.0),
        λ k. lookup-cons m (sort_from n r) r k (i.1 k) ∙ c.looks k,
      )

  pub sort_table-IsSorted : (t : List (Entry H)) → AreDistinct t → IsSorted (sort_table t)
  unfolding sort_table
  sort_table-IsSorted t d = (sort_from-IsSorted (length t) t (omega arith) d).0

  pub lookup-sort_table :
      (t : List (Entry H)) (k : Key) → AreDistinct t → lookup (sort_table t) k ≡ lookup t k
  unfolding sort_table
  lookup-sort_table t k d = (sort_from-IsSorted (length t) t (omega arith) d).1 k
