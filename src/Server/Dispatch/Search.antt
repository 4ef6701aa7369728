-- ===== src/Server/Dispatch/Search.antt =====
-- The binary search finds the handler that the table gives for a key, or none.
use lib_abk.Common.{
  ℕ, zero, suc, ◌+◌, ◌/◌, ◌≤◌, ◌<◌, false, ◌≡◌, refl, sym, ap, ◌∙◌, arith, List, [], ◌∷◌, lt, eq,
  gt, ◌==◌, inl, inr, Option, none, some, length, get_elem?, Bool-cases, subst, ==_iff, ltb, ltb→lt,
}
use mathlib.Core.Option.{some-injective}
use lib_abk.Server.Dispatch.{
  Key, Entry, compare_keys, Outcome, found, not_implemented, search_table, sort_table, find_handler,
}
use lib_abk.Server.Dispatch.Order.{
  Ordering-cases, Precedes, compare_keys_refl, compare_keys-eq, compare_keys-gt, Precedes-trans,
}
use lib_abk.Server.Dispatch.Sorting.{
  lookup, AreDistinct, Least, IsSorted, lookup-here, lookup-there, sort_table-IsSorted,
  lookup-sort_table,
}

-- What a lookup means for a request.
abbrev pub answer : {H : Type 0} → Option H → Outcome H
answer none = not_implemented
answer (some h) = found h

not_self : (a : Key) → ¬ Precedes a a
not_self a h = elim (Ordering-cases (compare_keys a a)) [
  | inl l ↦ cc (l, compare_keys_refl a)
  | inr (inl e) ↦ cc (h, e)
  | inr (inr g) ↦ cc (g, h)
]

not_high : (low high : ℕ) → low < high → ((low + high) / 2 == high) ≡ false
not_high low high l = ground (arith, l)

later_key : (k a b : Key) → compare_keys k b ≡ eq → Precedes a b → ¬ (compare_keys k a ≡ eq)
later_key k a b h p e =
    let same : a ≡ b = sym (compare_keys-eq k a e) ∙ compare_keys-eq k b h in
    not_self b (subst (λ z. Precedes z b) same p)

module _ {H : Type 0} where
  -- The keys in front of a place precede `k`; those from a place on are preceded by it.
  Below : List (Entry H) → Key → ℕ → Type 0
  Below t k n = (i : ℕ) (e : Entry H) → i < n → get_elem? t i ≡ some e → Precedes e.key k

  Above : List (Entry H) → Key → ℕ → Type 0
  Above t k n = (i : ℕ) (e : Entry H) → n ≤ i → get_elem? t i ≡ some e → Precedes k e.key

  Least-get_elem? :
      (k : Key) (t : List (Entry H)) (i : ℕ) (e : Entry H)
      → Least k t
      → get_elem? t i ≡ some e
      → Precedes k e.key
  Least-get_elem? k [] i e h g = ground arith
  Least-get_elem? k (x ∷ t) zero e h g = ground (arith, h.0, g)
  Least-get_elem? k (x ∷ t) (suc i) e h g = Least-get_elem? k t i e h.1 g

  IsSorted-get_elem? :
      (t : List (Entry H)) (i j : ℕ) (e f : Entry H)
      → IsSorted t
      → i < j
      → get_elem? t i ≡ some e
      → get_elem? t j ≡ some f
      → Precedes e.key f.key
  IsSorted-get_elem? [] i j e f s l g h = ground arith
  IsSorted-get_elem? (x ∷ t) zero zero e f s l g h = absurd (omega arith)
  IsSorted-get_elem? (x ∷ t) zero (suc j) e f s l g h =
      subst (λ (z : Entry H). Precedes z.key f.key) (some-injective _ _ g)
        (Least-get_elem? x.key t j f s.0 h)
  IsSorted-get_elem? (x ∷ t) (suc i) zero e f s l g h = absurd (omega arith)
  IsSorted-get_elem? (x ∷ t) (suc i) (suc j) e f s l g h =
      IsSorted-get_elem? t i j e f s.1 (omega arith) g h

  lookup-missing :
      (t : List (Entry H)) (k : Key)
      → ((i : ℕ) (e : Entry H) → get_elem? t i ≡ some e → ¬ (compare_keys k e.key ≡ eq))
      → lookup t k ≡ none
  lookup-missing [] k h = refl
  lookup-missing (e ∷ t) k h = lookup-there e t k (h 0 e refl) ∙ lookup-missing t k (λ i. h (suc i))

  lookup-hit :
      (t : List (Entry H)) (k : Key) (i : ℕ) (e : Entry H)
      → IsSorted t
      → get_elem? t i ≡ some e
      → compare_keys k e.key ≡ eq
      → lookup t k ≡ some e.handler
  lookup-hit [] k i e s g h = ground arith
  lookup-hit (x ∷ t) k zero e s g h =
      let same : x ≡ e = some-injective _ _ g in
      lookup-here x t k (ap (λ (z : Entry H). compare_keys k z.key) same ∙ h)
      ∙ ap (λ (z : Entry H). some z.handler) same
  lookup-hit (x ∷ t) k (suc i) e s g h =
      lookup-there x t k (later_key k x.key e.key h (Least-get_elem? x.key t i e s.0 g))
      ∙ lookup-hit t k i e s.1 g h

  get_elem?-below :
      (t : List (Entry H)) (i : ℕ) → i < length t → (e : Entry H) × (get_elem? t i ≡ some e)
  get_elem?-below [] i l = absurd (omega arith)
  get_elem?-below (x ∷ t) zero l = (x, refl)
  get_elem?-below (x ∷ t) (suc i) l = get_elem?-below t i (omega arith)

  -- The keys behind a place whose key is behind `k`, and those in front of one that precedes `k`.
  Precedes-from :
      (k : Key) (t : List (Entry H)) (m i : ℕ) (e f : Entry H)
      → IsSorted t
      → Precedes k e.key
      → get_elem? t m ≡ some e
      → m ≤ i
      → get_elem? t i ≡ some f
      → Precedes k f.key
  Precedes-from k t m i e f s p g j d = elim (Bool-cases (m == i)) [
    | inl h ↦
        let same : e ≡ f = some-injective _ _ (sym g ∙ ap (get_elem? t) ((==_iff m i).0 h) ∙ d) in
        subst (λ (z : Entry H). Precedes k z.key) same p
    | inr h ↦
        Precedes-trans k e.key f.key p (IsSorted-get_elem? t m i e f s (ground (arith, h, j)) g d)
  ]

  Precedes-upto :
      (k : Key) (t : List (Entry H)) (m i : ℕ) (e f : Entry H)
      → IsSorted t
      → Precedes e.key k
      → get_elem? t m ≡ some e
      → i < m + 1
      → get_elem? t i ≡ some f
      → Precedes f.key k
  Precedes-upto k t m i e f s p g j d = elim (Bool-cases (m == i)) [
    | inl h ↦
        let same : e ≡ f = some-injective _ _ (sym g ∙ ap (get_elem? t) ((==_iff m i).0 h) ∙ d) in
        subst (λ (z : Entry H). Precedes z.key k) same p
    | inr h ↦
        Precedes-trans f.key e.key k (IsSorted-get_elem? t i m f e s (ground (arith, h, j)) d g) p
  ]

  -- Nothing is left between two places that are one.
  excluded :
      (low high : ℕ) (t : List (Entry H)) (k : Key)
      → low ≡ high
      → Below t k low
      → Above t k high
      → (i : ℕ) (e : Entry H) → get_elem? t i ≡ some e
      → ¬ (compare_keys k e.key ≡ eq)
  unfolding Below Above
  excluded low high t k h below above i e g c =
      let same : k ≡ e.key = compare_keys-eq k e.key c in
      elim (Bool-cases (ltb i low)) [
        | inl l ↦ not_self k (subst (λ z. Precedes z k) (sym same) (below i e (ltb→lt i low l) g))
        | inr l ↦
            not_self k (subst (λ z. Precedes k z) (sym same) (above i e (ground (arith, l, h)) g))
      ]

  -- One turn of the loop.
  search-empty :
      (fuel low high : ℕ) (t : List (Entry H)) (k : Key)
      → low ≡ high
      → search_table (suc fuel) low high t k ≡ not_implemented
  unfolding search_table
  search-empty fuel low high t k e = rw ((==_iff ((low + high) / 2) high).1 (omega (arith, e))) refl

  search-step :
      (fuel low high : ℕ) (t : List (Entry H)) (k : Key) (e : Entry H)
      → low < high
      → get_elem? t ((low + high) / 2) ≡ some e
      → search_table (suc fuel) low high t k ≡ elim (compare_keys k e.key) [
        | eq ↦ found e.handler
        | gt ↦ search_table fuel ((low + high) / 2 + 1) high t k
        | lt ↦ search_table fuel low ((low + high) / 2) t k
      ]
  unfolding search_table
  search-step fuel low high t k e l g = rw (not_high low high l, g) refl

  -- The search between two places, with the keys in front of it and behind it excluded.
  search_table-lookup :
      (fuel low high : ℕ) (t : List (Entry H)) (k : Key)
      → IsSorted t
      → low ≤ high
      → high ≤ length t
      → high < fuel + low
      → Below t k low
      → Above t k high
      → search_table fuel low high t k ≡ answer (lookup t k)
  unfolding Below Above
  search_table-lookup zero low high t k s a b c below above = absurd (omega arith)
  search_table-lookup (suc fuel) low high t k s a b c below above =
      elim (Bool-cases (low == high)) [
        | inl h ↦
            search-empty fuel low high t k ((==_iff low high).0 h)
            ∙ ap answer (
                sym
                  (lookup-missing t k (excluded low high t k ((==_iff low high).0 h) below above)))
        | inr h ↦
            let l : low < high = ground (arith, h) in
            let mid = (low + high) / 2 in
            let (e, g) = get_elem?-below t mid (omega arith) in
            search-step fuel low high t k e l g ∙ elim (Ordering-cases (compare_keys k e.key)) [
              | inl p ↦ rw p (
                  search_table-lookup fuel low mid t k s (omega arith) (omega arith) (omega arith)
                    below (λ i f j d. Precedes-from k t mid i e f s p g j d))
              | inr (inl p) ↦ rw p (ap answer (sym (lookup-hit t k mid e s g p)))
              | inr (inr p) ↦ rw p (
                  search_table-lookup fuel (mid + 1) high t k s (omega arith) b (omega arith)
                    (λ i f j d. Precedes-upto k t mid i e f s (compare_keys-gt k e.key p) g j d)
                    above)
            ]
      ]

  beyond :
      (s : List (Entry H)) (i : ℕ) (e : Entry H)
      → length s ≤ i
      → get_elem? s i ≡ some e
      → {A : Type 0} → A
  beyond [] i e l g = ground arith
  beyond (x ∷ s) zero e l g = absurd (omega arith)
  beyond (x ∷ s) (suc i) e l g = beyond s i e (omega arith) g

  -- Dispatching a request: for a table without two entries for one address and method, in any
  -- order, the search in the sorted table stops within its fuel and inside of the table, with the
  -- handler of the entry for the address and the method, or else with "not implemented".
  pub find_handler-lookup :
      (t : List (Entry H)) (k : Key) → AreDistinct t → find_handler t k ≡ answer (lookup t k)
  unfolding find_handler Below Above
  find_handler-lookup t k d =
      let s = sort_table t in
      search_table-lookup (suc (length s)) 0 (length s) s k (sort_table-IsSorted t d) (omega arith)
        (omega arith) (omega arith) (λ i e l g. absurd (omega (arith, l)))
        (λ i e l g. beyond s i e l g)
      ∙ ap answer (lookup-sort_table t k d)
