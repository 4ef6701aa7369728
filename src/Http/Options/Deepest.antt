-- ===== src/Http/Options/Deepest.antt =====
-- `FindUrlOption` on a map in the order of its keys: the options of the longest url that starts the
-- requested one.
use mathlib.Core.Option.{some-injective}
use lib_abk.Common.{
  ◌<◌, true, false, ◌≡◌, refl, sym, ◌∙◌, arith, [], ◌∷◌, ◌==◌, List, Bytes, Option, none, some,
  if◌then◌else◌, equal, equal_iff, lt, All, length, Bool-cases, Option-cases, inl, inr, subst,
}
use lib_abk.Server.Dispatch.{strcmp}
use lib_abk.Server.Dispatch.Order.{Ordering-cases, strcmp_refl}
use lib_abk.Http.Text.{starts}
use lib_abk.Http.Options.{UrlOptions, UrlOptionsMap, walk_back, search_option, find_url_option}
use lib_abk.Http.Options.Longest.{longest_start, longest_start-none, longest_start-some}
use lib_abk.Http.Options.Order.{starts-shorter, starts-lt}

other-equal : (a b : Bytes) → strcmp a b ≡ lt → equal a b ≡ false
other-equal a b l = elim (Bool-cases (equal a b)) [
  | inl h ↦ cc (strcmp_refl b, (equal_iff a b).0 h)
  | inr h ↦ h
]

module _ {World : Type 0} where
  -- The keys stand in the order of the map.
  abbrev pub IsSorted : UrlOptionsMap World → Type 0
  IsSorted [] = Unit {0}
  IsSorted (o ∷ m) = All (λ x. strcmp o.url x.url ≡ lt) m × IsSorted m

  -- The element with a key.
  abbrev pub at_url : Bytes → UrlOptionsMap World → Option (UrlOptions World)
  at_url url [] = none
  at_url url (o ∷ m) = let later = at_url url m in if equal o.url url then some o else later

  abbrev or_else : Option (UrlOptions World) → Option (UrlOptions World) → Option (UrlOptions World)
  or_else none b = b
  or_else (some a) b = some a

  -- The last element whose key starts the url.
  abbrev last_match : Bytes → UrlOptionsMap World → Option (UrlOptions World)
  last_match url [] = none
  last_match url (o ∷ m) =
      or_else (last_match url m) (if starts ◌==◌ o.url url then some o else none)

  last_match-behind :
      (url key : Bytes) (m : UrlOptionsMap World)
      → ¬ (strcmp key url ≡ lt)
      → All (λ x. strcmp key x.url ≡ lt) m
      → last_match url m ≡ none
  last_match-behind url key [] n a = refl
  last_match-behind url key (x ∷ m) n (l, a) = elim (Bool-cases (starts ◌==◌ x.url url)) [
    | inl h ↦ absurd (n (starts-lt x.url url key h l))
    | inr h ↦ rw (last_match-behind url key m n a, h) refl
  ]

  or_else-walk :
      (url : Bytes) (o : UrlOptions World) (m : UrlOptionsMap World)
      (passed : List (UrlOptions World))
      → or_else (last_match url m) (walk_back url (o ∷ passed))
        ≡ or_else (last_match url (o ∷ m)) (walk_back url passed)
  or_else-walk url o m passed = elim (Option-cases (last_match url m)) [
    | inl e ↦ elim (Bool-cases (starts ◌==◌ o.url url)) [
      | inl h ↦ rw (e, h) refl
      | inr h ↦ rw (e, h) refl
    ]
    | inr (a, e) ↦ rw e refl
  ]

  search_option-last_match :
      (url : Bytes) (passed : List (UrlOptions World)) (m : UrlOptionsMap World)
      → IsSorted m
      → search_option url passed m ≡ or_else (last_match url m) (walk_back url passed)
  search_option-last_match url passed [] s = refl
  search_option-last_match url passed (o ∷ m) (a, s) = elim (Ordering-cases (strcmp o.url url)) [
    | inl l ↦
        rw (l, search_option) (search_option-last_match url (o ∷ passed) m s)
        ∙ or_else-walk url o m passed
    | inr (inl e) ↦ rw (e, search_option) (beyond (λ q. cc)) ∙ or_else-walk url o m passed
    | inr (inr g) ↦ rw (g, search_option) (beyond (λ q. cc)) ∙ or_else-walk url o m passed
  ]
    where
      beyond :
          ¬ (strcmp o.url url ≡ lt)
          → walk_back url (o ∷ passed) ≡ or_else (last_match url m) (walk_back url (o ∷ passed))
      beyond n = rw (last_match-behind url o.url m n a) refl

  find_url_option-last_match :
      (url : Bytes) (m : UrlOptionsMap World)
      → IsSorted m
      → find_url_option url m ≡ last_match url m
  unfolding find_url_option
  find_url_option-last_match url [] s = refl
  find_url_option-last_match url (o ∷ m) s =
      search_option-last_match url [] (o ∷ m) s ∙ or_else-none (last_match url (o ∷ m))
    where
      or_else-none : (x : Option (UrlOptions World)) → or_else x none ≡ x
      or_else-none none = refl
      or_else-none (some a) = refl

  pub All-at_url :
      (P : UrlOptions World → Type 0) (u : Bytes) (m : UrlOptionsMap World) (a : UrlOptions World)
      → All P m
      → at_url u m ≡ some a
      → P a
  All-at_url P u [] a all e = cc
  All-at_url P u (o ∷ m) a (p, all) e = elim (Bool-cases (equal o.url u)) [
    | inl h ↦ subst P (some-injective _ _ (rw h at e)) p
    | inr h ↦ All-at_url P u m a all (rw h at e)
  ]

  last_match-none :
      (url : Bytes) (m : UrlOptionsMap World) (p : Bytes)
      → starts ◌==◌ p url ≡ true
      → last_match url m ≡ none
      → at_url p m ≡ none
  last_match-none url [] p s e = refl
  last_match-none url (o ∷ m) p s e = elim (Option-cases (last_match url m)) [
    | inr (a, f) ↦ cc
    | inl n ↦ elim (Bool-cases (equal o.url p)) [
      | inr h ↦ rw h (last_match-none url m p s n)
      | inl h ↦
          let same : starts ◌==◌ o.url url ≡ true =
            subst (λ q. starts ◌==◌ q url ≡ true) (sym ((equal_iff o.url p).0 h)) s in
          cc
    ]
  ]

  last_match-starts :
      (url : Bytes) (m : UrlOptionsMap World) (a : UrlOptions World)
      → last_match url m ≡ some a
      → starts ◌==◌ a.url url ≡ true
  last_match-starts url [] a e = cc
  last_match-starts url (o ∷ m) a e = elim (Option-cases (last_match url m)) [
    | inr (b, f) ↦ last_match-starts url m a (f ∙ rw f at e)
    | inl n ↦ elim (Bool-cases (starts ◌==◌ o.url url)) [
      | inl h ↦
          subst (λ (x : UrlOptions World). starts ◌==◌ x.url url ≡ true)
            (some-injective _ _ (rw (n, h) at e)) h
      | inr h ↦ cc
    ]
  ]

  last_match-at_url :
      (url : Bytes) (m : UrlOptionsMap World) (a : UrlOptions World)
      → IsSorted m
      → last_match url m ≡ some a
      → at_url a.url m ≡ some a
  last_match-at_url url [] a s e = cc
  last_match-at_url url (o ∷ m) a (l, s) e = elim (Option-cases (last_match url m)) [
    | inr (b, f) ↦
        let later : at_url a.url m ≡ some a = last_match-at_url url m a s (f ∙ rw f at e) in
        let less = All-at_url (λ x. strcmp o.url x.url ≡ lt) a.url m a l later in
        rw (other-equal o.url a.url less) later
    | inl n ↦ elim (Bool-cases (starts ◌==◌ o.url url)) [
      | inl h ↦
          let same = some-injective _ _ (rw (n, h) at e) in
          subst (λ (x : UrlOptions World). at_url x.url (o ∷ m) ≡ some x) same
            (rw ((equal_iff o.url o.url).1 refl) refl)
      | inr h ↦ cc
    ]
  ]

  last_match-longer :
      (url : Bytes) (m : UrlOptionsMap World) (a : UrlOptions World) (p : Bytes)
      → IsSorted m
      → last_match url m ≡ some a
      → starts ◌==◌ p url ≡ true
      → length a.url < length p
      → at_url p m ≡ none
  last_match-longer url [] a p s e h g = refl
  last_match-longer url (o ∷ m) a p (l, s) e h g = elim (Bool-cases (equal o.url p)) [
    | inl same ↦ elim (Option-cases (last_match url m)) [
      | inr (b, f) ↦
          let f' : last_match url m ≡ some a = f ∙ rw f at e in
          let less =
            All-at_url (λ x. strcmp o.url x.url ≡ lt) a.url m a l
              (last_match-at_url url m a s f') in
          let shorter =
            starts-shorter p a.url url h (last_match-starts url m a f')
              (subst (λ q. strcmp q a.url ≡ lt) ((equal_iff o.url p).0 same) less) in
          absurd (omega (arith, shorter))
      | inl n ↦ elim (Bool-cases (starts ◌==◌ o.url url)) [
        | inl h' ↦
            let chosen : o ≡ a = some-injective _ _ (rw (n, h') at e) in
            let below = subst (λ (x : UrlOptions World). length x.url < length p) (sym chosen) g in
            let itself = subst (λ q. length q < length p) ((equal_iff o.url p).0 same) below in
            absurd (omega (arith, itself))
        | inr h' ↦ cc
      ]
    ]
    | inr other ↦ rw other (elim (Option-cases (last_match url m)) [
      | inr (b, f) ↦ last_match-longer url m a p s (f ∙ rw f at e) h g
      | inl n ↦ last_match-none url m p h n
    ])
  ]

  -- On a map in the order of its keys the search finds what stands at the longest start of the url.
  pub find_url_option-longest_start :
      (url : Bytes) (m : UrlOptionsMap World)
      → IsSorted m
      → find_url_option url m ≡ longest_start (λ u. at_url u m) url
  find_url_option-longest_start url m s = elim (Option-cases (last_match url m)) [
    | inl n ↦
        find_url_option-last_match url m s
        ∙ n
        ∙ sym (longest_start-none (λ u. at_url u m) url (λ p h. last_match-none url m p h n))
    | inr (a, e) ↦
        find_url_option-last_match url m s
        ∙ e
        ∙ sym (
            longest_start-some (λ u. at_url u m) url a.url a (last_match-starts url m a e)
              (last_match-at_url url m a s e) (λ p h g. last_match-longer url m a p s e h g))
  ]
