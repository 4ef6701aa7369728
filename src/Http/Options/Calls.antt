-- ===== src/Http/Options/Calls.antt =====
-- Any calls of `AddUrlOption`, and what is found for a url afterwards.
use lib_abk.Common.{
  ℕ, Bool, true, false, ◌≡◌, refl, sym, ap, ◌∙◌, [], ◌∷◌, List, Bytes, codes, Option, none, some,
  if◌then◌else◌, equal, equal_iff, lt, All, Bool-cases, inl, inr, subst,
}
use lib_abk.Server.Dispatch.{strcmp}
use lib_abk.Server.Dispatch.Order.{Ordering-cases, strcmp-eq, strcmp-gt, strcmp_refl, strcmp_trans}
use lib_abk.Http.Options.{
  UserHandler, UrlOptions, UrlOptionsMap, with_delimiter, local_directory, text_or, erase_url,
  insert_option, add_url_option, find_url_option,
}
use lib_abk.Http.Options.Longest.{longest_start}
use lib_abk.Http.Options.Deepest.{IsSorted, at_url, find_url_option-longest_start}

-- The arguments of one call.
pub record OptionCall (World : Type 0) : Type 0 where
  pub url : Bytes
  pub object : ℕ
  pub handler : Option (UserHandler World)
  pub local_dir : Option Bytes
  pub default_file : Option Bytes
  pub flags : ℕ

-- Whether a call sets the options of a url.
abbrev sets : Bytes → Bytes → Bool
sets [] u = false
sets (x ∷ s) u = equal (with_delimiter b'/' (x ∷ s)) u

other : (a b u : Bytes) → equal a b ≡ false → equal a u ≡ true → equal b u ≡ false
other a b u h k = elim (Bool-cases (equal b u)) [
  | inl l ↦ cc ((equal_iff a b).1 ((equal_iff a u).0 k ∙ sym ((equal_iff b u).0 l)), h)
  | inr l ↦ l
]

module _ {World : Type 0} where
  abbrev make_call : OptionCall World → UrlOptionsMap World → UrlOptionsMap World
  make_call c m = (add_url_option c.url c.object c.handler c.local_dir c.default_file c.flags m).1

  abbrev run_from : UrlOptionsMap World → List (OptionCall World) → UrlOptionsMap World
  run_from m [] = m
  run_from m (c ∷ cs) = run_from (make_call c m) cs

  abbrev pub run_option_calls : List (OptionCall World) → UrlOptionsMap World
  run_option_calls cs = run_from [] cs

  -- The options that a call with a url asks for, under its url with a delimiter at the end.
  abbrev asked : Bytes → OptionCall World → UrlOptions World
  asked url c = record {
    url = with_delimiter b'/' url;
    object = c.object;
    handler = c.handler;
    local_dir = local_directory (text_or [] c.local_dir);
    default_file = text_or (codes "index.html") c.default_file;
    flags = c.flags;
  }

  abbrev configured_from :
      Option (UrlOptions World) → Bytes → List (OptionCall World) → Option (UrlOptions World)
  configured_from last u [] = last
  configured_from last u (c ∷ cs) =
      configured_from (if sets c.url u then some (asked c.url c) else last) u cs

  -- What the last call for a url asked for.
  abbrev pub configured : List (OptionCall World) → Bytes → Option (UrlOptions World)
  configured cs u = configured_from none u cs

  All-erase :
      (P : UrlOptions World → Type 0) (u : Bytes) (m : UrlOptionsMap World)
      → All P m
      → All P (erase_url u m)
  All-erase P u [] a = tt
  All-erase P u (o ∷ m) (p, a) = elim (Bool-cases (equal o.url u)) [
    | inl h ↦ rw (h, All) a
    | inr h ↦ rw (h, All) (p, All-erase P u m a)
  ]

  erase-IsSorted : (u : Bytes) (m : UrlOptionsMap World) → IsSorted m → IsSorted (erase_url u m)
  erase-IsSorted u [] s = tt
  erase-IsSorted u (o ∷ m) (a, s) = elim (Bool-cases (equal o.url u)) [
    | inl h ↦ rw (h, IsSorted) s
    | inr h ↦
        rw (h, IsSorted) (All-erase (λ x. strcmp o.url x.url ≡ lt) u m a, erase-IsSorted u m s)
  ]

  at_url-absent :
      (u : Bytes) (m : UrlOptionsMap World) → All (λ x. strcmp u x.url ≡ lt) m → at_url u m ≡ none
  at_url-absent u [] a = refl
  at_url-absent u (o ∷ m) (l, a) = elim (Bool-cases (equal o.url u)) [
    | inl h ↦ cc (strcmp_refl u, (equal_iff o.url u).0 h)
    | inr h ↦ rw h (at_url-absent u m a)
  ]

  at_url-erase_self :
      (u : Bytes) (m : UrlOptionsMap World) → IsSorted m → at_url u (erase_url u m) ≡ none
  at_url-erase_self u [] s = refl
  at_url-erase_self u (o ∷ m) (a, s) = elim (Bool-cases (equal o.url u)) [
    | inl h ↦ rw h (
        at_url-absent u m
          (subst (λ k. All (λ x. strcmp k x.url ≡ lt) m) ((equal_iff o.url u).0 h) a))
    | inr h ↦ rw (h, if◌then◌else◌, at_url) (rw h (at_url-erase_self u m s))
  ]

  at_url-erase_other :
      (k u : Bytes) (m : UrlOptionsMap World)
      → equal k u ≡ false
      → at_url u (erase_url k m) ≡ at_url u m
  at_url-erase_other k u [] n = refl
  at_url-erase_other k u (o ∷ m) n = elim (Bool-cases (equal o.url k)) [
    | inl h ↦
        let other : equal o.url u ≡ false =
          subst (λ x. equal x u ≡ false) (sym ((equal_iff o.url k).0 h)) n in
        rw (h, other) refl
    | inr h ↦ rw h (ap (λ r. if equal o.url u then some o else r) (at_url-erase_other k u m n))
  ]

  at_url-insert :
      (n : UrlOptions World) (u : Bytes) (m : UrlOptionsMap World)
      → at_url n.url m ≡ none
      → at_url u (insert_option n m) ≡ (if equal n.url u then some n else at_url u m)
  at_url-insert n u [] e = refl
  at_url-insert n u (o ∷ m) e = elim (Ordering-cases (strcmp n.url o.url)) [
    | inl l ↦ rw (l, insert_option) refl
    | inr (inl q) ↦ cc ((equal_iff o.url n.url).1 (sym (strcmp-eq n.url o.url q)), e)
    | inr (inr g) ↦ elim (Bool-cases (equal o.url n.url)) [
      | inl h ↦ cc (strcmp_refl o.url, (equal_iff o.url n.url).0 h)
      | inr h ↦
          let rest = at_url-insert n u m (rw h at e) in
          elim (Bool-cases (equal o.url u)) [
            | inl k ↦ rw (g, insert_option) (rw (k, other o.url n.url u h k) refl)
            | inr k ↦ rw (g, insert_option) (rw k rest)
          ]
    ]
  ]

  All-insert :
      (P : UrlOptions World → Type 0) (n : UrlOptions World) (m : UrlOptionsMap World)
      → P n
      → All P m
      → All P (insert_option n m)
  All-insert P n [] p a = (p, tt)
  All-insert P n (o ∷ m) p (q, a) = elim (Ordering-cases (strcmp n.url o.url)) [
    | inl l ↦ rw (l, insert_option) (p, (q, a))
    | inr (inl e) ↦ rw (e, insert_option) (q, a)
    | inr (inr g) ↦ rw (g, insert_option) (q, All-insert P n m p a)
  ]

  All-behind :
      (a b : Bytes) (m : UrlOptionsMap World)
      → strcmp a b ≡ lt
      → All (λ x. strcmp b x.url ≡ lt) m
      → All (λ x. strcmp a x.url ≡ lt) m
  All-behind a b [] l h = tt
  All-behind a b (x ∷ m) l (k, h) = (strcmp_trans a b x.url l k, All-behind a b m l h)

  insert-IsSorted :
      (n : UrlOptions World) (m : UrlOptionsMap World) → IsSorted m → IsSorted (insert_option n m)
  insert-IsSorted n [] s = (tt, tt)
  insert-IsSorted n (o ∷ m) (a, s) = elim (Ordering-cases (strcmp n.url o.url)) [
    | inl l ↦ rw (l, insert_option) ((l, All-behind n.url o.url m l a), (a, s))
    | inr (inl e) ↦ rw (e, insert_option) (a, s)
    | inr (inr g) ↦
        rw (g, insert_option)
          (
            All-insert (λ x. strcmp o.url x.url ≡ lt) n m (strcmp-gt n.url o.url g) a,
            insert-IsSorted n m s,
          )
  ]

  module _ (c : OptionCall World) where
    add_url_option-IsSorted :
        (url : Bytes) (m : UrlOptionsMap World)
        → IsSorted m
        → IsSorted (add_url_option url c.object c.handler c.local_dir c.default_file c.flags m).1
    unfolding add_url_option
    add_url_option-IsSorted [] m s = s
    add_url_option-IsSorted (x ∷ t) m s =
        insert-IsSorted _ _ (erase-IsSorted (with_delimiter b'/' (x ∷ t)) m s)

    add_url_option-at_url :
        (url u : Bytes) (m : UrlOptionsMap World)
        → IsSorted m
        → at_url u (add_url_option url c.object c.handler c.local_dir c.default_file c.flags m).1
          ≡ (if sets url u then some (asked url c) else at_url u m)
    unfolding add_url_option
    add_url_option-at_url [] u m s = refl
    add_url_option-at_url (x ∷ t) u m s =
        at_url-insert (asked (x ∷ t) c) u (erase_url (with_delimiter b'/' (x ∷ t)) m)
          (at_url-erase_self (with_delimiter b'/' (x ∷ t)) m s)
        ∙ elim (Bool-cases (equal (with_delimiter b'/' (x ∷ t)) u)) [
          | inl h ↦ rw h refl
          | inr h ↦ rw h (at_url-erase_other (with_delimiter b'/' (x ∷ t)) u m h)
        ]

  run_from-IsSorted :
      (cs : List (OptionCall World)) (m : UrlOptionsMap World)
      → IsSorted m
      → IsSorted (run_from m cs)
  run_from-IsSorted [] m s = s
  run_from-IsSorted (c ∷ cs) m s =
      run_from-IsSorted cs (make_call c m) (add_url_option-IsSorted c c.url m s)

  run_from-at_url :
      (cs : List (OptionCall World)) (m : UrlOptionsMap World) (u : Bytes)
      → IsSorted m
      → at_url u (run_from m cs) ≡ configured_from (at_url u m) u cs
  run_from-at_url [] m u s = refl
  run_from-at_url (c ∷ cs) m u s =
      run_from-at_url cs (make_call c m) u (add_url_option-IsSorted c c.url m s)
      ∙ ap (λ o. configured_from o u cs) (add_url_option-at_url c c.url u m s)

  pub find_url_option-run_calls :
      (cs : List (OptionCall World)) (url : Bytes)
      → find_url_option url (run_option_calls cs) ≡ longest_start (configured cs) url
  find_url_option-run_calls cs url =
      find_url_option-longest_start url (run_option_calls cs) (run_from-IsSorted cs [] tt)
      ∙ ap (λ f. longest_start f url) (λ i u. run_from-at_url cs [] u tt i)
