-- ===== src/Json/Document.antt =====
-- JSON documents as trees, and their text without blanks: the abstract view of what the stream
-- classes write and the parser reads. `token` is a value without quotes, such as a number.
use lib_abk.Common.{
  ℕ, suc, Bool, true, false, not, ◌&&◌, ◌≡◌, refl, ap, ◌∙◌, [], ◌∷◌, ◌++◌, ◌==◌, Bytes,
  append_assoc,
}
use Prim.Native.Nat.{max}
use lib_abk.Json.Escape.{Overload, quoted}
use lib_abk.Json.Unescape.RoundTrip.{HasNoNul}
use lib_abk.Json.Scan.{ends_numeric}

mutual
  pub data Value : Type 0 where
    token : Bytes → Value
    text : Overload → Bytes → Value
    arr : Values → Value
    obj : Fields → Value

  pub data Values : Type 0 where
    no_values : Values
    values : Value → Values → Values

  pub data Fields : Type 0 where
    no_fields : Fields
    fields : Overload → Bytes → Value → Fields → Fields

-- The separator in front of a member: none for the first one.
abbrev pub comma : Bool → Bytes → Bytes
comma true rest = rest
comma false rest = b',' ∷ rest

unfoldable mutual
  pub print : Value → Bytes
  print (token t) = t
  print (text o s) = quoted o s
  print (arr vs) = b'[' ∷ (print_values true vs ++ (b']' ∷ []))
  print (obj fs) = b'{' ∷ (print_fields true fs ++ (b'}' ∷ []))

  pub print_values : Bool → Values → Bytes
  print_values first no_values = []
  print_values first (values v vs) = comma first [] ++ (print v ++ print_values false vs)

  pub print_fields : Bool → Fields → Bytes
  print_fields first no_fields = []
  print_fields first (fields o n v fs) =
      comma first [] ++ (quoted o n ++ (b':' ∷ (print v ++ print_fields false fs)))

-- The same text with what stands behind it.
unfoldable mutual
  pub render : Value → Bytes → Bytes
  render (token t) rest = t ++ rest
  render (text o s) rest = quoted o s ++ rest
  render (arr vs) rest = b'[' ∷ render_values true vs (b']' ∷ rest)
  render (obj fs) rest = b'{' ∷ render_fields true fs (b'}' ∷ rest)

  pub render_values : Bool → Values → Bytes → Bytes
  render_values first no_values rest = rest
  render_values first (values v vs) rest = comma first (render v (render_values false vs rest))

  pub render_fields : Bool → Fields → Bytes → Bytes
  render_fields first no_fields rest = rest
  render_fields first (fields o n v fs) rest =
      comma first (quoted o n ++ (b':' ∷ render v (render_fields false fs rest)))

comma-append :
    (first : Bool) (x y rest : Bytes)
    → x ++ rest ≡ y
    → (comma first [] ++ x) ++ rest ≡ comma first y
comma-append true x y rest h = h
comma-append false x y rest h = ap (◌∷◌ b',') h

mutual
  unfolding print render

  print-append : (v : Value) (rest : Bytes) → print v ++ rest ≡ render v rest
  print-append (token t) rest = refl
  print-append (text o s) rest = refl
  print-append (arr vs) rest = ap (◌∷◌ b'[') (
      append_assoc (print_values true vs) (b']' ∷ []) rest
      ∙ print_values-append true vs (b']' ∷ rest))
  print-append (obj fs) rest = ap (◌∷◌ b'{') (
      append_assoc (print_fields true fs) (b'}' ∷ []) rest
      ∙ print_fields-append true fs (b'}' ∷ rest))

  print_values-append :
      (first : Bool) (vs : Values) (rest : Bytes)
      → print_values first vs ++ rest ≡ render_values first vs rest
  print_values-append first no_values rest = refl
  print_values-append first (values v vs) rest =
      comma-append first (print v ++ print_values false vs) _ rest (
        append_assoc (print v) (print_values false vs) rest
        ∙ ap (◌++◌ (print v)) (print_values-append false vs rest)
        ∙ print-append v (render_values false vs rest))

  print_fields-append :
      (first : Bool) (fs : Fields) (rest : Bytes)
      → print_fields first fs ++ rest ≡ render_fields first fs rest
  print_fields-append first no_fields rest = refl
  print_fields-append first (fields o n v fs) rest =
      comma-append first (quoted o n ++ (b':' ∷ (print v ++ print_fields false fs))) _ rest (
        append_assoc (quoted o n) (b':' ∷ (print v ++ print_fields false fs)) rest
        ∙ ap (λ l. quoted o n ++ (b':' ∷ l))
            (append_assoc (print v) (print_fields false fs) rest
              ∙ ap (◌++◌ (print v)) (print_fields-append false fs rest)
              ∙ print-append v (render_fields false fs rest)))

pub print-render : (v : Value) (rest : Bytes) → print v ++ rest ≡ render v rest
print-render v rest = print-append v rest

-- How many containers stand in one another.
unfoldable mutual
  pub depth : Value → ℕ
  depth (token t) = 0
  depth (text o s) = 0
  depth (arr vs) = suc (depth_values vs)
  depth (obj fs) = suc (depth_fields fs)

  pub depth_values : Values → ℕ
  depth_values no_values = 0
  depth_values (values v vs) = max (depth v) (depth_values vs)

  pub depth_fields : Fields → ℕ
  depth_fields no_fields = 0
  depth_fields (fields o n v fs) = max (depth v) (depth_fields fs)

-- A token is not empty, holds no byte that ends it, and starts no text or container.
abbrev pub TokenBytes : Bytes → Type 0
TokenBytes [] = Unit {0}
TokenBytes (c ∷ t) = (ends_numeric c ≡ false) × ((c == 0) ≡ false) × TokenBytes t

abbrev pub starts_value : ℕ → Bool
starts_value c = not (c == b'"') && not (c == b'{') && not (c == b'[')

abbrev pub IsToken : Bytes → Type 0
IsToken [] = ⊥
IsToken (c ∷ t) = (starts_value c ≡ true) × TokenBytes (c ∷ t)

-- Texts and names hold no NUL, and tokens are tokens.
abbrev mutual
  pub WellFormed : Value → Type 0
  WellFormed (token t) = IsToken t
  WellFormed (text o s) = HasNoNul s
  WellFormed (arr vs) = WellFormedValues vs
  WellFormed (obj fs) = WellFormedFields fs

  pub WellFormedValues : Values → Type 0
  WellFormedValues no_values = Unit {0}
  WellFormedValues (values v vs) = WellFormed v × WellFormedValues vs

  pub WellFormedFields : Fields → Type 0
  WellFormedFields no_fields = Unit {0}
  WellFormedFields (fields o n v fs) = HasNoNul n × WellFormed v × WellFormedFields fs

-- The root of a document.
abbrev pub IsContainer : Value → Type 0
IsContainer (token t) = ⊥
IsContainer (text o s) = ⊥
IsContainer (arr vs) = Unit {0}
IsContainer (obj fs) = Unit {0}
