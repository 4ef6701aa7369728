-- ===== src/Server/Requests/Members.antt =====
-- The loop over the items of a request, for a request without containers in it.
use lib_abk.Common.{
  ℕ, zero, suc, ◌≤◌, ◌<◌, Bool, true, false, ◌≡◌, refl, ap, ◌∙◌, subst, arith, [], ◌∷◌, ◌++◌, Bytes,
  length, length-append, append-nil, Option, none, some,
}
use lib_abk.Json.Parser.{ok, ◌>>=◌, Parser, string, numeric, end, restart, iterate, is_done}
use lib_abk.Json.Escape.{c_str, quoted}
use lib_abk.Json.Document.{
  Value, token, text, arr, obj, Fields, no_fields, fields, WellFormedFields, depth, depth_fields,
  print, print_fields, comma,
}
use lib_abk.Json.Reading.{Carries, HasName, Reads, stop, more, content, inner, field_items}
use lib_abk.Json.Reading.RoundTrip.{ReadsDocument, read_document}
use lib_abk.Server.Requests.{Body, each_item, decode_items}

-- No member is an array or an object.
abbrev pub IsFlat : Fields → Type 0
IsFlat no_fields = Unit {0}
IsFlat (fields o n (token t) fs) = IsFlat fs
IsFlat (fields o n (text p t) fs) = IsFlat fs
IsFlat (fields o n (arr vs) fs) = ⊥
IsFlat (fields o n (obj gs) fs) = ⊥

abbrev pub count : Fields → ℕ
count no_fields = 0
count (fields o n v fs) = suc (count fs)

-- What a member does to what was found, by its name and its text, or none.
abbrev pub Effect : Type 0 → Type 0
Effect A = Bytes → Option Bytes → A → A

abbrev pub text_of : Value → Option Bytes
text_of (text o t) = some t
text_of (token t) = none
text_of (arr vs) = none
text_of (obj fs) = none

abbrev pub effects : {A : Type 0} → Effect A → Fields → A → A
effects f no_fields a = a
effects f (fields o n v fs) a = effects f fs (f n (text_of v) a)

-- The body does at a member what the effect says.
abbrev pub Follows : {A : Type 0} → Body A → Effect A → Type 0
Follows {A} body f =
    (q : Parser) (n : Bytes) (v : Value) (a : A)
    → HasName q n
    → Carries q (content v)
    → IsFlat (fields c_str n v no_fields)
    → body q a ≡ ok (some (q, f n (text_of v) a))

inside_object :
    (fs : Fields) (q last : Parser) → Reads 1 q (field_items fs) last → 1 ≤ q.nesting_level
unfolding field_items
inside_object no_fields q last (more l i d s r) = l
inside_object (fields o n v fs) q last (more l i d s r) = l

ended_is_done : (q : Parser) → q.type ≡ end → is_done q ≡ true
unfolding is_done
ended_is_done q e = ground (arith, e)

text_is_live : (q : Parser) → 1 ≤ q.nesting_level → q.type ≡ string → is_done q ≡ false
unfolding is_done
text_is_live q l e = ground (arith, l, e)

token_is_live : (q : Parser) → 1 ≤ q.nesting_level → q.type ≡ numeric → is_done q ≡ false
unfolding is_done
token_is_live q l e = ground (arith, l, e)

module _ {A : Type 0} (body : Body A) (f : Effect A) (h : Follows body f) where
  each_item-done :
      (fuel : ℕ) (p : Parser) (a : A)
      → is_done p ≡ true
      → each_item body (suc fuel) p a ≡ ok (some a)
  unfolding each_item
  each_item-done fuel p a e = rw (e, each_item) refl

  each_item-step :
      (fuel : ℕ) (p : Parser) (a b : A)
      → is_done p ≡ false
      → body p a ≡ ok (some (p, b))
      → each_item body (suc fuel) p a ≡ (iterate p >>= λ r. each_item body fuel r b)
  unfolding each_item
  each_item-step fuel p a b e g = rw (e, g, each_item) refl

  each_item-Reads :
      (fs : Fields) (fuel : ℕ) (p last : Parser) (a : A)
      → IsFlat fs
      → Reads 1 p (field_items fs) last
      → last.type ≡ end
      → count fs < fuel
      → (iterate p >>= λ q. each_item body fuel q a) ≡ ok (some (effects f fs a))
  unfolding field_items inner content
  each_item-Reads no_fields (suc fuel) p last a g (more {q = q} l i v s stop) e m =
      ap (λ x. x >>= λ q. each_item body (suc fuel) q a) i
      ∙ each_item-done fuel q a (ended_is_done q s)
  each_item-Reads (fields o n (token t) fs) (suc fuel) p last a g (more {q = q} l i v s r) e m =
      ap (λ x. x >>= λ q. each_item body (suc fuel) q a) i
      ∙ each_item-step fuel q a (f n none a) (token_is_live q (inside_object fs q last r) s.1.0)
          (h q n (token t) a s.0 s.1 tt)
      ∙ each_item-Reads fs fuel q last (f n none a) g r e (omega (arith, m))
  each_item-Reads (fields o n (text k t) fs) (suc fuel) p last a g (more {q = q} l i v s r) e m =
      ap (λ x. x >>= λ q. each_item body (suc fuel) q a) i
      ∙ each_item-step fuel q a (f n (some t) a) (text_is_live q (inside_object fs q last r) s.1.0)
          (h q n (text k t) a s.0 s.1 tt)
      ∙ each_item-Reads fs fuel q last (f n (some t) a) g r e (omega (arith, m))
  each_item-Reads fs zero p last a g r e m = absurd (omega (arith, m))
  each_item-Reads (fields o n (arr vs) fs) (suc fuel) p last a g r e m = absurd g
  each_item-Reads (fields o n (obj gs) fs) (suc fuel) p last a g r e m = absurd g

count-print_fields : (first : Bool) (fs : Fields) → count fs ≤ length (print_fields first fs)
unfolding print
count-print_fields first no_fields = omega arith
count-print_fields first (fields o n v fs) =
    let rest = print v ++ print_fields false fs in
    omega (
      arith,
      count-print_fields false fs,
      length-append (print v) (print_fields false fs),
      length-append (quoted o n) (b':' ∷ rest),
      length-append (comma first []) (quoted o n ++ (b':' ∷ rest)),
    )

count-print : (fs : Fields) → count fs ≤ length (print (obj fs))
unfolding print
count-print fs =
    omega (arith, count-print_fields true fs, length-append (print_fields true fs) (b'}' ∷ []))

depth-IsFlat : (fs : Fields) → IsFlat fs → depth_fields fs ≡ 0
unfolding depth
depth-IsFlat no_fields h = refl
depth-IsFlat (fields o n (token t) fs) h = omega (arith, depth-IsFlat fs h)
depth-IsFlat (fields o n (text p t) fs) h = omega (arith, depth-IsFlat fs h)
depth-IsFlat (fields o n (arr vs) fs) h = absurd h
depth-IsFlat (fields o n (obj gs) fs) h = absurd h

-- The loop over the items of a printed request, when the request has no containers in it: it ends,
-- and has done at each member what the effect says.
pub decode_items-effects :
    {A : Type 0} (body : Body A) (f : Effect A) (fs : Fields) (a : A)
    → Follows body f
    → IsFlat fs
    → WellFormedFields fs
    → decode_items body (print (obj fs)) a ≡ ok (some (effects f fs a))
unfolding decode_items depth inner
decode_items-effects body f fs a h g w =
    let text = print (obj fs) in
    let start = read_document (obj fs) (λ j. false) [] tt w (omega (arith, depth-IsFlat fs g)) in
    let r =
      subst (λ x. ReadsDocument (restart (λ j. false) x) (field_items fs) []) (append-nil text)
        start in
    ap (λ x. x >>= λ p. each_item body (suc (suc (length text))) p a) r.restarts
    ∙ each_item-Reads body f h fs (suc (suc (length text))) r.start r.last a g r.reads r.ends
        (omega (arith, count-print fs))
