-- ===== src/Json/Reading/Skip.antt =====
-- `SkipItem`: it goes past a container of a printed document, and never returns from a text that
-- ends inside of one.
use lib_abk.Common.{
  ℕ, zero, suc, ◌+◌, ◌≤◌, ◌<◌, Bool, true, false, ◌≡◌, refl, ap, ◌∙◌, arith, List, [], ◌∷◌, ◌++◌,
  length, Bytes, none, some, inl, inr, ◌⊎◌,
}
use lib_abk.Json.Unescape.{Ptr, peek}
use lib_abk.Json.Parser.{ok, object, array, end, Parser, is_invalid, iterate}
use lib_abk.Json.Item.{skip_loop, skip_item}
use lib_abk.Json.Document.{
  IsContainer, print, print-render, token, text, Value, arr, obj, WellFormed, depth, render, comma,
}
use lib_abk.Json.Escape.{Overload, quoted}
use lib_abk.Json.Reading.{Item, Reads, stop, more, inner, Carries, content}
use lib_abk.Json.Reading.Members.{at, iterate-in_object, named_state}
use lib_abk.Json.Reading.Slices.{render-begins_value}
use lib_abk.Json.Reading.State.{is_delimiter}
use lib_abk.Json.Reading.RoundTrip.{read_value}

skip_loop-stop :
    (fuel level : ℕ) (p : Parser)
    → p.nesting_level < level
    → skip_loop (suc fuel) level p ≡ ok (some (true, p))
unfolding skip_loop
skip_loop-stop fuel level p h = ground arith

skip_loop-zero : (level : ℕ) (p : Parser) → skip_loop zero level p ≡ ok none
unfolding skip_loop
skip_loop-zero level p = refl

skip_loop-step :
    (fuel level : ℕ) (p q : Parser)
    → level ≤ p.nesting_level
    → iterate p ≡ ok q
    → is_invalid q.type ≡ false
    → skip_loop (suc fuel) level p ≡ skip_loop fuel level q
unfolding skip_loop
skip_loop-step fuel level p q h i v = ground arith

skip_loop-Reads :
    {level : ℕ} {p q : Parser} {es : List Item}
    → Reads level p es q
    → q.nesting_level < level
    → skip_loop (suc (length es)) level p ≡ ok (some (true, q))
skip_loop-Reads stop h = skip_loop-stop zero _ _ h
skip_loop-Reads (more {p} {q} {es = es} l i v s r) h =
    skip_loop-step (suc (length es)) _ p q l i v ∙ skip_loop-Reads r h

skip_item-Carries :
    (fuel : ℕ) (q : Parser) (v : Value)
    → IsContainer v
    → Carries q (content v)
    → skip_item fuel none q ≡ skip_loop fuel q.nesting_level q
unfolding skip_item content
skip_item-Carries fuel q (token t) h e = absurd h
skip_item-Carries fuel q (text o s) h e = absurd h
skip_item-Carries fuel q (arr vs) h e = rw e
skip_item-Carries fuel q (obj fs) h e = rw e

-- In front of a member that is an array or an object, inside of an object, where a comma or a
-- closing bracket follows the member: `Iterate` stops at the member, `SkipItem` then returns
-- true, and the parser stands behind the member, at the nesting level from before. One turn of
-- its loop for each item of the member and one more are enough. The conditions: no NUL in a name
-- or text of the member, every token a token, no nesting deeper than nine, and no invalid item
-- before.
pub skip_item-member :
    (first : Bool) (o : Overload) (n : Bytes) (v : Value) (rest : Ptr) (l : ℕ) (p : Parser)
    → IsContainer v
    → WellFormed v
    → l + depth v ≤ 9
    → is_delimiter (peek rest) ≡ true
    → is_invalid p.type ≡ false
    → p.nesting_level ≡ l
    → p.objects l ≡ true
    → p.pos ≡ comma first (quoted o n ++ (b':' ∷ (print v ++ rest)))
    → (q last : Parser) × (iterate p ≡ ok q)
      × (skip_item (suc (length (inner v))) none q ≡ ok (some (true, last)))
      × (last.pos ≡ rest)
      × (last.nesting_level ≡ l)
skip_item-member first o n v rest l p c h m d t e k s =
    let value = render v rest in
    let R = read_value v l p.objects rest (named_state o n value p) h m d e (λ j _. refl) in
    let here = s ∙ ap (λ x. comma first (quoted o n ++ (b':' ∷ x))) (print-render v rest) in
    let steps =
      ap (λ x. iterate (at x p)) here
      ∙ iterate-in_object first o n value p t (rw e k) (render-begins_value v rest h)
      ∙ R.enters in
    let level = R.entered c in
    (
      R.first,
      R.last,
      steps,
      skip_item-Carries _ R.first v c R.carries
          ∙ rw level (skip_loop-Reads R.reads (omega (arith, R.ready.level))),
      R.ready.here,
      R.ready.level,
    )

-- At the end of the text `Iterate` reports the end and leaves the nesting level alone, so the
-- loop of `SkipItem` never ends.
skip_loop-truncated :
    (fuel level : ℕ) (p : Parser)
    → p.pos ≡ []
    → is_invalid p.type ≡ false
    → level ≤ p.nesting_level
    → skip_loop fuel level p ≡ ok none
unfolding skip_loop iterate
skip_loop-truncated zero level p e t h = refl
skip_loop-truncated (suc fuel) level p e t h =
    ground (arith, skip_loop-truncated fuel level (record p { type = end }) e refl h)

skip_loop-unfinished :
    {level : ℕ} {p q : Parser} {es : List Item}
    → (fuel : ℕ) → Reads level p es q
    → q.pos ≡ []
    → is_invalid q.type ≡ false
    → level ≤ q.nesting_level
    → skip_loop fuel level p ≡ ok none
skip_loop-unfinished fuel stop e t h = skip_loop-truncated fuel _ _ e t h
skip_loop-unfinished zero (more l i v s r) e t h = skip_loop-zero _ _
skip_loop-unfinished (suc fuel) (more {p} {q} l i v s r) e t h =
    skip_loop-step fuel _ p q l i v ∙ skip_loop-unfinished fuel r e t h

-- `SkipItem` at an array or object never returns, however long it runs, if the text ends inside
-- of it: if iterating from there shows some items at its nesting level or deeper, and then stands
-- at the end of the text without having left it.
pub skip_item-unfinished :
    (fuel : ℕ) (p q : Parser) (es : List Item)
    → (p.type ≡ object) ⊎ (p.type ≡ array)
    → Reads p.nesting_level p es q
    → q.pos ≡ []
    → is_invalid q.type ≡ false
    → p.nesting_level ≤ q.nesting_level
    → skip_item fuel none p ≡ ok none
unfolding skip_item
skip_item-unfinished fuel p q es (inl e) r h t l = simp e (skip_loop-unfinished fuel r h t l)
skip_item-unfinished fuel p q es (inr e) r h t l = simp e (skip_loop-unfinished fuel r h t l)
