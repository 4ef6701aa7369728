-- ===== src/Json/Reading/TooDeep.antt =====
-- Reading a printed document that is too deep for `m_bObject`: the boundary of `CJsonParser`'s
-- nesting, from the other side than the reading of whole documents.
use lib_abk.Common.{
  ℕ, suc, ◌+◌, ◌≤◌, ◌<◌, Bool, true, false, ◌≡◌, refl, sym, ap, ◌∙◌, arith, List, ◌∷◌, ◌++◌, ltb,
  if◌then◌else◌, subst, Bool-cases, inl, inr,
}
use lib_abk.Json.Unescape.{Ptr}
use lib_abk.Json.Parser.{
  nesting_overflow, Result, ok, fault, invalid, Parser, is_invalid, iterate, restart, member,
  change_nesting, push_nesting,
}
use lib_abk.Json.Document.{
  IsContainer, Value, token, text, arr, obj, Values, no_values, values, Fields, no_fields, fields,
  render, render_values, render_fields, depth, depth_values, depth_fields, WellFormed,
  WellFormedValues, WellFormedFields, print, print-render,
}
use lib_abk.Json.Reading.{Item, Reads, stop, more}
use lib_abk.Json.Reading.Slices.{render-begins_value}
use lib_abk.Json.Reading.Members.{
  at, enter, named_state, container_state, enter-container, iterate-in_object, iterate-in_array,
}
use lib_abk.Json.Reading.State.{
  Ready, kind, values_delimited, fields_delimited, values_inside, fields_inside,
}
use lib_abk.Json.Reading.Containers.{updated_here, inside_arr, inside_obj, container_Ready}
use lib_abk.Json.Reading.RoundTrip.{read_value, root_state, restart-arr, restart-obj}

-- Some steps of `Iterate` show items, and the next one writes behind `m_bObject`.
pub data Overflows : Parser → Type 0 where
  now : {p : Parser} → iterate p ≡ fault nesting_overflow → Overflows p
  later : {p q : Parser} → iterate p ≡ ok q → is_invalid q.type ≡ false → Overflows q → Overflows p

Reads-Overflows :
    {bound : ℕ} {p q : Parser} {es : List Item} → Reads bound p es q → Overflows q → Overflows p
Reads-Overflows stop o = o
Reads-Overflows (more l i v s r) o = later i v (Reads-Overflows r o)

-- The same of a step whose result is known.
abbrev Leads : Result Parser → Type 0
Leads (ok q) = (is_invalid q.type ≡ false) × Overflows q
Leads (fault e) = e ≡ nesting_overflow

step-Overflows : (p : Parser) (r : Result Parser) → iterate p ≡ r → Leads r → Overflows p
step-Overflows p (ok q) e (v, o) = later e v o
step-Overflows p (fault f) e h = now (e ∙ ap fault h)

enter-too_deep :
    (b : Bool) (inside : Ptr) (p : Parser)
    → p.nesting_level ≡ 9
    → enter (at ((if b then b'{' else b'[') ∷ inside) p) ≡ fault nesting_overflow
unfolding member change_nesting push_nesting
enter-too_deep true inside p l = rw l refl
enter-too_deep false inside p l = rw l refl

-- A container that opens at the last level, or whose inside leads on.
container-Leads :
    (b : Bool) (inside : Ptr) (l : ℕ) (p : Parser)
    → p.nesting_level ≡ l
    → l ≤ 9
    → (l < 9
        → (enter (at ((if b then b'{' else b'[') ∷ inside) p) ≡ ok (container_state b inside p))
          × Overflows (container_state b inside p))
    → Leads (enter (at ((if b then b'{' else b'[') ∷ inside) p))
container-Leads b inside l p e h k = elim (Bool-cases (ltb l 9)) [
  | inr n ↦ subst Leads (sym (enter-too_deep b inside p (ground arith))) refl
  | inl y ↦ let (f, o) = k (ground arith) in subst Leads (sym f) (live b, o)
]
  where
    live : (b : Bool) → is_invalid (container_state b inside p).type ≡ false
    live true = refl
    live false = refl

mutual
  unfolding depth render

  deep_value :
      (v : Value) (l : ℕ) (f : ℕ → Bool) (rest : Ptr) (p : Parser)
      → WellFormed v
      → l ≤ 9
      → 10 ≤ l + depth v
      → p.nesting_level ≡ l
      → Leads (enter (at (render v rest) p))
  deep_value (token t) l f rest p h n m e = absurd (omega arith)
  deep_value (text o s) l f rest p h n m e = absurd (omega arith)
  deep_value (arr vs) l f rest p h n m e = container-Leads false _ l p e n (λ y. (
    enter-container false _ p (omega arith) (values_inside vs rest h),
    deep_values true vs (suc l) (inside_arr vs rest p).objects rest (inside_arr vs rest p) h
        (omega arith) (omega arith) (updated_here p.objects l p.nesting_level false e)
        (container_Ready false _ l p e),
  ))
  deep_value (obj fs) l f rest p h n m e = container-Leads true _ l p e n (λ y. (
    enter-container true _ p (omega arith) (fields_inside fs rest),
    deep_fields true fs (suc l) (inside_obj fs rest p).objects rest (inside_obj fs rest p) h
        (omega arith) (omega arith) (updated_here p.objects l p.nesting_level true e)
        (container_Ready true _ l p e),
  ))

  deep_values :
      (first : Bool) (vs : Values) (l : ℕ) (f : ℕ → Bool) (rest : Ptr) (p : Parser)
      → WellFormedValues vs
      → l ≤ 9
      → 10 ≤ l + depth_values vs
      → f l ≡ false
      → Ready l f (render_values first vs (b']' ∷ rest)) p
      → Overflows p
  deep_values first no_values l f rest p h n m b r = absurd (omega arith)
  deep_values first (values v vs) l f rest p h n m b r =
      let after = render_values false vs (b']' ∷ rest) in
      let unnamed : Parser = record p { name_start = p.name_end; type = invalid } in
      let step =
        ap (λ t. iterate (at t p)) r.here
        ∙ iterate-in_array first _ p r.live (kind r b) (render-begins_value v after h.0) in
      elim (Bool-cases (ltb 9 (l + depth v))) [
        | inl y ↦
            step-Overflows p _ step (deep_value v l f after unnamed h.0 n (ground arith) r.level)
        | inr y ↦
            let R =
              read_value v l f after unnamed h.0 (ground arith) (values_delimited vs rest) r.level
                r.same in
            later (step ∙ R.enters) R.live (
              Reads-Overflows R.reads
                (deep_values false vs l f rest R.last h.1 n (ground arith) b R.ready))
      ]

  deep_fields :
      (first : Bool) (fs : Fields) (l : ℕ) (f : ℕ → Bool) (rest : Ptr) (p : Parser)
      → WellFormedFields fs
      → l ≤ 9
      → 10 ≤ l + depth_fields fs
      → f l ≡ true
      → Ready l f (render_fields first fs (b'}' ∷ rest)) p
      → Overflows p
  deep_fields first no_fields l f rest p h n m b r = absurd (omega arith)
  deep_fields first (fields o name v fs) l f rest p h n m b r =
      let after = render_fields false fs (b'}' ∷ rest) in
      let named = named_state o name (render v after) p in
      let step =
        ap (λ t. iterate (at t p)) r.here
        ∙ iterate-in_object first o name _ p r.live (kind r b) (render-begins_value v after h.1) in
      elim (Bool-cases (ltb 9 (l + depth v))) [
        | inl y ↦
            step-Overflows p _ step (deep_value v l f after named h.1 n (ground arith) r.level)
        | inr y ↦
            let R =
              read_value v l f after named h.1 (ground arith) (fields_delimited fs rest) r.level
                r.same in
            later (step ∙ R.enters) R.live (
              Reads-Overflows R.reads
                (deep_fields false fs l f rest R.last h.2 n (ground arith) b R.ready))
      ]

-- What `Restart` calls `Iterate` on, and where that leads.
abbrev pub RestartOverflows : Result Parser → Type 0
RestartOverflows r = (start : Parser) × (r ≡ iterate start) × Overflows start

too_deep_root :
    (v : Value) (old : ℕ → Bool) (rest : Ptr)
    → IsContainer v
    → WellFormed v
    → 10 ≤ depth v
    → RestartOverflows (restart old (render v rest))
unfolding depth
too_deep_root (token t) old rest c h m = absurd c
too_deep_root (text o s) old rest c h m = absurd c
too_deep_root (arr vs) old rest c h m =
    let q = inside_arr vs rest (root_state old) in
    (
      q,
      restart-arr old vs rest h,
      deep_values true vs 1 q.objects rest q h (omega arith) (omega arith) refl
          (container_Ready false _ 0 (root_state old) refl),
    )
too_deep_root (obj fs) old rest c h m =
    let q = inside_obj fs rest (root_state old) in
    (
      q,
      restart-obj old fs rest,
      deep_fields true fs 1 q.objects rest q h (omega arith) (omega arith) refl
          (container_Ready true _ 0 (root_state old) refl),
    )

-- Parsing the text of an array or object with ten or more containers in one another, wherever in
-- the document they are, whose names and texts hold no NUL and whose tokens are tokens: `Restart`
-- and finitely many further steps of `Iterate` come to one that pushes behind the end of
-- `m_bObject`, and the item is not invalid after any step before.
pub restart_too_deep :
    (v : Value) (old : ℕ → Bool) (rest : Ptr)
    → IsContainer v
    → WellFormed v
    → 10 ≤ depth v
    → RestartOverflows (restart old (print v ++ rest))
restart_too_deep v old rest c h m = rw (print-render v rest) (too_deep_root v old rest c h m)
