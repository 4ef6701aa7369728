-- ===== src/Json/Reading/Containers.antt =====
-- Arrays and objects: entering one, going past a member, and leaving it.
use lib_abk.Common.{
  ℕ, suc, ◌+◌, ◌-◌, ◌≤◌, ◌<◌, Bool, true, false, ◌≡◌, refl, ap, ◌∙◌, arith, ◌∷◌, Bytes,
}
use lib_abk.Json.Escape.{Overload}
use lib_abk.Json.Unescape.{Ptr, peek}
use lib_abk.Json.Unescape.RoundTrip.{HasNoNul}
use lib_abk.Json.Parser.{invalid, Parser, iterate, update}
use lib_abk.Json.Document.{
  Value, arr, obj, Values, no_values, values, Fields, no_fields, fields, render, render_values,
  render_fields, WellFormed, WellFormedValues,
}
use lib_abk.Json.Reading.{
  content, inner, value_items, field_items, stop, more, Reads-append, Reads-weaken,
}
use lib_abk.Json.Reading.Shows.{HasName-named_state}
use lib_abk.Json.Reading.Slices.{render-begins_value}
use lib_abk.Json.Reading.Members.{
  at, named_state, enter-container, container_state, iterate-in_object, iterate-in_array,
  iterate-object_end, iterate-array_end, closed_state,
}
use lib_abk.Json.Reading.State.{
  is_delimiter, Ready, Reading, Closing, Closing-Ready, kind, values_inside, fields_inside,
}

pub updated :
    (g f : ℕ → Bool) (l n : ℕ) (b : Bool)
    → n ≡ l
    → ((j : ℕ) → j ≤ l → g j ≡ f j)
    → (j : ℕ) → j ≤ l
    → update g (n + 1) b j ≡ f j
updated g f l n b e k j h = ground (arith, k j)

pub updated_here : (g : ℕ → Bool) (l n : ℕ) (b : Bool) → n ≡ l → update g (n + 1) b (suc l) ≡ b
updated_here g l n b e = ground arith

abbrev pub inside_arr : Values → Ptr → Parser → Parser
inside_arr vs rest p = container_state false (render_values true vs (b']' ∷ rest)) p

abbrev pub inside_obj : Fields → Ptr → Parser → Parser
inside_obj fs rest p = container_state true (render_fields true fs (b'}' ∷ rest)) p

pub container_Ready :
    (b : Bool) (inside : Ptr) (l : ℕ) (p : Parser)
    → p.nesting_level ≡ l
    → Ready (suc l) (container_state b inside p).objects inside (container_state b inside p)
container_Ready true inside l p e = record {
  live = refl;
  here = refl;
  level = omega arith;
  same = λ j h. refl;
}
container_Ready false inside l p e = record {
  live = refl;
  here = refl;
  level = omega arith;
  same = λ j h. refl;
}

module _ (l : ℕ) (f : ℕ → Bool) (rest : Ptr) (p : Parser) (d : is_delimiter (peek rest) ≡ true)
    (e : p.nesting_level ≡ l) (free : l < 9) (k : (j : ℕ) → j ≤ l → p.objects j ≡ f j) where
  pub Reading-arr :
      (vs : Values)
      → WellFormedValues vs
      → Closing (suc l) (inside_arr vs rest p).objects rest (value_items vs) (inside_arr vs rest p)
      → Reading l f rest (arr vs) (at (render (arr vs) rest) p)
  unfolding render content inner
  Reading-arr vs h c = record {
    first = inside_arr vs rest p;
    enters = enter-container false _ p (omega arith) (values_inside vs rest h);
    live = refl;
    carries = refl;
    start_kept = refl;
    end_kept = refl;
    entered = λ _. omega arith;
    last = c.last;
    reads = c.reads;
    ready = Closing-Ready d (updated p.objects f l p.nesting_level false e k) c;
  }

  pub Reading-obj :
      (fs : Fields)
      → Closing (suc l) (inside_obj fs rest p).objects rest (field_items fs) (inside_obj fs rest p)
      → Reading l f rest (obj fs) (at (render (obj fs) rest) p)
  unfolding render content inner
  Reading-obj fs c = record {
    first = inside_obj fs rest p;
    enters = enter-container true _ p (omega arith) (fields_inside fs rest);
    live = refl;
    carries = refl;
    start_kept = refl;
    end_kept = refl;
    entered = λ _. omega arith;
    last = c.last;
    reads = c.reads;
    ready = Closing-Ready d (updated p.objects f l p.nesting_level true e k) c;
  }

module _ (l : ℕ) (f : ℕ → Bool) (rest : Ptr) (p : Parser) (z : 0 < l) where
  pub Closing-no_values :
      (first : Bool)
      → f l ≡ false
      → Ready l f (render_values first no_values (b']' ∷ rest)) p
      → Closing l f rest (value_items no_values) p
  unfolding render_values value_items
  Closing-no_values first b r = record {
    last = record (closed_state rest p) { name_start = p.name_end };
    reads =
        more (omega (arith, r.level))
          (ap (λ t. iterate (at t p)) r.here
            ∙ iterate-array_end rest p r.live (kind r b) (ground (arith, r.level)))
          refl refl stop;
    type = refl;
    here = refl;
    level = ap (λ n. n - 1) r.level;
    same = r.same;
  }

  pub Closing-values :
      (first : Bool) (v : Value) (vs : Values)
      → WellFormed v
      → f l ≡ false
      → Ready l f (render_values first (values v vs) (b']' ∷ rest)) p
      → (R : Reading l f (render_values false vs (b']' ∷ rest)) v (
          at
            (render v (render_values false vs (b']' ∷ rest)))
            (record p { name_start = p.name_end; type = invalid })))
      → Closing l f rest (value_items vs) R.last
      → Closing l f rest (value_items (values v vs)) p
  unfolding render_values value_items
  Closing-values first v vs h b r R c = record {
    last = c.last;
    reads =
        more (omega (arith, r.level))
          (ap (λ t. iterate (at t p)) r.here
            ∙ iterate-in_array first _ p r.live (kind r b) (render-begins_value v _ h)
            ∙ R.enters)
          R.live R.carries (Reads-append (Reads-weaken (omega arith) R.reads) c.reads);
    type = c.type;
    here = c.here;
    level = c.level;
    same = c.same;
  }

  pub Closing-no_fields :
      (first : Bool)
      → f l ≡ true
      → Ready l f (render_fields first no_fields (b'}' ∷ rest)) p
      → Closing l f rest (field_items no_fields) p
  unfolding render_fields field_items
  Closing-no_fields first b r = record {
    last = closed_state rest p;
    reads =
        more (omega (arith, r.level))
          (ap (λ t. iterate (at t p)) r.here
            ∙ iterate-object_end rest p r.live (kind r b) (ground (arith, r.level)))
          refl refl stop;
    type = refl;
    here = refl;
    level = ap (λ n. n - 1) r.level;
    same = r.same;
  }

  pub Closing-fields :
      (first : Bool) (o : Overload) (n : Bytes) (v : Value) (fs : Fields)
      → HasNoNul n
      → WellFormed v
      → f l ≡ true
      → Ready l f (render_fields first (fields o n v fs) (b'}' ∷ rest)) p
      → (R : Reading l f
          (render_fields false fs (b'}' ∷ rest))
          v
          (named_state o n (render v (render_fields false fs (b'}' ∷ rest))) p))
      → Closing l f rest (field_items fs) R.last
      → Closing l f rest (field_items (fields o n v fs)) p
  unfolding render_fields field_items
  Closing-fields first o n v fs hn h b r R c = record {
    last = c.last;
    reads =
        more (omega (arith, r.level))
          (ap (λ t. iterate (at t p)) r.here
            ∙ iterate-in_object first o n _ p r.live (kind r b) (render-begins_value v _ h)
            ∙ R.enters)
          R.live (HasName-named_state o n _ p R.first hn R.start_kept R.end_kept, R.carries)
          (Reads-append (Reads-weaken (omega arith) R.reads) c.reads);
    type = c.type;
    here = c.here;
    level = c.level;
    same = c.same;
  }
