-- ===== src/Json/Reading/RoundTrip.antt =====
-- Reading a printed document: the parser shows its items in order, and ends behind it.
use lib_abk.Common.{
  ℕ, suc, ◌+◌, ◌≤◌, ◌<◌, Bool, true, false, ◌≡◌, refl, arith, List, [], ◌∷◌, ◌++◌, none, some,
}
use lib_abk.Json.Unescape.{Ptr, peek}
use lib_abk.Json.Scan.{skip_white}
use lib_abk.Json.Parser.{Result, invalid, end, Parser, iterate, update, restart, push_nesting}
use lib_abk.Json.Document.{
  IsContainer, Value, token, text, arr, obj, Values, no_values, values, Fields, no_fields, fields,
  render, render_values, render_fields, depth, depth_values, depth_fields, WellFormed,
  WellFormedValues, WellFormedFields, print, print-render,
}
use lib_abk.Json.Reading.{Item, inner, value_items, field_items, Reads}
use lib_abk.Json.Reading.Members.{at, named_state}
use lib_abk.Json.Reading.State.{
  is_delimiter, Ready, Reading, Closing, Reading-text, Reading-token, values_delimited,
  fields_delimited, values_inside, fields_inside,
}
use lib_abk.Json.Reading.Containers.{
  updated_here, inside_arr, inside_obj, container_Ready, Reading-arr, Reading-obj,
  Closing-no_values, Closing-values, Closing-no_fields, Closing-fields,
}

mutual
  unfolding depth

  pub read_value :
      (v : Value) (l : ℕ) (f : ℕ → Bool) (rest : Ptr) (p : Parser)
      → WellFormed v
      → l + depth v ≤ 9
      → is_delimiter (peek rest) ≡ true
      → p.nesting_level ≡ l
      → ((j : ℕ) → j ≤ l → p.objects j ≡ f j)
      → Reading l f rest v (at (render v rest) p)
  read_value (token t) l f rest p h m d e k = Reading-token t l f rest p h d e k
  read_value (text o s) l f rest p h m d e k = Reading-text o s l f rest p d e k
  read_value (arr vs) l f rest p h m d e k = Reading-arr l f rest p d e (omega arith) k vs h (
      read_values true vs (suc l) (inside_arr vs rest p).objects rest (inside_arr vs rest p) h
        (omega arith) (updated_here p.objects l p.nesting_level false e) (omega arith)
        (container_Ready false _ l p e))
  read_value (obj fs) l f rest p h m d e k = Reading-obj l f rest p d e (omega arith) k fs (
      read_fields true fs (suc l) (inside_obj fs rest p).objects rest (inside_obj fs rest p) h
        (omega arith) (updated_here p.objects l p.nesting_level true e) (omega arith)
        (container_Ready true _ l p e))

  read_values :
      (first : Bool) (vs : Values) (l : ℕ) (f : ℕ → Bool) (rest : Ptr) (p : Parser)
      → WellFormedValues vs
      → l + depth_values vs ≤ 9
      → f l ≡ false
      → 0 < l
      → Ready l f (render_values first vs (b']' ∷ rest)) p
      → Closing l f rest (value_items vs) p
  read_values first no_values l f rest p h m b z r = Closing-no_values l f rest p z first b r
  read_values first (values v vs) l f rest p h m b z r =
      let R =
        read_value v l f (render_values false vs (b']' ∷ rest))
          (record p { name_start = p.name_end; type = invalid }) h.0 (omega arith)
          (values_delimited vs rest) r.level r.same in
      Closing-values l f rest p z first v vs h.0 b r R
        (read_values false vs l f rest R.last h.1 (omega arith) b z R.ready)

  read_fields :
      (first : Bool) (fs : Fields) (l : ℕ) (f : ℕ → Bool) (rest : Ptr) (p : Parser)
      → WellFormedFields fs
      → l + depth_fields fs ≤ 9
      → f l ≡ true
      → 0 < l
      → Ready l f (render_fields first fs (b'}' ∷ rest)) p
      → Closing l f rest (field_items fs) p
  read_fields first no_fields l f rest p h m b z r = Closing-no_fields l f rest p z first b r
  read_fields first (fields o n v fs) l f rest p h m b z r =
      let value = render v (render_fields false fs (b'}' ∷ rest)) in
      let R =
        read_value v l f (render_fields false fs (b'}' ∷ rest)) (named_state o n value p) h.1
          (omega arith) (fields_delimited fs rest) r.level r.same in
      Closing-fields l f rest p z first o n v fs h.0 h.1 b r R
        (read_fields false fs l f rest R.last h.2 (omega arith) b z R.ready)

-- `start` is the state in which `Restart` calls `Iterate`; from there on the parser shows these
-- items, and behind the last one it has left the root and stands behind the document.
pub record ReadsDocument (r : Result Parser) (es : List Item) (rest : Ptr) : Type 0 where
  pub start : Parser
  pub restarts : r ≡ iterate start
  pub last : Parser
  pub reads : Reads 1 start es last
  pub ends : last.type ≡ end
  pub behind : last.pos ≡ skip_white rest
  pub outside : last.nesting_level ≡ 0

-- The state before the nesting of the root is pushed; the position is overwritten.
abbrev pub root_state : (ℕ → Bool) → Parser
root_state old = record {
  pos = [];
  name_start = some [];
  name_end = none;
  value_start = none;
  value_end = none;
  type = invalid;
  objects = update old 0 false;
  nesting_level = 0;
}

pub restart-arr :
    (old : ℕ → Bool) (vs : Values) (rest : Ptr)
    → WellFormedValues vs
    → restart old (render (arr vs) rest) ≡ iterate (inside_arr vs rest (root_state old))
unfolding restart push_nesting render skip_white
restart-arr old vs rest h = rw (values_inside vs rest h)

pub restart-obj :
    (old : ℕ → Bool) (fs : Fields) (rest : Ptr)
    → restart old (render (obj fs) rest) ≡ iterate (inside_obj fs rest (root_state old))
unfolding restart push_nesting render skip_white
restart-obj old fs rest = rw (fields_inside fs rest)

ReadsDocument-Closing :
    {f : ℕ → Bool} {rest : Ptr} {es : List Item} {p : Parser} {r : Result Parser}
    → r ≡ iterate p
    → Closing 1 f rest es p
    → ReadsDocument r es rest
ReadsDocument-Closing {p = p} e c = record {
  start = p;
  restarts = e;
  last = c.last;
  reads = c.reads;
  ends = c.type;
  behind = c.here;
  outside = c.level;
}

read_root :
    (v : Value) (old : ℕ → Bool) (rest : Ptr)
    → IsContainer v
    → WellFormed v
    → depth v ≤ 9
    → ReadsDocument (restart old (render v rest)) (inner v) rest
unfolding depth inner
read_root (token t) old rest c h m = absurd c
read_root (text o s) old rest c h m = absurd c
read_root (arr vs) old rest c h m =
    let q = inside_arr vs rest (root_state old) in
    ReadsDocument-Closing (restart-arr old vs rest h) (
      read_values true vs 1 q.objects rest q h (omega arith) refl (omega arith)
        (container_Ready false _ 0 (root_state old) refl))
read_root (obj fs) old rest c h m =
    let q = inside_obj fs rest (root_state old) in
    ReadsDocument-Closing (restart-obj old fs rest) (
      read_fields true fs 1 q.objects rest q h (omega arith) refl (omega arith)
        (container_Ready true _ 0 (root_state old) refl))

-- Parsing the text of an array or object with at most nine containers in one another, whose names
-- and texts hold no NUL and whose tokens are tokens: after `Restart` the parser shows every item of the document in order, with its
-- name and value unescaped, is inside the root until the last item, and then stands behind the
-- document's text, whatever follows it.
pub read_document :
    (v : Value) (old : ℕ → Bool) (rest : Ptr)
    → IsContainer v
    → WellFormed v
    → depth v ≤ 9
    → ReadsDocument (restart old (print v ++ rest)) (inner v) rest
read_document v old rest c h m = rw (print-render v rest) (read_root v old rest c h m)
