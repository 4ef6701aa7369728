-- ===== src/Json/Reading/State.antt =====
-- The parser's states in front of a member, behind it and behind a container, and the members
-- that are one item: texts and tokens.
use lib_abk.Common.{
  ℕ, suc, ◌-◌, ◌≤◌, Bool, true, false, ◌||◌, ◌≡◌, refl, ◌∙◌, arith, List, [], ◌∷◌, ◌==◌, Bytes,
}
use lib_abk.Json.Escape.{Overload, quoted}
use lib_abk.Json.Unescape.{Ptr, peek}
use lib_abk.Json.Scan.{ends_numeric, skip_white}
use lib_abk.Json.Parser.{ok, end, Parser, is_invalid}
use lib_abk.Json.Document.{
  IsContainer, Value, token, text, Values, no_values, values, Fields, no_fields, fields, render,
  render_values, render_fields, WellFormed, WellFormedValues,
}
use lib_abk.Json.Reading.{Item, content, inner, Carries, Reads, stop}
use lib_abk.Json.Reading.Shows.{extract_string-text}
use lib_abk.Json.Reading.Slices.{
  slice-append, take-append, render-begins_value, skip_white-begins_value,
}
use lib_abk.Json.Reading.Members.{at, enter, enter-text, enter-token, text_state, token_state}

-- A byte that stands behind a member.
unfoldable pub is_delimiter : ℕ → Bool
is_delimiter c = c == b',' || c == b']' || c == b'}'

pub delimited_ends : (c : ℕ) → is_delimiter c ≡ true → ends_numeric c ≡ true
unfolding is_delimiter ends_numeric
delimited_ends c h = ground arith

pub skip_white-delimited : (p : Ptr) → is_delimiter (peek p) ≡ true → skip_white p ≡ p
unfolding is_delimiter skip_white
skip_white-delimited [] h = refl
skip_white-delimited (c ∷ p) h = ground arith

-- The parser is live in a container at this level, in front of this text; up to the level, the
-- kinds of the containers are those of `f`.
pub record Ready (l : ℕ) (f : ℕ → Bool) (rest : Ptr) (p : Parser) : Type 0 where
  pub live : is_invalid p.type ≡ false
  pub here : p.pos ≡ rest
  pub level : p.nesting_level ≡ l
  pub same : (j : ℕ) → j ≤ l → p.objects j ≡ f j

-- A value was entered, and read up to `rest`.
pub record Reading (l : ℕ) (f : ℕ → Bool) (rest : Ptr) (v : Value) (p : Parser) : Type 0 where
  pub first : Parser
  pub enters : enter p ≡ ok first
  pub live : is_invalid first.type ≡ false
  pub carries : Carries first (content v)
  pub start_kept : first.name_start ≡ p.name_start
  pub end_kept : first.name_end ≡ p.name_end
  pub entered : IsContainer v → first.nesting_level ≡ suc l
  pub last : Parser
  pub reads : Reads (suc l) first (inner v) last
  pub ready : Ready l f rest last

-- A container was read up to and with its end.
pub record Closing (l : ℕ) (f : ℕ → Bool) (rest : Ptr) (es : List Item) (p : Parser) : Type 0 where
  pub last : Parser
  pub reads : Reads l p es last
  pub type : last.type ≡ end
  pub here : last.pos ≡ skip_white rest
  pub level : last.nesting_level ≡ l - 1
  pub same : (j : ℕ) → j ≤ l → last.objects j ≡ f j

pub Closing-Ready :
    {l : ℕ} {f g : ℕ → Bool} {rest : Ptr} {es : List Item} {p : Parser}
    → is_delimiter (peek rest) ≡ true
    → ((j : ℕ) → j ≤ l → g j ≡ f j)
    → (c : Closing (suc l) g rest es p) → Ready l f rest c.last
Closing-Ready {l} {rest = rest} d k c = record {
  live = rw c.type refl;
  here = c.here ∙ skip_white-delimited rest d;
  level = omega (arith, c.level);
  same = λ j h. c.same j (omega arith) ∙ k j h;
}

pub not_delimiter : is_delimiter 0 ≡ true → ⊥
unfolding is_delimiter
not_delimiter h = cc

-- The kind of the container that the parser stands in.
pub kind :
    {l : ℕ} {f : ℕ → Bool} {rest : Ptr} {p : Parser} {b : Bool}
    → Ready l f rest p
    → f l ≡ b
    → p.objects p.nesting_level ≡ b
kind {l} r e = rw r.level (r.same l (omega arith) ∙ e)

pub Reading-text :
    (o : Overload) (s : Bytes) (l : ℕ) (f : ℕ → Bool) (rest : Ptr) (p : Parser)
    → is_delimiter (peek rest) ≡ true
    → p.nesting_level ≡ l
    → ((j : ℕ) → j ≤ l → p.objects j ≡ f j)
    → Reading l f rest (text o s) (at (render (text o s) rest) p)
unfolding render content inner
Reading-text o s l f rest p d e k = record {
  first = text_state o s rest p;
  enters = enter-text o s rest p (skip_white-delimited rest d);
  live = refl;
  carries = (refl, extract_string-text o s rest p);
  start_kept = refl;
  end_kept = refl;
  entered = λ h. absurd h;
  last = text_state o s rest p;
  reads = stop;
  ready = record { live = refl; here = refl; level = e; same = k };
}

pub Reading-token :
    (t : Bytes) (l : ℕ) (f : ℕ → Bool) (rest : Ptr) (p : Parser)
    → WellFormed (token t)
    → is_delimiter (peek rest) ≡ true
    → p.nesting_level ≡ l
    → ((j : ℕ) → j ≤ l → p.objects j ≡ f j)
    → Reading l f rest (token t) (at (render (token t) rest) p)
unfolding render content inner
Reading-token t l f [] p h d e k = absurd (not_delimiter d)
Reading-token t l f (c ∷ rest) p h d e k = record {
  first = token_state t (c ∷ rest) p;
  enters = enter-token t c rest p h (delimited_ends c d) (skip_white-delimited (c ∷ rest) d);
  live = refl;
  carries = (refl, (_, _, slice-append t (c ∷ rest), take-append t (c ∷ rest)));
  start_kept = refl;
  end_kept = refl;
  entered = λ h. absurd h;
  last = token_state t (c ∷ rest) p;
  reads = stop;
  ready = record { live = refl; here = refl; level = e; same = k };
}

-- The text of the members that follow begins with a delimiter.
pub values_delimited :
    (vs : Values) (rest : Ptr) → is_delimiter (peek (render_values false vs (b']' ∷ rest))) ≡ true
unfolding is_delimiter render_values
values_delimited no_values rest = refl
values_delimited (values v vs) rest = refl

pub fields_delimited :
    (fs : Fields) (rest : Ptr) → is_delimiter (peek (render_fields false fs (b'}' ∷ rest))) ≡ true
unfolding is_delimiter render_fields
fields_delimited no_fields rest = refl
fields_delimited (fields o n v fs) rest = refl

pub values_inside :
    (vs : Values) (rest : Ptr)
    → WellFormedValues vs
    → skip_white (render_values true vs (b']' ∷ rest)) ≡ render_values true vs (b']' ∷ rest)
unfolding render_values
values_inside no_values rest h = unfold skip_white in refl
values_inside (values v vs) rest h = skip_white-begins_value _ (render-begins_value v _ h.0)

pub fields_inside :
    (fs : Fields) (rest : Ptr)
    → skip_white (render_fields true fs (b'}' ∷ rest)) ≡ render_fields true fs (b'}' ∷ rest)
unfolding render_fields skip_white quoted
fields_inside no_fields rest = refl
fields_inside (fields o n v fs) rest = refl
