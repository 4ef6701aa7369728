-- ===== src/Json/Stream/OpenChild.antt =====
-- `GetStream` while an array that was constructed in the formatter is still open, as where the reply
-- of a handler is taken before the array goes out of scope.
use lib_abk.Common.{
  ℕ, suc, ◌-◌, true, false, ◌≡◌, ◌≢◌, refl, sym, ap, ◌∙◌, arith, none, some, Bytes, ◌==◌,
}
use lib_abk.Json.Escape.{Overload}
use lib_abk.Json.Document.{arr, Values}
use lib_abk.Json.Stream.{Node, Store, array_in_object, close, close_on, close_self, get_stream}
use lib_abk.Json.Stream.Wrote.{IsIdle, Constructed-IsIdle}
use lib_abk.Json.Stream.Writer.{
  write_values, write_in_object, WritableValues, array_in_object-Constructed, first_member,
  write_values-Wrote,
}

close_leaf :
    (t : Store) (c fuel : ℕ)
    → (t.nodes c).closed ≡ false
    → (t.nodes c).child ≡ none
    → close_on (suc fuel) c t ≡ close_self c t
unfolding close_on
close_leaf t c fuel live childless = rw (live, childless, close_on) refl

close_on-child :
    (t : Store) (i c fuel : ℕ)
    → (t.nodes i).closed ≡ false
    → (t.nodes i).child ≡ some c
    → close_on (suc fuel) i t ≡ close_self i (close_on fuel c t)
unfolding close_on
close_on-child t i c fuel live child = rw (live, child, close_on) refl

module _ (t : Store) (c f : ℕ) (behind : (0 == c) ≡ false) (some_fresh : t.fresh ≡ suc f)
    (live : (t.nodes 0).closed ≡ false) (child : (t.nodes 0).child ≡ some c)
    (child_live : (t.nodes c).closed ≡ false) (childless : (t.nodes c).child ≡ none)
    (parent : (t.nodes c).parent ≡ some 0) where
  closed_live : ((close_self c t).nodes 0).closed ≡ false
  closed_live = rw (parent, behind, close_self) live

  closed_childless : ((close_self c t).nodes 0).child ≡ none
  closed_childless = rw (parent, close_self) refl

  close_child-first : close 0 t ≡ close 0 (close c t)
  unfolding close
  close_child-first =
      close_on-child t 0 c t.fresh live child
      ∙ ap (λ n. close_self 0 (close_on n c t)) some_fresh
      ∙ ap (close_self 0) (close_leaf t c f child_live childless)
      ∙ sym (close_leaf (close_self c t) 0 (close_self c t).fresh closed_live closed_childless)
      ∙ ap (λ u. close 0 u) (sym (close_leaf t c t.fresh child_live childless))

-- The open array is closed first.
pub get_stream-open_array :
    (o : Overload) (n : Bytes) (vs : Values) (s : Store)
    → IsIdle 0 s
    → WritableValues vs
    → get_stream (write_values s.fresh vs (array_in_object 0 o n s))
      ≡ get_stream (write_in_object 0 o n (arr vs) s)
unfolding get_stream write_in_object
get_stream-open_array o n vs s d h =
    let made = array_in_object-Constructed 0 s d.known o n in
    let (k, w) =
      write_values-Wrote vs s.fresh true (array_in_object 0 o n s) h (Constructed-IsIdle made)
        (first_member made) in
    let t : Store = write_values s.fresh vs (array_in_object 0 o n s) in
    let apart : 0 ≢ s.fresh = λ e. absurd (omega (arith, d.known, e)) in
    let root = w.others 0 (omega (arith, made.fresh)) apart ∙ made.parent in
    close_child-first t s.fresh (t.fresh - 1) (ground (arith, d.known))
      (omega (arith, w.fresh, made.fresh)) (ap (λ (x : Node). x.closed) root ∙ d.live)
      (ap (λ (x : Node). x.child) root)
      (ap (λ (x : Node). x.closed) w.self ∙ ap (λ (x : Node). x.closed) made.new)
      (ap (λ (x : Node). x.child) w.self ∙ ap (λ (x : Node). x.child) made.new)
      (ap (λ (x : Node). x.parent) w.self ∙ ap (λ (x : Node). x.parent) made.new)
