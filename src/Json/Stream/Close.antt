-- ===== src/Json/Stream/Close.antt =====
-- `Close` on an object with a chain of open children.
use lib_abk.Common.{
  ℕ, zero, suc, ◌+◌, ◌<◌, true, false, ◌≡◌, refl, sym, ap, ◌∙◌, arith, List, [], ◌∷◌, ◌++◌, ◌==◌,
  Bytes, Option, none, some, length, append_assoc, append-nil, ap₂, Bool-cases, Option-cases, inl,
  inr, ==_iff,
}
use native.Mathlib.Nat.{le_trans, le_of_lt}
use lib_abk.Json.Stream.{Node, Store, drop_child, mark_closed, close_self, close_on, close}

-- The open object `i`, whose open children are `cs`, the outermost first. Each is the registered
-- child of the one before it, and was constructed later; `n` objects were constructed.
abbrev pub Open : (ℕ → Node) → ℕ → ℕ → List ℕ → Type 0
Open f n i [] = ((f i).closed ≡ false) × ((f i).child ≡ none) × (i < n)
Open f n i (c ∷ cs) =
    ((f i).closed ≡ false)
    × ((f i).child ≡ some c)
    × ((f c).parent ≡ some i)
    × (i < c)
    × Open f n c cs

Open-length : (f : ℕ → Node) (n i : ℕ) (cs : List ℕ) → Open f n i cs → length cs + i < n
Open-length f n i [] o = omega (arith, o.2)
Open-length f n i (c ∷ cs) o = omega (arith, Open-length f n c cs o.4)

-- The close tags of the chain, the innermost first.
abbrev pub close_tags : (ℕ → Node) → ℕ → List ℕ → Bytes
close_tags f i [] = (f i).close_tag
close_tags f i (c ∷ cs) = close_tags f c cs ++ (f i).close_tag

-- The object in front of `i` in the chain.
abbrev pub Above : (ℕ → Node) → ℕ → Type 0
Above f i = (p : ℕ) → (f i).parent ≡ some p → p < i

-- What closing `i` has done to the store, where `tags` were written.
pub record Closes (i : ℕ) (tags : Bytes) (s t : Store) : Type 0 where
  pub dump : t.dump ≡ s.dump ++ tags
  pub fresh : t.fresh ≡ s.fresh
  pub self : t.nodes i ≡ record (s.nodes i) { child = none; closed = true }
  pub parent : (p : ℕ) → (s.nodes i).parent ≡ some p → t.nodes p ≡ drop_child (s.nodes p)
  pub others : (j : ℕ) → j < i → ¬ ((s.nodes i).parent ≡ some j) → t.nodes j ≡ s.nodes j

-- The tag was written, the mark set and the parent told, in a store whose chain below is closed.
close_self_node :
    (i : ℕ) (s : Store) (par : Option ℕ)
    → (s.nodes i).parent ≡ par
    → ((p : ℕ) → par ≡ some p → p < i)
    → (close_self i s).nodes i ≡ mark_closed (s.nodes i)
close_self_node i s none e above = ground arith
close_self_node i s (some p) e above = ground (arith, above p refl)

close_self_parent :
    (i : ℕ) (s : Store) (p : ℕ)
    → (s.nodes i).parent ≡ some p
    → p < i
    → (close_self i s).nodes p ≡ drop_child (s.nodes p)
close_self_parent i s p e l = ground arith

close_self_others :
    (i : ℕ) (s : Store) (par : Option ℕ) (j : ℕ)
    → (s.nodes i).parent ≡ par
    → j < i
    → ¬ (par ≡ some j)
    → (close_self i s).nodes j ≡ s.nodes j
close_self_others i s none j e l n = ground arith
close_self_others i s (some p) j e l n = elim (Bool-cases (j == p)) [
  | inl h ↦ absurd (n (ap some (sym ((==_iff j p).0 h))))
  | inr h ↦ ground arith
]

close_self_dump :
    (i : ℕ) (s : Store) (par : Option ℕ)
    → (s.nodes i).parent ≡ par
    → (close_self i s).dump ≡ s.dump ++ (s.nodes i).close_tag
close_self_dump i s none e = rw e
close_self_dump i s (some p) e = rw e

close_self_fresh :
    (i : ℕ) (s : Store) (par : Option ℕ)
    → (s.nodes i).parent ≡ par
    → (close_self i s).fresh ≡ s.fresh
close_self_fresh i s none e = rw e
close_self_fresh i s (some p) e = rw e

-- The last step of `Close`, behind a chain that was closed down to `m`.
close_self-Closes :
    (i : ℕ) (tags : Bytes) (s m : Store)
    → Above s.nodes i
    → m.dump ≡ s.dump ++ tags
    → m.fresh ≡ s.fresh
    → m.nodes i ≡ drop_child (s.nodes i)
    → ((j : ℕ) → j < i → m.nodes j ≡ s.nodes j)
    → Closes i (tags ++ (s.nodes i).close_tag) s (close_self i m)
close_self-Closes i tags s m above d f n o =
    let par = (s.nodes i).parent in
    let e : (m.nodes i).parent ≡ par = ap (λ (x : Node). x.parent) n in
    record {
      dump =
          close_self_dump i m par e
          ∙ ap₂ (◌++◌) d (ap (λ (x : Node). x.close_tag) n)
          ∙ append_assoc s.dump tags (s.nodes i).close_tag;
      fresh = close_self_fresh i m par e ∙ f;
      self = close_self_node i m par e above ∙ ap mark_closed n;
      parent = λ p h. close_self_parent i m p (e ∙ h) (above p h) ∙ ap drop_child (o p (above p h));
      others = λ j l h. close_self_others i m par j e l h ∙ o j l;
    }

childless : (n : Node) → n.child ≡ none → n ≡ drop_child n
childless n e = ground arith

close_on-innermost :
    (fuel i : ℕ) (s : Store)
    → (s.nodes i).closed ≡ false
    → (s.nodes i).child ≡ none
    → close_on (suc fuel) i s ≡ close_self i s
unfolding close_on
close_on-innermost fuel i s a b = ground arith

close_on-child :
    (fuel i c : ℕ) (s : Store)
    → (s.nodes i).closed ≡ false
    → (s.nodes i).child ≡ some c
    → close_on (suc fuel) i s ≡ close_self i (close_on fuel c s)
unfolding close_on
close_on-child fuel i c s a b = ground arith

parent_below : {par : Option ℕ} {i q c : ℕ} → par ≡ some i → par ≡ some q → i < c → q < c
parent_below p e h = ground arith

not_parent : {par : Option ℕ} {i j : ℕ} → par ≡ some i → par ≡ some j → j < i → ⊥
not_parent p e k = ground arith

close_on-Closes :
    (cs : List ℕ) (fuel n i : ℕ) (s : Store)
    → length cs < fuel
    → Above s.nodes i
    → Open s.nodes n i cs
    → Closes i (close_tags s.nodes i cs) s (close_on fuel i s)
close_on-Closes cs zero n i s l above o = absurd (omega arith)
close_on-Closes [] (suc fuel) n i s l above (a, b, z) = rw (close_on-innermost fuel i s a b) (
    close_self-Closes i [] s s above (sym (append-nil s.dump)) refl (childless (s.nodes i) b)
      (λ j h. refl))
close_on-Closes (c ∷ cs) (suc fuel) n i s l above (a, b, p, h, o) =
    let r = close_on-Closes cs fuel n c s (omega arith) (λ q e. parent_below p e h) o in
    rw (close_on-child fuel i c s a b) (
      close_self-Closes i (close_tags s.nodes c cs) s (close_on fuel c s) above r.dump r.fresh
        (r.parent i p) (λ j k. r.others j (le_trans k (le_of_lt h)) (λ e. not_parent p e k)))

-- Closing an open object with any chain of children that are still open, each constructed after
-- its parent: the children are closed first, so that the close tags are written from the
-- innermost to the outermost; the object is closed and has no child any more, its parent has no
-- child any more, and the objects that were constructed before it, but its parent, are untouched.
pub close-Closes :
    (s : Store) (i : ℕ) (cs : List ℕ)
    → Above s.nodes i
    → Open s.nodes s.fresh i cs
    → Closes i (close_tags s.nodes i cs) s (close i s)
unfolding close
close-Closes s i cs above o =
    close_on-Closes cs (suc s.fresh) s.fresh i s (omega (arith, Open-length s.nodes s.fresh i cs o))
      above o

close_on-closed : (fuel i : ℕ) (s : Store) → (s.nodes i).closed ≡ true → close_on fuel i s ≡ s
unfolding close_on
close_on-closed zero i s e = refl
close_on-closed (suc fuel) i s e = ground arith

-- Closing an object with any chain of open children once more changes nothing, as in the
-- destructor of an object that was closed by hand.
pub close_twice :
    (s : Store) (i : ℕ) (cs : List ℕ)
    → Above s.nodes i
    → Open s.nodes s.fresh i cs
    → close i (close i s) ≡ close i s
close_twice s i cs above o =
    let e = ap (λ (n : Node). n.closed) (close-Closes s i cs above o).self in
    unfold close in close_on-closed (suc (close i s).fresh) i (close i s) e

close_on-fresh : (fuel i : ℕ) (s : Store) → (close_on fuel i s).fresh ≡ s.fresh
unfolding close_on
close_on-fresh zero i s = refl
close_on-fresh (suc fuel) i s = elim (Bool-cases (s.nodes i).closed) [
  | inl e ↦ ap (λ (t : Store). t.fresh) (close_on-closed (suc fuel) i s e)
  | inr e ↦ elim (Option-cases (s.nodes i).child) [
    | inl n ↦
        ap (λ (t : Store). t.fresh) (close_on-innermost fuel i s e n)
        ∙ close_self_fresh i s (s.nodes i).parent refl
    | inr (c, n) ↦
        let m = close_on fuel c s in
        ap (λ (t : Store). t.fresh) (close_on-child fuel i c s e n)
        ∙ close_self_fresh i m (m.nodes i).parent refl
        ∙ close_on-fresh fuel c s
  ]
]

-- `Close` constructs nothing.
pub close-fresh : (i : ℕ) (s : Store) → (close i s).fresh ≡ s.fresh
unfolding close
close-fresh i s = close_on-fresh (suc s.fresh) i s
