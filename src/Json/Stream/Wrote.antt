-- ===== src/Json/Stream/Wrote.antt =====
-- What the operations of the stream classes append to the dump and change in the store.
use lib_abk.Common.{
  ℕ, ◌+◌, ◌≤◌, ◌<◌, false, ◌≡◌, ◌≢◌, refl, sym, ap, ap₂, ◌∙◌, arith, [], ◌++◌, ◌==◌, Bytes, none,
  some, append_assoc, append-nil,
}
use lib_abk.Json.Document.{comma}
use lib_abk.Json.Stream.{drop_child, Node, Store, write, begin_member, construct, new_node, close}
use lib_abk.Json.Stream.Close.{Closes, close-Closes}

-- Members were written to `i`, `k` of them, as `text`.
pub record Wrote (i k : ℕ) (text : Bytes) (s t : Store) : Type 0 where
  pub dump : t.dump ≡ s.dump ++ text
  pub fresh : s.fresh ≤ t.fresh
  pub self : t.nodes i ≡ record (s.nodes i) { member_count = (s.nodes i).member_count + k }
  pub others : (j : ℕ) → j < s.fresh → j ≢ i → t.nodes j ≡ s.nodes j

-- The object `i` was constructed, is open and has no open child.
pub record IsIdle (i : ℕ) (s : Store) : Type 0 where
  pub known : i < s.fresh
  pub live : (s.nodes i).closed ≡ false
  pub childless : (s.nodes i).child ≡ none

abbrev pub separator : ℕ → Store → Bytes
separator i s = comma ((s.nodes i).member_count == 0) []

pub begin_member-Wrote : (i : ℕ) (s : Store) → Wrote i 1 (separator i s) s (begin_member i s)
unfolding begin_member
begin_member-Wrote i s = record {
  dump = ground (arith, append-nil s.dump);
  fresh = ground arith;
  self = ground arith;
  others = λ j l n. ground arith;
}

pub Wrote-nothing : (i : ℕ) (s : Store) → Wrote i 0 [] s s
Wrote-nothing i s = record {
  dump = sym (append-nil s.dump);
  fresh = omega arith;
  self = ground arith;
  others = λ j l n. refl;
}

pub Wrote-write :
    {i k : ℕ} {a : Bytes} {s t : Store} (b : Bytes)
    → Wrote i k a s t
    → Wrote i k (a ++ b) s (write b t)
Wrote-write {a = a} {s = s} b w = record {
  dump = ap (λ x. x ++ b) w.dump ∙ append_assoc s.dump a b;
  fresh = w.fresh;
  self = w.self;
  others = w.others;
}

pub Wrote-trans :
    {i k m : ℕ} {a b : Bytes} {s t u : Store}
    → Wrote i k a s t
    → Wrote i m b t u
    → Wrote i (k + m) (a ++ b) s u
Wrote-trans {a = a} {b = b} {s = s} w v = record {
  dump = v.dump ∙ ap (λ x. x ++ b) w.dump ∙ append_assoc s.dump a b;
  fresh = omega (arith, w.fresh, v.fresh);
  self = ground (arith, w.self, v.self);
  others = λ j l n. v.others j (omega (arith, w.fresh)) n ∙ w.others j l n;
}

pub IsIdle-Wrote : {i k : ℕ} {a : Bytes} {s t : Store} → IsIdle i s → Wrote i k a s t → IsIdle i t
IsIdle-Wrote d w = record {
  known = omega (arith, d.known, w.fresh);
  live = ap (λ (n : Node). n.closed) w.self ∙ d.live;
  childless = ap (λ (n : Node). n.child) w.self ∙ d.childless;
}

-- A child of `i` was constructed, and `text` was written.
pub record Constructed (i : ℕ) (tag text : Bytes) (s t : Store) : Type 0 where
  pub dump : t.dump ≡ s.dump ++ text
  pub fresh : t.fresh ≡ s.fresh + 1
  pub new : t.nodes s.fresh ≡ new_node i tag
  pub parent :
      t.nodes i
      ≡ record (s.nodes i) { child = some s.fresh; member_count = (s.nodes i).member_count + 1 }
  pub others : (j : ℕ) → j < s.fresh → j ≢ i → t.nodes j ≡ s.nodes j

pub construct-Constructed :
    (i : ℕ) (tag : Bytes) (s : Store)
    → i < s.fresh
    → Constructed i tag (separator i s) s (construct i tag s)
unfolding construct begin_member
construct-Constructed i tag s l = record {
  dump = ground (arith, append-nil s.dump);
  fresh = ground arith;
  new = ground arith;
  parent = ground arith;
  others = λ j k n. ground arith;
}

pub Constructed-write :
    {i : ℕ} {tag a : Bytes} {s t : Store} (b : Bytes)
    → Constructed i tag a s t
    → Constructed i tag (a ++ b) s (write b t)
Constructed-write {a = a} {s = s} b w = record {
  dump = ap (λ x. x ++ b) w.dump ∙ append_assoc s.dump a b;
  fresh = w.fresh;
  new = w.new;
  parent = w.parent;
  others = w.others;
}

pub Constructed-IsIdle :
    {i : ℕ} {tag a : Bytes} {s t : Store} → Constructed i tag a s t → IsIdle s.fresh t
Constructed-IsIdle w = record {
  known = omega (arith, w.fresh);
  live = ap (λ (n : Node). n.closed) w.new;
  childless = ap (λ (n : Node). n.child) w.new;
}

module _ {i k : ℕ} {tag a b : Bytes} {s t u : Store} (d : IsIdle i s) (c : Constructed i tag a s t)
    (w : Wrote s.fresh k b t u) where
  child_node : u.nodes s.fresh ≡ record (new_node i tag) { member_count = k }
  child_node = w.self ∙ ground (arith, c.new)

  child_parent : (u.nodes s.fresh).parent ≡ some i
  child_parent = ap (λ (n : Node). n.parent) child_node

  parent_node :
      u.nodes i
      ≡ record (s.nodes i) { child = some s.fresh; member_count = (s.nodes i).member_count + 1 }
  parent_node = w.others i (omega (arith, d.known, c.fresh)) (omega (arith, d.known)) ∙ c.parent

  child-Closes : Closes s.fresh (u.nodes s.fresh).close_tag u (close s.fresh u)
  child-Closes =
      close-Closes u s.fresh [] (λ p e. ground (arith, child_parent, d.known))
        (
          ap (λ (n : Node). n.closed) child_node,
          ap (λ (n : Node). n.child) child_node,
          omega (arith, c.fresh, w.fresh),
        )

  child_of : (j : ℕ) → j ≢ i → ¬ ((u.nodes s.fresh).parent ≡ some j)
  child_of j n e = ground (arith, child_parent)

  pub close-Wrote : Wrote i 1 (a ++ (b ++ tag)) s (close s.fresh u)
  close-Wrote =
      let r = child-Closes in
      record {
        dump =
            r.dump
            ∙ ap₂ (◌++◌) (w.dump ∙ ap (λ x. x ++ b) c.dump)
                (ap (λ (n : Node). n.close_tag) child_node)
            ∙ simp append_assoc;
        fresh = omega (arith, r.fresh, w.fresh, c.fresh);
        self = r.parent i child_parent ∙ ap drop_child parent_node ∙ ground (arith, d.childless);
        others = λ j l n.
            r.others j l (child_of j n)
            ∙ w.others j (omega (arith, c.fresh)) (omega arith)
            ∙ c.others j l n;
      }
