-- ===== src/Server/Collector.antt =====
-- A `CJsonFormatter` with one open array: the buffer of an event queue and of a trend.
use lib_abk.Common.{
  ℕ, ◌+◌, ◌<◌, true, ◌≡◌, refl, sym, ap, ap₂, ◌∙◌, arith, [], ◌∷◌, ◌++◌, Bytes, some, append_assoc,
  append-nil, subst,
}
use lib_abk.Json.Escape.{Overload, quoted}
use lib_abk.Json.Document.{Value, arr, obj, Values, no_fields, fields, print, print_values}
use lib_abk.Json.Stream.{Node, Store, init_new, root_node, array_in_object, close, new_node}
use lib_abk.Json.Stream.Close.{close-Closes}
use lib_abk.Json.Stream.Wrote.{Wrote, separator, Constructed, Constructed-IsIdle}
use lib_abk.Json.Stream.Writer.{
  WritableValues, write_values, write_values-Wrote, init_new-IsIdle, array_in_object-Constructed,
  first_member,
}

-- The formatter starts anew with its array; then its values are written.
abbrev pub opened : Overload → Bytes → Store → Store
opened o name s = array_in_object 0 o name (init_new s)

abbrev pub filled : Overload → Bytes → Values → Store → Store
filled o name vs s = write_values s.fresh vs (opened o name s)

-- The document that the formatter holds when it is closed.
abbrev pub collection : Overload → Bytes → Values → Value
collection o name vs = obj (fields o name (arr vs) no_fields)

opened_fresh : (o : Overload) (name : Bytes) (s : Store) → (init_new s).fresh ≡ s.fresh
unfolding init_new
opened_fresh o name s = refl

opened_root :
    (s : Store)
    → record ((init_new s).nodes 0) {
      child = some (init_new s).fresh;
      member_count = ((init_new s).nodes 0).member_count + 1;
    }
      ≡ record root_node { child = some s.fresh; member_count = 1 }
unfolding init_new
opened_root s = refl

written :
    (o : Overload) (name : Bytes) (vs : Values) (s : Store)
    → (((init_new s).dump ++ ((separator 0 (init_new s) ++ quoted o name) ++ (b':' ∷ b'[' ∷ [])))
          ++ print_values true vs)
        ++ (b']' ∷ b'}' ∷ [])
      ≡ print (collection o name vs)
unfolding init_new print
written o name vs s = simp (append_assoc, append-nil)

module _ (o : Overload) (name : Bytes) (vs : Values) (s : Store) (l : 0 < s.fresh)
    (h : WritableValues vs) where
  opened-Constructed :
      Constructed 0
        (b']' ∷ [])
        ((separator 0 (init_new s) ++ quoted o name) ++ (b':' ∷ b'[' ∷ []))
        (init_new s)
        (opened o name s)
  opened-Constructed = array_in_object-Constructed 0 (init_new s) (init_new-IsIdle s l).known o name

  filled-Wrote :
      (k : ℕ) × Wrote s.fresh k (print_values true vs) (opened o name s) (filled o name vs s)
  filled-Wrote =
      let c = opened-Constructed in
      subst
        (λ n.
          (k : ℕ) × Wrote n k (print_values true vs) (opened o name s)
            (write_values n vs (opened o name s)))
        (opened_fresh o name s)
        (write_values-Wrote vs (init_new s).fresh true (opened o name s) h (Constructed-IsIdle c)
          (first_member c))

  filled_dump : (filled o name vs s).dump ++ (b']' ∷ b'}' ∷ []) ≡ print (collection o name vs)
  filled_dump =
      let (k, w) = filled-Wrote in
      ap (λ x. x ++ (b']' ∷ b'}' ∷ []))
        (w.dump ∙ ap (λ x. x ++ print_values true vs) opened-Constructed.dump)
      ∙ written o name vs s

  root_node-filled :
      (filled o name vs s).nodes 0 ≡ record root_node { child = some s.fresh; member_count = 1 }
  root_node-filled =
      let (k, w) = filled-Wrote in
      let c = opened-Constructed in
      w.others 0 (ground (arith, c.fresh)) (omega arith) ∙ c.parent ∙ opened_root s

  opened_array : (opened o name s).nodes s.fresh ≡ new_node 0 (b']' ∷ [])
  opened_array = ap (opened o name s).nodes (sym (opened_fresh o name s)) ∙ opened-Constructed.new

  array_node-filled :
      (k : ℕ) × ((filled o name vs s).nodes s.fresh
        ≡ record (new_node 0 (b']' ∷ [])) { member_count = k })
  array_node-filled =
      let (k, w) = filled-Wrote in
      (
        0 + k,
        w.self ∙ ap (λ (n : Node). record n { member_count = n.member_count + k }) opened_array,
      )

  pub filled-fresh : s.fresh < (filled o name vs s).fresh
  filled-fresh =
      let (k, w) = filled-Wrote in
      omega (arith, w.fresh, opened-Constructed.fresh, opened_fresh o name s)

  -- Closing it closes the array too, and leaves the whole document in the stream.
  pub close-filled : (close 0 (filled o name vs s)).dump ≡ print (collection o name vs)
  close-filled =
      let t = filled o name vs s in
      let r = root_node-filled in
      let (k, a) = array_node-filled in
      let (m, w) = filled-Wrote in
      let c =
        close-Closes t 0 (s.fresh ∷ []) (λ p e. ground (arith, r))
          (
            ap (λ (n : Node). n.closed) r,
            ap (λ (n : Node). n.child) r,
            ap (λ (n : Node). n.parent) a,
            l,
            (
              ap (λ (n : Node). n.closed) a,
              ap (λ (n : Node). n.child) a,
              omega (arith, w.fresh, opened-Constructed.fresh, opened_fresh o name s),
            ),
          ) in
      c.dump
      ∙ ap₂ (λ x y. t.dump ++ (x ++ y)) (ap (λ (n : Node). n.close_tag) a)
          (ap (λ (n : Node). n.close_tag) r)
      ∙ filled_dump
