-- ===== src/Server/Poll/Transfer.antt =====
-- The transfer of what a client has ordered.
use lib_abk.Common.{
  ℕ, ◌+◌, Bool, true, false, ◌==◌, ◌≡◌, refl, sym, ap, ◌∙◌, subst, List, [], ◌∷◌, ◌++◌, Bytes,
  if◌then◌else◌, Bool-cases, inl, inr, append_assoc,
}
use lib_abk.Json.Escape.{std_string, quoted}
use lib_abk.Json.Document.{arr, Fields, fields, comma, print, print_fields}
use lib_abk.Json.Stream.{Store}
use lib_abk.Json.Stream.Wrote.{Wrote, IsIdle, separator, Wrote-nothing, Wrote-trans, IsIdle-Wrote}
use lib_abk.Json.Stream.Writer.{WritableValues, write_in_object-Wrote, retext, later_member}
use lib_abk.Server.ValueList.{variable_values, format_list, format_list-write_in_object}
use lib_abk.Server.Trend.{feed_trends, flush_trend, format_all_data, trend_member}
use lib_abk.Server.Trend.Transfer.{format_all_data-Wrote, format_all_data-flushes}
use lib_abk.Server.Daq.{Source, listed, trended, Daq, DaqMap, format_source, transfer, transfer_all}
use lib_abk.Server.Poll.Orders.{
  Content, Order, content_values, left_over, send, send_all, due_fields, Holds, HoldsAll,
  AllWritable, current, collected,
}

order_member : Bytes → Content → Bytes
order_member n c = quoted std_string n ++ (b':' ∷ print (arr (content_values c)))

format_source-Wrote :
    (i : ℕ) (c : Source) (n : Bytes) (k : Content) (s : Store)
    → Holds c n k
    → WritableValues (content_values k)
    → IsIdle i s
    → Wrote i 1 (separator i s ++ order_member n k) s (format_source i c s).1
unfolding order_member print
format_source-Wrote i (listed k l) n (current j vs) s (a, e) w d =
    let v = subst (λ c. WritableValues (content_values c)) (sym e) w in
    subst (λ m. Wrote i 1 (separator i s ++ order_member m (current j vs)) s (format_list k i l s))
      a
      (subst (λ c. Wrote i 1 (separator i s ++ order_member l.list_name c) s (format_list k i l s))
        e
        (subst (Wrote i 1 (separator i s ++ order_member l.list_name (current k l.variables)) s)
          (sym (format_list-write_in_object k i l s))
          (write_in_object-Wrote (arr (variable_values k l.variables)) i std_string l.list_name s tt
            v d)))
format_source-Wrote i (trended t) n (collected vs) s (u, l, b, e) w d =
    subst
      (λ v. Wrote i 1 (separator i s ++ order_member n (collected vs)) s (format_all_data i v s).1)
      (sym e)
      (subst
        (λ m.
          Wrote i 1 (separator i s ++ trend_member m vs) s
            (format_all_data i (feed_trends vs (flush_trend u)) s).1)
        b (format_all_data-Wrote u vs i s l))
format_source-Wrote i (listed k l) n (collected vs) s h w d = absurd h
format_source-Wrote i (trended t) n (current j vs) s h w d = absurd h

format_source-Holds :
    (i : ℕ) (c : Source) (n : Bytes) (k : Content) (s : Store)
    → Holds c n k
    → Holds (format_source i c s).0 n (left_over k)
unfolding feed_trends
format_source-Holds i (listed k l) n (current j vs) s h = h
format_source-Holds i (trended t) n (collected vs) s (u, l, b, e) =
    let (v, m, a, f) = format_all_data-flushes u vs i s l in
    (v, m, a ∙ b, ap (λ x. (format_all_data i x s).0) e ∙ f)
format_source-Holds i (listed k l) n (collected vs) s h = absurd h
format_source-Holds i (trended t) n (current j vs) s h = absurd h

transfer-due :
    (i : ℕ) (d : Daq) (s : Store)
    → d.pending ≡ true
    → transfer i d s ≡ (
      record { source = (format_source i d.source s).0; pending = false },
      (format_source i d.source s).1,
    )
unfolding transfer
transfer-due i d s e =
    let (c, r) = format_source i d.source s in
    ap (λ b. if b then (record { source = c; pending = false }, r) else (d, s)) e

transfer-idle : (i : ℕ) (d : Daq) (s : Store) → d.pending ≡ false → transfer i d s ≡ (d, s)
unfolding transfer
transfer-idle i d s e =
    let (c, r) = format_source i d.source s in
    ap (λ b. if b then (record { source = c; pending = false }, r) else (d, s)) e

regroup : (x q p r : Bytes) → (x ++ (q ++ (b':' ∷ p))) ++ r ≡ x ++ (q ++ (b':' ∷ (p ++ r)))
regroup x q p r = simp append_assoc

-- A member, and those behind it, as the members of an object.
members :
    (i : ℕ) (first : Bool) (o : Order) (rest : Fields) (s : Store)
    → ((s.nodes i).member_count == 0) ≡ first
    → (separator i s ++ order_member o.order_name o.content) ++ print_fields false rest
      ≡ print_fields first (fields std_string o.order_name (arr (content_values o.content)) rest)
unfolding order_member print
members i first o rest s e =
    let v = print (arr (content_values o.content)) in
    let name = quoted std_string o.order_name in
    regroup (separator i s) name v (print_fields false rest)
    ∙ ap (λ f. comma f [] ++ (name ++ (b':' ∷ (v ++ print_fields false rest)))) e

due_fields-due :
    (o : Order) (os : List Order)
    → o.due ≡ true
    → fields std_string o.order_name (arr (content_values o.content)) (due_fields os)
      ≡ due_fields (o ∷ os)
due_fields-due o os e =
    let rest = due_fields os in
    sym (
      ap
        (λ b.
          if b then fields std_string o.order_name (arr (content_values o.content)) rest else rest)
        e)

due_fields-idle :
    (o : Order) (os : List Order) → o.due ≡ false → due_fields os ≡ due_fields (o ∷ os)
due_fields-idle o os e =
    let rest = due_fields os in
    sym (
      ap
        (λ b.
          if b then fields std_string o.order_name (arr (content_values o.content)) rest else rest)
        e)

-- A transfer writes the members for the orders that are due, in their order.
pub transfer_all-Wrote :
    (m : DaqMap) (os : List Order) (i : ℕ) (first : Bool) (s : Store)
    → HoldsAll m os
    → AllWritable os
    → IsIdle i s
    → ((s.nodes i).member_count == 0) ≡ first
    → (k : ℕ) × Wrote i k (print_fields first (due_fields os)) s (transfer_all i m s).1
unfolding transfer_all print
transfer_all-Wrote [] [] i first s h w d e = (0, Wrote-nothing i s)
transfer_all-Wrote [] (o ∷ os) i first s h w d e = absurd h
transfer_all-Wrote (x ∷ m) [] i first s h w d e = absurd h
transfer_all-Wrote ((n, d) ∷ m) (o ∷ os) i first s (_, p, h, hs) (w, ws) idle e =
    elim (Bool-cases d.pending) [
      | inl y ↦
          let moved = ap (λ r. r.1) (transfer-due i d s y) in
          let a =
            subst (Wrote i 1 (separator i s ++ order_member o.order_name o.content) s) (sym moved)
              (format_source-Wrote i d.source o.order_name o.content s h w idle) in
          let b =
            transfer_all-Wrote m os i false (transfer i d s).1 hs ws (IsIdle-Wrote idle a)
              (later_member a) in
          (
            1 + b.0,
            retext
                (members i first o (due_fields os) s e
                  ∙ ap (print_fields first) (due_fields-due o os (sym p ∙ y)))
                (Wrote-trans a b.1),
          )
      | inr y ↦
          let same = ap (λ r. r.1) (transfer-idle i d s y) in
          let b = transfer_all-Wrote m os i first s hs ws idle e in
          (
            b.0,
            subst
                (λ r.
                  Wrote i b.0 (print_fields first (due_fields (o ∷ os))) s (transfer_all i m r).1)
                (sym same)
                (retext (ap (print_fields first) (due_fields-idle o os (sym p ∙ y))) b.1),
          )
    ]

pub due-send :
    (o : Order) → o.due ≡ true → send o ≡ record o { content = left_over o.content; due = false }
due-send o e = ap (λ b. if b then record o { content = left_over o.content; due = false } else o) e

pub idle-send : (o : Order) → o.due ≡ false → send o ≡ o
idle-send o e = ap (λ b. if b then record o { content = left_over o.content; due = false } else o) e

-- What is left behind a transfer.
pub transfer_all-HoldsAll :
    (m : DaqMap) (os : List Order) (i : ℕ) (s : Store)
    → HoldsAll m os
    → HoldsAll (transfer_all i m s).0 (send_all os)
unfolding transfer_all
transfer_all-HoldsAll [] [] i s h = tt
transfer_all-HoldsAll [] (o ∷ os) i s h = absurd h
transfer_all-HoldsAll (x ∷ m) [] i s h = absurd h
transfer_all-HoldsAll ((n, d) ∷ m) (o ∷ os) i s (a, p, h, hs) =
    let rest = transfer_all-HoldsAll m os i (transfer i d s).1 hs in
    elim (Bool-cases d.pending) [
      | inl y ↦
          subst
            (λ x. HoldsAll ((n, x.0) ∷ (transfer_all i m (transfer i d s).1).0) (send_all (o ∷ os)))
            (sym (transfer-due i d s y))
            (subst
              (λ x.
                HoldsAll
                  ((n, record { source = (format_source i d.source s).0; pending = false })
                    ∷ (transfer_all i m (transfer i d s).1).0)
                  (x ∷ send_all os))
              (sym (due-send o (sym p ∙ y)))
              (a, refl, format_source-Holds i d.source o.order_name o.content s h, rest))
      | inr y ↦
          subst
            (λ x. HoldsAll ((n, x.0) ∷ (transfer_all i m (transfer i d s).1).0) (send_all (o ∷ os)))
            (sym (transfer-idle i d s y))
            (subst
              (λ x. HoldsAll ((n, d) ∷ (transfer_all i m (transfer i d s).1).0) (x ∷ send_all os))
              (sym (idle-send o (sym p ∙ y))) (a, p, h, rest))
    ]
