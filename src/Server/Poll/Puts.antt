-- ===== src/Server/Poll/Puts.antt =====
-- Orders that come and go: the map of the lists against the orders of the specification.
use lib_abk.Common.{
  false, ◌≡◌, refl, sym, ap, ◌∙◌, subst, arith, List, [], ◌∷◌, Bytes, none, some, Ordering, lt, eq,
  gt, equal, Bool-cases, Option-cases, inl, inr,
}
use lib_abk.Json.Stream.{formatter, init_new}
use lib_abk.Json.Stream.Writer.{WritableValues}
use lib_abk.Server.Dispatch.{strcmp}
use lib_abk.Server.Dispatch.Order.{Ordering-cases}
use lib_abk.Server.ValueList.{Kind}
use lib_abk.Server.Trend.{new_trend, feed_trends}
use lib_abk.Server.Daq.{
  Daq, DaqMap, get_daq, insert_daq, erase_daq, created_list, created_trend, put_daq,
  delete_daq_list,
}
use lib_abk.Server.Poll.Orders.{
  current, collected, Order, content_values, Holds, HoldsAll, AllWritable,
}
use lib_abk.Server.Poll.Spec.{get_order, insert_order, erase_order, put_order}

insert-HoldsAll :
    (d : Daq) (o : Order) (m : DaqMap) (os : List Order)
    → d.pending ≡ o.due
    → Holds d.source o.order_name o.content
    → HoldsAll m os
    → HoldsAll (insert_daq o.order_name d m) (insert_order o os)
insert-HoldsAll d o [] [] p h hs = (refl, p, h, tt)
insert-HoldsAll d o [] (q ∷ os) p h hs = absurd hs
insert-HoldsAll d o (x ∷ m) [] p h hs = absurd hs
insert-HoldsAll d o ((n, e) ∷ m) (q ∷ os) p h (a, b, c, hs) =
    let there = insert-HoldsAll d o m os p h hs in
    subst (λ n. HoldsAll (insert_daq o.order_name d ((n, e) ∷ m)) (insert_order o (q ∷ os))) (sym a)
      (elim (Ordering-cases (strcmp o.order_name q.order_name)) [
        | inl y ↦ subst goal (sym y) (refl, p, h, (refl, b, c, hs))
        | inr (inl y) ↦ subst goal (sym y) (refl, b, c, hs)
        | inr (inr y) ↦ subst goal (sym y) (refl, b, c, there)
      ])
  where
    goal : Ordering → Type 0
    goal r =
        HoldsAll
          (elim r [
            | lt ↦ (o.order_name, d) ∷ (q.order_name, e) ∷ m
            | eq ↦ (q.order_name, e) ∷ m
            | gt ↦ (q.order_name, e) ∷ insert_daq o.order_name d m
          ])
          (elim r [ lt ↦ o ∷ q ∷ os | eq ↦ q ∷ os | gt ↦ q ∷ insert_order o os ])

get-none :
    (name : Bytes) (m : DaqMap) (os : List Order)
    → HoldsAll m os
    → get_daq name m ≡ none
    → get_order name os ≡ none
get-none name [] [] h e = refl
get-none name [] (o ∷ os) h e = absurd h
get-none name (x ∷ m) [] h e = absurd h
get-none name ((n, d) ∷ m) (o ∷ os) (a, b, c, h) e =
    let same = ap (λ x. equal x name) a in
    elim (Bool-cases (equal n name)) [
      | inl y ↦ ground (arith, rw y at e)
      | inr y ↦ rw (sym same ∙ y) (get-none name m os h (rw y at e))
    ]

get-some :
    (name : Bytes) (m : DaqMap) (os : List Order) (d : Daq)
    → HoldsAll m os
    → get_daq name m ≡ some d
    → (o : Order) × (get_order name os ≡ some o)
get-some name [] [] d h e = ground (arith, e)
get-some name [] (o ∷ os) d h e = absurd h
get-some name (x ∷ m) [] d h e = absurd h
get-some name ((n, c) ∷ m) (o ∷ os) d (a, b, k, h) e =
    let same = ap (λ x. equal x name) a in
    elim (Bool-cases (equal n name)) [
      | inl y ↦ (o, rw (sym same ∙ y) refl)
      | inr y ↦ let (p, f) = get-some name m os d h (rw y at e) in (p, rw (sym same ∙ y) f)
    ]

-- A new list or trend stands for a new order; what is there stays.
pub put-HoldsAll :
    (d : Daq) (o : Order) (m : DaqMap) (os : List Order)
    → d.pending ≡ o.due
    → Holds d.source o.order_name o.content
    → HoldsAll m os
    → HoldsAll (put_daq o.order_name d m) (put_order o os)
unfolding put_daq
put-HoldsAll d o m os p h hs = elim (Option-cases (get_daq o.order_name m)) [
  | inl e ↦
      rw (e, get-none o.order_name m os hs e, put_daq, put_order, HoldsAll)
        (insert-HoldsAll d o m os p h hs)
  | inr (c, e) ↦ rw (e, (get-some o.order_name m os c hs e).1, put_daq, put_order, HoldsAll) hs
]

pub created_list-Holds :
    (k : Kind) (name : Bytes) → Holds (created_list k name).source name (current k [])
created_list-Holds k name = (refl, refl)

pub created_trend-Holds : (name : Bytes) → Holds (created_trend name).source name (collected [])
unfolding new_trend feed_trends formatter init_new
created_trend-Holds name = (
  record { data_store = formatter; data_array = none; trend_name = name; trend_empty = false },
  omega arith,
  refl,
  refl,
)

erase-HoldsAll :
    (name : Bytes) (m : DaqMap) (os : List Order)
    → HoldsAll m os
    → HoldsAll (erase_daq name m) (erase_order name os)
erase-HoldsAll name [] [] h = tt
erase-HoldsAll name [] (o ∷ os) h = absurd h
erase-HoldsAll name (x ∷ m) [] h = absurd h
erase-HoldsAll name ((n, d) ∷ m) (o ∷ os) (a, b, c, h) =
    let there = erase-HoldsAll name m os h in
    subst (λ n. HoldsAll (erase_daq name ((n, d) ∷ m)) (erase_order name (o ∷ os))) (sym a)
      (elim (Bool-cases (equal o.order_name name)) [
        | inl y ↦ rw y h
        | inr y ↦ rw y (refl, b, c, there)
      ])

erase_daq-none : (name : Bytes) (m : DaqMap) → get_daq name m ≡ none → m ≡ erase_daq name m
erase_daq-none name [] e = refl
erase_daq-none name ((n, d) ∷ m) e = elim (Bool-cases (equal n name)) [
  | inl y ↦ ground (arith, rw y at e)
  | inr y ↦ rw y (ap (λ r. (n, d) ∷ r) (erase_daq-none name m (rw y at e)))
]

-- A list that is deleted stands for an order that is gone.
pub delete-HoldsAll :
    (name : Bytes) (m : DaqMap) (os : List Order)
    → HoldsAll m os
    → HoldsAll (delete_daq_list name m).1 (erase_order name os)
unfolding delete_daq_list
delete-HoldsAll name m os h = elim (Option-cases (get_daq name m)) [
  | inl e ↦
      rw (e, delete_daq_list)
        (subst (λ r. HoldsAll r (erase_order name os)) (sym (erase_daq-none name m e))
          (erase-HoldsAll name m os h))
  | inr (d, e) ↦ rw (e, delete_daq_list) (erase-HoldsAll name m os h)
]

insert-AllWritable :
    (o : Order) (os : List Order)
    → WritableValues (content_values o.content)
    → AllWritable os
    → AllWritable (insert_order o os)
insert-AllWritable o [] h k = (h, tt)
insert-AllWritable o (p ∷ os) h (a, k) =
    let there = insert-AllWritable o os h k in
    elim (Ordering-cases (strcmp o.order_name p.order_name)) [
      | inl y ↦ rw (y, AllWritable) (h, (a, k))
      | inr (inl y) ↦ rw (y, AllWritable) (a, k)
      | inr (inr y) ↦ rw (y, AllWritable) (a, there)
    ]

pub put-AllWritable :
    (o : Order) (os : List Order)
    → WritableValues (content_values o.content)
    → AllWritable os
    → AllWritable (put_order o os)
put-AllWritable o os h k = elim (Option-cases (get_order o.order_name os)) [
  | inl e ↦ rw (e, put_order, AllWritable) (insert-AllWritable o os h k)
  | inr (p, e) ↦ rw (e, put_order, AllWritable) k
]

pub erase-AllWritable :
    (name : Bytes) (os : List Order) → AllWritable os → AllWritable (erase_order name os)
erase-AllWritable name [] k = tt
erase-AllWritable name (o ∷ os) (a, k) =
    let there = erase-AllWritable name os k in
    elim (Bool-cases (equal o.order_name name)) [ inl y ↦ rw y k | inr y ↦ rw y (a, there) ]
