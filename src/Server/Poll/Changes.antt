-- ===== src/Server/Poll/Changes.antt =====
-- What the single changes of a session do to what waits at it.
use lib_abk.Common.{
  ◌≡◌, refl, sym, ap, ◌∙◌, subst, List, [], ◌∷◌, ◌++◌, Bytes, if◌then◌else◌, equal, Bool-cases, inl,
  inr,
}
use lib_abk.Json.Document.{Value, Values, no_values, values}
use lib_abk.Json.Stream.Writer.{WritableValues, Writable, write_in_array}
use lib_abk.Server.EventQueue.{EventQueue, flush, queue_event, queue_events}
use lib_abk.Server.Trend.{Trend, feed_trend, feed_trends, flush_trend, tokens-WritableValues}
use lib_abk.Server.Daq.{Source, listed, trended, Daq, DaqMap, change_daq, feed_source}
use lib_abk.Server.Poll.{Event, fire_event_to_client}
use lib_abk.Server.Poll.Orders.{
  Content, current, collected, Order, content_values, left_over, send, send_all, Holds, HoldsAll,
  AllWritable,
}
use lib_abk.Server.Poll.Transfer.{due-send, idle-send}
use lib_abk.Server.Poll.Waiting.{Queued}
use lib_abk.Server.Poll.Spec.{event_value, append_values, one_value, change_order, collect}

pub fire-queue_event :
    (e : Event) (role : Bytes) (q : EventQueue)
    → fire_event_to_client e role q ≡ queue_event (event_value e role) q
unfolding fire_event_to_client queue_event write_in_array event_value
fire-queue_event e role q = refl

pub queue_events-append :
    (vs : Values) (v : Value) (q : EventQueue)
    → queue_event v (queue_events vs q) ≡ queue_events (append_values vs (one_value v)) q
unfolding queue_events
queue_events-append no_values v q = refl
queue_events-append (values u vs) v q = queue_events-append vs v (queue_event u q)

pub append-WritableValues :
    (vs : Values) (v : Value)
    → WritableValues vs
    → Writable v
    → WritableValues (append_values vs (one_value v))
append-WritableValues no_values v h k = (k, tt)
append-WritableValues (values u vs) v (a, h) k = (a, append-WritableValues vs v h k)

pub feed_trends-append :
    (vs : List Bytes) (v : Bytes) (t : Trend)
    → feed_trend v (feed_trends vs t) ≡ feed_trends (vs ++ (v ∷ [])) t
unfolding feed_trends
feed_trends-append [] v t = refl
feed_trends-append (u ∷ vs) v t = feed_trends-append vs v (feed_trend u t)

pub fire-Queued :
    (e : Event) (role : Bytes) (q : EventQueue) (vs : Values)
    → Queued q vs
    → Queued (fire_event_to_client e role q) (append_values vs (one_value (event_value e role)))
fire-Queued e role q vs (p, l, n, h) =
    let v = event_value e role in
    (p, l, n, fire-queue_event e role q ∙ ap (queue_event v) h ∙ queue_events-append vs v (flush p))

pub collect-Holds :
    (t : Bytes) (c : Source) (n : Bytes) (k : Content)
    → Holds c n k
    → Holds (feed_source t c) n (collect t k)
collect-Holds t (listed k l) n (current j vs) h = h
collect-Holds t (trended u) n (collected vs) (v, l, m, e) =
    (v, l, m, ap (feed_trend t) e ∙ feed_trends-append vs t (flush_trend v))
collect-Holds t (listed k l) n (collected vs) h = absurd h
collect-Holds t (trended u) n (current j vs) h = absurd h

-- What stands for a list, and what stands for it behind a change.
abbrev pub Stands : Daq → Order → Type 0
Stands d o = (d.pending ≡ o.due) × Holds d.source o.order_name o.content

pub change-HoldsAll :
    (name : Bytes) (f : Daq → Daq) (g : Order → Order) (m : DaqMap) (os : List Order)
    → ((o : Order) → o.order_name ≡ (g o).order_name)
    → ((d : Daq) (o : Order) → Stands d o → Stands (f d) (g o))
    → HoldsAll m os
    → HoldsAll (change_daq name f m) (change_order name g os)
change-HoldsAll name f g [] [] a k h = tt
change-HoldsAll name f g [] (o ∷ os) a k h = absurd h
change-HoldsAll name f g (x ∷ m) [] a k h = absurd h
change-HoldsAll name f g ((n, d) ∷ m) (o ∷ os) a k (e, p, h, hs) =
    let there = change-HoldsAll name f g m os a k hs in
    elim (Bool-cases (equal o.order_name name)) [
      | inl y ↦
          subst
            (λ b.
              HoldsAll (if b then (n, f d) ∷ m else (n, d) ∷ change_daq name f m)
                (change_order name g (o ∷ os)))
            (sym (ap (λ x. equal x name) e ∙ y))
            (subst
              (λ b. HoldsAll ((n, f d) ∷ m) (if b then g o ∷ os else o ∷ change_order name g os))
              (sym y) (e ∙ a o, (k d o (p, h)).0, (k d o (p, h)).1, hs))
      | inr y ↦
          subst
            (λ b.
              HoldsAll (if b then (n, f d) ∷ m else (n, d) ∷ change_daq name f m)
                (change_order name g (o ∷ os)))
            (sym (ap (λ x. equal x name) e ∙ y))
            (subst
              (λ b.
                HoldsAll ((n, d) ∷ change_daq name f m)
                  (if b then g o ∷ os else o ∷ change_order name g os))
              (sym y) (e, p, h, there))
    ]

pub change-AllWritable :
    (name : Bytes) (g : Order → Order) (os : List Order)
    → ((o : Order)
        → WritableValues (content_values o.content)
        → WritableValues (content_values (g o).content))
    → AllWritable os
    → AllWritable (change_order name g os)
change-AllWritable name g [] k h = tt
change-AllWritable name g (o ∷ os) k (a, h) =
    let there = change-AllWritable name g os k h in
    elim (Bool-cases (equal o.order_name name)) [
      | inl y ↦ rw y (k o a, h)
      | inr y ↦ rw y (a, there)
    ]

pub collect-Writable :
    (t : Bytes) (c : Content)
    → WritableValues (content_values c)
    → WritableValues (content_values (collect t c))
collect-Writable t (current k vs) h = h
collect-Writable t (collected vs) h = tokens-WritableValues (vs ++ (t ∷ []))

pub left_over-Writable :
    (c : Content)
    → WritableValues (content_values c)
    → WritableValues (content_values (left_over c))
left_over-Writable (current k vs) h = h
left_over-Writable (collected vs) h = tt

pub send_all-AllWritable : (os : List Order) → AllWritable os → AllWritable (send_all os)
send_all-AllWritable [] h = tt
send_all-AllWritable (o ∷ os) (a, h) = (sent_one o a, send_all-AllWritable os h)
  where
    sent_one :
        (o : Order)
        → WritableValues (content_values o.content)
        → WritableValues (content_values (send o).content)
    sent_one o a = elim (Bool-cases o.due) [
      | inl y ↦
          subst (λ x. WritableValues (content_values x.content)) (sym (due-send o y))
            (left_over-Writable o.content a)
      | inr y ↦ subst (λ x. WritableValues (content_values x.content)) (sym (idle-send o y)) a
    ]

pub event_value-Writable : (e : Event) (role : Bytes) → Writable (event_value e role)
unfolding event_value
event_value-Writable e role =
    (tt, tt, (tt, tt, (tt, tt, (tt, tt, (tt, tt, (tt, tt, (tt, tt, tt)))))))
