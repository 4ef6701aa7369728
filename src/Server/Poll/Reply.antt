-- ===== src/Server/Poll/Reply.antt =====
-- The reply to one poll.
use lib_abk.Common.{
  ℕ, ◌+◌, Bool, true, false, ◌==◌, ◌≡◌, refl, sym, ap, ◌∙◌, subst, arith, [], ◌∷◌, ◌++◌, Bytes,
  codes, if◌then◌else◌, Bool-cases, inl, inr, append_assoc, append-nil,
}
use lib_abk.Json.Escape.{c_str, quoted}
use lib_abk.Json.Document.{
  arr, obj, Values, no_values, values, Fields, no_fields, fields, comma, print, print_fields,
}
use lib_abk.Json.Stream.{Node, Store, close, formatter, init_new, root_node, object_in_object}
use lib_abk.Json.Stream.Wrote.{
  Wrote, IsIdle, separator, Wrote-nothing, Wrote-trans, IsIdle-Wrote, Constructed-IsIdle,
  close-Wrote,
}
use lib_abk.Json.Stream.Writer.{
  WritableValues, close-Wrote_root, object_in_object-Constructed, first_member, init_new-IsIdle,
  retext,
}
use lib_abk.Server.EventQueue.{EventQueue, close_and_get_formatter, no_events}
use lib_abk.Server.Trend.Transfer.{write_members-Wrote}
use lib_abk.Server.Sessions.{Session}
use lib_abk.Server.Poll.{move_events, event_polling}
use lib_abk.Server.Poll.Orders.{due_fields}
use lib_abk.Server.Poll.Transfer.{transfer_all-Wrote, transfer_all-HoldsAll}
use lib_abk.Server.Poll.Waiting.{
  Waiting, Waiting, Queued, HoldsSession, IsWritable, data_field, reply_fields, reply_document,
  sent, events_member, move_events-none, move_events-some, Queued-is_empty, Queued-dump,
  move_events-Queued,
}

blank : Store
blank = record { nodes = λ _. root_node; fresh = 1; dump = [] }

formatter-blank : formatter ≡ init_new blank
unfolding formatter blank
formatter-blank = refl

formatter-IsIdle : IsIdle 0 formatter
unfolding blank
formatter-IsIdle = subst (IsIdle 0) (sym formatter-blank) (init_new-IsIdle blank (omega arith))

member_count-formatter :
    (k : ℕ) (a : Bytes) (s : Store) → Wrote 0 k a formatter s → (s.nodes 0).member_count ≡ k
unfolding formatter init_new
member_count-formatter k a s w = omega (arith, ap (λ (n : Node). n.member_count) w.self)

abbrev event_fields : Values → Fields
event_fields vs = reply_fields vs no_fields

reply_fields-none : (vs : Values) (fs : Fields) → no_events vs ≡ true → reply_fields vs fs ≡ fs
reply_fields-none vs fs e = ap (λ b. if b then fs else fields c_str (codes "Events") (arr vs) fs) e

reply_fields-some :
    (vs : Values) (fs : Fields)
    → no_events vs ≡ false
    → reply_fields vs fs ≡ fields c_str (codes "Events") (arr vs) fs
reply_fields-some vs fs e = ap (λ b. if b then fs else fields c_str (codes "Events") (arr vs) fs) e

events_written :
    (vs : Values)
    → no_events vs ≡ false
    → separator 0 formatter ++ events_member vs ≡ print_fields true (event_fields vs)
unfolding print events_member formatter init_new
events_written vs e =
    ap (λ x. quoted c_str (codes "Events") ++ (b':' ∷ x)) (sym (append-nil (print (arr vs))))
    ∙ sym (ap (print_fields true) (reply_fields-some vs no_fields e))

-- What the first part of a poll writes.
move_events-Wrote :
    (q : EventQueue) (vs : Values)
    → Queued q vs
    → WritableValues vs
    → (k : ℕ) × Wrote 0 k
        (print_fields true (event_fields vs))
        formatter
        (move_events q formatter).1
      × ((k == 0) ≡ no_events vs)
unfolding print
move_events-Wrote q vs h w = elim (Bool-cases (no_events vs)) [
  | inl y ↦ (
    0,
    subst (Wrote 0 0 (print_fields true (event_fields vs)) formatter)
        (sym (ap (λ r. r.1) (move_events-none q formatter (Queued-is_empty q vs h w ∙ y))))
        (retext (ap (print_fields true) (sym (reply_fields-none vs no_fields y)))
          (Wrote-nothing 0 formatter)),
    sym y,
  )
  | inr y ↦ (
    1,
    subst (Wrote 0 1 (print_fields true (event_fields vs)) formatter)
        (sym (ap (λ r. r.1) (move_events-some q formatter (Queued-is_empty q vs h w ∙ y))))
        (retext (events_written vs y) (
          write_members-Wrote 0 (close_and_get_formatter q).buffer formatter (events_member vs)
            (Queued-dump q vs h w))),
    sym y,
  )
]

data_written :
    (b : Bool) (fs : Fields)
    → ((comma b [] ++ quoted c_str (codes "DataLists")) ++ (b':' ∷ b'{' ∷ []))
        ++ (print_fields true fs ++ (b'}' ∷ []))
      ≡ print_fields b (fields c_str (codes "DataLists") (obj fs) no_fields)
unfolding print
data_written b fs = simp (append_assoc, append-nil)

-- The second part of a poll, behind some members.
data-Wrote :
    (k : ℕ) (before : Bytes) (fs : Fields) (s u : Store)
    → Wrote 0 k before formatter s
    → (n : ℕ) × Wrote s.fresh n
        (print_fields true fs)
        (object_in_object 0 c_str (codes "DataLists") s)
        u
    → (close 0 (close s.fresh u)).dump
      ≡ b'{'
        ∷ ((before ++ print_fields (k == 0) (fields c_str (codes "DataLists") (obj fs) no_fields))
            ++ (b'}' ∷ []))
unfolding blank
data-Wrote k before fs s u b (n, w) =
    let d = IsIdle-Wrote formatter-IsIdle b in
    let c = object_in_object-Constructed 0 s d.known c_str (codes "DataLists") in
    let m = Wrote-trans b (close-Wrote d c w) in
    let piece =
      ((separator 0 s ++ quoted c_str (codes "DataLists")) ++ (b':' ∷ b'{' ∷ []))
      ++ (print_fields true fs ++ (b'}' ∷ [])) in
    close-Wrote_root (k + 1) (before ++ piece) blank (close s.fresh u) (omega arith)
      (subst (λ f. Wrote 0 (k + 1) (before ++ piece) f (close s.fresh u)) formatter-blank m)
    ∙ ap (λ x. b'{' ∷ ((before ++ x) ++ (b'}' ∷ [])))
        (ap
            (λ j.
              ((comma (j == 0) [] ++ quoted c_str (codes "DataLists")) ++ (b':' ∷ b'{' ∷ []))
              ++ (print_fields true fs ++ (b'}' ∷ [])))
            (member_count-formatter k before s b)
          ∙ data_written (k == 0) fs)

reply_text :
    (vs : Values) (rest : Fields)
    → print_fields true (event_fields vs) ++ print_fields (no_events vs) rest
      ≡ print_fields true (reply_fields vs rest)
unfolding print
reply_text no_values rest = refl
reply_text (values v vs) rest = simp (append_assoc, append-nil)

-- A poll of a session at which events and orders wait, after whatever filled its streams: the
-- reply's text is that of the document with the events, if there are any, in their order, and with
-- a member in the data lists for each order that is due. What is left waiting: no event, no order
-- that is due, and nothing in the trends that were sent. The condition: the names of the values in
-- the events that are no containers are written as `const char *`, and so are those in the lists.
pub event_polling-Waiting :
    (s : Session) (w : Waiting)
    → HoldsSession s w
    → IsWritable w
    → ((event_polling s).1 ≡ print (reply_document w)) × HoldsSession (event_polling s).0 (sent w)
unfolding event_polling print
event_polling-Waiting s w (q, o) (ev, ow) =
    let (k, m, e) = move_events-Wrote s.events w.events q ev in
    let t = (move_events s.events formatter).1 in
    let d = IsIdle-Wrote formatter-IsIdle m in
    let c = object_in_object-Constructed 0 t d.known c_str (codes "DataLists") in
    let r =
      transfer_all-Wrote s.daqs w.orders t.fresh true
        (object_in_object 0 c_str (codes "DataLists") t) o ow (Constructed-IsIdle c)
        (first_member c) in
    (
      data-Wrote k (print_fields true (event_fields w.events)) (due_fields w.orders) t _ m r
          ∙ ap (λ x. b'{' ∷ (x ++ (b'}' ∷ [])))
              (ap
                  (λ b.
                    print_fields true (event_fields w.events)
                    ++ print_fields b (data_field w.orders))
                  e
                ∙ reply_text w.events (data_field w.orders)),
      (
        move_events-Queued s.events w.events formatter q ev,
        transfer_all-HoldsAll s.daqs w.orders t.fresh
            (object_in_object 0 c_str (codes "DataLists") t) o,
      ),
    )
