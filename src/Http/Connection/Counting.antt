-- ===== src/Http/Connection/Counting.antt =====
-- The counters of `STATISTICS` over any life of a connection.
use lib_abk.Common.{
  zero, suc, ◌||◌, Bool, true, false, ◌≡◌, ap, arith, [], ◌∷◌, ◌++◌, List, Option, none, some, ltb,
  length, inl, inr, length-append, Option-cases, Bool-cases, ℤ, pos, negsuc, subst,
}
use mathlib.Core.Option.{some-injective}
use lib_abk.Http.Completeness.{test_request_completeness}
use lib_abk.Http.Connection.{
  SendAnswer, send, Connection, Reading, received, read_failed, Wake, network, wait_failed,
  shutdown, timed_out, enum_failed, after_receiving, continue_sending, RequestHandler,
  handle_complete, on_read, on_write, wake_up, connection_thread,
}
use lib_abk.Http.Connection.Sending.{send-counted}

-- The counter of sent bytes is right.
abbrev pub CountsSent : Connection → Type 0
CountsSent c = c.total_sent ≡ length c.outgoing

continue_sending-CountsSent :
    (os : List SendAnswer) (c c' : Connection)
    → CountsSent c
    → continue_sending os c ≡ some c'
    → CountsSent c'
continue_sending-CountsSent os c c' h e = elim (Option-cases (send os c.response c.send_advance)) [
  | inl n ↦ cc (rw (n, continue_sending) at e)
  | inr (r, f) ↦ subst CountsSent (some-injective _ _ (rw (f, continue_sending) at e)) (
      omega
        (arith, h, send-counted os c.response c.send_advance r f, length-append c.outgoing r.bytes))
]

module _ {World : Type 0} (handle : RequestHandler World) where
  handle_complete-CountsSent :
      (z : ℤ) (os : List SendAnswer) (c c' : Connection) (w w' : World)
      → CountsSent c
      → handle_complete handle z os c w ≡ some (c', w')
      → CountsSent c'
  handle_complete-CountsSent (pos zero) os c c' w w' h e =
      subst CountsSent (ap (λ x. x.0) (some-injective _ _ e)) h
  handle_complete-CountsSent (negsuc n) os c c' w w' h e =
      subst CountsSent (ap (λ x. x.0) (some-injective _ _ e)) h
  handle_complete-CountsSent (pos (suc start)) os c c' w w' h e =
      elim (Option-cases (handle c.request (suc start) c.response c.keep_alive w)) [
        | inl n ↦ cc (rw (n, handle_complete) at e)
        | inr ((response, later), f) ↦
            let ready : Connection = record c { response = response; send_advance = 0 } in
            elim (Option-cases (continue_sending os ready)) [
              | inl n ↦ cc (rw (f, n, handle_complete) at e)
              | inr (d, g) ↦
                  subst CountsSent
                    (ap (λ x. x.0) (some-injective _ _ (rw (f, g, handle_complete) at e)))
                    (continue_sending-CountsSent os ready d h g)
            ]
      ]

  on_read-CountsSent :
      (r : Option Reading) (c c' : Connection) (w w' : World)
      → CountsSent c
      → on_read handle r c w ≡ some (c', w')
      → CountsSent c'
  unfolding on_read
  on_read-CountsSent none c c' w w' h e = subst CountsSent (ap (λ x. x.0) (some-injective _ _ e)) h
  on_read-CountsSent (some read_failed) c c' w w' h e =
      subst CountsSent (ap (λ x. x.0) (some-injective _ _ e)) h
  on_read-CountsSent (some (received b os)) c c' w w' h e =
      handle_complete-CountsSent (test_request_completeness (c.request ++ b)) os
        (after_receiving b c) c' w w' h e

  on_write-CountsSent :
      (r : Option (List SendAnswer)) (c c' : Connection)
      → CountsSent c
      → on_write handle r c ≡ some c'
      → CountsSent c'
  unfolding on_write
  on_write-CountsSent none c c' h e = subst CountsSent (some-injective _ _ e) h
  on_write-CountsSent (some os) c c' h e = elim (Bool-cases (ltb 0 c.send_advance)) [
    | inl l ↦ continue_sending-CountsSent os c c' h (rw l at e)
    | inr l ↦ subst CountsSent (some-injective _ _ (rw l at e)) h
  ]

  wake_up-CountsSent :
      (wake : Wake) (c c' : Connection) (w w' : World) (go : Bool)
      → CountsSent c
      → wake_up handle wake c w ≡ some (go, (c', w'))
      → CountsSent c'
  unfolding wake_up
  wake_up-CountsSent (network r s closed) c c' w w' go h e =
      elim (Option-cases (on_read handle r c w)) [
        | inl n ↦ cc (rw (n, wake_up) at e)
        | inr ((d, later), f) ↦ elim (Option-cases (on_write handle s d)) [
          | inl n ↦ cc (rw (f, n, wake_up) at e)
          | inr (d', g) ↦
              subst CountsSent (ap (λ x. x.1.0) (some-injective _ _ (rw (f, g, wake_up) at e)))
                (on_write-CountsSent s d d' (on_read-CountsSent r c d w later h f) g)
        ]
      ]
  wake_up-CountsSent wait_failed c c' w w' go h e =
      subst CountsSent (ap (λ x. x.1.0) (some-injective _ _ e)) h
  wake_up-CountsSent shutdown c c' w w' go h e =
      subst CountsSent (ap (λ x. x.1.0) (some-injective _ _ e)) h
  wake_up-CountsSent timed_out c c' w w' go h e =
      subst CountsSent (ap (λ x. x.1.0) (some-injective _ _ e)) h
  wake_up-CountsSent enum_failed c c' w w' go h e =
      subst CountsSent (ap (λ x. x.1.0) (some-injective _ _ e)) h

  pub connection_thread-CountsSent :
      (wakes : List Wake) (c c' : Connection) (w w' : World)
      → CountsSent c
      → connection_thread handle wakes c w ≡ some (c', w')
      → CountsSent c'
  unfolding connection_thread
  connection_thread-CountsSent [] c c' w w' h e =
      subst CountsSent (ap (λ x. x.0) (some-injective _ _ e)) h
  connection_thread-CountsSent (wake ∷ wakes) c c' w w' h e =
      elim (Bool-cases (c.keep_alive || ltb 0 c.send_advance)) [
        | inr l ↦
            subst CountsSent (ap (λ x. x.0) (some-injective _ _ (rw (l, connection_thread) at e))) h
        | inl l ↦ elim (Option-cases (wake_up handle wake c w)) [
          | inl n ↦ cc (rw (l, n, connection_thread) at e)
          | inr ((true, (d, later)), f) ↦
              connection_thread-CountsSent wakes d c' later w'
                (wake_up-CountsSent wake c d w later true h f) (rw (l, f, connection_thread) at e)
          | inr ((false, (d, later)), f) ↦
              subst CountsSent
                (ap (λ x. x.0) (some-injective _ _ (rw (l, f, connection_thread) at e)))
                (wake_up-CountsSent wake c d w later false h f)
        ]
      ]
