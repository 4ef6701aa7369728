-- ===== src/Http/Connection/Exchange.antt =====
-- Requests that arrive in pieces over one connection, and the responses that are sent for them.
pub mod Delivery
pub mod Messages
pub mod Service
pub mod Stalled
use lib_abk.Common.{
  ℕ, zero, suc, ◌+◌, ◌<◌, ◌||◌, Bool, true, false, ◌≡◌, refl, sym, ap, ◌∙◌, arith, [], ◌∷◌, ◌++◌,
  List, Bytes, Option, none, some, ltb, ℤ, pos, negsuc, length, ◌⊎◌, inl, inr, append_assoc, map,
  subst, if◌then◌else◌,
}
use lib_abk.Http.Completeness.{end_mark, content_key, test_request_completeness}
use lib_abk.Http.Connection.{
  SendAnswer, Sent, send, Connection, Reading, received, Wake, network, after_sending,
  after_receiving, RequestHandler, handle_complete, on_read, continue_sending, on_write, wake_up,
  connection_thread,
}

-- Something is there to read, and nothing else has happened.
abbrev pub read_wake : Bytes → List SendAnswer → Wake
read_wake b os = network (some (received b os)) none false

-- There is room to write, and nothing else has happened.
abbrev pub write_wake : List SendAnswer → Wake
write_wake os = network none (some os) false

abbrev pub NotComplete : ℤ → Type 0
NotComplete z = (z ≡ negsuc 0) ⊎ (z ≡ pos 0)

-- No piece completes what was received before it.
abbrev pub Incomplete : Bytes → List Bytes → Type 0
Incomplete q [] = Unit {0}
Incomplete q (p ∷ ps) = NotComplete (test_request_completeness (q ++ p)) × Incomplete (q ++ p) ps

abbrev pub receive_all : List Bytes → Connection → Connection
receive_all [] c = c
receive_all (p ∷ ps) c = receive_all ps (after_receiving p c)

module _ {World : Type 0} (handle : RequestHandler World) where
  handle-NotComplete :
      (z : ℤ) (os : List SendAnswer) (c : Connection) (w : World)
      → NotComplete z
      → handle_complete handle z os c w ≡ some (c, w)
  handle-NotComplete z os c w (inl e) = rw (e, handle_complete) refl
  handle-NotComplete z os c w (inr e) = rw (e, handle_complete) refl

  wake_up-incomplete :
      (p : Bytes) (os : List SendAnswer) (c : Connection) (w : World)
      → NotComplete (test_request_completeness (c.request ++ p))
      → wake_up handle (read_wake p os) c w ≡ some (true, (after_receiving p c, w))
  unfolding wake_up on_read on_write
  wake_up-incomplete p os c w n =
      rw
        (
          handle-NotComplete (test_request_completeness (c.request ++ p)) os (after_receiving p c) w
              n,
          wake_up,
          on_read,
        )
        refl

  -- A wake-up after which the loop goes on.
  pub thread-step :
      (wake : Wake) (rest : List Wake) (c c' : Connection) (w w' : World)
      → (c.keep_alive || ltb 0 c.send_advance) ≡ true
      → wake_up handle wake c w ≡ some (true, (c', w'))
      → connection_thread handle (wake ∷ rest) c w ≡ connection_thread handle rest c' w'
  unfolding connection_thread
  thread-step wake rest c c' w w' h e = rw (h, e, connection_thread) refl

  pub thread-pieces :
      (ps : List Bytes) (rest : List Wake) (c : Connection) (w : World)
      → c.keep_alive ≡ true
      → Incomplete c.request ps
      → connection_thread handle (map (λ p. read_wake p []) ps ++ rest) c w
        ≡ connection_thread handle rest (receive_all ps c) w
  thread-pieces [] rest c w k i = refl
  thread-pieces (p ∷ ps) rest c w k (n, i) =
      thread-step (read_wake p []) (map (λ p. read_wake p []) ps ++ rest) c (after_receiving p c) w
        w (ap (λ b. b || ltb 0 c.send_advance) k) (wake_up-incomplete p [] c w n)
      ∙ thread-pieces ps rest (after_receiving p c) w k i

  pub wake_up_complete :
      (p response : Bytes) (start : ℕ) (os : List SendAnswer) (r : Sent) (c : Connection)
      (w w' : World)
      → test_request_completeness (c.request ++ p) ≡ pos (suc start)
      → handle (c.request ++ p) (suc start) c.response c.keep_alive w ≡ some (response, w')
      → send os response 0 ≡ some r
      → wake_up handle (read_wake p os) c w
        ≡ some (
          true,
          (
            after_sending r
                (record (after_receiving p c) { response = response; send_advance = 0 }),
            w',
          ),
        )
  unfolding wake_up on_read on_write
  wake_up_complete p response start os r c w w' t h e =
      rw (t, h, e, wake_up, on_read, handle_complete, continue_sending) refl

  pub wake_up-write :
      (os : List SendAnswer) (r : Sent) (c : Connection) (w : World)
      → 0 < c.send_advance
      → send os c.response c.send_advance ≡ some r
      → wake_up handle (write_wake os) c w ≡ some (true, (after_sending r c, w))
  unfolding wake_up on_read on_write
  wake_up-write os r c w l e =
      let room : ltb 0 c.send_advance ≡ true = ground arith in
      rw (room, e, wake_up, on_write, continue_sending) refl
