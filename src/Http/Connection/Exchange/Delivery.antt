-- ===== src/Http/Connection/Exchange/Delivery.antt =====
-- The sending of one response in several parts, as the client makes room.
use lib_abk.Common.{
  ℕ, ◌<◌, ◌||◌, true, ◌≡◌, refl, sym, ap, ◌∙◌, arith, [], ◌∷◌, ◌++◌, List, Bytes, some, ltb, length,
  inl, inr, append_assoc, map, take,
}
use lib_abk.Http.Text.{drop, take-drop}
use lib_abk.Http.Connection.{
  SendAnswer, Sent, send, Connection, Wake, after_sending, RequestHandler, connection_thread,
}
use lib_abk.Http.Connection.Sending.{send-Ends, take_more}
use lib_abk.Http.Connection.Exchange.{write_wake, wake_up-write, thread-step}

-- A sending from a position, and those that continue it, which send all of the response.
pub data Delivers (response : Bytes) : ℕ → List SendAnswer → List (List SendAnswer) → Type 0 where
  at_once :
      {at : ℕ} {os : List SendAnswer}
      → send os response at
        ≡ some (record {
          success = true;
          advance = 0;
          bytes = drop at response;
          counted = length (drop at response);
        })
      → Delivers response at os []
  in_parts :
      {at : ℕ} {os next : List SendAnswer} {oss : List (List SendAnswer)} (r : Sent)
      → send os response at ≡ some r
      → r.success ≡ true
      → 0 < r.advance
      → Delivers response r.advance next oss
      → Delivers response at os (next ∷ oss)

-- What was sent up to the place where the next sending starts.
pub send-take :
    (os : List SendAnswer) (response : Bytes) (at : ℕ) (r : Sent)
    → send os response at ≡ some r
    → r.success ≡ true
    → 0 < r.advance
    → take at response ++ r.bytes ≡ take r.advance response
send-take os response at r e t l = elim (send-Ends os response at r e) [
  | inl (s, a, b) ↦ absurd (omega arith)
  | inr (inl (s, a, b)) ↦
      take_more at response r.bytes (drop (length r.bytes) (drop at response)) b
      ∙ ap (λ k. take k response) (sym a)
  | inr (inr (s, a, b)) ↦ cc
]

-- A connection that has sent a response, with all that it has sent.
pub record Answered (c : Connection) (last out : Bytes) : Type 0 where
  pub request : c.request ≡ []
  pub response : c.response ≡ last
  pub advance : c.send_advance ≡ 0
  pub keeps : c.keep_alive ≡ true
  pub outgoing : c.outgoing ≡ out

module _ {World : Type 0} (handle : RequestHandler World) (response before : Bytes) where
  keep_alive-after :
      (r : Sent) (c : Connection)
      → c.keep_alive ≡ true
      → r.success ≡ true
      → (after_sending r c).keep_alive ≡ true
  keep_alive-after r c k t = rw t k

  write-step :
      (os : List SendAnswer) (r : Sent) (rest : List Wake) (c : Connection) (w : World)
      → c.response ≡ response
      → c.keep_alive ≡ true
      → 0 < c.send_advance
      → send os response c.send_advance ≡ some r
      → connection_thread handle (write_wake os ∷ rest) c w
        ≡ connection_thread handle rest (after_sending r c) w
  write-step os r rest c w same k l e =
      thread-step handle (write_wake os) rest c (after_sending r c) w w
        (ap (λ b. b || ltb 0 c.send_advance) k)
        (wake_up-write handle os r c w l (ap (λ s. send os s c.send_advance) same ∙ e))

  outgoing-more :
      (out part more whole : Bytes)
      → out ≡ before ++ part
      → part ++ more ≡ whole
      → out ++ more ≡ before ++ whole
  outgoing-more out part more whole o p =
      ap (λ x. x ++ more) o ∙ append_assoc before part more ∙ ap (λ x. before ++ x) p

  -- A response of which a part is sent already is sent to its end, once.
  pub thread-Delivers :
      (os : List SendAnswer) (oss : List (List SendAnswer)) (rest : List Wake) (c : Connection)
      (w : World)
      → c.response ≡ response
      → c.keep_alive ≡ true
      → 0 < c.send_advance
      → c.outgoing ≡ before ++ take c.send_advance response
      → Delivers response c.send_advance os oss
      → (c' : Connection) × (connection_thread handle (map write_wake (os ∷ oss) ++ rest) c w
          ≡ connection_thread handle rest c' w)
        × Answered c' response (before ++ response)
  thread-Delivers os _ rest c w same k l o (at_once e) = (
    _,
    write-step os
        (record {
          success = true;
          advance = 0;
          bytes = drop c.send_advance response;
          counted = length (drop c.send_advance response);
        })
        rest c w same k l e,
    record {
      request = refl;
      response = same;
      advance = refl;
      keeps = k;
      outgoing =
          outgoing-more c.outgoing (take c.send_advance response) (drop c.send_advance response)
            response o (take-drop c.send_advance response);
    },
  )
  thread-Delivers os _ rest c w same k l o (in_parts {next} {oss} r e t m d) =
      let (c', f, a) =
        thread-Delivers next oss rest (after_sending r c) w same (keep_alive-after r c k t) m
          (outgoing-more c.outgoing (take c.send_advance response) r.bytes (take r.advance response)
            o (send-take os response c.send_advance r e t m))
          d in
      (c', write-step os r (map write_wake (next ∷ oss) ++ rest) c w same k l e ∙ f, a)
