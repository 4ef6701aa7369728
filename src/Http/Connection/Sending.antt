-- ===== src/Http/Connection/Sending.antt =====
-- What `Send` sends, in one call and in the calls that continue it.
use mathlib.Core.Option.{some-injective}
use lib_abk.Common.{
  ℕ, zero, suc, ◌+◌, ◌≤◌, true, false, ◌≡◌, refl, sym, ap, ◌∙◌, arith, [], ◌∷◌, ◌++◌, List, Bytes,
  some, length, take, ◌⊎◌, inl, inr, append_assoc, length-append, Option-cases, subst, Bool-cases,
  leb,
}
use lib_abk.Http.Text.{drop, take-append, take-drop, drop-drop}
use lib_abk.Http.Connection.{SendAnswer, sent, would_block, failed, Sent, send_loop, send, offered}

-- How a sending of what remains from a position may end.
abbrev pub Ends : Bytes → ℕ → Sent → Type 0
Ends s at r =
    ((r.success ≡ true) × (r.advance ≡ 0) × (r.bytes ≡ s))
    ⊎ ((r.success ≡ true)
        × (r.advance ≡ at + length r.bytes)
        × (s ≡ r.bytes ++ drop (length r.bytes) s))
    ⊎ ((r.success ≡ false) × (r.advance ≡ 0) × (s ≡ r.bytes ++ drop (length r.bytes) s))

length-take : (n : ℕ) (s : Bytes) → n ≤ length s → length (take n s) ≡ n
length-take zero s h = refl
length-take (suc n) [] h = absurd (omega arith)
length-take (suc n) (c ∷ s) h = omega (arith, length-take n s)

offered_fits : (n : ℕ) (s : Bytes) → leb n (offered s) ≡ true → n ≤ length s
offered_fits n s h = ground arith

-- A part that was sent, and what remains behind a longer one.
split_more :
    (n : ℕ) (s b : Bytes)
    → n ≤ length s
    → drop n s ≡ b ++ drop (length b) (drop n s)
    → s ≡ (take n s ++ b) ++ drop (length (take n s ++ b)) s
split_more n s b l e =
    sym (take-drop n s)
    ∙ ap (λ x. take n s ++ x) (e ∙ ap (λ x. b ++ x) (drop-drop n (length b) s))
    ∙ ap (λ k. take n s ++ (b ++ drop k s)) (sym (length_more n s b l))
    ∙ sym (append_assoc (take n s) b (drop (length (take n s ++ b)) s))
  where
    length_more : (n : ℕ) (s b : Bytes) → n ≤ length s → length (take n s ++ b) ≡ n + length b
    length_more n s b l = omega (arith, length-append (take n s) b, length-take n s l)

Ends-more :
    (s : Bytes) (at n : ℕ) (q : Sent)
    → n ≤ length s
    → Ends (drop n s) (at + n) q
    → Ends s at (record q { bytes = take n s ++ q.bytes; counted = n + q.counted })
Ends-more s at n q l (inl (t, a, b)) = inl (t, a, ap (λ x. take n s ++ x) b ∙ take-drop n s)
Ends-more s at n q l (inr (inl (t, a, b))) = inr (
    inl (
      t,
      omega (arith, a, length-append (take n s) q.bytes, length-take n s l),
      split_more n s q.bytes l b,
    ))
Ends-more s at n q l (inr (inr (t, a, b))) = inr (inr (t, a, split_more n s q.bytes l b))

send_loop-Ends :
    (os : List SendAnswer) (s : Bytes) (at : ℕ) (r : Sent)
    → send_loop os s at ≡ some r
    → Ends s at r
send_loop-Ends os [] at r e = subst (Ends [] at) (some-injective _ _ e) (inl (refl, refl, refl))
send_loop-Ends [] (c ∷ s) at r e = cc
send_loop-Ends (sent n ∷ os) (c ∷ s) at r e = elim (Bool-cases (leb n (offered (c ∷ s)))) [
  | inr h ↦ cc (rw h at e)
  | inl h ↦ elim (Option-cases (send_loop os (drop n (c ∷ s)) (at + n))) [
    | inl f ↦ cc (rw (h, f) at e)
    | inr (q, f) ↦
        let later = send_loop-Ends os (drop n (c ∷ s)) (at + n) q f in
        subst (Ends (c ∷ s) at) (some-injective _ _ (rw (h, f) at e))
          (Ends-more (c ∷ s) at n q (offered_fits n (c ∷ s) h) later)
  ]
]
send_loop-Ends (would_block ∷ os) (c ∷ s) at r e =
    subst (Ends (c ∷ s) at) (some-injective _ _ e) (inr (inl (refl, omega arith, refl)))
send_loop-Ends (failed ∷ os) (c ∷ s) at r e =
    subst (Ends (c ∷ s) at) (some-injective _ _ e) (inr (inr (refl, refl, refl)))

-- A call of `Send` that returns has sent all that remained behind the position and starts the next
-- one at the begin, or it stopped for want of room and the next one goes on where it stopped, or it
-- failed.
pub send-Ends :
    (os : List SendAnswer) (response : Bytes) (at : ℕ) (r : Sent)
    → send os response at ≡ some r
    → Ends (drop at response) at r
unfolding send
send-Ends os response at r e = send_loop-Ends os (drop at response) at r e

-- What the calls of `IncTxCount` add up to is the number of the bytes that were sent.
send_loop-counted :
    (os : List SendAnswer) (s : Bytes) (at : ℕ) (r : Sent)
    → send_loop os s at ≡ some r
    → r.counted ≡ length r.bytes
send_loop-counted os [] at r e = subst (λ q. q.counted ≡ length q.bytes) (some-injective _ _ e) refl
send_loop-counted [] (c ∷ s) at r e = cc
send_loop-counted (sent n ∷ os) (c ∷ s) at r e = elim (Bool-cases (leb n (offered (c ∷ s)))) [
  | inr h ↦ cc (rw h at e)
  | inl h ↦ elim (Option-cases (send_loop os (drop n (c ∷ s)) (at + n))) [
    | inl f ↦ cc (rw (h, f) at e)
    | inr (q, f) ↦
        let later = send_loop-counted os (drop n (c ∷ s)) (at + n) q f in
        let l = length-take n (c ∷ s) (offered_fits n (c ∷ s) h) in
        subst (λ r. r.counted ≡ length r.bytes) (some-injective _ _ (rw (h, f) at e))
          (omega (arith, later, l, length-append (take n (c ∷ s)) q.bytes))
  ]
]
send_loop-counted (would_block ∷ os) (c ∷ s) at r e =
    subst (λ q. q.counted ≡ length q.bytes) (some-injective _ _ e) refl
send_loop-counted (failed ∷ os) (c ∷ s) at r e =
    subst (λ q. q.counted ≡ length q.bytes) (some-injective _ _ e) refl

pub send-counted :
    (os : List SendAnswer) (response : Bytes) (at : ℕ) (r : Sent)
    → send os response at ≡ some r
    → r.counted ≡ length r.bytes
unfolding send
send-counted os response at r e = send_loop-counted os (drop at response) at r e

suc_add : (m n : ℕ) → suc m + n ≡ suc (m + n)
suc_add m n = omega arith

-- What was sent already, and what is sent next.
pub take_more :
    (at : ℕ) (s b t : Bytes) → drop at s ≡ b ++ t → take at s ++ b ≡ take (at + length b) s
take_more zero s b t e = sym (ap (take (0 + length b)) e ∙ front b t)
  where
    front : (b t : Bytes) → take (0 + length b) (b ++ t) ≡ b
    front b t = ap (λ k. take k (b ++ t)) (omega arith) ∙ take-append b t
take_more (suc at) [] [] t e = sym (ap (λ k. take k []) (suc_add at 0))
take_more (suc at) [] (x ∷ b) t e = cc
take_more (suc at) (c ∷ s) b t e =
    ap (λ r. c ∷ r) (take_more at s b t e) ∙ sym (ap (λ k. take k (c ∷ s)) (suc_add at (length b)))
