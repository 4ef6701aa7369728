-- ===== src/Json/Progress/Done.antt =====
-- The loop of the clients of the parser, `for (CJsonParser p(text); !p.IsDone(); ++p)`, ends.
use lib_abk.Common.{
  ℕ, zero, suc, ◌+◌, ◌<◌, true, false, ◌≡◌, ◌≢◌, arith, length, Bool-cases, inl, inr, Option, none,
  some,
}
use lib_abk.Json.Parser.{
  Result, ok, fault, ◌>>=◌, invalid, end, Parser, is_invalid, iterate, is_done,
}
use lib_abk.Json.Progress.{Progress, iterate-Progress}

-- The loop on fuel, `none` when it runs out.
unfoldable pub run_to_done : ℕ → Parser → Result (Option Parser)
run_to_done zero p = ok none
run_to_done (suc fuel) p = elim (is_done p) [
  | true ↦ ok (some p)
  | false ↦ iterate p >>= run_to_done fuel
]

live_if_not_done : (p : Parser) → is_done p ≡ false → is_invalid p.type ≡ false
unfolding is_done
live_if_not_done p h = ground arith

done_if_invalid : (p : Parser) → p.type ≡ invalid → is_done p ≡ true
unfolding is_done
done_if_invalid p h = ground arith

done_if_end : (p q : Parser) → q ≡ record p { type = end } → is_done q ≡ true
unfolding is_done
done_if_end p q h = rw h

run_to_done-done :
    (fuel : ℕ) (p : Parser) → 0 < fuel → is_done p ≡ true → run_to_done fuel p ≡ ok (some p)
unfolding run_to_done
run_to_done-done zero p h d = elim h [ ]
run_to_done-done (suc fuel) p h d = rw (d, run_to_done)

after_step :
    (fuel : ℕ) (p : Parser) (r : Result Parser)
    → Progress p r
    → ((q : Parser) → length q.pos < length p.pos → run_to_done fuel q ≢ ok none)
    → 0 < fuel
    → (r >>= run_to_done fuel) ≢ ok none
after_step fuel p (fault e) m ih h = cc
after_step fuel p (ok q) (inl e) ih h = rw (run_to_done-done fuel q h (done_if_invalid q e)) (cc)
after_step fuel p (ok q) (inr (inl l)) ih h = ih q l
after_step fuel p (ok q) (inr (inr (z, e))) ih h =
    rw (run_to_done-done fuel q h (done_if_end p q e)) (cc)

-- From any state and on any text, the loop stops after at most one turn more than there are bytes
-- left: with that much fuel it ends by its test, or a step is a fault.
pub run_to_done-ends :
    (fuel : ℕ) (p : Parser) → length p.pos + 1 < fuel → run_to_done fuel p ≢ ok none
unfolding run_to_done
run_to_done-ends zero p h = elim h [ ]
run_to_done-ends (suc fuel) p h = elim (Bool-cases (is_done p)) [
  | inl d ↦ rw (d, run_to_done) (cc)
  | inr d ↦
      rw (d, run_to_done)
        (after_step fuel p (iterate p) (iterate-Progress p (live_if_not_done p d))
          (λ q l. run_to_done-ends fuel q (omega arith)) (omega arith))
]
