-- ===== src/Parser/Steps.antt =====
-- The rounds of the loop of `process_packets` as a relation.
use libmc.Prelude.{subst, ℕ, suc, ◌+◌, ◌≡◌, refl, ap, ◌∙◌, false, Bool, arith}
use libmc.Parser.State.{PacketParser}
use libmc.Parser.Monad.{Outcome}
use libmc.Parser.Process.{step, can_end_parse, process_loop}

-- `n` rounds that end with RET_OK lead from one parser to another.
pub data Steps (debug : Bool) : PacketParser → ℕ → PacketParser → Type 0 where
  here : {p : PacketParser} → Steps debug p 0 p
  next :
      {n : ℕ} {p q s : PacketParser}
      → can_end_parse p ≡ false
      → step debug p ≡ Outcome.done tt q
      → Steps debug q n s
      → Steps debug p (suc n) s

pub count :
    {m n : ℕ} {debug : Bool} {p q : PacketParser} → m ≡ n → Steps debug p m q → Steps debug p n q
count {debug} {p} {q} e a = subst (λ k. Steps debug p k q) e a

pub Steps-trans :
    {debug : Bool} {p q s : PacketParser} {m n : ℕ}
    → Steps debug p m q
    → Steps debug q n s
    → Steps debug p (m + n) s
Steps-trans here b = count (omega arith) b
Steps-trans (next c e a) b = count (omega arith) (next c e (Steps-trans a b))

process_loop-next :
    (debug : Bool) (fuel : ℕ) (p q : PacketParser)
    → can_end_parse p ≡ false
    → step debug p ≡ Outcome.done tt q
    → process_loop debug (suc fuel) p ≡ process_loop debug fuel q
unfolding process_loop
process_loop-next debug fuel p q c e = rw (c, e, process_loop) refl

-- The loop makes the rounds.
pub process_loop-Steps :
    {debug : Bool} {p q : PacketParser} {n : ℕ} (fuel : ℕ)
    → Steps debug p n q
    → process_loop debug (n + fuel) p ≡ process_loop debug fuel q
process_loop-Steps {debug} {p} fuel here = ap (λ k. process_loop debug k p) (omega arith)
process_loop-Steps {debug} fuel (next {n} {p} {q} {s} c e a) =
    ap (λ k. process_loop debug k p) (omega arith)
    ∙ process_loop-next debug (n + fuel) p q c e
    ∙ process_loop-Steps fuel a
