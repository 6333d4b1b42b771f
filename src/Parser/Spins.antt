-- ===== src/Parser/Spins.antt =====
-- Responses on which the loop of `process_packets` makes no progress.
use libmc.Prelude.{
  ℕ, zero, suc, ◌≡◌, ◌≢◌, refl, sym, ap, subst, true, false, Bool, List, ◌∷◌, ◌++◌, none, arith,
  length, get_elem?, ◌⊎◌, ◌<◌, inl, inr, ◌==◌, ◌&&◌,
}
use libmc.Types.{ParserState, ParserMode, is_end_state}
use libmc.BufferReader.Valid.{unread, IsValid}
use libmc.Parser.State.{PacketParser}
use libmc.Parser.Monad.{Outcome}
use libmc.Parser.Start.{start_state, end_word}
use libmc.Parser.Process.{
  step, step_at, ends_in, can_end_parse, process_loop, process_packets, is_undefined,
}
use libmc.Parser.Calls.{peek_at, peek_here, peek_next, expect_lem}

-- A round that changes nothing is repeated for ever.
spins :
    (debug : Bool) (p : PacketParser)
    → can_end_parse p ≡ false
    → step debug p ≡ Outcome.done tt p
    → (fuel : ℕ) → process_loop debug fuel p ≡ none
unfolding process_loop
spins debug p c e zero = refl
spins debug p c e (suc fuel) = rw (c, e, process_loop) (spins debug p c e fuel)

-- "V" that begins neither "VALUE" nor "VERSION", "E" that begins none of "ERROR", "END" and
-- "EXISTS", and "N" that begins neither "NOT_FOUND" nor "NOT_STORED", as far as `start_state` looks.
pub data Unknown : List ℕ → Type 0 where
  unknown_v : (c : ℕ) (rest : List ℕ) → c ≢ b'A' → c ≢ b'E' → Unknown (b'V' ∷ (c ∷ rest))
  unknown_e : (c : ℕ) (rest : List ℕ) → c ≢ b'R' → c ≢ b'N' → c ≢ b'X' → Unknown (b'E' ∷ (c ∷ rest))
  unknown_n :
      (c2 c3 c4 c : ℕ) (rest : List ℕ)
      → c ≢ b'F'
      → c ≢ b'S'
      → Unknown (b'N' ∷ (c2 ∷ (c3 ∷ (c4 ∷ (c ∷ rest)))))

start_state-Unknown :
    (debug : Bool) (p : PacketParser) (bytes : List ℕ)
    → IsValid p.reader
    → Unknown bytes
    → unread p.reader ≡ bytes
    → start_state debug p ≡ Outcome.done tt p
unfolding start_state
start_state-Unknown debug p bytes v (unknown_v c rest a b) e =
    let na : (c == b'A') ≡ false = ground (arith, a) in
    let nb : (c == b'E') ≡ false = ground (arith, b) in
    rw (peek_here p v b'V' _ e, peek_next p v b'V' c _ e, na, nb) refl
start_state-Unknown debug p bytes v (unknown_e c rest a b d) e =
    let na : (c == b'R') ≡ false = ground (arith, a) in
    let nb : (c == b'N') ≡ false = ground (arith, b) in
    let nd : (c == b'X') ≡ false = ground (arith, d) in
    rw (peek_here p v b'E' _ e, peek_next p v b'E' c _ e, na, nb, nd) refl
start_state-Unknown debug p bytes v (unknown_n c2 c3 c4 c rest a b) e =
    let na : (c == b'F') ≡ false = ground (arith, a) in
    let nb : (c == b'S') ≡ false = ground (arith, b) in
    let fifth = peek_at p v 4 c (omega (arith, ap length e)) (ap (λ xs. get_elem? xs 4) e) in
    rw (peek_here p v b'N' _ e, fifth, na, nb) refl

-- The modes in which the loop goes on in a state that is no end state: until an end state, or while
-- a requested key is left.
abbrev pub Expects : PacketParser → Type 0
Expects p =
    (p.mode ≡ ParserMode.end_state)
    ⊎ ((p.mode ≡ ParserMode.counting) × (p.request_key_idx < length p.request_keys))

goes_on : (p : PacketParser) → Expects p → is_end_state p.state ≡ false → can_end_parse p ≡ false
unfolding can_end_parse
goes_on p (inl m) s = subst (λ k. ends_in k p ≡ false) (sym m) s
goes_on p (inr (m, h)) s = subst (λ k. ends_in k p ≡ false) (sym m) (ground arith)

defined : (debug : Bool) (p : PacketParser) → Expects p → (debug && is_undefined p.mode) ≡ false
defined true p (inl m) = ap is_undefined m
defined true p (inr (m, h)) = ap is_undefined m
defined false p m = refl

-- If a valid parser expects more, is at the start of a response, and has such a beginning to read,
-- then `process_packets` never returns, in no build and for no number of rounds.
pub process_packets-Unknown :
    (debug : Bool) (p : PacketParser) (fuel : ℕ)
    → IsValid p.reader
    → p.state ≡ ParserState.start
    → Expects p
    → Unknown (unread p.reader)
    → process_packets debug fuel p ≡ none
unfolding process_packets step
process_packets-Unknown debug p fuel v s m u =
    let same : step debug p ≡ Outcome.done tt p =
      subst (λ st. step_at debug st p ≡ Outcome.done tt p) (sym s)
        (start_state-Unknown debug p (unread p.reader) v u refl) in
    let stays : is_end_state p.state ≡ false = ap is_end_state s in
    rw (defined debug p m, stays) (spins debug p (goes_on p m stays) same fuel)

-- In the state FSM_END a round changes nothing.
end_stays :
    (debug : Bool) (q : PacketParser) → q.state ≡ ParserState.end → step debug q ≡ Outcome.done tt q
unfolding step step_at
end_stays debug q e = subst (λ st. step_at debug st q ≡ Outcome.done tt q) (sym e) refl

after_end :
    (p q : PacketParser) (fuel : ℕ)
    → can_end_parse p ≡ false
    → step false p ≡ Outcome.done tt q
    → can_end_parse q ≡ false
    → step false q ≡ Outcome.done tt q
    → process_loop false fuel p ≡ none
unfolding process_loop
after_end p q zero c e d f = refl
after_end p q (suc fuel) c e d f = rw (c, e, process_loop) (spins false q d f fuel)

-- If a valid parser counts results, at the start of a response, with a key left, and "END\r\n" is
-- the next to read, then `process_packets` without assertions never returns.
pub process_packets-end_word :
    (p : PacketParser) (rest : List ℕ) (fuel : ℕ)
    → IsValid p.reader
    → p.state ≡ ParserState.start
    → p.mode ≡ ParserMode.counting
    → p.request_key_idx < length p.request_keys
    → unread p.reader ≡ end_word ++ rest
    → process_packets false fuel p ≡ none
unfolding process_packets step start_state can_end_parse
process_packets-end_word p rest fuel v s m h e =
    let stays : is_end_state p.state ≡ false = ap is_end_state s in
    let expects : Expects p = inr (m, h) in
    let one = peek_here p v b'E' _ e in
    let two = peek_next p v b'E' b'N' _ e in
    let (r, g, n) = expect_lem p v end_word rest e (omega arith) in
    let q = record p { reader = r; state = ParserState.end } in
    let first : step false p ≡ Outcome.done tt q =
      subst (λ st. step_at false st p ≡ Outcome.done tt q) (sym s) (rw (one, two, g) refl) in
    let open_ : can_end_parse q ≡ false = subst (λ k. ends_in k q ≡ false) (sym m) (ground arith) in
    rw stays (after_end p q fuel (goes_on p expects stays) first open_ (end_stays false q refl))
