-- ===== src/Parser/Response.antt =====
-- A whole response to a retrieval.
use libmc.Prelude.{
  ℕ, suc, ◌+◌, ◌*◌, ◌≡◌, refl, sym, ap, ◌∙◌, subst, true, false, Bool, ◌⊎◌, inl, inr, List, [], ◌∷◌,
  ◌++◌, some, arith, length, All, append_assoc, append-nil, if◌then◌else◌,
}
use libmc.Types.{ParserState, ParserMode, is_end_state}
use libmc.Blocks.Content.{Shape, shapes}
use libmc.BufferReader.{BufferReader}
use libmc.BufferReader.Valid.{unread, IsValid}
use libmc.Parser.State.{PacketParser}
use libmc.Result.{RetrievalResult}
use libmc.Parser.Monad.{Outcome}
use libmc.Parser.Start.{end_word, start_state}
use libmc.Parser.Process.{step, can_end_parse, process_loop, process_packets, restart}
use libmc.Parser.Calls.{Moved, Moved-trans, expect_lem, peek_here, peek_next}
use libmc.Parser.Retrieve.{Leads}
use libmc.Parser.Steps.{Steps, here, next, Steps-trans, count, process_loop-Steps}
use libmc.Parser.Items.{Item, IsItem, Holds, items_text, start_at, item_lem, goes_on}

-- The results stand for the items, one for each and in their order.
abbrev pub HoldsAll : List Shape → List RetrievalResult → List Item → Type 0
HoldsAll ss [] [] = Unit
HoldsAll ss (k ∷ ks) (i ∷ is) = Holds ss k i × HoldsAll ss ks is
HoldsAll ss _ _ = ⊥

-- The parser between two items, with `b` in `mt_kvPtr`.
abbrev pub between : PacketParser → List RetrievalResult → BufferReader → Bool → PacketParser
between p rs r b = record (start_at p rs r) { has_kv = b }

items_lem :
    (p : PacketParser)
    → p.mode ≡ ParserMode.end_state
    → (rs : List RetrievalResult) (r : BufferReader) → IsValid r
    → (is : List Item) (rest : List ℕ) → All IsItem is
    → unread r ≡ items_text is rest
    → (ks : List RetrievalResult) × (r' : BufferReader) × (b : Bool) × Steps false
        (start_at p rs r)
        (7 * length is)
        (between p (rs ++ ks) r' b)
      × Moved r r' rest
      × HoldsAll (shapes r.blocks) ks is
items_lem p mode rs r v [] rest w e = (
  [],
  r,
  p.has_kv,
  subst (λ xs. Steps false (start_at p rs r) 0 (start_at p xs r)) (sym (append-nil rs)) here,
  record { valid = v; holds = e; same_bytes = refl },
  tt,
)
items_lem p mode rs r v (i ∷ is) rest w e =
    let (k, q, a, m, h) = item_lem p mode rs r i (items_text is rest) v w.0 e in
    let (ks, r', b, c, n, hs) =
      items_lem (record p { has_kv = false }) mode (rs ++ k ∷ []) q m.valid is rest w.1 m.holds in
    (
      k ∷ ks,
      r',
      b,
      subst (λ xs. Steps false (start_at p rs r) (7 * length (i ∷ is)) (between p xs r' b))
          (append_assoc rs (k ∷ []) ks) (count (omega arith) (Steps-trans a c)),
      Moved-trans r q r' (items_text is rest) rest m n,
      (h, subst (λ ss. HoldsAll ss ks is) m.same_bytes hs),
    )

end_lem :
    (p : PacketParser) (rs : List RetrievalResult) (r : BufferReader) (rest : List ℕ)
    → IsValid r
    → unread r ≡ end_word ++ rest
    → Leads
        (step false (start_at p rs r))
        r
        rest
        (λ r'. record (start_at p rs r') { state = ParserState.end })
unfolding step start_state
end_lem p rs r rest v e =
    let q = start_at p rs r in
    let one = peek_here q v b'E' _ e in
    let two = peek_next q v b'E' b'N' _ e in
    let (r', g, m) = expect_lem q v end_word rest e (omega arith) in (r', rw (one, two, g) refl, m)

-- The loop returns in the state FSM_END.
end_returns :
    (p : PacketParser) (fuel : ℕ)
    → p.mode ≡ ParserMode.end_state
    → process_loop false (suc fuel) (record p { state = ParserState.end })
      ≡ some (Outcome.done tt (record p { state = ParserState.end }))
unfolding process_loop can_end_parse
end_returns p fuel mode =
    let ends : can_end_parse (record p { state = ParserState.end }) ≡ true = rw mode refl in
    rw (ends, process_loop) refl

restart_lem :
    (p : PacketParser)
    → (p.state ≡ ParserState.start) ⊎ (is_end_state p.state ≡ true)
    → restart p ≡ start_at p p.retrieval_results p.reader
restart_lem p (inr e) = rw e refl
restart_lem p (inl e) =
    ap
      (λ st.
        if is_end_state st
        then start_at p p.retrieval_results p.reader
        else record p { state = st })
      e

-- Without assertions, in the mode that ends at an end state, and outside a response: if the bytes to
-- read in a valid reader are the items of a retrieval, "END\r\n" and a rest, then `process_packets`
-- ends with RET_OK in the state FSM_END. It has passed the response up to the rest, and added one
-- result for each item, in their order, with its key, value, flags, length and cas. An item's key
-- has no space, its numbers are digits, and its value has the length that is announced, and fewer
-- than 2 ^ 32 - 2 bytes.
pub process_packets-HoldsAll :
    (p : PacketParser) (is : List Item) (rest : List ℕ) (fuel : ℕ)
    → p.mode ≡ ParserMode.end_state
    → (p.state ≡ ParserState.start) ⊎ (is_end_state p.state ≡ true)
    → IsValid p.reader
    → All IsItem is
    → unread p.reader ≡ items_text is (end_word ++ rest)
    → (ks : List RetrievalResult) × (r : BufferReader) × (b : Bool) × (process_packets false
          (7 * length is + 1 + suc fuel)
          p
        ≡ some (
            Outcome.done tt (record p {
              reader = r;
              state = ParserState.end;
              retrieval_results = p.retrieval_results ++ ks;
              has_kv = b;
            })))
      × Moved p.reader r rest
      × HoldsAll (shapes p.reader.blocks) ks is
unfolding process_packets
process_packets-HoldsAll p is rest fuel mode s v w e =
    let (ks, r, b, a, m, h) =
      items_lem p mode p.retrieval_results p.reader v is (end_word ++ rest) w e in
    let p' = record p { has_kv = b } in
    let rs = p.retrieval_results ++ ks in
    let (r', g, n) = end_lem p' rs r rest m.valid m.holds in
    let last : Steps false (between p rs r b) 1
        (record (start_at p' rs r') { state = ParserState.end }) =
      next (goes_on p' mode rs r ParserState.start b refl) g here in
    (
      ks,
      r',
      b,
      ap (process_loop false (7 * length is + 1 + suc fuel)) (restart_lem p s)
          ∙ process_loop-Steps (suc fuel) (Steps-trans a last)
          ∙ end_returns (start_at p' rs r') fuel mode,
      Moved-trans p.reader r r' (end_word ++ rest) rest m n,
      h,
    )
