-- ===== src/Parser/Received.antt =====
-- What a client sees of the results of a response to a retrieval.
use libmc.Prelude.{
  ℕ, ◌+◌, ◌*◌, ◌%◌, ◌^◌, ◌<◌, ◌≡◌, sym, ap, ◌∙◌, subst, false, ◌⊎◌, List, [], ◌∷◌, ◌++◌, some,
  arith, length, true, suc, All, refl,
}
use libmc.DataBlock.{DataBlock}
use libmc.Types.{ParserState, ParserMode, is_end_state}
use libmc.Blocks.Content.{shapes}
use libmc.BufferReader.Valid.{unread, IsValid}
use libmc.BufferReader.Unsigned.{decimal_from}
use libmc.Result.{RetrievalResult, RetrievalView, retrieval_inner}
use libmc.Result.Views.{pointer, view, retrieval_inner-Denotes}
use libmc.Parser.State.{PacketParser}
use libmc.Parser.Monad.{Outcome}
use libmc.Parser.Start.{end_word}
use libmc.Parser.Process.{process_packets}
use libmc.Parser.Retrieve.{cas_value}
use libmc.Parser.Items.{Item, IsItem, Holds, items_text}
use libmc.Parser.Response.{HoldsAll, process_packets-HoldsAll}

-- The `retrieval_result_t` of an item.
abbrev pub item_view : Item → RetrievalView
item_view i = record {
  key = pointer i.key;
  data_block = pointer i.value;
  cas_unique = cas_value i.cas;
  bytes = length i.value;
  flags = decimal_from 0 i.flags % 2 ^ 64 % 2 ^ 32;
  key_len = length i.key;
}

-- `inner` gives the items, one for each result and in their order.
abbrev pub ShowsAll : List DataBlock → List RetrievalResult → List Item → Type 0
ShowsAll bs [] [] = Unit
ShowsAll bs (k ∷ ks) (i ∷ is) =
    ((k' : RetrievalResult) × (retrieval_inner bs k ≡ some (item_view i, k'))) × ShowsAll bs ks is
ShowsAll bs _ _ = ⊥

-- The key's length fits the field `key_len`.
abbrev pub HasShortKey : Item → Type 0
HasShortKey i = length i.key < 2 ^ 8

Holds-view :
    (bs : List DataBlock) (k : RetrievalResult) (i : Item)
    → HasShortKey i
    → Holds (shapes bs) k i
    → (k' : RetrievalResult) × (retrieval_inner bs k ≡ some (item_view i, k'))
Holds-view bs k i s h =
    let len : k.key_len ≡ length i.key = omega (arith, h.key_len, s) in
    let (k', e, _) =
      retrieval_inner-Denotes bs k i.key i.value h.no_key h.no_data_block h.key h.data_block len
        h.bytes in
    (
      k',
      e
          ∙ ap (λ c. some (record (view k i.key i.value) { cas_unique = c }, k')) h.cas_unique
          ∙ ap
              (λ n.
                some
                  (record (view k i.key i.value) { cas_unique = cas_value i.cas; bytes = n }, k'))
              h.bytes
          ∙ ap (λ n. some (record (item_view i) { flags = n; key_len = k.key_len }, k')) h.flags
          ∙ ap (λ n. some (record (item_view i) { key_len = n }, k')) len,
    )

HoldsAll-ShowsAll :
    (bs : List DataBlock) (ks : List RetrievalResult) (is : List Item)
    → All HasShortKey is
    → HoldsAll (shapes bs) ks is
    → ShowsAll bs ks is
HoldsAll-ShowsAll bs [] [] s h = tt
HoldsAll-ShowsAll bs (k ∷ ks) (i ∷ is) s h =
    (Holds-view bs k i s.0 h.0, HoldsAll-ShowsAll bs ks is s.1 h.1)
HoldsAll-ShowsAll bs [] (i ∷ is) s h = absurd h
HoldsAll-ShowsAll bs (k ∷ ks) [] s h = absurd h

-- Without assertions, in the mode that ends at an end state, and outside a response: if the bytes to
-- read in a valid reader are well-formed items with keys of fewer than 256 bytes, "END\r\n" and a
-- rest, then `process_packets` ends with RET_OK, and `inner` of the results that it adds gives
-- the items, in their order, with the bytes of their keys and values.
pub process_packets-ShowsAll :
    (p : PacketParser) (is : List Item) (rest : List ℕ) (fuel : ℕ)
    → p.mode ≡ ParserMode.end_state
    → (p.state ≡ ParserState.start) ⊎ (is_end_state p.state ≡ true)
    → IsValid p.reader
    → All IsItem is
    → All HasShortKey is
    → unread p.reader ≡ items_text is (end_word ++ rest)
    → (ks : List RetrievalResult) × (q : PacketParser) × (process_packets false
          (7 * length is + 1 + suc fuel)
          p
        ≡ some (Outcome.done tt q))
      × (q.retrieval_results ≡ p.retrieval_results ++ ks)
      × ShowsAll q.reader.blocks ks is
process_packets-ShowsAll p is rest fuel mode s v w short e =
    let (ks, r, b, a, m, h) = process_packets-HoldsAll p is rest fuel mode s v w e in
    (
      ks,
      record p {
        reader = r;
        state = ParserState.end;
        retrieval_results = p.retrieval_results ++ ks;
        has_kv = b;
      },
      a,
      refl,
      HoldsAll-ShowsAll r.blocks ks is short (subst (λ ss. HoldsAll ss ks is) (sym m.same_bytes) h),
    )
