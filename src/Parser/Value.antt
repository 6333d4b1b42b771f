-- ===== src/Parser/Value.antt =====
-- The state that reads the data block of an item, in a build without assertions.
use libmc.Prelude.{
  ℕ, ◌+◌, ◌%◌, ◌^◌, ◌<◌, ◌≡◌, refl, sym, ap, ◌∙◌, subst, true, false, List, [], ◌∷◌, ◌++◌, arith,
  ltb, length, last?-append, update_last-append, length-append,
}
use libmc.Types.{ParserState}
use libmc.Blocks.{TokenData}
use libmc.Blocks.Content.{shapes}
use libmc.Blocks.Slices.{Denotes, Denotes-nil}
use libmc.BufferReader.{BufferReader}
use libmc.BufferReader.Valid.{unread, IsValid}
use libmc.Parser.State.{PacketParser}
use libmc.Result.{RetrievalResult}
use libmc.Parser.Monad.{Outcome, with_kv, read_bytes}
use libmc.Parser.Process.{get_value_remaining, read_value}
use libmc.Parser.Calls.{Moved-trans, moved, skip_lem, read_bytes_lem}
use libmc.Parser.Retrieve.{kv_at, item_at, Leads}

module _ (p : PacketParser) (rs : List RetrievalResult) (r : BufferReader) (v : IsValid r) where
  get_value_remaining_start :
      (k : RetrievalResult) (rest : List ℕ)
      → k.bytes_remain ≡ 0
      → unread r ≡ 13 ∷ (10 ∷ rest)
      → Leads
          (get_value_remaining false (kv_at p rs r ParserState.get_value_remaining k))
          r
          rest
          (λ r'. item_at p rs r' k)
  unfolding get_value_remaining
  get_value_remaining_start k rest z e =
      let q = kv_at p rs r ParserState.get_value_remaining k in
      let none_left : ltb 0 k.bytes_remain ≡ false = ground arith in
      let (r', f, n) = skip_lem q v (13 ∷ (10 ∷ [])) rest e (omega arith) in
      (r', rw (last?-append rs k, none_left, f) refl, n)

  read_value_lem :
      (k : RetrievalResult) (value rest : List ℕ)
      → k.bytes ≡ length value
      → unread r ≡ value ++ 13 ∷ (10 ∷ rest)
      → 0 < length value
      → (td : TokenData) × Denotes (shapes r.blocks) td value
        × Leads
            (read_value k (kv_at p rs r ParserState.get_value_remaining k))
            r
            (13 ∷ (10 ∷ rest))
            (λ r'.
              kv_at p rs r' ParserState.get_value_remaining
                (record k { data_block = td; bytes_remain = 0 }))
  unfolding read_value
  read_value_lem k value rest z e h =
      let k0 = record k { data_block = [] } in
      let q = kv_at p rs r ParserState.get_value_remaining k0 in
      let store = λ (td : TokenData). with_kv (λ k. record k { data_block = td }) in
      let (td, r', g, m, d) = read_bytes_lem q v store value (13 ∷ (10 ∷ rest)) e h in
      let large : ltb r.read_left ((k.bytes + 2) % 2 ^ 32) ≡ false =
        ground (arith, v.left, ap length e, length-append value (13 ∷ (10 ∷ rest))) in
      let g' =
        subst (λ n. read_bytes n store q ≡ Outcome.done td (store td (moved q r'))) (sym z) g in
      (
        td,
        d,
        (r', rw (update_last-append, large, g', update_last-append, update_last-append) refl, m),
      )

  pub get_value_remaining_lem :
      (k : RetrievalResult) (value rest : List ℕ)
      → k.data_block ≡ []
      → k.bytes ≡ length value
      → k.bytes_remain ≡ length value
      → unread r ≡ value ++ 13 ∷ (10 ∷ rest)
      → (td : TokenData) × Denotes (shapes r.blocks) td value
        × Leads
            (get_value_remaining false (kv_at p rs r ParserState.get_value_remaining k))
            r
            rest
            (λ r'. item_at p rs r' (record k { data_block = td; bytes_remain = 0 }))
  unfolding get_value_remaining
  get_value_remaining_lem k [] rest y z w e =
      let (r', f, n) = get_value_remaining_start k rest w e in
      let same : k ≡ record k { data_block = []; bytes_remain = 0 } =
        λ i. record k { data_block = y i; bytes_remain = w i } in
      (
        [],
        Denotes-nil (shapes r.blocks),
        (r', f ∙ ap (λ k. Outcome.done tt (item_at p rs r' k)) same, n),
      )
  get_value_remaining_lem k (c ∷ cs) rest y z w e =
      let value = c ∷ cs in
      let q = kv_at p rs r ParserState.get_value_remaining k in
      let (td, d, (r', g, m)) = read_value_lem k value rest z e (omega arith) in
      let some_left : ltb 0 k.bytes_remain ≡ true = ground (arith, w) in
      let k' = record k { data_block = td; bytes_remain = 0 } in
      let (r'', f, n) =
        skip_lem (kv_at p rs r' ParserState.get_value_remaining k') m.valid (13 ∷ (10 ∷ [])) rest
          m.holds (omega arith) in
      (
        td,
        d,
        (
          r'',
          rw (last?-append rs k, some_left, g, f) refl,
          Moved-trans r r' r'' (13 ∷ (10 ∷ rest)) rest m n,
        ),
      )
