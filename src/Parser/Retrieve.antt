-- ===== src/Parser/Retrieve.antt =====
-- The states that read the line of an item of a retrieval, in a build without assertions.
use libmc.Prelude.{
  ℕ, ◌+◌, ◌-◌, ◌%◌, ◌^◌, ◌<◌, ◌≡◌, ◌≢◌, refl, true, false, List, [], ◌∷◌, ◌++◌, arith, ◌==◌, length,
  All, last?-append, update_last-append,
}
use libmc.Types.{ParserState}
use libmc.DataBlock.{is_not_digit}
use libmc.Blocks.{TokenData}
use libmc.Blocks.Content.{shapes}
use libmc.Blocks.Slices.{Denotes}
use libmc.BufferReader.{BufferReader}
use libmc.BufferReader.Valid.{unread, IsValid}
use libmc.BufferReader.Unsigned.{Digits, decimal_from}
use libmc.Parser.State.{PacketParser}
use libmc.Result.{RetrievalResult, new_retrieval}
use libmc.Parser.Monad.{Outcome, no_store, with_kv, back}
use libmc.Parser.Start.{value_word, start_state}
use libmc.Parser.Process.{get_start, get_key, get_flags, get_bytes, get_cas}
use libmc.Parser.Calls.{
  Moved, Moved-trans, skip_lem, expect_lem, peek_here, peek_next, read_until_lem, read_unsigned_lem,
}

-- The parser in a state, with the results `rs` and `k`, which `mt_kvPtr` points to.
abbrev pub kv_at :
    PacketParser
    → List RetrievalResult
    → BufferReader
    → ParserState
    → RetrievalResult
    → PacketParser
kv_at p rs r st k = record p {
  reader = r;
  state = st;
  retrieval_results = rs ++ k ∷ [];
  has_kv = true;
}

-- The parser once it has read an item.
abbrev pub item_at :
    PacketParser → List RetrievalResult → BufferReader → RetrievalResult → PacketParser
item_at p rs r k = record p {
  reader = r;
  state = ParserState.start;
  retrieval_results = rs ++ k ∷ [];
  has_kv = false;
}

-- What stands behind the number of bytes: "\r\n", or " <cas unique>\r\n".
abbrev pub separator : List ℕ → ℕ
separator [] = 13
separator (c ∷ cs) = 32

abbrev pub cas_part : List ℕ → List ℕ → List ℕ
cas_part [] rest = 10 ∷ rest
cas_part (c ∷ cs) rest = (c ∷ cs) ++ 13 ∷ (10 ∷ rest)

abbrev pub cas_value : List ℕ → ℕ
cas_value [] = 0
cas_value (c ∷ cs) = decimal_from 0 (c ∷ cs) % 2 ^ 64

-- `r'` is what a step leaves of the reader `r`: the step has made the parser `q`.
abbrev pub Leads :
    Outcome (Unit {0}) → BufferReader → List ℕ → (BufferReader → PacketParser) → Type 0
Leads o r rest q = (r' : BufferReader) × (o ≡ Outcome.done tt (q r')) × Moved r r' rest

separator_ends : (cas : List ℕ) → is_not_digit (separator cas) ≡ true
separator_ends [] = refl
separator_ends (c ∷ cs) = refl

back_lem :
    (p : PacketParser) (rs : List RetrievalResult) (r : BufferReader) (k : RetrievalResult)
    → (let q = record p {
      reader = r;
      state = ParserState.get_start;
      retrieval_results = rs ++ k ∷ [];
    } in
        back (λ p. p.retrieval_results) q ≡ Outcome.done k q)
back_lem p rs r k = rw (last?-append rs k, back) refl

module _ (p : PacketParser) (rs : List RetrievalResult) (r : BufferReader) (v : IsValid r) where
  pub start_value :
      (rest : List ℕ)
      → unread r ≡ value_word ++ rest
      → Leads
          (start_state false
            (record p { reader = r; state = ParserState.start; retrieval_results = rs }))
          r
          rest
          (λ r'. record p {
            reader = r';
            state = ParserState.get_start;
            retrieval_results = rs ++ new_retrieval ∷ [];
          })
  unfolding start_state
  start_value rest e =
      let q = record p { reader = r; state = ParserState.start; retrieval_results = rs } in
      let one = peek_here q v b'V' _ e in
      let two = peek_next q v b'V' b'A' _ e in
      let (r', g, m) = expect_lem q v value_word rest e (omega arith) in
      (r', rw (one, two, g) refl, m)

  pub get_start_lem :
      (k : RetrievalResult) (key rest : List ℕ)
      → unread r ≡ key ++ 32 ∷ rest
      → All (λ x. x ≢ 32) key
      → (td : TokenData) × Denotes (shapes r.blocks) td key
        × Leads
            (get_start (record p {
              reader = r;
              state = ParserState.get_start;
              retrieval_results = rs ++ k ∷ [];
            }))
            r
            rest
            (λ r'.
              kv_at p rs r' ParserState.get_key
                (record k { key = td; key_len = length key % 2 ^ 8 }))
  unfolding get_start
  get_start_lem k key rest e f =
      let q = kv_at p rs r ParserState.get_start k in
      let store =
        λ (x : ℕ × TokenData). with_kv (λ k. record k { key = x.1; key_len = x.0 % 2 ^ 8 }) in
      let (td, r', g, m, d) = read_until_lem q v 32 store key rest e f in
      let k' = record k { key = td; key_len = length key % 2 ^ 8 } in
      let (r'', h, n) =
        skip_lem (kv_at p rs r' ParserState.get_start k') m.valid (32 ∷ []) rest m.holds
          (omega arith) in
      (
        td,
        d,
        (
          r'',
          rw (back_lem p rs r k, g, update_last-append, h) refl,
          Moved-trans r r' r'' (32 ∷ rest) rest m n,
        ),
      )

  pub get_key_lem :
      (k : RetrievalResult) (flags rest : List ℕ)
      → unread r ≡ flags ++ 32 ∷ rest
      → 0 < length flags
      → Digits flags
      → Leads (get_key false (kv_at p rs r ParserState.get_key k)) r rest (λ r'.
        kv_at p rs r' ParserState.get_flags
          (record k { flags = decimal_from 0 flags % 2 ^ 64 % 2 ^ 32 }))
  unfolding get_key
  get_key_lem k flags rest e h d =
      let q = kv_at p rs r ParserState.get_key k in
      let (r', g, m) = read_unsigned_lem q v no_store flags 32 rest e h d refl in
      let k' = record k { flags = decimal_from 0 flags % 2 ^ 64 % 2 ^ 32 } in
      let (r'', f, n) =
        skip_lem (kv_at p rs r' ParserState.get_key k') m.valid (32 ∷ []) rest m.holds
          (omega arith) in
      (
        r'',
        rw (last?-append rs k, g, update_last-append, f) refl,
        Moved-trans r r' r'' (32 ∷ rest) rest m n,
      )

  pub get_flags_lem :
      (k : RetrievalResult) (bytes cas rest : List ℕ)
      → unread r ≡ bytes ++ separator cas ∷ rest
      → 0 < length bytes
      → Digits bytes
      → Leads (get_flags false (kv_at p rs r ParserState.get_flags k)) r rest (λ r'.
        kv_at p rs r' ParserState.get_bytes (record k {
          bytes = decimal_from 0 bytes % 2 ^ 64 % 2 ^ 32;
          bytes_remain = (decimal_from 0 bytes % 2 ^ 64 % 2 ^ 32 + 1) % 2 ^ 32;
        }))
  unfolding get_flags
  get_flags_lem k bytes cas rest e h d =
      let q = kv_at p rs r ParserState.get_flags k in
      let (r', g, m) =
        read_unsigned_lem q v no_store bytes (separator cas) rest e h d (separator_ends cas) in
      let k' = record k {
        bytes = decimal_from 0 bytes % 2 ^ 64 % 2 ^ 32;
        bytes_remain = (decimal_from 0 bytes % 2 ^ 64 % 2 ^ 32 + 1) % 2 ^ 32;
      } in
      let (r'', f, n) =
        skip_lem (kv_at p rs r' ParserState.get_flags k') m.valid (separator cas ∷ []) rest m.holds
          (omega arith) in
      (
        r'',
        rw (last?-append rs k, g, update_last-append, f) refl,
        Moved-trans r r' r'' (separator cas ∷ rest) rest m n,
      )

  pub get_bytes_lem :
      (k : RetrievalResult) (cas rest : List ℕ)
      → unread r ≡ cas_part cas rest
      → Digits cas
      → Leads
          (get_bytes false (kv_at p rs r ParserState.get_bytes k))
          r
          (10 ∷ rest)
          (λ r'. kv_at p rs r' ParserState.get_cas (record k { cas_unique = cas_value cas }))
  unfolding get_bytes
  get_bytes_lem k [] rest e d =
      let q = kv_at p rs r ParserState.get_bytes k in
      (
        r,
        rw (last?-append rs k, peek_here q v 10 rest e, update_last-append) refl,
        record { valid = v; holds = e; same_bytes = refl },
      )
  get_bytes_lem k (c ∷ cs) rest e d =
      let q = kv_at p rs r ParserState.get_bytes k in
      let store = λ (x : ℕ). with_kv (λ k. record k { cas_unique = x }) in
      let (r', g, m) = read_unsigned_lem q v store (c ∷ cs) 13 (10 ∷ rest) e (omega arith) d refl in
      let k' = record k { cas_unique = cas_value (c ∷ cs) } in
      let (r'', f, n) =
        skip_lem (kv_at p rs r' ParserState.get_bytes k') m.valid (13 ∷ []) (10 ∷ rest) m.holds
          (omega arith) in
      let other : (c == 10) ≡ false = ground (arith, d.0) in
      (
        r'',
        rw (last?-append rs k, peek_here q v c _ e, other, g, update_last-append, f) refl,
        Moved-trans r r' r'' (13 ∷ (10 ∷ rest)) (10 ∷ rest) m n,
      )

  pub get_cas_lem :
      (k : RetrievalResult) (rest : List ℕ)
      → unread r ≡ 10 ∷ rest
      → Leads (get_cas false (kv_at p rs r ParserState.get_cas k)) r rest (λ r'.
        kv_at p rs r' ParserState.get_value_remaining
          (record k { bytes_remain = (k.bytes_remain + (2 ^ 32 - 1)) % 2 ^ 32 }))
  unfolding get_cas
  get_cas_lem k rest e =
      let q = kv_at p rs r ParserState.get_cas k in
      let (r', f, n) = skip_lem q v (10 ∷ []) rest e (omega arith) in
      (r', rw (last?-append rs k, f, update_last-append) refl, n)
