-- ===== src/Parser/Items.antt =====
-- The response to a retrieval, read to its end.
use libmc.Prelude.{
  ℕ, ◌+◌, ◌-◌, ◌%◌, ◌^◌, ◌<◌, ◌≡◌, ◌≢◌, refl, ◌∙◌, subst, true, false, Bool, List, [], ◌∷◌, ◌++◌,
  none, arith, length, All,
}
use libmc.Types.{ParserState, ParserMode, is_end_state}
use libmc.Blocks.Content.{Shape, shapes}
use libmc.Blocks.Slices.{Denotes}
use libmc.BufferReader.{BufferReader}
use libmc.BufferReader.Valid.{unread, IsValid}
use libmc.BufferReader.Unsigned.{Digits, decimal_from}
use libmc.Parser.State.{PacketParser}
use libmc.Result.{RetrievalResult, new_retrieval}
use libmc.Parser.Start.{value_word}
use libmc.Parser.Process.{step, can_end_parse}
use libmc.Parser.Calls.{Moved, Moved-trans}
use libmc.Parser.Retrieve.{
  kv_at, separator, cas_part, cas_value, start_value, get_start_lem, get_key_lem, get_flags_lem,
  get_bytes_lem, get_cas_lem, item_at,
}
use libmc.Parser.Value.{get_value_remaining_lem}
use libmc.Parser.Steps.{Steps, here, next, Steps-trans}

-- An item of a response, in the bytes that the server sends: `cas` is empty in the response to "get".
pub record Item : Type 0 where
  pub key : List ℕ
  pub flags : List ℕ
  pub bytes : List ℕ
  pub cas : List ℕ
  pub value : List ℕ

-- "VALUE <key> <flags> <bytes>[ <cas unique>]\r\n<value>\r\n", in front of the rest.
abbrev pub item_text : Item → List ℕ → List ℕ
item_text i rest =
    value_word
    ++ (i.key
        ++ (32
            ∷ (i.flags
                ++ (32
                    ∷ (i.bytes
                        ++ (separator i.cas ∷ cas_part i.cas (i.value ++ (13 ∷ (10 ∷ rest)))))))))

abbrev pub items_text : List Item → List ℕ → List ℕ
items_text [] rest = rest
items_text (i ∷ is) rest = item_text i (items_text is rest)

pub record IsItem (i : Item) : Type 0 where
  pub key_plain : All (λ x. x ≢ 32) i.key
  pub some_flags : 0 < length i.flags
  pub flags_digits : Digits i.flags
  pub some_bytes : 0 < length i.bytes
  pub bytes_digits : Digits i.bytes
  pub cas_digits : Digits i.cas
  pub announced : decimal_from 0 i.bytes ≡ length i.value
  pub short : length i.value + 2 < 2 ^ 32

-- The result stands for the item.
pub record Holds (ss : List Shape) (k : RetrievalResult) (i : Item) : Type 0 where
  pub key : Denotes ss k.key i.key
  pub data_block : Denotes ss k.data_block i.value
  pub flags : k.flags ≡ decimal_from 0 i.flags % 2 ^ 64 % 2 ^ 32
  pub bytes : k.bytes ≡ length i.value
  pub cas_unique : k.cas_unique ≡ cas_value i.cas
  pub key_len : k.key_len ≡ length i.key % 2 ^ 8
  pub complete : k.bytes_remain ≡ 0
  pub no_key : k.inner_key ≡ none
  pub no_data_block : k.inner_data_block ≡ none

-- The result once the line is read, before its data block.
record Announces (ss : List Shape) (k : RetrievalResult) (i : Item) : Type 0 where
  key : Denotes ss k.key i.key
  data_block : k.data_block ≡ []
  flags : k.flags ≡ decimal_from 0 i.flags % 2 ^ 64 % 2 ^ 32
  bytes : k.bytes ≡ length i.value
  cas_unique : k.cas_unique ≡ cas_value i.cas
  key_len : k.key_len ≡ length i.key % 2 ^ 8
  remain : k.bytes_remain ≡ length i.value
  no_key : k.inner_key ≡ none
  no_data_block : k.inner_data_block ≡ none

abbrev pub start_at : PacketParser → List RetrievalResult → BufferReader → PacketParser
start_at p rs r = record p { reader = r; state = ParserState.start; retrieval_results = rs }

module _ (p : PacketParser) (mode : p.mode ≡ ParserMode.end_state) where
  pub goes_on :
      (rs : List RetrievalResult) (r : BufferReader) (st : ParserState) (b : Bool)
      → is_end_state st ≡ false
      → can_end_parse (record p { reader = r; state = st; retrieval_results = rs; has_kv = b })
        ≡ false
  unfolding can_end_parse
  goes_on rs r st b e = rw mode e

  -- The line of an item takes six rounds, and leaves the number of bytes still to come.
  line_lem :
      (rs : List RetrievalResult) (r : BufferReader) (i : Item) (rest : List ℕ)
      → IsValid r
      → IsItem i
      → unread r ≡ item_text i rest
      → (k : RetrievalResult) × (r' : BufferReader) × Steps false
          (start_at p rs r)
          6
          (kv_at p rs r' ParserState.get_value_remaining k)
        × Moved r r' (i.value ++ (13 ∷ (10 ∷ rest)))
        × Announces (shapes r.blocks) k i
  unfolding step
  line_lem rs r i rest v w e =
      let number = decimal_from 0 i.bytes % 2 ^ 64 % 2 ^ 32 in
      let (r1, e1, m1) = start_value p rs r v _ e in
      let (td, d, (r2, e2, m2)) =
        get_start_lem p rs r1 m1.valid new_retrieval i.key _ m1.holds w.key_plain in
      let k1 = record new_retrieval { key = td; key_len = length i.key % 2 ^ 8 } in
      let (r3, e3, m3) =
        get_key_lem p rs r2 m2.valid k1 i.flags _ m2.holds w.some_flags w.flags_digits in
      let k2 = record k1 { flags = decimal_from 0 i.flags % 2 ^ 64 % 2 ^ 32 } in
      let (r4, e4, m4) =
        get_flags_lem p rs r3 m3.valid k2 i.bytes i.cas _ m3.holds w.some_bytes w.bytes_digits in
      let k3 = record k2 { bytes = number; bytes_remain = (number + 1) % 2 ^ 32 } in
      let (r5, e5, m5) = get_bytes_lem p rs r4 m4.valid k3 i.cas _ m4.holds w.cas_digits in
      let k4 = record k3 { cas_unique = cas_value i.cas } in
      let (r6, e6, m6) = get_cas_lem p rs r5 m5.valid k4 _ m5.holds in
      (
        record k4 { bytes_remain = ((number + 1) % 2 ^ 32 + (2 ^ 32 - 1)) % 2 ^ 32 },
        r6,
        next (goes_on rs r ParserState.start p.has_kv refl) e1 (
            next (goes_on (rs ++ new_retrieval ∷ []) r1 ParserState.get_start p.has_kv refl) e2 (
              next (goes_on (rs ++ k1 ∷ []) r2 ParserState.get_key true refl) e3 (
                next (goes_on (rs ++ k2 ∷ []) r3 ParserState.get_flags true refl) e4 (
                  next (goes_on (rs ++ k3 ∷ []) r4 ParserState.get_bytes true refl) e5
                    (next (goes_on (rs ++ k4 ∷ []) r5 ParserState.get_cas true refl) e6 here))))),
        record {
          valid = m6.valid;
          holds = m6.holds;
          same_bytes =
              m6.same_bytes ∙ m5.same_bytes ∙ m4.same_bytes ∙ m3.same_bytes ∙ m2.same_bytes
              ∙ m1.same_bytes;
        },
        record {
          key = subst (λ ss. Denotes ss td i.key) m1.same_bytes d;
          data_block = refl;
          flags = refl;
          bytes = omega (arith, w.announced, w.short);
          cas_unique = refl;
          key_len = refl;
          remain = omega (arith, w.announced, w.short);
          no_key = refl;
          no_data_block = refl;
        },
      )

  -- One item takes seven rounds.
  pub item_lem :
      (rs : List RetrievalResult) (r : BufferReader) (i : Item) (rest : List ℕ)
      → IsValid r
      → IsItem i
      → unread r ≡ item_text i rest
      → (k : RetrievalResult) × (r' : BufferReader) × Steps false
          (start_at p rs r)
          7
          (item_at p rs r' k)
        × Moved r r' rest
        × Holds (shapes r.blocks) k i
  unfolding step
  item_lem rs r i rest v w e =
      let (k, r', a, m, h) = line_lem rs r i rest v w e in
      let (td, d, (r'', e', n)) =
        get_value_remaining_lem p rs r' m.valid k i.value rest h.data_block h.bytes h.remain
          m.holds in
      (
        record k { data_block = td; bytes_remain = 0 },
        r'',
        Steps-trans a
            (next (goes_on (rs ++ k ∷ []) r' ParserState.get_value_remaining true refl) e' here),
        Moved-trans r r' r'' (i.value ++ (13 ∷ (10 ∷ rest))) rest m n,
        record {
          key = h.key;
          data_block = subst (λ ss. Denotes ss td i.value) m.same_bytes d;
          flags = h.flags;
          bytes = h.bytes;
          cas_unique = h.cas_unique;
          key_len = h.key_len;
          complete = refl;
          no_key = h.no_key;
          no_data_block = h.no_data_block;
        },
      )
