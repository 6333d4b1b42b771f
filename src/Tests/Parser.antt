-- ===== src/Tests/Parser.antt =====
-- Concrete parsers and results, and the theorems on them.
use libmc.Prelude.{
  ℕ, Bool, ◌+◌, ◌*◌, ◌≡◌, ◌<◌, sym, ap, append-nil, refl, false, true, [], ◌∷◌, some, none, arith,
  inl, length, List, take,
}
use libmc.Types.{ParserState, ParserMode}
use libmc.DataBlock.{DataBlock}
use libmc.Blocks.{TokenData, sizes, sum_refs}
use libmc.Blocks.Content.{shapes}
use libmc.Blocks.Slices.{Denotes}
use libmc.BufferReader.{BufferReader}
use libmc.BufferReader.Valid.{IsValid}
use libmc.BufferReader.Unsigned.{decimal_from}
use libmc.Tokens.{parse_token_data}
use libmc.Tokens.Text.{parse_token_data-Denotes}
use libmc.Result.{RetrievalResult, LineResult, new_retrieval, copy_retrieval, destroy_retrieval}
use libmc.Result.Lifetime.{copy_retrieval-destroy_retrieval}
use libmc.Parser.State.{PacketParser, new_parser, set_mode, add_request_key}
use libmc.Parser.Monad.{Outcome}
use libmc.Parser.Process.{process_packets}
use libmc.Parser.Calls.{Moved}
use libmc.Parser.Items.{Item, IsItem}
use libmc.Parser.Response.{HoldsAll, process_packets-HoldsAll}
use libmc.Parser.Received.{ShowsAll, process_packets-ShowsAll}
use libmc.Parser.Spins.{process_packets-Unknown, process_packets-end_word, unknown_v}

abbrev block : List ℕ → DataBlock
block bytes = record {
  allocated = true;
  data_ = bytes;
  capacity = length bytes;
  n_bytes_ref = length bytes;
}

-- "VALUE k " and "0 1\r\nx\r\nEND\r\n".
abbrev first_part : List ℕ
first_part = b'V' ∷ b'A' ∷ b'L' ∷ b'U' ∷ b'E' ∷ 32 ∷ b'k' ∷ 32 ∷ []

abbrev second_part : List ℕ
second_part = b'0' ∷ 32 ∷ b'1' ∷ 13 ∷ 10 ∷ b'x' ∷ 13 ∷ 10 ∷ b'E' ∷ b'N' ∷ b'D' ∷ 13 ∷ 10 ∷ []

abbrev response : BufferReader
response = record {
  blocks = block first_part ∷ block second_part ∷ [];
  capacity = 21;
  size = 21;
  read_left = 21;
  read_iterator = 0;
  read_offset = 0;
  write_iterator = 2;
  next_prefered_size = 0;
}

response-IsValid : IsValid response
response-IsValid = record {
  left = refl;
  cursor_in = omega arith;
  in_range = inl (omega arith);
  packed = (inl (omega arith), (inl (omega arith), tt));
  room = ((omega arith, omega arith), ((omega arith, omega arith), tt));
  covered = (omega arith, (omega arith, tt));
  last = omega arith;
  write_in = omega arith;
  filled = λ h. (omega arith, (omega arith, tt));
}

abbrev item : Item
item = record { key = b'k' ∷ []; flags = b'0' ∷ []; bytes = b'1' ∷ []; cas = []; value = b'x' ∷ [] }

item-IsItem : IsItem item
unfolding decimal_from
item-IsItem = record {
  key_plain = ((λ e. absurd (omega (arith, e))), tt);
  some_flags = omega arith;
  flags_digits = (refl, tt);
  some_bytes = omega arith;
  bytes_digits = (refl, tt);
  cas_digits = tt;
  announced = refl;
  short = omega arith;
}

abbrev getter : PacketParser
getter = set_mode ParserMode.end_state (new_parser response)

process_packets-HoldsAll_example :
    (ks : List RetrievalResult) × (r : BufferReader) × (b : Bool) × (process_packets false
        (7 * 1 + 1 + 1)
        getter
      ≡ some (
          Outcome.done tt (record getter {
            reader = r;
            state = ParserState.end;
            retrieval_results = ks;
            has_kv = b;
          })))
    × Moved response r []
    × HoldsAll (shapes response.blocks) ks (item ∷ [])
process_packets-HoldsAll_example =
    process_packets-HoldsAll getter (item ∷ []) [] 0 refl (inl refl) response-IsValid
      (item-IsItem, tt) refl

process_packets-ShowsAll_example :
    (ks : List RetrievalResult) × (q : PacketParser) × (process_packets false (7 * 1 + 1 + 1) getter
      ≡ some (Outcome.done tt q))
    × (q.retrieval_results ≡ ks)
    × ShowsAll q.reader.blocks ks (item ∷ [])
process_packets-ShowsAll_example =
    process_packets-ShowsAll getter (item ∷ []) [] 0 refl (inl refl) response-IsValid
      (item-IsItem, tt) (omega arith, tt) refl

-- A reader with the bytes in one block, all of it unread.
abbrev holding : List ℕ → BufferReader
holding bytes = record {
  blocks = block bytes ∷ [];
  capacity = length bytes;
  size = length bytes;
  read_left = length bytes;
  read_iterator = 0;
  read_offset = 0;
  write_iterator = 1;
  next_prefered_size = 0;
}

holding-IsValid : (bytes : List ℕ) → 0 < length bytes → IsValid (holding bytes)
holding-IsValid bytes some_bytes = record {
  left = ap length (sym (append-nil bytes));
  cursor_in = omega arith;
  in_range = inl some_bytes;
  packed = (inl some_bytes, tt);
  room = ((omega arith, omega arith), tt);
  covered = (omega arith, tt);
  last = omega arith;
  write_in = omega arith;
  filled = λ h. (omega arith, tt);
}

abbrev vx : List ℕ
vx = b'V' ∷ b'X' ∷ []

process_packets-Unknown_example :
    process_packets true 1000 (set_mode ParserMode.end_state (new_parser (holding vx))) ≡ none
process_packets-Unknown_example =
    process_packets-Unknown true (set_mode ParserMode.end_state (new_parser (holding vx))) 1000
      (holding-IsValid vx (omega arith)) refl (inl refl)
      (unknown_v b'X' [] (λ e. absurd (omega (arith, e))) (λ e. absurd (omega (arith, e))))

abbrev ending : List ℕ
ending = b'E' ∷ b'N' ∷ b'D' ∷ 13 ∷ 10 ∷ []

abbrev counter : PacketParser
counter = add_request_key (b'k' ∷ []) (set_mode ParserMode.counting (new_parser (holding ending)))

process_packets-end_word_example : process_packets false 1000 counter ≡ none
process_packets-end_word_example =
    process_packets-end_word counter [] 1000 (holding-IsValid ending (omega arith)) refl refl
      (omega arith) refl

-- A token of two slices, "E k" in the blocks of the response.
abbrev token : TokenData
token =
    record { iterator = 0; offset = 4; size = 4 }
    ∷ record { iterator = 1; offset = 0; size = 3 }
    ∷ []

abbrev token_bytes : List ℕ
token_bytes = b'E' ∷ 32 ∷ b'k' ∷ 32 ∷ b'0' ∷ 32 ∷ b'1' ∷ []

token-Denotes : Denotes (shapes response.blocks) token token_bytes
token-Denotes = record {
  text = refl;
  fits = ((omega arith, omega arith), ((omega arith, omega arith), tt));
}

parse_token_data-Denotes_example :
    parse_token_data response.blocks token 7 ≡ some (some token_bytes)
parse_token_data-Denotes_example =
    parse_token_data-Denotes response.blocks token token_bytes (omega arith) token-Denotes

abbrev retrieved : RetrievalResult
retrieved = record new_retrieval { key = token; key_len = 7; data_block = take 1 token }

copy_retrieval-destroy_retrieval_example :
    (bs' : List DataBlock) × (copy_retrieval response.blocks retrieved ≡ some (bs', retrieved))
    × (destroy_retrieval bs' retrieved ≡ some response.blocks)
    × (sum_refs bs' ≡ 21 + 7 + 4)
    × (shapes bs' ≡ shapes response.blocks)
unfolding sizes
copy_retrieval-destroy_retrieval_example =
    copy_retrieval-destroy_retrieval response.blocks retrieved (omega arith, (omega arith, tt))
      (omega arith, tt)

abbrev version : LineResult
version = record { line = token; line_len = 7; inner = none }
