-- ===== src/Parser/State.antt =====
-- The parser's state, and its methods but `process_packets`. The reader that `m_buffer_reader` points
-- to is a part of the state. A key is the list of its bytes. `m_expectedResultCount`, which nothing
-- reads, is left out.
use libmc.Prelude.{
  ℕ, ◌&&◌, Bool, false, not, List, [], ◌∷◌, ◌++◌, Option, none, some, leb, ◌==◌, if◌then◌else◌,
  length, get_elem?, ◌>>=◌,
}
use libmc.Types.{ParserState, ParserMode}
use libmc.BufferReader.{BufferReader}
use libmc.DataBlock.{DataBlock}
use libmc.Result.{
  RetrievalResult, LineResult, MessageResult, UnsignedResult, destroy_retrieval, destroy_line,
}

-- `has_kv` says that `mt_kvPtr` points to the last retrieval result, and is not NULL.
pub record PacketParser : Type 0 where
  pub reader : BufferReader
  pub state : ParserState
  pub mode : ParserMode
  pub request_keys : List (List ℕ)
  pub request_key_idx : ℕ
  pub retrieval_results : List RetrievalResult
  pub message_results : List MessageResult
  pub line_results : List LineResult
  pub unsigned_results : List UnsignedResult
  pub has_kv : Bool

-- `PacketParser(reader)`.
abbrev pub new_parser : BufferReader → PacketParser
new_parser r = record {
  reader = r;
  state = ParserState.start;
  mode = ParserMode.undefined;
  request_keys = [];
  request_key_idx = 0;
  retrieval_results = [];
  message_results = [];
  line_results = [];
  unsigned_results = [];
  has_kv = false;
}

abbrev pub set_buffer_reader : BufferReader → PacketParser → PacketParser
set_buffer_reader r p = record p { reader = r }

abbrev pub set_mode : ParserMode → PacketParser → PacketParser
set_mode m p = record p { mode = m }

abbrev pub add_request_key : List ℕ → PacketParser → PacketParser
add_request_key key p = record p { request_keys = p.request_keys ++ key ∷ [] }

abbrev pub request_key_count : PacketParser → ℕ
request_key_count p = length p.request_keys

-- NULL when there is no key left; a fault, in a build with assertions, when the index is past that.
unfoldable pub current_request_key : Bool → PacketParser → Option (Option (List ℕ))
current_request_key debug p =
    if debug && not (leb p.request_key_idx (length p.request_keys))
    then none
    else if p.request_key_idx == length p.request_keys
    then some none
    else elim (get_elem? p.request_keys p.request_key_idx) [ none ↦ none | some k ↦ some (some k) ]

-- `clear` of the results that hold tokens runs their destructors.
unfoldable pub destroy_retrievals : List DataBlock → List RetrievalResult → Option (List DataBlock)
unfolding destroy_retrieval
destroy_retrievals bs [] = some bs
destroy_retrievals bs (k ∷ ks) = do bs' ← destroy_retrieval bs k; destroy_retrievals bs' ks

unfoldable pub destroy_lines : List DataBlock → List LineResult → Option (List DataBlock)
destroy_lines bs [] = some bs
destroy_lines bs (l ∷ ls) = do bs' ← destroy_line bs l; destroy_lines bs' ls

unfoldable pub rewind : PacketParser → Option PacketParser
unfolding destroy_retrievals destroy_lines
rewind p = do
  bs1 ← destroy_retrievals p.reader.blocks p.retrieval_results
  bs2 ← destroy_lines bs1 p.line_results
  some (record p {
    reader = record (p.reader) { blocks = bs2 };
    retrieval_results = [];
    message_results = [];
    line_results = [];
    unsigned_results = [];
    state = ParserState.start;
    request_key_idx = 0;
  })

unfoldable pub reset : PacketParser → Option PacketParser
unfolding rewind
reset p = do
  q ← rewind (record p { request_keys = [] })
  some (record q { mode = ParserMode.undefined })
