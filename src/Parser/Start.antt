-- ===== src/Parser/Start.antt =====
-- `start_state`: the first bytes of a response say what it is.
use libmc.Prelude.{
  ℕ, ◌+◌, Bool, List, [], ◌∷◌, ◌++◌, none, some, leb, ◌==◌, ◌&&◌, if◌then◌else◌, get_elem?,
}
use libmc.Types.{ErrCode, MessageResultType, ParserState}
use libmc.BufferReader
use libmc.BufferReader.{BufferReader}
use libmc.Tokens.{free_token_data, parse_token_data}
use libmc.Result.{new_retrieval, new_line, new_unsigned}
use libmc.Parser.Monad.{
  Outcome, Parse, ◌>>=◌, ◌>>◌, give, modify, goto, no_store, peek, asserts, is_ok, expect,
  read_until,
}

abbrev pub value_word : List ℕ
value_word = b'V' ∷ b'A' ∷ b'L' ∷ b'U' ∷ b'E' ∷ b' ' ∷ []

abbrev pub version_word : List ℕ
version_word = b'V' ∷ b'E' ∷ b'R' ∷ b'S' ∷ b'I' ∷ b'O' ∷ b'N' ∷ b' ' ∷ []

abbrev pub end_word : List ℕ
end_word = b'E' ∷ b'N' ∷ b'D' ∷ 13 ∷ 10 ∷ []

abbrev pub exists_word : List ℕ
exists_word = b'E' ∷ b'X' ∷ b'I' ∷ b'S' ∷ b'T' ∷ b'S' ∷ 13 ∷ 10 ∷ []

abbrev pub ok_word : List ℕ
ok_word = b'O' ∷ b'K' ∷ 13 ∷ 10 ∷ []

abbrev pub stored_word : List ℕ
stored_word = b'S' ∷ b'T' ∷ b'O' ∷ b'R' ∷ b'E' ∷ b'D' ∷ 13 ∷ 10 ∷ []

abbrev pub stat_word : List ℕ
stat_word = b'S' ∷ b'T' ∷ b'A' ∷ b'T' ∷ b' ' ∷ []

abbrev pub deleted_word : List ℕ
deleted_word = b'D' ∷ b'E' ∷ b'L' ∷ b'E' ∷ b'T' ∷ b'E' ∷ b'D' ∷ 13 ∷ 10 ∷ []

abbrev pub not_found_word : List ℕ
not_found_word = b'N' ∷ b'O' ∷ b'T' ∷ b'_' ∷ b'F' ∷ b'O' ∷ b'U' ∷ b'N' ∷ b'D' ∷ 13 ∷ 10 ∷ []

abbrev pub not_stored_word : List ℕ
not_stored_word = b'N' ∷ b'O' ∷ b'T' ∷ b'_' ∷ b'S' ∷ b'T' ∷ b'O' ∷ b'R' ∷ b'E' ∷ b'D' ∷ 13 ∷ 10 ∷ []

abbrev pub touched_word : List ℕ
touched_word = b'T' ∷ b'O' ∷ b'U' ∷ b'C' ∷ b'H' ∷ b'E' ∷ b'D' ∷ 13 ∷ 10 ∷ []

-- The key of a message, once the message has been pushed.
unfoldable pub fill_key : MessageResultType → Parse (Unit {0})
fill_key tp p = elim (get_elem? p.request_keys p.request_key_idx) [
  | none ↦ Outcome.fault
  | some key ↦ Outcome.done tt (record p {
    message_results = p.message_results ++ record { type_ = tp; key = some key } ∷ [];
    request_key_idx = p.request_key_idx + 1;
  })
]

unfoldable pub process_message_result : MessageResultType → Parse (Unit {0})
unfolding fill_key
process_message_result MessageResultType.okay p = Outcome.done tt (record p {
  message_results = p.message_results ++ record { type_ = MessageResultType.okay; key = none } ∷ [];
})
process_message_result tp p = fill_key tp p

-- `skipBytes`, with the assertion that it succeeds; without assertions its error is overwritten.
unfoldable pub skip_checked : Bool → ℕ → Parse (Unit {0})
skip_checked debug n p = elim (BufferReader.skip_bytes n p.reader) [
  | none ↦ Outcome.fault
  | some e ↦ asserts debug (is_ok e.0) (record p { reader = e.1 })
]

-- The branches of "ERROR", "CLIENT_ERROR" and "SERVER_ERROR": the line is passed and its token, which
-- is only logged, is freed.
unfoldable pub error_line : Bool → ErrCode → Parse (Unit {0})
unfolding skip_checked
error_line debug e = do
  (n, td) ← read_until 10 no_store
  skip_checked debug 1
  λ p. elim (parse_token_data p.reader.blocks td n) [
    | none ↦ Outcome.fault
    | some ptr ↦ elim (free_token_data p.reader.blocks td) [
      | none ↦ Outcome.fault
      | some bs ↦
          Outcome.stop e
            (record p { reader = record (p.reader) { blocks = bs }; state = ParserState.error })
    ]
  ]

abbrev push_retrieval : Parse (Unit {0})
push_retrieval =
    modify (λ p. record p { retrieval_results = p.retrieval_results ++ new_retrieval ∷ [] })

abbrev push_line : Parse (Unit {0})
push_line = modify (λ p. record p { line_results = p.line_results ++ new_line ∷ [] })

abbrev push_unsigned : Parse (Unit {0})
push_unsigned =
    modify (λ p. record p { unsigned_results = p.unsigned_results ++ new_unsigned ∷ [] })

-- `EXPECT_BYTES` and `processMessageResult`.
abbrev message : Bool → List ℕ → MessageResultType → Parse (Unit {0})
message debug word tp = do expect debug word; process_message_result tp

unfoldable pub start_v : Bool → Parse (Unit {0})
start_v debug = do
  c2 ← peek 1
  if c2 == b'A'
      then (do expect debug value_word; push_retrieval; goto ParserState.get_start)
      else if c2 == b'E'
      then (do expect debug version_word; push_line; goto ParserState.ver_start)
      else give tt

unfoldable pub start_e : Bool → Parse (Unit {0})
unfolding process_message_result error_line
start_e debug = do
  c2 ← peek 1
  if c2 == b'R'
      then error_line debug ErrCode.programming_err
      else if c2 == b'N'
      then (do expect debug end_word; goto ParserState.end)
      else if c2 == b'X'
      then message debug exists_word MessageResultType.exists
      else give tt

unfoldable pub start_s : Bool → Parse (Unit {0})
unfolding process_message_result error_line
start_s debug = do
  c3 ← peek 2
  c2 ← peek 1
  if c2 == b'T'
      then if c3 == b'O'
        then message debug stored_word MessageResultType.stored
        else (do expect debug stat_word; push_line; goto ParserState.stat_start)
      else error_line debug ErrCode.mc_server_err

unfoldable pub start_n : Bool → Parse (Unit {0})
unfolding process_message_result
start_n debug = do
  c5 ← peek 4
  if c5 == b'F'
      then message debug not_found_word MessageResultType.not_found
      else if c5 == b'S'
      then message debug not_stored_word MessageResultType.not_stored
      else give tt

-- The `switch` on the first byte.
unfoldable pub start_at : Bool → ℕ → Parse (Unit {0})
unfolding start_v start_e start_s start_n process_message_result error_line
start_at debug c1 =
    if c1 == b'V'
    then start_v debug
    else if c1 == b'E'
    then start_e debug
    else if c1 == b'O'
    then (do message debug ok_word MessageResultType.okay; goto ParserState.end)
    else if c1 == b'S'
    then start_s debug
    else if c1 == b'D'
    then message debug deleted_word MessageResultType.deleted
    else if c1 == b'N'
    then start_n debug
    else if c1 == b'T'
    then message debug touched_word MessageResultType.touched
    else if c1 == b'C'
    then error_line debug ErrCode.programming_err
    else if leb b'0' c1 && leb c1 b'9'
    then (do push_unsigned; goto ParserState.incr_decr_start)
    else Outcome.stop ErrCode.programming_err

unfoldable pub start_state : Bool → Parse (Unit {0})
unfolding start_at
start_state debug = do c1 ← peek 0; start_at debug c1
