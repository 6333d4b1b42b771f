-- ===== src/Parser/Process.antt =====
-- `process_packets`: the state machine.
use libmc.Prelude.{
  ℕ, zero, suc, ◌+◌, ◌-◌, ◌%◌, ◌^◌, ◌||◌, ◌&&◌, Bool, true, false, [], Option, none, some, ltb, leb,
  ◌==◌, if◌then◌else◌, length, get_elem?, update_last,
}
use libmc.Types.{ParserState, ParserMode, is_end_state}
use libmc.BufferReader
use libmc.BufferReader.{BufferReader}
use libmc.Tokens.{parse_token_data}
use libmc.Parser.State.{PacketParser}
use libmc.Result.{RetrievalResult, UnsignedResult}
use libmc.Parser.Monad.{
  Outcome, Parse, ◌>>=◌, ◌>>◌, give, modify, goto, asserts, no_store, peek, skip, read_unsigned,
  read_until, read_bytes, skip_until, the_kv, with_kv, back,
}
use libmc.Parser.Start.{start_state}

abbrev pub inc32 : ℕ → ℕ
inc32 n = (n + 1) % 2 ^ 32

-- got "VALUE "
unfoldable pub get_start : Parse (Unit {0})
get_start = do
  k ← back (λ p. p.retrieval_results)
  modify (λ p. record p { has_kv = true })
  (n, td) ← read_until b' ' (λ x. with_kv (λ k. record k { key = x.1; key_len = x.0 % 2 ^ 8 }))
  skip 1
  goto ParserState.get_key

-- got "key "
unfoldable pub get_key : Bool → Parse (Unit {0})
get_key debug = do
  k ← the_kv
  asserts debug (ltb 0 (length k.key))
  flags ← read_unsigned no_store
  modify (with_kv (λ k. record k { flags = flags % 2 ^ 32 }))
  skip 1
  goto ParserState.get_flags

-- got "flags "
unfoldable pub get_flags : Bool → Parse (Unit {0})
get_flags debug = do
  k ← the_kv
  asserts debug (leb k.bytes_remain (inc32 k.bytes))
  bytes ← read_unsigned no_store
  modify (with_kv (λ k. record k { bytes = bytes % 2 ^ 32; bytes_remain = inc32 (bytes % 2 ^ 32) }))
  skip 1
  goto ParserState.get_bytes

-- got "bytes " or "bytes\r"
unfoldable pub get_bytes : Bool → Parse (Unit {0})
get_bytes debug = do
  k ← the_kv
  asserts debug (k.bytes_remain == inc32 k.bytes)
  c ← peek 0
  if c == 10
      then (do modify (with_kv (λ k. record k { cas_unique = 0 })); goto ParserState.get_cas)
      else (do
        cas ← read_unsigned (λ x. with_kv (λ k. record k { cas_unique = x }))
        skip 1
        goto ParserState.get_cas)

-- got "cas\r" or got "bytes\r"
unfoldable pub get_cas : Bool → Parse (Unit {0})
get_cas debug = do
  k ← the_kv
  asserts debug (k.bytes_remain == inc32 k.bytes)
  skip 1
  modify (with_kv (λ k. record k { bytes_remain = (k.bytes_remain + (2 ^ 32 - 1)) % 2 ^ 32 }))
  goto ParserState.get_value_remaining

-- The data block, and the wish for a larger block to receive it in.
unfoldable pub read_value : RetrievalResult → Parse (Unit {0})
read_value k = do
  modify (with_kv (λ k. record k { data_block = [] }))
  modify (λ p.
      if ltb p.reader.read_left ((k.bytes + 2) % 2 ^ 32)
      then record p {
        reader =
            BufferReader.set_next_prefered_size ((k.bytes + 2) % 2 ^ 32 - p.reader.read_left)
              p.reader;
      }
      else p)
  td ← read_bytes k.bytes (λ td. with_kv (λ k. record k { data_block = td }))
  modify (with_kv (λ k. record k { bytes_remain = 0 }))

-- In a build with assertions the key is parsed once more, for the log.
abbrev log_key : Bool → Parse (Unit {0})
log_key debug =
    if debug
    then (do
      k ← the_kv
      λ p. elim (parse_token_data p.reader.blocks k.key k.key_len) [
        | none ↦ Outcome.fault
        | some ptr ↦ Outcome.done tt p
      ])
    else give tt

-- not got <data block> + "\r\n"
unfoldable pub get_value_remaining : Bool → Parse (Unit {0})
unfolding read_value
get_value_remaining debug = do
  k ← the_kv
  asserts debug (k.bytes_remain == k.bytes || k.bytes_remain == 0)
  if ltb 0 k.bytes_remain then read_value k else give tt
  skip 2
  log_key debug
  modify (λ p. record p { has_kv = false })
  goto ParserState.start

abbrev with_unsigned : (UnsignedResult → UnsignedResult) → PacketParser → PacketParser
with_unsigned f p = record p { unsigned_results = update_last f p.unsigned_results }

unfoldable pub incr_decr_start : Parse (Unit {0})
incr_decr_start = do
  u ← back (λ p. p.unsigned_results)
  value ← read_unsigned (λ x. with_unsigned (λ u. record u { value = x }))
  skip 1
  λ p. elim (get_elem? p.request_keys p.request_key_idx) [
    | none ↦ Outcome.fault
    | some key ↦ Outcome.done tt (with_unsigned (λ u. record u { key = some key }) p)
  ]
  goto ParserState.incr_decr_remaining

unfoldable pub incr_decr_remaining : Parse (Unit {0})
incr_decr_remaining = do
  n ← skip_until 10
  skip 1
  modify (λ p. record p { request_key_idx = p.request_key_idx + 1 })
  goto ParserState.start

unfoldable pub process_line_result : Parse (Unit {0})
process_line_result = do
  l ← back (λ p. p.line_results)
  (n, td) ← read_until 10 (λ x p. record p {
    line_results = update_last (λ l. record l { line = x.1; line_len = x.0 }) p.line_results;
  })
  skip 1

-- The `switch` of the loop; `default` does nothing.
unfoldable pub step_at : Bool → ParserState → Parse (Unit {0})
unfolding get_start get_key get_flags get_bytes get_cas get_value_remaining incr_decr_start
    incr_decr_remaining process_line_result start_state
step_at debug ParserState.start = start_state debug
step_at debug ParserState.get_start = get_start
step_at debug ParserState.get_key = get_key debug
step_at debug ParserState.get_flags = get_flags debug
step_at debug ParserState.get_bytes = get_bytes debug
step_at debug ParserState.get_cas = get_cas debug
step_at debug ParserState.get_value_remaining = get_value_remaining debug
step_at debug ParserState.incr_decr_start = incr_decr_start
step_at debug ParserState.incr_decr_remaining = incr_decr_remaining
step_at debug ParserState.ver_start = do process_line_result; goto ParserState.end
step_at debug ParserState.stat_start = do process_line_result; goto ParserState.start
step_at debug ParserState.end = give tt
step_at debug ParserState.error = give tt

unfoldable pub step : Bool → Parse (Unit {0})
unfolding step_at
step debug p = step_at debug p.state p

-- `canEndParse`, whose assertion on the mode `process_packets` makes.
abbrev pub ends_in : ParserMode → PacketParser → Bool
ends_in ParserMode.end_state p = is_end_state p.state
ends_in _ p = p.request_key_idx == length p.request_keys

unfoldable pub can_end_parse : PacketParser → Bool
can_end_parse p = ends_in p.mode p

-- The loop, on fuel; `none` means that the fuel ran out.
unfoldable pub process_loop : Bool → ℕ → PacketParser → Option (Outcome (Unit {0}))
unfolding can_end_parse
process_loop debug zero p = none
process_loop debug (suc fuel) p = elim (can_end_parse p) [
  | true ↦ some (Outcome.done tt p)
  | false ↦ elim (step debug p) [
    | Outcome.done u q ↦ process_loop debug fuel q
    | Outcome.stop e q ↦ some (Outcome.stop e q)
    | Outcome.fault ↦ some Outcome.fault
  ]
]

abbrev pub restart : PacketParser → PacketParser
restart p = if is_end_state p.state then record p { state = ParserState.start } else p

abbrev pub is_undefined : ParserMode → Bool
is_undefined ParserMode.undefined = true
is_undefined _ = false

-- The mode does not change in the loop, so the assertion of `canEndParse` is made once.
unfoldable pub process_packets : Bool → ℕ → PacketParser → Option (Outcome (Unit {0}))
unfolding process_loop
process_packets debug fuel p =
    if debug && is_undefined p.mode then some Outcome.fault else process_loop debug fuel (restart p)
