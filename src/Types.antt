-- ===== src/Types.antt =====
-- The enumerations of include/Export.h and include/Common.h.
use libmc.Prelude.{Bool, true, false}

-- `err_code_t`, without its numbers.
pub data ErrCode : Type 0 where
  send_err recv_err conn_poll_err poll_timeout_err poll_err : ErrCode
  mc_server_err programming_err invalid_key_err incomplete_buffer_err ok : ErrCode

-- `message_result_type`.
pub data MessageResultType : Type 0 where
  libmc_invalid exists okay stored not_stored not_found deleted touched : MessageResultType

-- `parser_state_t`.
pub data ParserState : Type 0 where
  start end error : ParserState
  get_start get_key get_flags get_bytes get_cas get_value_remaining : ParserState
  ver_start stat_start incr_decr_start incr_decr_remaining : ParserState

-- `IS_END_STATE`.
abbrev pub is_end_state : ParserState → Bool
is_end_state end = true
is_end_state error = true
is_end_state _ = false

-- `ParserMode` of include/Parser.h.
pub data ParserMode : Type 0 where
  undefined end_state counting : ParserMode

-- `op_code_t`: the commands with a dispatcher of their own.
pub data OpCode : Type 0 where
  set_op add_op replace_op append_op prepend_op cas_op get_op gets_op : OpCode
  incr_op decr_op touch_op delete_op stats_op flushall_op version_op quit_op : OpCode
