-- ===== src/Common.antt =====
-- src/Common.cpp: `isUnixSocket`, `errCodeToString`, and the split of a server's string, in place.
-- That string is the list of its bytes with the final NUL; a pointer into it is a position, and NULL
-- is `none`. Reading behind the string is `none`.
pub mod Split
use libmc.Types.{ErrCode}
use libmc.Keywords
use libmc.Prelude.{
  ℕ, suc, ◌+◌, Bool, true, false, not, List, [], ◌∷◌, Option, none, some, ◌==◌, if◌then◌else◌,
  ◌>>=◌,
}

-- `server_string_split_t`.
pub record ServerStringSplit : Type 0 where
  pub host : ℕ
  pub port : Option ℕ
  pub alias : Option ℕ

-- What one round of the loop does: whether it returns, what it leaves in place of the byte, and the
-- variables.
pub record Round : Type 0 where
  pub returns : Bool
  pub byte : ℕ
  pub escaped : Bool
  pub res : ServerStringSplit

abbrev pub is_null : Option ℕ → Bool
is_null none = true
is_null (some p) = false

-- `case ':'`.
unfoldable pub at_colon : ℕ → ServerStringSplit → Round
at_colon pos res =
    if is_null res.alias
    then record {
      returns = false;
      byte = 0;
      escaped = false;
      res = if is_null res.port then record res { port = some (pos + 1) } else res;
    }
    else record { returns = false; byte = 58; escaped = false; res = res }

-- `case ' '` where it is not escaped.
unfoldable pub at_space : ℕ → ServerStringSplit → Round
at_space pos res =
    if is_null res.alias
    then record {
      returns = false;
      byte = 0;
      escaped = false;
      res = record res { alias = some (pos + 1) };
    }
    else record { returns = true; byte = 0; escaped = false; res = res }

-- The `switch`; an escaped space falls through to `default`.
unfoldable pub round : ℕ → ℕ → Bool → ServerStringSplit → Round
round c pos escaped res =
    if c == 0
    then record { returns = true; byte = c; escaped = escaped; res = res }
    else if c == 58
    then at_colon pos res
    else if c == 92
    then record { returns = false; byte = c; escaped = not escaped; res = res }
    else if c == 32
    then if escaped
      then record { returns = false; byte = c; escaped = false; res = res }
      else at_space pos res
    else record { returns = false; byte = c; escaped = false; res = res }

-- The loop over what is left of the string.
unfoldable pub split_from :
    List ℕ → ℕ → Bool → ServerStringSplit → Option (List ℕ × ServerStringSplit)
split_from [] pos escaped res = none
split_from (c ∷ input) pos escaped res =
    let r = round c pos escaped res in
    let rest = split_from input (suc pos) r.escaped r.res in
    if r.returns
    then some (r.byte ∷ input, r.res)
    else (do (done, q) ← rest; some (r.byte ∷ done, q))

unfoldable pub split_server_string : List ℕ → Option (List ℕ × ServerStringSplit)
split_server_string input =
    split_from input 0 false (record { host = 0; port = none; alias = none })

-- `isUnixSocket`; the first byte of an empty string is NUL.
unfoldable pub is_unix_socket : List ℕ → Bool
is_unix_socket [] = false
is_unix_socket (c ∷ cs) = c == b'/'

-- `errCodeToString`.
unfoldable pub err_code_to_string : ErrCode → List ℕ
err_code_to_string ErrCode.send_err = Keywords.send_error
err_code_to_string ErrCode.recv_err = Keywords.recv_error
err_code_to_string ErrCode.conn_poll_err = Keywords.conn_poll_error
err_code_to_string ErrCode.poll_timeout_err = Keywords.poll_timeout_error
err_code_to_string ErrCode.poll_err = Keywords.poll_error
err_code_to_string ErrCode.mc_server_err = Keywords.server_error
err_code_to_string ErrCode.programming_err = Keywords.programming_error
err_code_to_string ErrCode.invalid_key_err = Keywords.invalid_key_error
err_code_to_string ErrCode.incomplete_buffer_err = Keywords.incomplete_buffer_error
err_code_to_string ErrCode.ok = b'o' ∷ b'k' ∷ []
