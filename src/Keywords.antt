-- ===== src/Keywords.antt =====
-- The words of the protocol in include/Keywords.h, as their bytes.
use libmc.Prelude.{ℕ, List, [], ◌∷◌}

abbrev pub crlf : List ℕ
crlf = 13 ∷ 10 ∷ []

abbrev pub space : List ℕ
space = b' ' ∷ []

abbrev pub get : List ℕ
get = b'g' ∷ b'e' ∷ b't' ∷ []

abbrev pub gets : List ℕ
gets = b'g' ∷ b'e' ∷ b't' ∷ b's' ∷ []

abbrev pub set_ : List ℕ
set_ = b's' ∷ b'e' ∷ b't' ∷ b' ' ∷ []

abbrev pub add_ : List ℕ
add_ = b'a' ∷ b'd' ∷ b'd' ∷ b' ' ∷ []

abbrev pub replace_ : List ℕ
replace_ = b'r' ∷ b'e' ∷ b'p' ∷ b'l' ∷ b'a' ∷ b'c' ∷ b'e' ∷ b' ' ∷ []

abbrev pub append_ : List ℕ
append_ = b'a' ∷ b'p' ∷ b'p' ∷ b'e' ∷ b'n' ∷ b'd' ∷ b' ' ∷ []

abbrev pub prepend_ : List ℕ
prepend_ = b'p' ∷ b'r' ∷ b'e' ∷ b'p' ∷ b'e' ∷ b'n' ∷ b'd' ∷ b' ' ∷ []

abbrev pub cas_ : List ℕ
cas_ = b'c' ∷ b'a' ∷ b's' ∷ b' ' ∷ []

abbrev pub delete_ : List ℕ
delete_ = b'd' ∷ b'e' ∷ b'l' ∷ b'e' ∷ b't' ∷ b'e' ∷ b' ' ∷ []

abbrev pub touch_ : List ℕ
touch_ = b't' ∷ b'o' ∷ b'u' ∷ b'c' ∷ b'h' ∷ b' ' ∷ []

abbrev pub incr_ : List ℕ
incr_ = b'i' ∷ b'n' ∷ b'c' ∷ b'r' ∷ b' ' ∷ []

abbrev pub decr_ : List ℕ
decr_ = b'd' ∷ b'e' ∷ b'c' ∷ b'r' ∷ b' ' ∷ []

abbrev pub noreply_ : List ℕ
noreply_ = b' ' ∷ b'n' ∷ b'o' ∷ b'r' ∷ b'e' ∷ b'p' ∷ b'l' ∷ b'y' ∷ []

abbrev pub version : List ℕ
version = b'v' ∷ b'e' ∷ b'r' ∷ b's' ∷ b'i' ∷ b'o' ∷ b'n' ∷ []

abbrev pub stats : List ℕ
stats = b's' ∷ b't' ∷ b'a' ∷ b't' ∷ b's' ∷ []

abbrev pub flush_all : List ℕ
flush_all = b'f' ∷ b'l' ∷ b'u' ∷ b's' ∷ b'h' ∷ b'_' ∷ b'a' ∷ b'l' ∷ b'l' ∷ []

abbrev pub quit : List ℕ
quit = b'q' ∷ b'u' ∷ b'i' ∷ b't' ∷ []

abbrev pub send_error : List ℕ
send_error = b's' ∷ b'e' ∷ b'n' ∷ b'd' ∷ b'_' ∷ b'e' ∷ b'r' ∷ b'r' ∷ b'o' ∷ b'r' ∷ []

abbrev pub recv_error : List ℕ
recv_error = b'r' ∷ b'e' ∷ b'c' ∷ b'v' ∷ b'_' ∷ b'e' ∷ b'r' ∷ b'r' ∷ b'o' ∷ b'r' ∷ []

abbrev pub conn_poll_error : List ℕ
conn_poll_error =
    b'c' ∷ b'o' ∷ b'n' ∷ b'n' ∷ b'_' ∷ b'p' ∷ b'o' ∷ b'l' ∷ b'l' ∷ b'_' ∷ b'e' ∷ b'r' ∷ b'r' ∷ b'o'
    ∷ b'r' ∷ []

abbrev pub poll_timeout_error : List ℕ
poll_timeout_error =
    b'p' ∷ b'o' ∷ b'l' ∷ b'l' ∷ b'_' ∷ b't' ∷ b'i' ∷ b'm' ∷ b'e' ∷ b'o' ∷ b'u' ∷ b't' ∷ b'_' ∷ b'e'
    ∷ b'r' ∷ b'r' ∷ b'o' ∷ b'r' ∷ []

abbrev pub poll_error : List ℕ
poll_error = b'p' ∷ b'o' ∷ b'l' ∷ b'l' ∷ b'_' ∷ b'e' ∷ b'r' ∷ b'r' ∷ b'o' ∷ b'r' ∷ []

abbrev pub server_error : List ℕ
server_error =
    b's' ∷ b'e' ∷ b'r' ∷ b'v' ∷ b'e' ∷ b'r' ∷ b'_' ∷ b'e' ∷ b'r' ∷ b'r' ∷ b'o' ∷ b'r' ∷ []

abbrev pub programming_error : List ℕ
programming_error =
    b'p' ∷ b'r' ∷ b'o' ∷ b'g' ∷ b'r' ∷ b'a' ∷ b'm' ∷ b'm' ∷ b'i' ∷ b'n' ∷ b'g' ∷ b'_' ∷ b'e' ∷ b'r'
    ∷ b'r' ∷ b'o' ∷ b'r' ∷ []

abbrev pub invalid_key_error : List ℕ
invalid_key_error =
    b'i' ∷ b'n' ∷ b'v' ∷ b'a' ∷ b'l' ∷ b'i' ∷ b'd' ∷ b'_' ∷ b'k' ∷ b'e' ∷ b'y' ∷ b'_' ∷ b'e' ∷ b'r'
    ∷ b'r' ∷ b'o' ∷ b'r' ∷ []

abbrev pub incomplete_buffer_error : List ℕ
incomplete_buffer_error =
    b'i' ∷ b'n' ∷ b'c' ∷ b'o' ∷ b'm' ∷ b'p' ∷ b'l' ∷ b'e' ∷ b't' ∷ b'e' ∷ b'_' ∷ b'b' ∷ b'u' ∷ b'f'
    ∷ b'f' ∷ b'e' ∷ b'r' ∷ b'_' ∷ b'e' ∷ b'r' ∷ b'r' ∷ b'o' ∷ b'r' ∷ []
