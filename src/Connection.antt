-- ===== src/Connection.antt =====
-- src/Connection.cpp and include/Connection.h: one connection, with its writer, and its parser that
-- holds its reader. A string is the list of its bytes, and -1 in `m_socketFd` is `none`. The system
-- is an argument with its state: `time`, and the calls that open, write to and read from a socket.
-- Times and timeouts are taken not to be negative. A fault is the outer `none`.
pub mod Reconnect
pub mod Sockets
use libmc.Prelude.{
  ℕ, ◌+◌, ◌-◌, ◌%◌, ◌^◌, Bool, true, false, not, List, [], ◌∷◌, ◌++◌, Option, none, some, ltb, leb,
  ◌==◌, ◌&&◌, if◌then◌else◌, length, take, ◌>>=◌, ◌>>◌, get_elem?,
}
use libmc.Types.{ParserMode}
use libmc.Common.{is_unix_socket}
use libmc.BufferWriter
use libmc.BufferWriter.{BufferWriter}
use libmc.BufferReader
use libmc.BufferReader.{BufferReader}
use libmc.Parser.State
use libmc.Parser.State.{PacketParser, new_parser, current_request_key}
use libmc.Parser.Monad.{Outcome}
use libmc.Parser.Process.{process_packets}

pub record Connection : Type 0 where
  pub counter : ℕ
  pub name : List ℕ
  pub host : List ℕ
  pub port : ℕ
  pub socket_fd : Option ℕ
  pub alive : Bool
  pub has_alias : Bool
  pub unix_socket : Bool
  pub dead_until : ℕ
  pub writer : BufferWriter
  pub parser : PacketParser
  pub connect_timeout : ℕ
  pub retry_timeout : ℕ
  pub max_retries : ℕ
  pub retires : ℕ

-- `Connection()`.
abbrev pub new_connection : Connection
new_connection = record {
  counter = 0;
  name = [];
  host = [];
  port = 0;
  socket_fd = none;
  alive = false;
  has_alias = false;
  unix_socket = false;
  dead_until = 0;
  writer = BufferWriter.empty;
  parser = new_parser BufferReader.empty;
  connect_timeout = 10;
  retry_timeout = 5;
  max_retries = 0;
  retires = 0;
}

-- `snprintf` into an array, whose last byte is NUL.
abbrev pub print_into : ℕ → List ℕ → List ℕ
print_into size text = take (size - 1) text

-- `MC_NI_MAXHOST` and `MC_NI_MAXSERV`.
abbrev pub max_host : ℕ
max_host = 1025

abbrev pub max_serv : ℕ
max_serv = 32

abbrev pub max_name : ℕ
max_name = max_host + 1 + max_serv

-- `init`; the format "%s:%u" is an argument. It returns -1.
unfoldable pub init : (List ℕ → ℕ → List ℕ) → List ℕ → ℕ → Option (List ℕ) → Connection → Connection
init host_and_port host port alias c =
    let stored = print_into max_host host in
    let unix = is_unix_socket stored in
    elim alias [
      | some name ↦ record c {
        host = stored;
        port = port;
        unix_socket = unix;
        has_alias = true;
        name = print_into max_name name;
      }
      | none ↦ record c {
        host = stored;
        port = port;
        unix_socket = unix;
        has_alias = false;
        name = print_into max_name (if unix then stored else host_and_port stored port);
      }
    ]

-- The system, on its state: `time`; a socket connected for the connection, by the addresses of its
-- host or by its path; `sendmsg` of pieces, with MSG_MORE or not; `recv` of so many bytes at most,
-- with MSG_PEEK or not. `none` is -1.
pub record System (W : Type 0) : Type 0 where
  pub time : W → ℕ × W
  pub open_socket : Connection → W → Option ℕ × W
  pub sendmsg : Option ℕ → List (List ℕ) → Bool → W → Option ℕ × W
  pub recv : Option ℕ → ℕ → Bool → W → Option (List ℕ) × W

-- `close`; a descriptor of 0 stays open. The call of `::close` is not one on the system's state here.
unfoldable pub close_fd : Option ℕ → Connection → Connection
close_fd none c = c
close_fd (some fd) c = if ltb 0 fd then record c { alive = false; socket_fd = none } else c

abbrev pub close : Connection → Connection
close c = close_fd c.socket_fd c

-- `connect` and `unixSocketConnect`, whether they have succeeded.
abbrev pub connected : {W : Type 0} → Connection → Option ℕ × W → Bool × Connection × W
connected c (none, w) = (false, c, w)
connected c (some fd, w) = (true, record c { socket_fd = some fd; alive = true }, w)

unfoldable pub connect : {W : Type 0} → System W → Connection → W → Bool × Connection × W
unfolding close_fd
connect sys c w = connected (close c) (sys.open_socket (close c) w)

-- `tryReconnect` from the call of `time` on, of a connection that is not alive.
unfoldable pub reconnect_due : {W : Type 0} → System W → Connection → W → Bool × Connection × W
unfolding connect
reconnect_due sys c w =
    let now = (sys.time w).0 in
    let (ok, c', w') = connect sys c (sys.time w).1 in
    if leb c.dead_until now
    then if ok
      then (c'.alive, record c' { dead_until = 0 }, w')
      else (c'.alive, record c' { dead_until = now + c'.retry_timeout }, w')
    else (c.alive, c, (sys.time w).1)

unfoldable pub try_reconnect :
    {W : Type 0} → System W → Bool → Connection → W → Bool × Connection × W
unfolding reconnect_due
try_reconnect sys check_retries c w =
    let c1 = if check_retries then record c { retires = c.retires + 1 } else c in
    if c.alive
    then (true, c, w)
    else if check_retries && ltb c1.max_retries c1.retires
    then (false, c1, w)
    else reconnect_due sys c1 w

-- `markDead`; `quits` says that the reason is `kCONN_QUIT`. Else it logs the current request key.
unfoldable pub mark_dead :
    {W : Type 0} → Bool → System W → Bool → ℕ → Connection → W → Option (Connection × W)
unfolding close_fd
mark_dead debug sys quits delay c w =
    if not c.alive
    then some (c, w)
    else if quits
    then some (close (record c { dead_until = (sys.time w).0 + delay }), (sys.time w).1)
    else (do
      key ← current_request_key debug c.parser
      some (close (record c { dead_until = (sys.time w).0 + delay }), (sys.time w).1))

unfoldable pub take_buffer : List ℕ → Connection → Connection
take_buffer buf c = record c { writer = BufferWriter.take_buffer buf c.writer }

unfoldable pub take_number : (ℕ → List ℕ) → ℕ → Connection → Connection
take_number print val c = record c { writer = BufferWriter.take_number print val c.writer }

abbrev pub add_request_key : List ℕ → Connection → Connection
add_request_key key c = record c { parser = State.add_request_key key c.parser }

abbrev pub request_key_count : Connection → ℕ
request_key_count c = State.request_key_count c.parser

abbrev pub set_parser_mode : ParserMode → Connection → Connection
set_parser_mode m c = record c { parser = State.set_mode m c.parser }

-- `MC_UIO_MAXIOV`.
abbrev pub max_iov : ℕ
max_iov = 1024

-- The pieces at the pointer, of which there are `n`.
abbrev pub pointed : ℕ → Option (List (List ℕ)) → List (List ℕ)
pointed n none = []
pointed n (some vs) = take n vs

-- `send`: the number of pieces left, or -1.
unfoldable pub send : {W : Type 0} → System W → Connection → W → Option (Option ℕ × Connection × W)
send sys c w =
    let n = (BufferWriter.get_read_ptr c.writer).0 in
    let pieces = pointed n (BufferWriter.get_read_ptr c.writer).1 in
    let (sent, w') = sys.sendmsg c.socket_fd (take max_iov pieces) (ltb max_iov n) w in
    elim sent [
      | none ↦ some (none, c, w')
      | some k ↦ (do
        writer ← BufferWriter.commit_read k c.writer
        some (some writer.msg_iovlen, record c { writer = writer }, w'))
    ]

abbrev pub with_reader : BufferReader → Connection → Connection
with_reader r c = record c { parser = record (c.parser) { reader = r } }

-- `recv`: the number of bytes received, or -1. `min_capacity` is DataBlock's.
unfoldable pub recv :
    {W : Type 0} → ℕ → System W → Bool → Connection → W → Option (Option ℕ × Connection × W)
recv min_capacity sys peek c w = do
  (available, r) ←
      BufferReader.prepare_write_block min_capacity
        (BufferReader.get_next_prefered_size min_capacity c.parser.reader).0
        (BufferReader.get_next_prefered_size min_capacity c.parser.reader).1
  elim (sys.recv c.socket_fd available peek w).0 [
    | none ↦ some (none, with_reader r c, (sys.recv c.socket_fd available peek w).1)
    | some bytes ↦
        if not peek && ltb 0 (length bytes)
        then (do
          r' ← BufferReader.commit_write bytes r
          some (some (length bytes), with_reader r' c, (sys.recv c.socket_fd available peek w).1))
        else some (some (length bytes), with_reader r c, (sys.recv c.socket_fd available peek w).1)
  ]

unfoldable pub reset : Connection → Option Connection
reset c = do
  parser ← State.reset c.parser
  some (record c {
    counter = 0;
    retires = 0;
    parser = record parser { reader = BufferReader.reset (parser.reader) };
    writer = BufferWriter.reset c.writer;
  })

unfoldable pub rewind : Connection → Option Connection
rewind c = do
  parser ← State.rewind c.parser
  some (record c {
    parser = record parser { reader = BufferReader.reset (parser.reader) };
    writer = BufferWriter.rewind c.writer;
  })

abbrev pub set_retry_timeout : ℕ → Connection → Connection
set_retry_timeout t c = record c { retry_timeout = t }

abbrev pub set_connect_timeout : ℕ → Connection → Connection
set_connect_timeout t c = record c { connect_timeout = t }

abbrev pub set_max_retries : ℕ → Connection → Connection
set_max_retries n c = record c { max_retries = n }
