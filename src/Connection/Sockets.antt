-- ===== src/Connection/Sockets.antt =====
-- `connect`, `unixSocketConnect` and `connectPoll` of src/Connection.cpp, over the calls of the system
-- that they make: how a socket of a `Connection.System` is opened. Each call takes the system's state
-- to its next one; `none`, or `false`, is the result that stands for a failure.
pub mod Opened
use libmc.Prelude.{
  ℕ, zero, suc, ◌-◌, Bool, true, false, not, List, [], ◌∷◌, Option, none, some, if◌then◌else◌, take,
  length, leb, ◌||◌, ◌>>◌, assert,
}
use libmc.Connection.{Connection, System}

-- What `::connect` comes to: 0, or -1 with EINPROGRESS or EALREADY, or -1 with another error.
pub data Connecting : Type 0 where
  established in_progress refused : Connecting

-- What `poll` of one descriptor comes to: 1 with or without POLLERR, POLLHUP or POLLNVAL, 0, or -1.
pub data Polled : Type 0 where
  ready broken nothing failed : Polled

-- `A` is the type of an address; the flags are those of `fcntl`.
pub record Calls (A W : Type 0) : Type 0 where
  pub getaddrinfo : List ℕ → ℕ → W → Option (List A) × W
  pub socket : A → W → Option ℕ × W
  pub unix_socket : W → Option ℕ × W
  pub get_flags : ℕ → W → Option ℕ × W
  pub is_nonblock : ℕ → Bool
  pub add_nonblock : ℕ → ℕ
  pub set_flags : ℕ → ℕ → W → Bool × W
  pub no_delay : ℕ → W → Bool × W
  pub keep_alive : ℕ → W → Bool × W
  pub connect_to : ℕ → A → W → Connecting × W
  pub connect_path : ℕ → List ℕ → W → Connecting × W
  pub poll : ℕ → ℕ → W → Polled × W
  pub close : ℕ → W → W

-- The size of `sun_path`, without its last NUL.
abbrev pub max_path : ℕ
max_path = 107

module _ {A W : Type 0} (calls : Calls A W) where
  -- What `connectPoll` does with the answer of one `poll`, if the next rounds come to `rest`.
  abbrev after_poll : Bool × W → Polled × W → Bool × W
  after_poll rest (Polled.ready, w) = (true, w)
  after_poll rest (Polled.broken, w) = (false, w)
  after_poll rest (Polled.failed, w) = (false, w)
  after_poll rest (Polled.nothing, w) = rest

  -- The loop of `connectPoll`, for so many calls of `poll`.
  unfoldable pub poll_connected : ℕ → ℕ → ℕ → W → Bool × W
  poll_connected zero timeout fd w = (false, w)
  poll_connected (suc n) timeout fd w =
      after_poll (poll_connected n timeout fd (calls.poll fd timeout w).1) (calls.poll fd timeout w)

  -- `connectPoll`, from the result of `::connect` on.
  unfoldable pub connect_poll : ℕ → ℕ → Connecting × W → Bool × W
  unfolding poll_connected
  connect_poll timeout fd (Connecting.established, w) = (true, w)
  connect_poll timeout fd (Connecting.in_progress, w) = poll_connected 5 timeout fd w
  connect_poll timeout fd (Connecting.refused, w) = (false, w)

  -- What the body of the loop over the addresses does to a socket, each step if those before it
  -- have succeeded: whether it is connected.
  abbrev and_then : Bool × W → (W → Bool × W) → Bool × W
  and_then (true, w) f = f w
  and_then (false, w) f = (false, w)

  abbrev with_flags : ℕ → Option ℕ × W → Bool × W
  with_flags fd (none, w) = (false, w)
  with_flags fd (some flags, w) =
      if calls.is_nonblock flags then (true, w) else calls.set_flags fd (calls.add_nonblock flags) w

  unfoldable pub set_up : ℕ → A → ℕ → W → Bool × W
  unfolding connect_poll
  set_up timeout a fd w =
      and_then
        (and_then (and_then (with_flags fd (calls.get_flags fd w)) (calls.no_delay fd))
          (calls.keep_alive fd))
        (λ w'. connect_poll timeout fd (calls.connect_to fd a w'))

  -- The socket stays open if it is connected.
  abbrev keep_or_close : ℕ → Bool × W → Option ℕ × W
  keep_or_close fd (true, w) = (some fd, w)
  keep_or_close fd (false, w) = (none, calls.close fd w)

  abbrev try_socket : ℕ → A → Option ℕ × W → Option ℕ × W
  try_socket timeout a (none, w) = (none, w)
  try_socket timeout a (some fd, w) = keep_or_close fd (set_up timeout a fd w)

  abbrev or_next : Option ℕ × W → (W → Option ℕ × W) → Option ℕ × W
  or_next (some fd, w) f = (some fd, w)
  or_next (none, w) f = f w

  -- The loop over the addresses.
  unfoldable pub try_addresses : ℕ → List A → W → Option ℕ × W
  unfolding set_up
  try_addresses timeout [] w = (none, w)
  try_addresses timeout (a ∷ addresses) w =
      or_next (try_socket timeout a (calls.socket a w)) (try_addresses timeout addresses)

  abbrev try_answer : ℕ → Option (List A) × W → Option ℕ × W
  try_answer timeout (none, w) = (none, w)
  try_answer timeout (some addresses, w) = try_addresses timeout addresses w

  -- `connect` of a host and a port.
  unfoldable pub open_tcp : Connection → W → Option ℕ × W
  unfolding try_addresses
  open_tcp c w = try_answer c.connect_timeout (calls.getaddrinfo c.host c.port w)

  -- The rest of `unixSocketConnect` on a descriptor: it is closed if its flags cannot be set, and it
  -- is left open if it cannot be connected.
  abbrev connected_or_none : ℕ → Bool × W → Option ℕ × W
  connected_or_none fd (true, w) = (some fd, w)
  connected_or_none fd (false, w) = (none, w)

  abbrev set_unix_flags : ℕ → Option ℕ × W → Bool × W
  set_unix_flags fd (none, w) = (false, w)
  set_unix_flags fd (some flags, w) = calls.set_flags fd (calls.add_nonblock flags) w

  unfoldable pub unix_connect : Connection → ℕ → W → Option ℕ × W
  unfolding connect_poll
  unix_connect c fd w = connected_or_none fd (
      connect_poll c.connect_timeout fd
        (calls.connect_path fd (take max_path c.host) (calls.keep_alive fd w).1))

  abbrev unix_flagged : Connection → ℕ → Bool × W → Option ℕ × W
  unix_flagged c fd (true, w) = unix_connect c fd w
  unix_flagged c fd (false, w) = (none, calls.close fd w)

  abbrev unix_opened : Connection → Option ℕ × W → Option ℕ × W
  unix_opened c (none, w) = (none, w)
  unix_opened c (some fd, w) = unix_flagged c fd (set_unix_flags fd (calls.get_flags fd w))

  -- `unixSocketConnect`; a build with assertions tests that the path fits.
  unfoldable pub open_unix : Connection → W → Option ℕ × W
  unfolding unix_connect
  open_unix c w = unix_opened c (calls.unix_socket w)

  -- How `Connection.connect` opens a socket, in a build without assertions.
  unfoldable pub open_socket : Connection → W → Option ℕ × W
  unfolding open_tcp open_unix
  open_socket c w = if c.unix_socket then open_unix c w else open_tcp c w

  -- The system that a connection uses, with its sockets opened by these calls.
  unfoldable pub with_sockets : System W → System W
  unfolding open_socket
  with_sockets sys = record sys { open_socket = open_socket }
