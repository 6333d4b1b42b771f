-- ===== src/Connection/Sockets/Opened.antt =====
-- Which descriptors the opening of a socket leaves open.
use mathlib.Core.Bool.{true≢false}
use mathlib.Core.Option.{none-ne-some, some-injective}
use libmc.Prelude.{
  ℕ, zero, suc, ◌≡◌, refl, sym, ap, ◌∙◌, subst, Bool, true, false, List, [], ◌∷◌, Option, none,
  some, inl, inr, Bool-cases, take,
}
use libmc.Connection.{Connection}
use libmc.Connection.Sockets.{
  Calls, Connecting, Polled, max_path, after_poll, poll_connected, connect_poll, and_then,
  with_flags, set_up, keep_or_close, try_socket, or_next, try_addresses, try_answer, open_tcp,
  connected_or_none, set_unix_flags, unix_connect, unix_flagged, unix_opened, open_unix,
}

-- The system keeps a list of open descriptors: `socket` opens one if it succeeds, `close` of the
-- last one opened closes it, and no other call opens or closes one.
pub record Ledger {A W : Type 0} (calls : Calls A W) : Type 0 where
  pub opened : W → List ℕ
  pub by_getaddrinfo :
      (host : List ℕ) (port : ℕ) (w : W) → opened (calls.getaddrinfo host port w).1 ≡ opened w
  pub by_socket :
      (a : A) (w : W) (fd : ℕ)
      → (calls.socket a w).0 ≡ some fd
      → opened (calls.socket a w).1 ≡ fd ∷ opened w
  pub by_no_socket :
      (a : A) (w : W) → (calls.socket a w).0 ≡ none → opened (calls.socket a w).1 ≡ opened w
  pub by_unix_socket :
      (w : W) (fd : ℕ)
      → (calls.unix_socket w).0 ≡ some fd
      → opened (calls.unix_socket w).1 ≡ fd ∷ opened w
  pub by_get_flags : (fd : ℕ) (w : W) → opened (calls.get_flags fd w).1 ≡ opened w
  pub by_set_flags : (fd flags : ℕ) (w : W) → opened (calls.set_flags fd flags w).1 ≡ opened w
  pub by_no_delay : (fd : ℕ) (w : W) → opened (calls.no_delay fd w).1 ≡ opened w
  pub by_keep_alive : (fd : ℕ) (w : W) → opened (calls.keep_alive fd w).1 ≡ opened w
  pub by_connect_to : (fd : ℕ) (a : A) (w : W) → opened (calls.connect_to fd a w).1 ≡ opened w
  pub by_connect_path :
      (fd : ℕ) (path : List ℕ) (w : W) → opened (calls.connect_path fd path w).1 ≡ opened w
  pub by_poll : (fd timeout : ℕ) (w : W) → opened (calls.poll fd timeout w).1 ≡ opened w
  pub by_close :
      (fd : ℕ) (fds : List ℕ) (w : W) → opened w ≡ fd ∷ fds → opened (calls.close fd w) ≡ fds

-- The descriptors open before, with the one that is given, if any.
abbrev pub with_given : Option ℕ → List ℕ → List ℕ
with_given none fds = fds
with_given (some fd) fds = fd ∷ fds

module _ {A W : Type 0} (calls : Calls A W) (ledger : Ledger calls) where
  abbrev opened : W → List ℕ
  opened = ledger.opened

  after_poll-opened :
      (fds : List ℕ) (rest : Bool × W) (answer : Polled × W)
      → opened (answer.1) ≡ fds
      → opened (rest.1) ≡ fds
      → opened (after_poll calls rest answer).1 ≡ fds
  after_poll-opened fds rest (Polled.ready, w) h k = h
  after_poll-opened fds rest (Polled.broken, w) h k = h
  after_poll-opened fds rest (Polled.failed, w) h k = h
  after_poll-opened fds rest (Polled.nothing, w) h k = k

  poll_connected-opened :
      (n timeout fd : ℕ) (w : W) → opened (poll_connected calls n timeout fd w).1 ≡ opened w
  unfolding poll_connected
  poll_connected-opened zero timeout fd w = refl
  poll_connected-opened (suc n) timeout fd w =
      after_poll-opened (opened w) _ (calls.poll fd timeout w) (ledger.by_poll fd timeout w) (
        poll_connected-opened n timeout fd (calls.poll fd timeout w).1
        ∙ ledger.by_poll fd timeout w)

  connect_poll-opened :
      (timeout fd : ℕ) (answer : Connecting × W)
      → opened (connect_poll calls timeout fd answer).1 ≡ opened (answer.1)
  unfolding connect_poll
  connect_poll-opened timeout fd (Connecting.established, w) = refl
  connect_poll-opened timeout fd (Connecting.in_progress, w) = poll_connected-opened 5 timeout fd w
  connect_poll-opened timeout fd (Connecting.refused, w) = refl

  and_then-opened :
      (x : Bool × W) (f : W → Bool × W)
      → ((w : W) → opened (f w).1 ≡ opened w)
      → opened (and_then calls x f).1 ≡ opened (x.1)
  and_then-opened (true, w) f h = h w
  and_then-opened (false, w) f h = refl

  with_flags-opened :
      (fd : ℕ) (answer : Option ℕ × W) → opened (with_flags calls fd answer).1 ≡ opened (answer.1)
  with_flags-opened fd (none, w) = refl
  with_flags-opened fd (some flags, w) = elim (Bool-cases (calls.is_nonblock flags)) [
    | inl has ↦ rw has refl
    | inr has_not ↦ rw has_not (ledger.by_set_flags fd (calls.add_nonblock flags) w)
  ]

  set_up-opened :
      (timeout : ℕ) (a : A) (fd : ℕ) (w : W) → opened (set_up calls timeout a fd w).1 ≡ opened w
  unfolding set_up
  set_up-opened timeout a fd w =
      let flagged = with_flags calls fd (calls.get_flags fd w) in
      let undelayed = and_then calls flagged (calls.no_delay fd) in
      let kept_alive = and_then calls undelayed (calls.keep_alive fd) in
      let connects : W → Bool × W =
        λ w'. connect_poll calls timeout fd (calls.connect_to fd a w') in
      and_then-opened kept_alive connects (λ w'.
        connect_poll-opened timeout fd (calls.connect_to fd a w') ∙ ledger.by_connect_to fd a w')
      ∙ and_then-opened undelayed (calls.keep_alive fd) (ledger.by_keep_alive fd)
      ∙ and_then-opened flagged (calls.no_delay fd) (ledger.by_no_delay fd)
      ∙ with_flags-opened fd (calls.get_flags fd w)
      ∙ ledger.by_get_flags fd w

  keep_or_close-opened :
      (fd : ℕ) (fds : List ℕ) (x : Bool × W)
      → opened (x.1) ≡ fd ∷ fds
      → opened (keep_or_close calls fd x).1 ≡ with_given (keep_or_close calls fd x).0 fds
  keep_or_close-opened fd fds (true, w) h = h
  keep_or_close-opened fd fds (false, w) h = ledger.by_close fd fds w h

  try_socket-opened :
      (timeout : ℕ) (a : A) (w : W) (answer : Option ℕ × W)
      → calls.socket a w ≡ answer
      → opened (try_socket calls timeout a answer).1
        ≡ with_given (try_socket calls timeout a answer).0 (opened w)
  try_socket-opened timeout a w (none, w') e =
      ap (λ x. opened (x.1)) (sym e) ∙ ledger.by_no_socket a w (ap (λ x. x.0) e)
  try_socket-opened timeout a w (some fd, w') e =
      keep_or_close-opened fd (opened w) (set_up calls timeout a fd w') (
        set_up-opened timeout a fd w'
        ∙ ap (λ x. opened (x.1)) (sym e)
        ∙ ledger.by_socket a w fd (ap (λ x. x.0) e))

  or_next-opened :
      (fds : List ℕ) (x : Option ℕ × W) (f : W → Option ℕ × W)
      → opened (x.1) ≡ with_given (x.0) fds
      → ((w : W) → opened (f w).1 ≡ with_given (f w).0 (opened w))
      → opened (or_next calls x f).1 ≡ with_given (or_next calls x f).0 fds
  or_next-opened fds (some fd, w) f h k = h
  or_next-opened fds (none, w) f h k = k w ∙ ap (with_given (f w).0) h

  try_addresses-opened :
      (timeout : ℕ) (addresses : List A) (w : W)
      → opened (try_addresses calls timeout addresses w).1
        ≡ with_given (try_addresses calls timeout addresses w).0 (opened w)
  unfolding try_addresses
  try_addresses-opened timeout [] w = refl
  try_addresses-opened timeout (a ∷ addresses) w =
      or_next-opened (opened w) (try_socket calls timeout a (calls.socket a w)) _
        (try_socket-opened timeout a w (calls.socket a w) refl)
        (try_addresses-opened timeout addresses)

  try_answer-opened :
      (timeout : ℕ) (answer : Option (List A) × W)
      → opened (try_answer calls timeout answer).1
        ≡ with_given (try_answer calls timeout answer).0 (opened (answer.1))
  try_answer-opened timeout (none, w) = refl
  try_answer-opened timeout (some addresses, w) = try_addresses-opened timeout addresses w

  -- If the system's calls open and close descriptors as their names say, then `connect` of a host and
  -- port, whichever calls fail at whichever address, leaves the descriptors open that were open
  -- before, and no other but the one that it gives to the connection.
  pub open_tcp-opened :
      (c : Connection) (w : W)
      → opened (open_tcp calls c w).1 ≡ with_given (open_tcp calls c w).0 (opened w)
  unfolding open_tcp
  open_tcp-opened c w =
      try_answer-opened c.connect_timeout (calls.getaddrinfo c.host c.port w)
      ∙ ap (with_given _) (ledger.by_getaddrinfo c.host c.port w)

  connected_or_none-opened :
      (fd : ℕ) (x : Bool × W) → opened (connected_or_none calls fd x).1 ≡ opened (x.1)
  connected_or_none-opened fd (true, w) = refl
  connected_or_none-opened fd (false, w) = refl

  set_unix_flags-opened :
      (fd : ℕ) (answer : Option ℕ × W)
      → opened (set_unix_flags calls fd answer).1 ≡ opened (answer.1)
  set_unix_flags-opened fd (none, w) = refl
  set_unix_flags-opened fd (some flags, w) = ledger.by_set_flags fd (calls.add_nonblock flags) w

  unix_connect-opened :
      (c : Connection) (fd : ℕ) (w : W) → opened (unix_connect calls c fd w).1 ≡ opened w
  unfolding unix_connect
  unix_connect-opened c fd w =
      let alive = (calls.keep_alive fd w).1 in
      let path = take max_path c.host in
      connected_or_none-opened fd
        (connect_poll calls c.connect_timeout fd (calls.connect_path fd path alive))
      ∙ connect_poll-opened c.connect_timeout fd (calls.connect_path fd path alive)
      ∙ ledger.by_connect_path fd path alive
      ∙ ledger.by_keep_alive fd w

  unix_flagged-opened :
      (c : Connection) (fd : ℕ) (x : Bool × W)
      → x.0 ≡ true
      → opened (unix_flagged calls c fd x).1 ≡ opened (x.1)
  unix_flagged-opened c fd (true, w) e = unix_connect-opened c fd w
  unix_flagged-opened c fd (false, w) e = absurd (true≢false (sym e))

  unix_opened-opened :
      (c : Connection) (fd : ℕ) (answer : Option ℕ × W)
      → answer.0 ≡ some fd
      → (set_unix_flags calls fd (calls.get_flags fd (answer.1))).0 ≡ true
      → opened (unix_opened calls c answer).1 ≡ opened (answer.1)
  unix_opened-opened c fd (none, w) e f = absurd (none-ne-some fd e)
  unix_opened-opened c fd (some fd', w) e f =
      let same : fd' ≡ fd = some-injective fd' fd e in
      let flagged = set_unix_flags calls fd' (calls.get_flags fd' w) in
      unix_flagged-opened c fd' flagged
        (subst (λ x. (set_unix_flags calls x (calls.get_flags x w)).0 ≡ true) (sym same) f)
      ∙ set_unix_flags-opened fd' (calls.get_flags fd' w)
      ∙ ledger.by_get_flags fd' w

  -- If the system's calls open and close descriptors as their names say, then `unixSocketConnect`
  -- leaves the descriptor open that it gets, once its flags are set, and also when it gives none to
  -- the connection because this is not connected.
  pub open_unix-opened :
      (c : Connection) (w : W) (fd : ℕ)
      → (calls.unix_socket w).0 ≡ some fd
      → (set_unix_flags calls fd (calls.get_flags fd (calls.unix_socket w).1)).0 ≡ true
      → opened (open_unix calls c w).1 ≡ fd ∷ opened w
  unfolding open_unix
  open_unix-opened c w fd e f =
      unix_opened-opened c fd (calls.unix_socket w) e f ∙ ledger.by_unix_socket w fd e
