-- ===== src/Tests/Sockets.antt =====
-- A small system of sockets, and the theorems on opening one at it.
use libmc.Prelude.{ℕ, zero, suc, ◌+◌, ◌≡◌, refl, sym, ap, true, false, List, [], ◌∷◌, some}
use mathlib.Core.Option.{some-injective, none-ne-some}
use libmc.Connection.{Connection, new_connection}
use libmc.Connection.Sockets.{Calls, Connecting, Polled, open_tcp, open_unix}
use libmc.Connection.Sockets.Opened.{Ledger, with_given, open_tcp-opened, open_unix-opened}

-- The open descriptors, the last one first, and the next one.
abbrev State : Type 0
State = List ℕ × ℕ

abbrev without_first : List ℕ → List ℕ
without_first [] = []
without_first (fd ∷ fds) = fds

-- The address 7 can be connected to, and no other, nor any path.
abbrev answer : ℕ → Connecting
answer (suc (suc (suc (suc (suc (suc (suc zero))))))) = Connecting.in_progress
answer _ = Connecting.refused

abbrev calls : Calls ℕ State
calls = record {
  getaddrinfo = λ host port w. (some (5 ∷ 7 ∷ []), w);
  socket = λ a w. (some (w.1), (w.1 ∷ w.0, w.1 + 1));
  unix_socket = λ w. (some (w.1), (w.1 ∷ w.0, w.1 + 1));
  get_flags = λ fd w. (some 0, w);
  is_nonblock = λ flags. false;
  add_nonblock = λ flags. flags + 2048;
  set_flags = λ fd flags w. (true, w);
  no_delay = λ fd w. (true, w);
  keep_alive = λ fd w. (true, w);
  connect_to = λ fd a w. (answer a, w);
  connect_path = λ fd path w. (Connecting.refused, w);
  poll = λ fd timeout w. (Polled.ready, w);
  close = λ fd w. (without_first (w.0), w.1);
}

abbrev ledger : Ledger calls
ledger = record {
  opened = λ w. w.0;
  by_getaddrinfo = λ host port w. refl;
  by_socket = λ a w fd e. ap (λ x. x ∷ w.0) (some-injective _ _ e);
  by_no_socket = λ a w e. absurd (none-ne-some _ (sym e));
  by_unix_socket = λ w fd e. ap (λ x. x ∷ w.0) (some-injective _ _ e);
  by_get_flags = λ fd w. refl;
  by_set_flags = λ fd flags w. refl;
  by_no_delay = λ fd w. refl;
  by_keep_alive = λ fd w. refl;
  by_connect_to = λ fd a w. refl;
  by_connect_path = λ fd path w. refl;
  by_poll = λ fd timeout w. refl;
  by_close = λ fd fds w e. ap without_first e;
}

abbrev by_path : Connection
by_path = record new_connection { host = 47 ∷ []; unix_socket = true }

-- The descriptor 3 is closed, and 4 is given.
open_tcp-opened_example :
    (open_tcp calls new_connection ([], 3)).1.0
    ≡ with_given (open_tcp calls new_connection ([], 3)).0 []
open_tcp-opened_example = open_tcp-opened calls ledger new_connection ([], 3)

-- No path can be connected to.
open_unix-opened_example : (open_unix calls by_path ([], 3)).1.0 ≡ 3 ∷ []
open_unix-opened_example = open_unix-opened calls ledger by_path ([], 3) 3 refl refl
