-- ===== src/Pool/Setup.antt =====
-- The pool's construction, its servers and settings, and the commands for all of them. The lists of
-- hosts, ports and aliases are as long as the pool's list of connections.
use libmc.Prelude.{
  ℕ, suc, ◌+◌, Bool, true, false, not, List, [], ◌∷◌, ◌++◌, Option, none, some, ◌==◌, ◌&&◌,
  if◌then◌else◌, length, map, get_elem?, ◌>>=◌,
}
use libmc.Types.{ParserMode}
use libmc.Hashkit.Ketama
use libmc.Hashkit.Ketama.{KetamaSelector, ContinuumItem, Formats, Server}
use libmc.Keywords
use libmc.Connection
use libmc.Connection.{
  Connection, System, new_connection, take_buffer, set_parser_mode, mark_dead, set_retry_timeout,
  set_connect_timeout, set_max_retries,
}
use libmc.Pool.State.{Pool, Build, try_at}

-- `ConnectionPool()`.
abbrev pub new_pool : {W : Type 0} → W → Pool W
new_pool w = record {
  n_active = 0;
  n_invalid = 0;
  active = [];
  selector = Ketama.empty;
  conns = [];
  poll_timeout = 300;
  world = w;
}

-- What `init` and `updateServers` are told of a server.
pub record Address : Type 0 where
  pub host : List ℕ
  pub port : ℕ
  pub alias : Option (List ℕ)

-- What `addServers` reads of a connection.
abbrev pub server_of : Connection → Server
server_of c = record {
  host = c.host;
  port = c.port;
  alias = if c.has_alias then some (c.name) else none;
}

abbrev pub init_conn : (List ℕ → ℕ → List ℕ) → Address → Connection → Connection
init_conn host_and_port a c = Connection.init host_and_port a.host a.port a.alias c

-- `init`, which returns the sum of -1 for each connection: the number stands for its negation.
unfoldable pub init :
    {W : Type 0}
    → Build W
    → Formats
    → (List ℕ → ℕ → List ℕ)
    → (List ContinuumItem → List ContinuumItem)
    → List Address
    → Pool W
    → ℕ × Pool W
init build f host_and_port sort addresses p =
    let conns = map (λ a. init_conn host_and_port a new_connection) addresses in
    (
      length conns,
      record p {
        conns = conns;
        selector =
            Ketama.add_servers f build.hash_md5 sort (map server_of conns)
              (Ketama.reset p.selector);
      },
    )

-- `strcmp(s, t) == 0`.
unfoldable pub same_string : List ℕ → List ℕ → Bool
same_string [] [] = true
same_string (x ∷ xs) (y ∷ ys) = let rest = same_string xs ys in x == y && rest
same_string _ _ = false

-- Whether a connection with an alias would get another.
unfoldable pub alias_changes : Connection → Address → Bool
unfolding same_string
alias_changes c a = elim a.alias [
  | none ↦ false
  | some name ↦ c.has_alias && not (same_string c.name name)
]

unfoldable pub any_alias_changes : List Connection → List Address → Bool
unfolding alias_changes
any_alias_changes (c ∷ cs) (a ∷ addresses) =
    let rest = any_alias_changes cs addresses in if alias_changes c a then true else rest
any_alias_changes _ _ = false

-- One connection, which is left if its host and port stay.
unfoldable pub update_conn :
    {W : Type 0}
    → Build W
    → (List ℕ → ℕ → List ℕ)
    → Address
    → Connection
    → W
    → Option (Connection × W)
unfolding same_string
update_conn build host_and_port a c w =
    if same_string c.host a.host && (c.port == a.port) then some (c, w) else (do
      (c', w') ←
          mark_dead build.debug build.system false 0
            (Connection.init host_and_port a.host a.port a.alias c) w
      c'' ← Connection.reset c'
      some (c'', w'))

unfoldable pub update_conns :
    {W : Type 0}
    → Build W
    → (List ℕ → ℕ → List ℕ)
    → List Address
    → List Connection
    → W
    → Option (List Connection × W)
unfolding update_conn
update_conns build host_and_port (a ∷ addresses) (c ∷ cs) w = do
  (c', w') ← update_conn build host_and_port a c w
  (cs', w'') ← update_conns build host_and_port addresses cs w'
  some (c' ∷ cs', w'')
update_conns build host_and_port _ cs w = some (cs, w)

-- `updateServers`: its results 1 and 2, or -1 for each connection, as in `init`. All connections are
-- given an alias, or none.
pub data Updated : Type 0 where
  other_count other_alias : Updated
  updated : ℕ → Updated

unfoldable pub update_servers :
    {W : Type 0}
    → Build W
    → (List ℕ → ℕ → List ℕ)
    → List Address
    → Pool W
    → Option (Updated × Pool W)
unfolding any_alias_changes update_conns
update_servers build host_and_port addresses p =
    if not (length p.conns == length addresses)
    then some (Updated.other_count, p)
    else if any_alias_changes p.conns addresses
    then some (Updated.other_alias, p)
    else (do
      (cs, w) ← update_conns build host_and_port addresses p.conns p.world
      some (Updated.updated (length cs), record p { conns = cs; world = w }))

-- What `broadcastCommand` writes to a connection.
unfoldable pub broadcast_request : List ℕ → Bool → Connection → Connection
broadcast_request cmd noreply c =
    let c1 = take_buffer cmd c in
    let c2 = if noreply then c1 else record c1 { counter = c1.counter + 1 } in
    set_parser_mode ParserMode.end_state (take_buffer Keywords.crlf c2)

-- From the index `i` on: the connections, and the indices of those that are alive or come back.
unfoldable pub broadcast_from :
    {W : Type 0} → System W → List ℕ → Bool → ℕ → List Connection → W → List Connection × List ℕ × W
unfolding broadcast_request
broadcast_from sys cmd noreply i [] w = ([], [], w)
broadcast_from sys cmd noreply i (c ∷ cs) w =
    let (up, c', w') = Connection.try_reconnect sys false c w in
    let (cs', is, w'') = broadcast_from sys cmd noreply (suc i) cs w' in
    if up then (broadcast_request cmd noreply c' ∷ cs', i ∷ is, w'') else (c' ∷ cs', is, w'')

unfoldable pub broadcast_command : {W : Type 0} → Build W → List ℕ → Bool → Pool W → Pool W
unfolding broadcast_from
broadcast_command build cmd noreply p =
    let (cs, is, w) = broadcast_from build.system cmd noreply 0 p.conns p.world in
    record p { conns = cs; active = p.active ++ is; n_active = p.n_active + length is; world = w }

abbrev pub set_poll_timeout : {W : Type 0} → ℕ → Pool W → Pool W
set_poll_timeout t p = record p { poll_timeout = t }

abbrev pub for_each_conn : {W : Type 0} → (Connection → Connection) → Pool W → Pool W
for_each_conn f p = record p { conns = map f p.conns }

-- The name of the connection at an index.
abbrev name_at : List Connection → Option ℕ → Option (List ℕ)
name_at cs none = none
name_at cs (some i) = elim (get_elem? cs i) [ none ↦ none | some c ↦ some c.name ]

-- `getServerAddressByKey`, and `getRealtimeServerAddressByKey`, which checks that the connection is
-- alive.
unfoldable pub address_by_key :
    {W : Type 0} → Build W → Bool → List ℕ → Pool W → Option (Option (List ℕ) × Pool W)
address_by_key build check_alive key p = do
  (it, s, c) ←
      Ketama.get_server build.debug build.hash_md5 (try_at build.system) key check_alive p.selector
        (p.conns, p.world)
  some (name_at (c.0) it, record p { selector = s; conns = c.0; world = c.1 })
