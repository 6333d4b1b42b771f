-- ===== src/Hashkit/Ketama.antt =====
-- src/HashkitKetama.cpp and include/hashkit/ketama.h: the continuum of points and the choice of a
-- server. `conn` of a point is the connection with the index `conn_idx`, so the index stands for
-- both. An iterator is a position, and `end()` is `none`; a point read past the end is a fault, the
-- outer `none`. Arguments stand for what is not this code: `hash_md5`, `std::sort`, the two formats
-- of `snprintf`, and `tryReconnect`, which changes a state of the connections.
pub mod Circle
pub mod Failover
pub mod Points
pub mod Build
pub mod Choice
pub mod Alive
pub mod Keeps
use libmc.Prelude.{
  ℕ, zero, suc, ◌+◌, ◌&&◌, ◌||◌, not, Bool, true, false, List, [], ◌∷◌, ◌++◌, Option, none, some,
  ltb, ◌==◌, if◌then◌else◌, length, get_elem?, ◌>>=◌,
}

-- `continuum_item_t`.
pub record ContinuumItem : Type 0 where
  pub hash_value : ℕ
  pub conn_idx : ℕ

pub record KetamaSelector : Type 0 where
  pub continuum : List ContinuumItem
  pub n_servers : ℕ
  pub use_failover : Bool
  pub hash_function : Option (List ℕ → ℕ)
  pub is_sorted : Bool

-- What `addServers` reads of a connection.
pub record Server : Type 0 where
  pub host : List ℕ
  pub port : ℕ
  pub alias : Option (List ℕ)

abbrev pub empty : KetamaSelector
empty = record {
  continuum = [];
  n_servers = 0;
  use_failover = false;
  hash_function = none;
  is_sorted = false;
}

abbrev pub reset : KetamaSelector → KetamaSelector
reset s = record s { continuum = []; n_servers = 0 }

abbrev pub set_hash_function : (List ℕ → ℕ) → KetamaSelector → KetamaSelector
set_hash_function h s = record s { hash_function = some h }

abbrev pub enable_failover : KetamaSelector → KetamaSelector
enable_failover s = record s { use_failover = true }

abbrev pub disable_failover : KetamaSelector → KetamaSelector
disable_failover s = record s { use_failover = false }

-- `MC_DEFAULT_PORT`.
abbrev pub default_port : ℕ
default_port = 11211

-- `s_pointerPerServer / s_pointerPerHash`.
abbrev pub points_per_server : ℕ
points_per_server = 100

-- The formats "%s-%zu" and "%s:%u-%zu".
pub record Formats : Type 0 where
  pub name_and_index : List ℕ → ℕ → List ℕ
  pub host_port_and_index : List ℕ → ℕ → ℕ → List ℕ

-- `sort_host`.
unfoldable pub sort_host : Formats → Server → ℕ → List ℕ
sort_host f conn i = elim conn.alias [
  | some name ↦ f.name_and_index name i
  | none ↦
      if conn.port == default_port
      then f.name_and_index conn.host i
      else f.host_port_and_index conn.host conn.port i
]

-- The points of one server, from the index `p` on.
unfoldable pub points : Formats → (List ℕ → ℕ) → Server → ℕ → ℕ → ℕ → List ContinuumItem
points f hash_md5 conn i p zero = []
points f hash_md5 conn i p (suc k) =
    record { hash_value = hash_md5 (sort_host f conn p); conn_idx = i }
    ∷ points f hash_md5 conn i (suc p) k

unfoldable pub all_points : Formats → (List ℕ → ℕ) → ℕ → List Server → List ContinuumItem
all_points f hash_md5 i [] = []
all_points f hash_md5 i (conn ∷ conns) =
    points f hash_md5 conn i 0 points_per_server ++ all_points f hash_md5 (suc i) conns

unfoldable pub add_servers :
    Formats
    → (List ℕ → ℕ)
    → (List ContinuumItem → List ContinuumItem)
    → List Server
    → KetamaSelector
    → KetamaSelector
add_servers f hash_md5 sort conns s = record s {
  continuum = sort (s.continuum ++ all_points f hash_md5 0 conns);
  n_servers = length conns;
  is_sorted = true;
}

-- `std::lower_bound`: the number of points before the first that is not below the hash.
unfoldable pub lower_bound : ℕ → List ContinuumItem → ℕ
lower_bound h [] = 0
lower_bound h (x ∷ xs) = if ltb x.hash_value h then suc (lower_bound h xs) else 0

-- The hash function, or the one set in its place.
abbrev pub with_default : (List ℕ → ℕ) → KetamaSelector → List ℕ → ℕ
with_default hash_md5 s = elim s.hash_function [ none ↦ hash_md5 | some h ↦ h ]

-- The `switch`, and the wrap to the first point.
unfoldable pub select_it : (List ℕ → ℕ) → List ℕ → KetamaSelector → ℕ × KetamaSelector
select_it hash_md5 key s =
    let h = with_default hash_md5 s in
    let i = lower_bound (h key) s.continuum in
    if s.n_servers == 1
    then (0, s)
    else (if i == length s.continuum then 0 else i, record s { hash_function = some h })

abbrev pub next_it : List ContinuumItem → ℕ → ℕ
next_it items i = if i + 1 == length items then 0 else i + 1

-- The loop of the failover; the last argument is `max_iter`.
unfoldable pub failover :
    {C : Type 0} → (ℕ → C → Bool × C) → List ContinuumItem → ℕ → ℕ → C → ℕ → Option (Option ℕ × C)
failover try_reconnect items origin i c zero = some (none, c)
failover try_reconnect items origin i c (suc k) = do
  x ← get_elem? items (next_it items i)
  (if x.conn_idx == origin
      then failover try_reconnect items origin (next_it items i) c k
      else if (try_reconnect x.conn_idx c).0
      then some (some (next_it items i), (try_reconnect x.conn_idx c).1)
      else failover try_reconnect items origin (next_it items i) (try_reconnect x.conn_idx c).1 k)

-- `getServerIt` behind the `switch`, at the point `i`.
unfoldable pub check_it :
    {C : Type 0} → (ℕ → C → Bool × C) → Bool → KetamaSelector → ℕ → C → Option (Option ℕ × C)
check_it try_reconnect check_alive s i c = do
  x ← get_elem? s.continuum i
  (if not check_alive
      then some (some i, c)
      else if (try_reconnect x.conn_idx c).0
      then some (some i, (try_reconnect x.conn_idx c).1)
      else if s.use_failover
      then failover try_reconnect s.continuum x.conn_idx i (try_reconnect x.conn_idx c).1
          (length s.continuum)
      else some (none, (try_reconnect x.conn_idx c).1))

-- `debug` stands for a build without NDEBUG.
unfoldable pub get_server_it :
    {C : Type 0}
    → Bool
    → (List ℕ → ℕ)
    → (ℕ → C → Bool × C)
    → List ℕ
    → Bool
    → KetamaSelector
    → C
    → Option (Option ℕ × KetamaSelector × C)
get_server_it debug hash_md5 try_reconnect key check_alive s c =
    if (debug && not s.is_sorted) || (s.n_servers == 0) then some (none, s, c) else (do
      (it, c') ←
          check_it try_reconnect check_alive (select_it hash_md5 key s).1
            (select_it hash_md5 key s).0 c
      some (it, (select_it hash_md5 key s).1, c'))

-- `getServer` and `getConn`: the connection of the point; `none` stands for -1 and NULL.
unfoldable pub get_server :
    {C : Type 0}
    → Bool
    → (List ℕ → ℕ)
    → (ℕ → C → Bool × C)
    → List ℕ
    → Bool
    → KetamaSelector
    → C
    → Option (Option ℕ × KetamaSelector × C)
get_server debug hash_md5 try_reconnect key check_alive s c = do
  (it, s', c') ← get_server_it debug hash_md5 try_reconnect key check_alive s c
  elim it [
    | none ↦ some (none, s', c')
    | some i ↦ (do x ← get_elem? s'.continuum i; some (some x.conn_idx, s', c'))
  ]
