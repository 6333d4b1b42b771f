-- ===== src/Pool/State.antt =====
-- The pool's state, the choice of a connection, and the loops that the dispatches share. A
-- connection is its index in `m_conns`. The system's state is a part of the pool's.
use libmc.Prelude.{
  ℕ, suc, ◌+◌, Bool, true, false, not, List, [], ◌∷◌, ◌++◌, Option, none, some, ltb, if◌then◌else◌,
  length, get_elem?, set, map, ◌>>=◌,
}
use libmc.Types.{ParserMode}
use libmc.Hashkit.Ketama.{KetamaSelector, get_server}
use libmc.Utility.{is_valid_key}
use libmc.Keywords
use libmc.Connection
use libmc.Connection.{Connection, System, take_buffer, set_parser_mode, request_key_count}

pub record Pool (W : Type 0) : Type 0 where
  pub n_active : ℕ
  pub n_invalid : ℕ
  pub active : List ℕ
  pub selector : KetamaSelector
  pub conns : List Connection
  pub poll_timeout : ℕ
  pub world : W

-- What the pool is built with: assertions or not, the system, MD5, and the printer of the 64 bits of
-- an `int64_t`.
pub record Build (W : Type 0) : Type 0 where
  pub debug : Bool
  pub system : System W
  pub hash_md5 : List ℕ → ℕ
  pub print : ℕ → List ℕ

-- `tryReconnect(false)` of a connection in the array; the selector asks for no other.
unfoldable pub try_found :
    {W : Type 0}
    → System W
    → ℕ
    → List Connection × W
    → Option Connection
    → Bool × (List Connection × W)
try_found sys n c none = (false, c)
try_found sys n c (some conn) =
    let (ok, conn', w') = Connection.try_reconnect sys false conn c.1 in
    (ok, (set (c.0) n conn', w'))

abbrev pub try_at : {W : Type 0} → System W → ℕ → List Connection × W → Bool × (List Connection × W)
try_at sys n c = try_found sys n c (get_elem? c.0 n)

-- `m_connSelector.getConn(key, keyLen)`.
unfoldable pub get_conn : {W : Type 0} → Build W → List ℕ → Pool W → Option (Option ℕ × Pool W)
unfolding try_found
get_conn build key p = do
  (it, s, c) ←
      get_server build.debug build.hash_md5 (try_at build.system) key true p.selector
        (p.conns, p.world)
  some (it, record p { selector = s; conns = c.0; world = c.1 })

-- A request to a connection of the pool.
unfoldable pub request_at :
    {W : Type 0} → (Connection → Option Connection) → ℕ → Pool W → Option (Pool W)
request_at request i p = do
  c ← get_elem? p.conns i
  c' ← request c
  some (record p { conns = set p.conns i c' })

-- One item: an invalid key is counted, and without a connection the item is left out.
unfoldable pub dispatch_one :
    {W : Type 0} → Build W → List ℕ → (Connection → Option Connection) → Pool W → Option (Pool W)
unfolding get_conn request_at
dispatch_one build key request p =
    if not (is_valid_key key) then some (record p { n_invalid = p.n_invalid + 1 }) else (do
      (it, p') ← get_conn build key p
      elim it [ none ↦ some p' | some i ↦ request_at request i p' ])

-- The loop over the items of a command.
unfoldable pub dispatch_items :
    {W A : Type 0}
    → Build W
    → (A → List ℕ)
    → (A → Connection → Option Connection)
    → List A
    → Pool W
    → Option (Pool W)
unfolding dispatch_one
dispatch_items build key request [] p = some p
dispatch_items build key request (x ∷ xs) p = do
  p' ← dispatch_one build (key x) (request x) p
  dispatch_items build key request xs p'

-- The indices of the connections with a counter above 0, from the index `i` on.
unfoldable pub counted_from : ℕ → List Connection → List ℕ
counted_from i [] = []
counted_from i (c ∷ cs) =
    let rest = counted_from (suc i) cs in if ltb 0 c.counter then i ∷ rest else rest

-- They become active.
abbrev pub activate : {W : Type 0} → (Connection → Connection) → Pool W → Pool W
activate f p = record p {
  n_active = p.n_active + length (counted_from 0 p.conns);
  active = p.active ++ counted_from 0 p.conns;
  conns = map f p.conns;
}

-- What the last loop of `dispatchStorage`, `dispatchDeletion` and `dispatchTouch` does to each
-- connection; `reserve` changes no value.
unfoldable pub expect_replies : Connection → Connection
expect_replies c =
    let c' = if ltb 0 c.counter then set_parser_mode ParserMode.counting c else c in
    record c' { counter = request_key_count c' }

-- And the last loop of `dispatchRetrieval`.
unfoldable pub end_retrieval : Connection → Connection
unfolding take_buffer
end_retrieval c =
    if ltb 0 c.counter
    then set_parser_mode ParserMode.end_state (take_buffer Keywords.crlf c)
    else c
