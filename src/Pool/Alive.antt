-- ===== src/Pool/Alive.antt =====
-- Which connection `getConn` gives to a key: one that is alive when it returns.
use libmc.Prelude.{
  ℕ, ◌<◌, ◌≡◌, refl, sym, ap, ◌∙◌, true, false, Bool, inl, inr, List, Option, none, some, arith,
  ◌==◌, length, get_elem?, Bool-cases, get_elem?-set_self, get_elem?-set_ne, get_elem?_end,
  if◌then◌else◌, leb, ltb,
}
use mathlib.Core.Option.{none-ne-some}
use libmc.Hashkit.Ketama.{ContinuumItem, select_it}
use libmc.Hashkit.Ketama.Build
use libmc.Hashkit.Ketama.Alive.{Chosen, get_server-Chosen}
use libmc.Connection.{Connection, System, try_reconnect, reconnect_due, connect}
use libmc.Pool.State.{Pool, Build, try_found, try_at, get_conn}

-- Whether there is a connection at an index, and it is alive.
abbrev pub is_alive : Option Connection → Bool
is_alive none = false
is_alive (some c) = c.alive

abbrev pub alive_at : {W : Type 0} → ℕ → List Connection × W → Bool
alive_at n c = is_alive (get_elem? c.0 n)

either_alive :
    {W : Type 0} (b : Bool) (r r' : Bool × Connection × W)
    → r.0 ≡ (r.1).alive
    → r'.0 ≡ (r'.1).alive
    → (if b then r else r').0 ≡ ((if b then r else r').1).alive
either_alive true r r' e e' = e
either_alive false r r' e e' = e'

reconnect_due-alive :
    {W : Type 0} (sys : System W) (c : Connection) (w : W)
    → (reconnect_due sys c w).0 ≡ ((reconnect_due sys c w).1).alive
unfolding reconnect_due
reconnect_due-alive sys c w =
    either_alive (leb c.dead_until (sys.time w).0) _ _
      (either_alive (connect sys c (sys.time w).1).0 _ _ refl refl) refl

unless_alive :
    {W : Type 0} (b : Bool) (c : Connection) (w : W) (r : Bool × Connection × W)
    → c.alive ≡ b
    → r.0 ≡ (r.1).alive
    → (if b then (true, c, w) else r).0 ≡ ((if b then (true, c, w) else r).1).alive
unless_alive true c w r e e' = sym e
unless_alive false c w r e e' = e'

-- `tryReconnect` answers whether the connection is alive afterwards.
try_reconnect-alive :
    {W : Type 0} (sys : System W) (c : Connection) (w : W)
    → (try_reconnect sys false c w).0 ≡ ((try_reconnect sys false c w).1).alive
unfolding try_reconnect
try_reconnect-alive sys c w = unless_alive c.alive c w _ refl (reconnect_due-alive sys c w)

get_elem?_bound :
    (cs : List Connection) (j : ℕ) (c : Connection) → get_elem? cs j ≡ some c → j < length cs
get_elem?_bound cs j c g = elim (Bool-cases (ltb j (length cs))) [
  | inl inside ↦ ground arith
  | inr past ↦ absurd (none-ne-some c (sym (get_elem?_end cs j (ground arith)) ∙ g))
]

try_found-answers :
    {W : Type 0} (sys : System W) (n : ℕ) (c : List Connection × W) (o : Option Connection)
    → get_elem? c.0 n ≡ o
    → (try_found sys n c o).0 ≡ alive_at n (try_found sys n c o).1
unfolding try_found
try_found-answers sys n c none g = sym (ap is_alive g)
try_found-answers sys n c (some a) g =
    try_reconnect-alive sys a c.1
    ∙ sym (
        ap is_alive
          (get_elem?-set_self c.0 n (try_reconnect sys false a c.1).1 (get_elem?_bound c.0 n a g)))

try_found-others :
    {W : Type 0} (sys : System W) (m n : ℕ) (c : List Connection × W) (o : Option Connection)
    → (m == n) ≡ false
    → alive_at m (try_found sys n c o).1 ≡ alive_at m c
unfolding try_found
try_found-others sys m n c none h = refl
try_found-others sys m n c (some a) h =
    ap is_alive
      (get_elem?-set_ne c.0 (try_reconnect sys false a c.1).1 (λ e. absurd (ground (arith, e, h))))

-- In a pool with a valid selector that has a server, `getConn` returns, and what it returns is right
-- for the connections as it leaves them. A connection is alive; it is that of the selected point, or
-- it is that of another point, the failover is on, and the connection of the selected point is not
-- alive. It returns none only if the connection of the selected point is not alive, and if, unless
-- the failover is off, no point has a connection that is alive.
pub get_conn-Chosen :
    {W : Type 0} (build : Build W) (key : List ℕ) (p : Pool W)
    → Build.IsValid p.selector
    → 0 < p.selector.n_servers
    → (x : ContinuumItem) × (it : Option ℕ) × (p' : Pool W) × (get_elem? p.selector.continuum
          (select_it build.hash_md5 key p.selector).0
        ≡ some x)
      × (get_conn build key p ≡ some (it, p'))
      × Chosen alive_at p.selector.continuum p.selector.use_failover x.conn_idx it
          (p'.conns, p'.world)
unfolding get_conn
get_conn-Chosen build key p v h =
    let (x, it, q, c', g, e, k) =
      get_server-Chosen (try_at build.system) alive_at
        (λ n c. try_found-answers build.system n c (get_elem? c.0 n) refl)
        (λ m n c far. try_found-others build.system m n c (get_elem? c.0 n) far) build.debug
        build.hash_md5 key p.selector (p.conns, p.world) v h in
    (x, it, record p { selector = q; conns = c'.0; world = c'.1 }, g, rw e refl, k)
