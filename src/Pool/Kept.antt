-- ===== src/Pool/Kept.antt =====
-- What the choice of a connection leaves of the connections.
use libmc.Prelude.{
  ℕ, ◌≡◌, refl, sym, ap, ◌∙◌, subst, false, inl, inr, List, Option, none, some, arith, length,
  get_elem?, set, length-set, get_elem?-set_self, get_elem?-set_ne, get_elem?_bound, Bool-cases,
  ◌==◌,
}
use mathlib.Core.Option.{some-injective}
use libmc.Hashkit.Ketama.Build
use libmc.Hashkit.Ketama.Keeps.{IsChoice, get_server-Keeps}
use libmc.Connection
use libmc.Connection.{Connection, System}
use libmc.Connection.Reconnect.{Same, Same-refl, Same-trans, try_reconnect-Same}
use libmc.Pool.State.{Pool, Build, try_found, try_at, get_conn}

-- Each connection is the same but for its socket.
pub record SameEach (cs ds : List Connection) : Type 0 where
  pub same_length : length ds ≡ length cs
  pub each :
      (j : ℕ) (c : Connection)
      → get_elem? cs j ≡ some c
      → (d : Connection) × (get_elem? ds j ≡ some d) × Same c d

SameEach-refl : (cs : List Connection) → SameEach cs cs
SameEach-refl cs = record { same_length = refl; each = λ j c e. (c, e, Same-refl c) }

SameEach-trans : (xs bs cs : List Connection) → SameEach xs bs → SameEach bs cs → SameEach xs cs
SameEach-trans xs bs cs s t = record {
  same_length = t.same_length ∙ s.same_length;
  each = λ j a e.
      let (b, f, u) = s.each j a e in let (c, g, v) = t.each j b f in (c, g, Same-trans a b c u v);
}

SameEach-set :
    (cs : List Connection) (n : ℕ) (c d : Connection)
    → get_elem? cs n ≡ some c
    → Same c d
    → SameEach cs (set cs n d)
SameEach-set cs n c d g s = record {
  same_length = length-set cs n d;
  each = λ j a e. elim (Bool-cases (n == j)) [
    | inl here ↦
        let i : n ≡ j = ground (arith, here) in
        let same : c ≡ a = some-injective c a (sym g ∙ ap (get_elem? cs) i ∙ e) in
        (
          d,
          ap (get_elem? (set cs n d)) (sym i)
              ∙ get_elem?-set_self cs n d (get_elem?_bound cs n c g),
          subst (λ x. Same x d) same s,
        )
    | inr there ↦
        (a, get_elem?-set_ne cs d (λ i. absurd (ground (arith, there, i))) ∙ e, Same-refl a)
  ];
}

try_found-SameEach :
    {W : Type 0} (sys : System W) (n : ℕ) (c : List Connection × W) (o : Option Connection)
    → get_elem? c.0 n ≡ o
    → SameEach c.0 (try_found sys n c o).1.0
unfolding try_found
try_found-SameEach sys n c none g = SameEach-refl c.0
try_found-SameEach sys n c (some a) g =
    SameEach-set c.0 n a (Connection.try_reconnect sys false a c.1).1 g
      (try_reconnect-Same sys a c.1)

-- A pool with a valid selector, which has as many servers as the pool connections, chooses one of
-- them or none.
pub get_conn-SameEach :
    {W : Type 0} (build : Build W) (key : List ℕ) (p : Pool W)
    → Build.IsValid p.selector
    → p.selector.n_servers ≡ length p.conns
    → (it : Option ℕ) × (p' : Pool W) × (get_conn build key p ≡ some (it, p'))
      × SameEach p.conns p'.conns
      × IsChoice (length p'.conns) it
      × Build.IsValid p'.selector
      × (p'.selector.n_servers ≡ length p'.conns)
      × (p'.n_invalid ≡ p.n_invalid)
      × (p'.n_active ≡ p.n_active)
      × (p'.active ≡ p.active)
unfolding get_conn
get_conn-SameEach build key p v n =
    let (it, s, c, e, kept, b, v', n') =
      get_server-Keeps (try_at build.system) (λ a b. SameEach a.0 b.0) (λ c. SameEach-refl c.0)
        (λ a b c. SameEach-trans a.0 b.0 c.0)
        (λ i c. try_found-SameEach build.system i c (get_elem? c.0 i) refl) build.debug
        build.hash_md5 key p.selector (p.conns, p.world) v in
    let count = n' ∙ n ∙ sym kept.same_length in
    (
      it,
      record p { selector = s; conns = c.0; world = c.1 },
      rw e refl,
      kept,
      subst (λ k. IsChoice k it) count b,
      v',
      count,
      refl,
      refl,
      refl,
    )
