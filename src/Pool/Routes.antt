-- ===== src/Pool/Routes.antt =====
-- Where the items of a command go, and what each connection gets.
use libmc.Prelude.{
  ℕ, ◌+◌, ◌<◌, ◌≡◌, refl, sym, ap, ap₂, ◌∙◌, subst, true, false, List, [], ◌∷◌, ◌++◌, some, length,
  get_elem?, ◌==◌, append_assoc, if◌then◌else◌,
}
use libmc.Utility.{is_valid_key}
use libmc.Hashkit.Ketama.Build
use libmc.Connection.{Connection}
use libmc.Connection.Reconnect.{Same}
use libmc.BufferWriter.Stream
use libmc.Pool.State.{Pool}
use libmc.Pool.Extends.{View, ExtendsBy, Extends-nil, Ready}

-- An item is refused for its key, finds no connection, or goes to one.
pub data Route : Type 0 where
  refused unrouted : Route
  sent_to : ℕ → Route

-- The items with their routes that go to the connection `j`.
abbrev pub hit {ℓ} : {A : Type ℓ} → ℕ → Route → A → List A
hit j (Route.sent_to i) x = if i == j then x ∷ [] else []
hit j _ x = []

abbrev pub share {ℓ} : {A : Type ℓ} → ℕ → List Route → List A → List A
share j (r ∷ rs) (x ∷ xs) = hit j r x ++ share j rs xs
share j _ _ = []

abbrev pub gather {ℓ κ} : {A : Type ℓ} {B : Type κ} → (A → List B) → List A → List B
gather f [] = []
gather f (x ∷ xs) = f x ++ gather f xs

pub gather-append {ℓ κ} :
    {A : Type ℓ} {B : Type κ} (f : A → List B) (xs ys : List A)
    → gather f (xs ++ ys) ≡ gather f xs ++ gather f ys
gather-append f [] ys = refl
gather-append f (x ∷ xs) ys =
    ap (λ t. f x ++ t) (gather-append f xs ys)
    ∙ sym (append_assoc (f x) (gather f xs) (gather f ys))

-- A route is possible for a key and a number of connections.
abbrev pub IsRoute : ℕ → List ℕ → Route → Type 0
IsRoute n key Route.refused = is_valid_key key ≡ false
IsRoute n key Route.unrouted = is_valid_key key ≡ true
IsRoute n key (Route.sent_to i) = (is_valid_key key ≡ true) × (i < n)

abbrev pub AreRoutes {ℓ} : {A : Type ℓ} → ℕ → (A → List ℕ) → List A → List Route → Type 0
AreRoutes n key [] [] = Unit
AreRoutes n key (x ∷ xs) (r ∷ rs) = IsRoute n (key x) r × AreRoutes n key xs rs
AreRoutes n key _ _ = ⊥

abbrev pub refusal : Route → ℕ
refusal Route.refused = 1
refusal _ = 0

abbrev pub refusals : List Route → ℕ
refusals [] = 0
refusals (r ∷ rs) = refusal r + refusals rs

-- A valid pool: its selector is valid and has a server for each connection, the active connections are
-- counted, and each writer is valid and has no piece cut by a send.
pub record IsPool {W : Type 0} (p : Pool W) : Type 0 where
  pub selector : Build.IsValid p.selector
  pub servers : p.selector.n_servers ≡ length p.conns
  pub counted : p.n_active ≡ length p.active
  pub ready : (j : ℕ) (c : Connection) → get_elem? p.conns j ≡ some c → Ready c

-- Each connection gets the requests for its share.
pub record Gets {A W : Type 0} (view : View) (text : A → List ℕ) (replies : A → List (List ℕ))
    (p p' : Pool W) (part : ℕ → List A) : Type 0 where
  pub same_length : length p'.conns ≡ length p.conns
  pub each :
      (j : ℕ) (c : Connection)
      → get_elem? p.conns j ≡ some c
      → (c' : Connection) × (get_elem? p'.conns j ≡ some c')
        × ExtendsBy view (gather text (part j)) (gather replies (part j)) (length (part j)) c c'

pub Same-Extends :
    {view : View} (c c' : Connection) → Ready c → Same c c' → ExtendsBy view [] [] 0 c c'
Same-Extends {view} c c' r s =
    let e = Extends-nil {view = view} c r in
    record {
      sends = ap₂ view s.counter s.writer ∙ e.sends;
      awaits = ap (λ q. q.request_keys) s.parser ∙ e.awaits;
      counts = s.counter ∙ e.counts;
      ready = record {
        valid = subst Stream.IsValid (sym s.writer) r.valid;
        uncut = ap (λ w. length w.original_iovec) s.writer ∙ r.uncut;
      };
    }
