-- ===== src/Pool/Shares.antt =====
-- What the whole loop over the items of a command writes, and the loop over the connections behind it.
use libmc.Prelude.{
  ℕ, suc, ◌+◌, ◌<◌, ◌≡◌, refl, sym, ap, ap₂, ◌∙◌, subst, inl, inr, List, [], ◌∷◌, ◌++◌, Option,
  some, arith, length, get_elem?, Bool-cases, length-append, ltb, if◌then◌else◌,
}
use mathlib.Core.Option.{some-injective}
use libmc.Types.{ParserMode}
use libmc.BufferWriter.Stream.{pending}
use libmc.Connection.{Connection}
use libmc.Pool.State.{Pool, Build, dispatch_items, counted_from, expect_replies}
use libmc.Pool.Extends.{View, ExtendsBy, seen, Extends, Extends-nil, Extends-trans, Ready}
use libmc.Pool.Routes.{Route, hit, share, gather-append, AreRoutes, refusals, IsPool, Gets}
use libmc.Pool.Wire.{dispatch_one-Went}

-- The loop over the items has ended: each item has gone by its route.
pub record Dispatched {A W : Type 0} (view : View) (key : A → List ℕ) (text : A → List ℕ)
    (replies : A → List (List ℕ)) (p p' : Pool W) (xs : List A) (rs : List Route) : Type 0 where
  pub gets : Gets view text replies p p' (λ j. share j rs xs)
  pub routes : AreRoutes (length p.conns) key xs rs
  pub refused : p'.n_invalid ≡ p.n_invalid + refusals rs
  pub active : p'.active ≡ p.active
  pub pool : IsPool p'

module _ {A W : Type 0} (build : Build W) (view : View) (key : A → List ℕ)
    (request : A → Connection → Option Connection) (text : A → List ℕ) (replies : A → List (List ℕ))
    (writes : (x : A) (c : Connection)
      → Ready c
      → (c' : Connection) × (request x c ≡ some c')
        × ExtendsBy view (text x) (replies x) 1 c c') where
  Gets-trans :
      (p q r : Pool W) (part next : ℕ → List A)
      → Gets view text replies p q part
      → Gets view text replies q r next
      → Gets view text replies p r (λ j. part j ++ next j)
  Gets-trans p q r part next g h = record {
    same_length = h.same_length ∙ g.same_length;
    each = λ j c e.
        let (d, f, x) = g.each j c e in
        let (c', k, y) = h.each j d f in
        let z = Extends-trans x y in
        (
          c',
          k,
          record {
            sends =
                z.sends ∙ ap (λ t. seen view c ++ t) (sym (gather-append text (part j) (next j)));
            awaits =
                z.awaits
                ∙ ap (λ t. c.parser.request_keys ++ t)
                    (sym (gather-append replies (part j) (next j)));
            counts = omega (arith, z.counts, length-append (part j) (next j));
            ready = z.ready;
          },
        );
  }

  pub dispatch_items-Dispatched :
      (xs : List A) (p : Pool W)
      → IsPool p
      → (p' : Pool W) × (rs : List Route) × (dispatch_items build key request xs p ≡ some p')
        × Dispatched view key text replies p p' xs rs
  unfolding dispatch_items
  dispatch_items-Dispatched [] p v = (
    p,
    [],
    refl,
    record {
      gets = record { same_length = refl; each = λ j c e. (c, e, Extends-nil c (v.ready j c e)) };
      routes = tt;
      refused = omega arith;
      active = refl;
      pool = v;
    },
  )
  dispatch_items-Dispatched (x ∷ xs) p v =
      let (q, r, e, w) = dispatch_one-Went build view key request text replies writes x p v in
      let (p', rs, f, d) = dispatch_items-Dispatched xs q w.pool in
      (
        p',
        r ∷ rs,
        rw e f,
        record {
          gets = Gets-trans p q p' (λ j. hit j r x) (λ j. share j rs xs) w.gets d.gets;
          routes = (w.route, subst (λ n. AreRoutes n key xs rs) w.gets.same_length d.routes);
          refused = omega (arith, w.refused, d.refused);
          active = d.active ∙ w.active;
          pool = d.pool;
        },
      )

-- The connection has the requests to send, and awaits as many replies as it counts.
pub record Awaits (text : List ℕ) (keys : List (List ℕ)) (n : ℕ) (c c' : Connection) : Type 0 where
  pub sends : pending c'.writer ≡ pending c.writer ++ text
  pub awaits : c'.parser.request_keys ≡ c.parser.request_keys ++ keys
  pub counts : c'.counter ≡ length c'.parser.request_keys
  pub mode : 0 < c.counter + n → c'.parser.mode ≡ ParserMode.counting
  pub ready : Ready c'

pub expect_replies-Awaits :
    {t : List ℕ} {ks : List (List ℕ)} {n : ℕ} (c c' : Connection)
    → Extends t ks n c c'
    → Awaits t ks n c (expect_replies c')
unfolding expect_replies
expect_replies-Awaits {t} {ks} {n} c c' e = elim (Bool-cases (ltb 0 c'.counter)) [
  | inl busy ↦ rw busy (record {
    sends = e.sends;
    awaits = e.awaits;
    counts = refl;
    mode = λ h. refl;
    ready = record { valid = e.ready.valid; uncut = e.ready.uncut };
  })
  | inr idle ↦ rw idle (record {
    sends = e.sends;
    awaits = e.awaits;
    counts = refl;
    mode = λ h. absurd (ground (arith, e.counts, idle, h));
    ready = record { valid = e.ready.valid; uncut = e.ready.uncut };
  })
]

-- The indices, from `i` on, of the connections that count something with what they get.
abbrev pub busy_from : ℕ → List Connection → (ℕ → ℕ) → List ℕ
busy_from i [] part = []
busy_from i (c ∷ cs) part =
    if ltb 0 (c.counter + part i) then i ∷ busy_from (suc i) cs part else busy_from (suc i) cs part

pub counted_from-busy :
    (i : ℕ) (cs ds : List Connection) (part : ℕ → ℕ)
    → length ds ≡ length cs
    → ((j : ℕ) (c : Connection)
        → get_elem? cs j ≡ some c
        → (d : Connection) × (get_elem? ds j ≡ some d) × (d.counter ≡ c.counter + part (i + j)))
    → counted_from i ds ≡ busy_from i cs part
unfolding counted_from
counted_from-busy i [] [] part l f = refl
counted_from-busy i [] (d ∷ ds) part l f = absurd (omega (arith, l))
counted_from-busy i (c ∷ cs) [] part l f = absurd (omega (arith, l))
counted_from-busy i (c ∷ cs) (d ∷ ds) part l f =
    let (d', g, e) = f 0 c refl in
    let here : i + 0 ≡ i = omega arith in
    let same : d.counter ≡ c.counter + part i =
      ap (λ (x : Connection). x.counter) (some-injective d d' g)
      ∙ e
      ∙ ap (λ k. c.counter + part k) here in
    let rest : counted_from (suc i) ds ≡ busy_from (suc i) cs part =
      counted_from-busy (suc i) cs ds part (omega (arith, l)) (λ j x h.
        let (y, k, n) = f (suc j) x h in
        let there : i + suc j ≡ suc i + j = omega arith in
        (y, k, n ∙ ap (λ m. x.counter + part m) there)) in
    ap₂ (λ n t. if ltb 0 n then i ∷ t else t) same rest

-- The connections that become active are those with something in their share.
pub Dispatched-active :
    {A W : Type 0} {view : View} {key : A → List ℕ} {text : A → List ℕ}
    {replies : A → List (List ℕ)} (p q : Pool W) (xs : List A) (rs : List Route)
    → Dispatched view key text replies p q xs rs
    → q.active ++ counted_from 0 q.conns
      ≡ p.active ++ busy_from 0 p.conns (λ j. length (share j rs xs))
Dispatched-active p q xs rs d =
    ap (λ t. t ++ counted_from 0 q.conns) d.active
    ∙ ap (λ t. p.active ++ t)
        (counted_from-busy 0 p.conns q.conns (λ j. length (share j rs xs)) d.gets.same_length
          (λ j c e.
            let (c', f, x) = d.gets.each j c e in
            let at : j ≡ 0 + j = omega arith in
            (c', f, x.counts ∙ ap (λ i. c.counter + length (share i rs xs)) at)))
