-- ===== src/Pool/Wire.antt =====
-- What the loop over the items of a command writes.
use libmc.Prelude.{
  ℕ, ◌+◌, ◌<◌, ◌≡◌, refl, sym, ap, ◌∙◌, subst, true, inl, inr, List, [], Option, none, some, arith,
  length, get_elem?, set, length-set, get_elem?-set_self, get_elem?-set_ne, get_elem?_bound,
  get_elem?-some, Bool-cases, ◌==◌, append-nil,
}
use mathlib.Core.Option.{some-injective}
use libmc.Utility.{is_valid_key}
use libmc.Hashkit.Ketama.Build
use libmc.Hashkit.Ketama.Keeps.{IsChoice}
use libmc.Connection.{Connection}
use libmc.Pool.State.{Pool, Build, dispatch_one, request_at, get_conn}
use libmc.Pool.Kept.{SameEach, get_conn-SameEach}
use libmc.Pool.Extends.{View, ExtendsBy, Extends-nil, Extends-trans, Ready}
use libmc.Pool.Routes.{
  Route, refused, unrouted, sent_to, hit, IsRoute, refusal, IsPool, Gets, Same-Extends,
}

module _ {A W : Type 0} (build : Build W) (view : View) (key : A → List ℕ)
    (request : A → Connection → Option Connection) (text : A → List ℕ) (replies : A → List (List ℕ))
    (writes : (x : A) (c : Connection)
      → Ready c
      → (c' : Connection) × (request x c ≡ some c')
        × ExtendsBy view (text x) (replies x) 1 c c') where
  -- One item goes by its route.
  pub record Went (p p' : Pool W) (x : A) (r : Route) : Type 0 where
    pub gets : Gets view text replies p p' (λ j. hit j r x)
    pub route : IsRoute (length p.conns) (key x) r
    pub refused : p'.n_invalid ≡ p.n_invalid + refusal r
    pub active : p'.active ≡ p.active
    pub pool : IsPool p'

  Gets-Ready :
      (p p' : Pool W) (part : ℕ → List A)
      → Gets view text replies p p' part
      → (j : ℕ) (c' : Connection) → get_elem? p'.conns j ≡ some c'
      → Ready c'
  Gets-Ready p p' part g j c' e =
      let inside : j < length p.conns =
        omega (arith, get_elem?_bound p'.conns j c' e, g.same_length) in
      let (c, f) = get_elem?-some p.conns j inside in
      let (d, h, x) = g.each j c f in subst Ready (some-injective d c' (sym h ∙ e)) x.ready

  kept-Gets :
      (p p' : Pool W) → IsPool p → SameEach p.conns p'.conns → Gets view text replies p p' (λ j. [])
  kept-Gets p p' v s = record {
    same_length = s.same_length;
    each = λ j c e.
        let (c', f, same) = s.each j c e in (c', f, Same-Extends c c' (v.ready j c e) same);
  }

  -- A request to the connection `i`, once the choice has been made.
  sent-Gets :
      (p p' : Pool W) (x : A) (i : ℕ) (c1 c2 : Connection)
      → Gets view text replies p p' (λ j. [])
      → get_elem? p'.conns i ≡ some c1
      → ExtendsBy view (text x) (replies x) 1 c1 c2
      → Gets view text replies p
          (record p' { conns = set p'.conns i c2 })
          (λ j. hit j (sent_to i) x)
  sent-Gets p p' x i c1 c2 g e w = record {
    same_length = length-set p'.conns i c2 ∙ g.same_length;
    each = λ j c f. elim (Bool-cases (i == j)) [
      | inl here ↦
          let at : i ≡ j = ground (arith, here) in
          let (d, h, k) = g.each j c f in
          let same : d ≡ c1 = some-injective d c1 (sym h ∙ ap (get_elem? p'.conns) (sym at) ∙ e) in
          (
            c2,
            ap (get_elem? (set p'.conns i c2)) (sym at)
                ∙ get_elem?-set_self p'.conns i c2 (get_elem?_bound p'.conns i c1 e),
            rw (here, append-nil (text x), append-nil (replies x))
                (Extends-trans (subst (λ y. ExtendsBy view [] [] 0 c y) same k) w),
          )
      | inr there ↦
          let (d, h, k) = g.each j c f in
          (d, get_elem?-set_ne p'.conns c2 (λ q. absurd (ground (arith, there, q))) ∙ h, rw there k)
    ];
  }

  pub dispatch_one-Went :
      (x : A) (p : Pool W)
      → IsPool p
      → (p' : Pool W) × (r : Route) × (dispatch_one build (key x) (request x) p ≡ some p')
        × Went p p' x r
  unfolding dispatch_one request_at
  dispatch_one-Went x p v = elim (Bool-cases (is_valid_key (key x))) [
    | inr bad ↦ (
      record p { n_invalid = p.n_invalid + 1 },
      refused,
      rw bad refl,
      record {
        gets = record { same_length = refl; each = λ j c e. (c, e, Extends-nil c (v.ready j c e)) };
        route = bad;
        refused = refl;
        active = refl;
        pool = record {
          selector = v.selector;
          servers = v.servers;
          counted = v.counted;
          ready = v.ready;
        };
      },
    )
    | inl good ↦
        let (it, q, e, s, b, sel, n, inv, na, act) =
          get_conn-SameEach build (key x) p v.selector v.servers in
        routed it q e s b sel n inv (omega (arith, na, ap length act, v.counted)) act good
  ]
    where
      routed :
          (it : Option ℕ) (q : Pool W)
          → get_conn build (key x) p ≡ some (it, q)
          → SameEach p.conns q.conns
          → IsChoice (length q.conns) it
          → Build.IsValid q.selector
          → q.selector.n_servers ≡ length q.conns
          → q.n_invalid ≡ p.n_invalid
          → q.n_active ≡ length q.active
          → q.active ≡ p.active
          → is_valid_key (key x) ≡ true
          → (p' : Pool W) × (r : Route) × (dispatch_one build (key x) (request x) p ≡ some p')
            × Went p p' x r
      routed none q e s b sel n inv count act good =
          let g = kept-Gets p q v s in
          (
            q,
            unrouted,
            rw (good, e) refl,
            record {
              gets = g;
              route = good;
              refused = omega (arith, inv);
              active = act;
              pool = record {
                selector = sel;
                servers = n;
                counted = count;
                ready = Gets-Ready p q (λ j. []) g;
              };
            },
          )
      routed (some i) q e s b sel n inv count act good =
          let g = kept-Gets p q v s in
          let (c1, h) = get_elem?-some q.conns i b in
          let (c2, f, w) = writes x c1 (Gets-Ready p q (λ j. []) g i c1 h) in
          let q' = record q { conns = set q.conns i c2 } in
          let g' = sent-Gets p q x i c1 c2 g h w in
          (
            q',
            sent_to i,
            rw (good, e, h, f) refl,
            record {
              gets = g';
              route = (good, omega (arith, b, s.same_length));
              refused = omega (arith, inv);
              active = act;
              pool = record {
                selector = sel;
                servers = n ∙ sym (length-set q.conns i c2);
                counted = count;
                ready = Gets-Ready p q' (λ j. hit j (sent_to i) x) g';
              };
            },
          )
