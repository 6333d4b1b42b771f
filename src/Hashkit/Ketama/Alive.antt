-- ===== src/Hashkit/Ketama/Alive.antt =====
-- Which server `getServer` chooses when it checks whether they are alive. Whether one is depends on
-- the state, which a try changes for its server only.
use libmc.Prelude.{
  Option-cases, subst₂, ◌⊎◌, ℕ, ◌+◌, ◌-◌, ◌<◌, ◌≡◌, refl, sym, ap, ◌∙◌, subst, true, false, Bool,
  inl, inr, List, Option, none, some, arith, ltb, ◌==◌, length, get_elem?, get_elem?-some,
  get_elem?_end, All, Bool-cases,
}
use mathlib.Core.Option.{none-ne-some}
use libmc.Hashkit.Ketama.{
  ContinuumItem, KetamaSelector, select_it, check_it, get_server_it, get_server,
}
use libmc.Hashkit.Ketama.Build.{IsValid}
use libmc.Hashkit.Ketama.Circle.{All-of_elements}
use libmc.Hashkit.Ketama.Failover.{Passed, Tried, failover-Tried, wrap}
use libmc.Hashkit.Ketama.Choice.{
  selected, selected_state, same_continuum, same_failover, selected_bound, get_server_it_lem,
}

get_elem?_bound :
    (items : List ContinuumItem) (j : ℕ) (x : ContinuumItem)
    → get_elem? items j ≡ some x
    → j < length items
get_elem?_bound items j x g = elim (Bool-cases (ltb j (length items))) [
  | inl inside ↦ ground arith
  | inr past ↦ absurd (none-ne-some x (sym (get_elem?_end items j (ground arith)) ∙ g))
]

-- A failover that has gone around has passed by every point.
passes-All :
    {C : Type 0} (alive : ℕ → C → Bool) (items : List ContinuumItem) (origin i : ℕ) (c : C)
    (result : Option ℕ × C)
    → i < length items
    → Tried alive items origin i (length items) c result
    → result.0 ≡ none
    → alive origin c ≡ false
    → All (λ x. alive x.conn_idx result.1 ≡ false) items
passes-All alive items origin i c result h t e down = All-of_elements items each
  where
    is_down :
        (x : ContinuumItem) → Passed alive result.1 origin x → alive x.conn_idx result.1 ≡ false
    is_down x p = elim p [
      | inl same ↦ ap (λ n. alive n result.1) same ∙ t.same_origin ∙ down
      | inr d ↦ d
    ]

    each :
        (j : ℕ) (x : ContinuumItem) → get_elem? items j ≡ some x → alive x.conn_idx result.1 ≡ false
    each j x g =
        let bound = get_elem?_bound items j x g in
        elim (Bool-cases (ltb i j)) [
          | inl later ↦
              let there : wrap (length items) (i + 1 + (j - (i + 1))) ≡ j = ground arith in
              is_down x (t.passes e (j - (i + 1)) x (ground arith) (ap (get_elem? items) there ∙ g))
          | inr before ↦
              let around = j + length items - (i + 1) in
              let there : wrap (length items) (i + 1 + around) ≡ j = ground arith in
              is_down x (t.passes e around x (ground arith) (ap (get_elem? items) there ∙ g))
        ]

-- A server of a point.
abbrev pub HasServer : List ContinuumItem → ℕ → Type 0
HasServer items n = (j : ℕ) × (x : ContinuumItem) × (get_elem? items j ≡ some x) × (x.conn_idx ≡ n)

-- What the checks choose in the state `c`, where `first` is the server of the selected point: a
-- server that is up, which is `first`, or that of another point while `first` is down and the
-- failover is on; or none, and then `first` is down and so is, with the failover, every other.
abbrev pub Chosen :
    {C : Type 0} → (ℕ → C → Bool) → List ContinuumItem → Bool → ℕ → Option ℕ → C → Type 0
Chosen alive items use_failover first (some n) c =
    (alive n c ≡ true)
    × ((n ≡ first) ⊎ ((use_failover ≡ true) × (alive first c ≡ false) × HasServer items n))
Chosen alive items use_failover first none c =
    (alive first c ≡ false) × ((use_failover ≡ false) ⊎ All (λ x. alive x.conn_idx c ≡ false) items)

-- What `checkIt` returns, the point of the server chosen.
record Checked {C : Type 0} (alive : ℕ → C → Bool) (items : List ContinuumItem)
    (use_failover : Bool) (first : ℕ) (it : Option ℕ) (c : C) : Type 0 where
  server : Option ℕ
  found :
      ((it ≡ none) × (server ≡ none))
      ⊎ ((j : ℕ) × (x : ContinuumItem) × (it ≡ some j)
          × (get_elem? items j ≡ some x)
          × (server ≡ some x.conn_idx))
  chosen : Chosen alive items use_failover first server c

module _ {C : Type 0} (try_reconnect : ℕ → C → Bool × C) (alive : ℕ → C → Bool)
    (answers : (n : ℕ) (c : C) → (try_reconnect n c).0 ≡ alive n (try_reconnect n c).1)
    (others : (m n : ℕ) (c : C)
      → (m == n) ≡ false
      → alive m (try_reconnect n c).1 ≡ alive m c) where
  around-Checked :
      (items : List ContinuumItem) (origin i : ℕ) (c : C) (result : Option ℕ × C)
      → i < length items
      → alive origin c ≡ false
      → Tried alive items origin i (length items) c result
      → Checked alive items true origin result.0 result.1
  around-Checked items origin i c result h down t = elim (Option-cases result.0) [
    | inl e ↦ record {
      server = none;
      found = inl (e, refl);
      chosen = (t.same_origin ∙ down, inr (passes-All alive items origin i c result h t e down));
    }
    | inr (j, e) ↦
        let (x, g, up) = t.finds j e in
        record {
          server = some x.conn_idx;
          found = inr (j, x, e, g, refl);
          chosen = (up, inr (refl, t.same_origin ∙ down, (j, x, g, refl)));
        }
  ]

  check_it-Checked :
      (s : KetamaSelector) (i : ℕ) (c : C)
      → i < length s.continuum
      → (x : ContinuumItem) × (it : Option ℕ) × (c' : C) × (get_elem? s.continuum i ≡ some x)
        × (check_it try_reconnect true s i c ≡ some (it, c'))
        × Checked alive s.continuum s.use_failover x.conn_idx it c'
  unfolding check_it
  check_it-Checked s i c h =
      let (x, g) = get_elem?-some s.continuum i h in
      let c' = (try_reconnect x.conn_idx c).1 in
      let answer = answers x.conn_idx c in
      elim (Bool-cases (try_reconnect x.conn_idx c).0) [
        | inl up ↦ (
          x,
          some i,
          c',
          g,
          rw (g, up) refl,
          record {
            server = some x.conn_idx;
            found = inr (i, x, refl, g, refl);
            chosen = (sym answer ∙ up, inl refl);
          },
        )
        | inr down ↦ elim (Bool-cases s.use_failover) [
          | inr off ↦ (
            x,
            none,
            c',
            g,
            rw (g, down, off) refl,
            record {
              server = none;
              found = inl (refl, refl);
              chosen = (sym answer ∙ down, inl off);
            },
          )
          | inl on ↦
              let (result, e, t) =
                failover-Tried try_reconnect alive answers others s.continuum x.conn_idx i
                  (length s.continuum) c' h (omega arith) in
              (
                x,
                result.0,
                result.1,
                g,
                rw (g, down, on) e,
                subst (λ b. Checked alive s.continuum b x.conn_idx result.0 result.1) (sym on)
                    (around-Checked s.continuum x.conn_idx i c' result h (sym answer ∙ down) t),
              )
        ]
      ]

  looked_up :
      (debug : Bool) (hash_md5 : List ℕ → ℕ) (key : List ℕ) (s : KetamaSelector) (c : C)
      (q : KetamaSelector) (first : ℕ) (it : Option ℕ) (c' : C)
      → get_server_it debug hash_md5 try_reconnect key true s c ≡ some (it, q, c')
      → Checked alive q.continuum q.use_failover first it c'
      → (r : Option ℕ) × (get_server debug hash_md5 try_reconnect key true s c ≡ some (r, q, c'))
        × Chosen alive q.continuum q.use_failover first r c'
  unfolding get_server
  looked_up debug hash_md5 key s c q first it c' e k = elim k.found [
    | inl (a, b) ↦ (k.server, rw (e, a, b) refl, k.chosen)
    | inr (j, x, a, g, b) ↦ (k.server, rw (e, a, g, b) refl, k.chosen)
  ]

  -- A valid selector with a server checks the point that it selects.
  pub get_server-Chosen :
      (debug : Bool) (hash_md5 : List ℕ → ℕ) (key : List ℕ) (s : KetamaSelector) (c : C)
      → IsValid s
      → 0 < s.n_servers
      → (x : ContinuumItem) × (r : Option ℕ) × (q : KetamaSelector) × (c' : C) × (get_elem?
            s.continuum
            (select_it hash_md5 key s).0
          ≡ some x)
        × (get_server debug hash_md5 try_reconnect key true s c ≡ some (r, q, c'))
        × Chosen alive s.continuum s.use_failover x.conn_idx r c'
  get_server-Chosen debug hash_md5 key s c v h =
      let same = same_continuum hash_md5 key s v in
      let q = selected_state hash_md5 key s v in
      let i = selected hash_md5 key s v in
      let (x, it, c', g, e, k) =
        check_it-Checked q i c (omega (arith, selected_bound hash_md5 key s v h, ap length same)) in
      let e' = get_server_it_lem hash_md5 key s v h debug try_reconnect true c it c' e in
      let (r, e'', k') = looked_up debug hash_md5 key s c q x.conn_idx it c' e' k in
      (
        x,
        r,
        q,
        c',
        ap (λ xs. get_elem? xs i) (sym same) ∙ g,
        e'',
        subst₂ (λ xs f. Chosen alive xs f x.conn_idx r c') same (same_failover hash_md5 key s v) k',
      )
