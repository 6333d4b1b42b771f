-- ===== src/Hashkit/Ketama/Failover.antt =====
-- The failover visits every point.
use libmc.Prelude.{
  ℕ, zero, suc, ◌+◌, ◌-◌, ◌≤◌, ◌<◌, ◌≡◌, refl, sym, ap, ◌∙◌, subst, true, false, Bool, ◌⊎◌, inl,
  inr, List, Option, none, some, arith, ltb, ◌==◌, if◌then◌else◌, length, get_elem?, get_elem?-some,
  Bool-cases,
}
use mathlib.Core.Option.{none-ne-some, some-injective}
use libmc.Hashkit.Ketama.{ContinuumItem, next_it, failover}

-- An item that the failover passes by: it is of the first server, or of one that is down.
abbrev pub Passed : {C : Type 0} → (ℕ → C → Bool) → C → ℕ → ContinuumItem → Type 0
Passed alive c origin x = (x.conn_idx ≡ origin) ⊎ (alive x.conn_idx c ≡ false)

abbrev pub wrap : ℕ → ℕ → ℕ
wrap n x = if ltb x n then x else x - n

wrap_first :
    (items : List ContinuumItem) (i : ℕ)
    → i < length items
    → wrap (length items) (i + 1 + 0) ≡ next_it items i
wrap_first items i h = ground arith

wrap_next :
    (items : List ContinuumItem) (i s : ℕ)
    → i < length items
    → suc s < length items
    → wrap (length items) (i + 1 + suc s) ≡ wrap (length items) (next_it items i + 1 + s)
wrap_next items i s h l = ground arith

next_it_bound :
    (items : List ContinuumItem) (i : ℕ) → i < length items → next_it items i < length items
next_it_bound items i h = ground arith

-- What the loop returns from the state `c`: a point of another server that is up then, or nothing
-- after it has passed by the next `k` points; then a server that was down is down still.
pub record Tried {C : Type 0} (alive : ℕ → C → Bool) (items : List ContinuumItem) (origin i k : ℕ)
    (c : C) (result : Option ℕ × C) : Type 0 where
  pub finds :
      (j : ℕ)
      → result.0 ≡ some j
      → (x : ContinuumItem) × (get_elem? items j ≡ some x) × (alive x.conn_idx result.1 ≡ true)
  pub passes :
      result.0 ≡ none
      → (s : ℕ) (x : ContinuumItem) → s < k
      → get_elem? items (wrap (length items) (i + 1 + s)) ≡ some x
      → Passed alive result.1 origin x
  pub stays_down : result.0 ≡ none → (m : ℕ) → alive m c ≡ false → alive m result.1 ≡ false
  pub same_origin : alive origin result.1 ≡ alive origin c

-- Whether a server is up depends on the state: a try answers whether it is up afterwards, and changes
-- no other server.
module _ {C : Type 0} (try_reconnect : ℕ → C → Bool × C) (alive : ℕ → C → Bool)
    (answers : (n : ℕ) (c : C) → (try_reconnect n c).0 ≡ alive n (try_reconnect n c).1)
    (others : (m n : ℕ) (c : C)
      → (m == n) ≡ false
      → alive m (try_reconnect n c).1 ≡ alive m c) where
  still_down :
      (n : ℕ) (c : C)
      → (try_reconnect n c).0 ≡ false
      → (m : ℕ) → alive m c ≡ false
      → alive m (try_reconnect n c).1 ≡ false
  still_down n c fails m h = elim (Bool-cases (m == n)) [
    | inl same ↦
        let e : n ≡ m = ground arith in
        subst (λ x. alive x (try_reconnect n c).1 ≡ false) e (sym (answers n c) ∙ fails)
    | inr other ↦ others m n c other ∙ h
  ]

  -- One more point passed by before the others.
  one_more :
      (items : List ContinuumItem) (origin i k : ℕ) (c : C) (x : ContinuumItem)
      (result : Option ℕ × C)
      → i < length items
      → suc k ≤ length items
      → get_elem? items (next_it items i) ≡ some x
      → (result.0 ≡ none → Passed alive result.1 origin x)
      → Tried alive items origin (next_it items i) k c result
      → Tried alive items origin i (suc k) c result
  one_more items origin i k c x result h l g p t = record {
    finds = t.finds;
    passes = pass;
    stays_down = t.stays_down;
    same_origin = t.same_origin;
  }
    where
      pass :
          result.0 ≡ none
          → (s : ℕ) (y : ContinuumItem) → s < suc k
          → get_elem? items (wrap (length items) (i + 1 + s)) ≡ some y
          → Passed alive result.1 origin y
      pass e zero y m q =
          let same =
            some-injective x y (sym g ∙ ap (get_elem? items) (sym (wrap_first items i h)) ∙ q) in
          subst (Passed alive result.1 origin) same (p e)
      pass e (suc s) y m q =
          t.passes e s y (omega arith)
            (ap (get_elem? items) (sym (wrap_next items i s h (omega arith))) ∙ q)

  -- The same behind a try of another server that is down.
  behind_try :
      (items : List ContinuumItem) (origin i k n : ℕ) (c : C) (result : Option ℕ × C)
      → (try_reconnect n c).0 ≡ false
      → (origin == n) ≡ false
      → Tried alive items origin i k (try_reconnect n c).1 result
      → Tried alive items origin i k c result
  behind_try items origin i k n c result fails other t = record {
    finds = t.finds;
    passes = t.passes;
    stays_down = λ e m h. t.stays_down e m (still_down n c fails m h);
    same_origin = t.same_origin ∙ others origin n c other;
  }

  pub failover-Tried :
      (items : List ContinuumItem) (origin i k : ℕ) (c : C)
      → i < length items
      → k ≤ length items
      → (result : Option ℕ × C) × (failover try_reconnect items origin i c k ≡ some result)
        × Tried alive items origin i k c result
  unfolding failover
  failover-Tried items origin i zero c h l = (
    (none, c),
    refl,
    record {
      finds = λ j e. absurd (none-ne-some j e);
      passes = λ e s x m q. absurd (omega arith);
      stays_down = λ e m d. d;
      same_origin = refl;
    },
  )
  failover-Tried items origin i (suc k) c h l =
      let bound = next_it_bound items i h in
      let (x, g) = get_elem?-some items (next_it items i) bound in
      let c1 = (try_reconnect x.conn_idx c).1 in
      elim (Bool-cases (x.conn_idx == origin)) [
        | inl same ↦
            let (result, e, t) =
              failover-Tried items origin (next_it items i) k c bound (omega arith) in
            (
              result,
              rw (g, same) e,
              one_more items origin i k c x result h l g (λ _. inl (ground arith)) t,
            )
        | inr other ↦
            let far : (origin == x.conn_idx) ≡ false = ground arith in
            elim (Bool-cases (try_reconnect x.conn_idx c).0) [
              | inl works ↦ (
                (some (next_it items i), c1),
                rw (g, other, works) refl,
                record {
                  finds = λ j e. (
                    x,
                    subst (λ n. get_elem? items n ≡ some x) (some-injective _ _ e) g,
                    sym (answers x.conn_idx c) ∙ works,
                  );
                  passes = λ e s y m q. absurd (none-ne-some _ (sym e));
                  stays_down = λ e m d. absurd (none-ne-some _ (sym e));
                  same_origin = others origin x.conn_idx c far;
                },
              )
              | inr fails ↦
                  let (result, e, t) =
                    failover-Tried items origin (next_it items i) k c1 bound (omega arith) in
                  let down = sym (answers x.conn_idx c) ∙ fails in
                  (
                    result,
                    rw (g, other, fails) e,
                    one_more items origin i k c x result h l g
                        (λ n. inr (t.stays_down n x.conn_idx down))
                        (behind_try items origin (next_it items i) k x.conn_idx c result fails far
                          t),
                  )
            ]
      ]
