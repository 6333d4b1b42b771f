-- ===== src/Hashkit/Ketama/Choice.antt =====
-- Which server `getServerIt` returns.
use libmc.Prelude.{
  ℕ, ◌<◌, ◌≡◌, refl, ap, ◌∙◌, true, false, Bool, inl, inr, List, Option, some, arith, ◌==◌, ◌&&◌,
  ◌||◌, not, if◌then◌else◌, length, get_elem?, get_elem?-some, Bool-cases,
}
use libmc.Hashkit.Ketama.{
  ContinuumItem, KetamaSelector, lower_bound, with_default, select_it, check_it, get_server_it,
}
use libmc.Hashkit.Ketama.Build.{IsValid}
use libmc.Hashkit.Ketama.Circle.{
  Nearest, lower_bound_le, lower_bound_end, lower_bound_least, first_least,
}

-- The point that the switch selects.
abbrev pub HasPoint : KetamaSelector → ℕ → (ContinuumItem → Type 0) → Type 0
HasPoint s i P = (x : ContinuumItem) × (get_elem? s.continuum i ≡ some x) × P x

module _ (hash_md5 : List ℕ → ℕ) (key : List ℕ) (s : KetamaSelector) (v : IsValid s) where
  abbrev pub selected : ℕ
  selected = (select_it hash_md5 key s).0

  abbrev pub selected_state : KetamaSelector
  selected_state = (select_it hash_md5 key s).1

  select_one : (s.n_servers == 1) ≡ true → select_it hash_md5 key s ≡ (0, s)
  unfolding select_it
  select_one e = rw e refl

  abbrev hash : ℕ
  hash = with_default hash_md5 s key

  abbrev found : ℕ
  found = lower_bound hash s.continuum

  select_many :
      (s.n_servers == 1) ≡ false
      → select_it hash_md5 key s ≡ (
        if found == length s.continuum then 0 else found,
        record s { hash_function = some (with_default hash_md5 s) },
      )
  unfolding select_it
  select_many e = rw e refl

  pub same_continuum : selected_state.continuum ≡ s.continuum
  same_continuum = elim (Bool-cases (s.n_servers == 1)) [
    | inl one ↦ ap (λ p. p.1.continuum) (select_one one)
    | inr many ↦ ap (λ p. p.1.continuum) (select_many many)
  ]

  pub same_failover : selected_state.use_failover ≡ s.use_failover
  same_failover = elim (Bool-cases (s.n_servers == 1)) [
    | inl one ↦ ap (λ p. p.1.use_failover) (select_one one)
    | inr many ↦ ap (λ p. p.1.use_failover) (select_many many)
  ]

  pub selected_bound : 0 < s.n_servers → selected < length s.continuum
  selected_bound h =
      let bound = lower_bound_le hash s.continuum in
      let points = v.some_points h in
      elim (Bool-cases (s.n_servers == 1)) [
        | inl one ↦ omega (arith, ap (λ p. p.0) (select_one one), points)
        | inr many ↦ ground (arith, ap (λ p. p.0) (select_many many), points, bound)
      ]

  pub selected-Nearest : 1 < s.n_servers → HasPoint s selected (Nearest hash s.continuum)
  selected-Nearest h =
      let many : (s.n_servers == 1) ≡ false = ground arith in
      let here = ap (λ p. p.0) (select_many many) in
      elim (Bool-cases (found == length s.continuum)) [
        | inl at_end ↦
            let (x, g) = get_elem?-some s.continuum 0 (v.some_points (omega arith)) in
            (
              x,
              ap (get_elem? s.continuum) (here ∙ rw at_end refl) ∙ g,
              inr (
                lower_bound_end hash s.continuum (ground arith),
                first_least s.continuum x v.sorted g,
              ),
            )
        | inr inside ↦
            let (x, g) =
              get_elem?-some s.continuum found (ground (arith, lower_bound_le hash s.continuum)) in
            (
              x,
              ap (get_elem? s.continuum) (here ∙ rw inside refl) ∙ g,
              inl (lower_bound_least hash s.continuum x v.sorted g),
            )
      ]

  guard :
      0 < s.n_servers → (debug : Bool) → ((debug && not s.is_sorted) || (s.n_servers == 0)) ≡ false
  guard h true = ground (arith, v.built h)
  guard h false = ground arith

  -- Behind the guard, `getServerIt` selects a point and checks it.
  pub get_server_it_lem :
      {C : Type 0}
      → 0 < s.n_servers
      → (debug : Bool) (try_reconnect : ℕ → C → Bool × C) (check_alive : Bool) (c : C)
        (it : Option ℕ) (c' : C)
      → check_it try_reconnect check_alive selected_state selected c ≡ some (it, c')
      → get_server_it debug hash_md5 try_reconnect key check_alive s c
        ≡ some (it, selected_state, c')
  unfolding get_server_it
  get_server_it_lem h debug try_reconnect check_alive c it c' e = rw (guard h debug, e) refl

  -- With two servers at least and no check whether they are alive, a valid selector returns the
  -- point that the hash of the key belongs to: the first that is not below it, or the first of all
  -- when all are below.
  pub get_server_it-Nearest :
      {C : Type 0}
      → 1 < s.n_servers
      → (debug : Bool) (try_reconnect : ℕ → C → Bool × C) (c : C)
      → (i : ℕ) × (get_server_it debug hash_md5 try_reconnect key false s c
          ≡ some (some i, selected_state, c))
        × HasPoint s i (Nearest hash s.continuum)
  unfolding check_it
  get_server_it-Nearest h debug try_reconnect c =
      let (x, g, near) = selected-Nearest h in
      let at = ap (λ xs. get_elem? xs selected) same_continuum ∙ g in
      (
        selected,
        get_server_it_lem (omega arith) debug try_reconnect false c (some selected) c (rw at refl),
        (x, g, near),
      )
