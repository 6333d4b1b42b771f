-- ===== src/Hashkit/Ketama/Keeps.antt =====
-- `getConn` returns, and changes the connections by calls of `tryReconnect` only.
use libmc.Prelude.{
  ℕ, zero, suc, ◌<◌, ◌≡◌, refl, ap, true, Bool, inl, inr, List, [], ◌∷◌, Option, none, some, arith,
  length, get_elem?, get_elem?-some, All, Bool-cases, ◌==◌, ◌&&◌, ◌||◌, not,
}
use libmc.Hashkit.Ketama.{
  ContinuumItem, KetamaSelector, failover, check_it, get_server_it, get_server, next_it, select_it,
}
use libmc.Hashkit.Ketama.Build.{IsValid, IsBelow}
use libmc.Hashkit.Ketama.Choice.{
  selected, selected_state, same_continuum, selected_bound, get_server_it_lem,
}

-- A choice, if there is one, is below the bound.
abbrev pub IsChoice : ℕ → Option ℕ → Type 0
IsChoice n none = Unit
IsChoice n (some i) = i < n

next_it_bound :
    (items : List ContinuumItem) (i : ℕ) → i < length items → next_it items i < length items
next_it_bound items i h = ground arith

below :
    (n : ℕ) (items : List ContinuumItem) (i : ℕ)
    → All (IsBelow n) items
    → i < length items
    → (x : ContinuumItem) × (get_elem? items i ≡ some x) × (x.conn_idx < n)
below n [] i a h = absurd (omega arith)
below n (x ∷ items) zero a h = (x, refl, a.0)
below n (x ∷ items) (suc i) a h = below n items i a.1 (omega arith)

same_servers :
    (hash_md5 : List ℕ → ℕ) (key : List ℕ) (s : KetamaSelector)
    → IsValid s
    → IsValid (select_it hash_md5 key s).1
unfolding select_it
same_servers hash_md5 key s v = elim (Bool-cases (s.n_servers == 1)) [
  | inl one ↦ rw one v
  | inr many ↦ rw many (record {
    sorted = v.sorted;
    some_points = v.some_points;
    indices = v.indices;
    built = v.built;
  })
]

same_count :
    (hash_md5 : List ℕ → ℕ) (key : List ℕ) (s : KetamaSelector)
    → (select_it hash_md5 key s).1.n_servers ≡ s.n_servers
unfolding select_it
same_count hash_md5 key s = elim (Bool-cases (s.n_servers == 1)) [
  | inl one ↦ rw one refl
  | inr many ↦ rw many refl
]

or_true : (b : Bool) → (b || true) ≡ true
or_true b = ground arith

module _ {C : Type 0} (try_reconnect : ℕ → C → Bool × C) (Keeps : C → C → Type 0)
    (keeps_refl : (c : C) → Keeps c c)
    (keeps_trans : (a b c : C) → Keeps a b → Keeps b c → Keeps a c)
    (tries : (n : ℕ) (c : C) → Keeps c (try_reconnect n c).1) where
  failover-Keeps :
      (items : List ContinuumItem) (origin i : ℕ) (c : C) (k : ℕ)
      → i < length items
      → (it : Option ℕ) × (c' : C) × (failover try_reconnect items origin i c k ≡ some (it, c'))
        × Keeps c c'
        × IsChoice (length items) it
  unfolding failover
  failover-Keeps items origin i c zero h = (none, c, refl, keeps_refl c, tt)
  failover-Keeps items origin i c (suc k) h =
      let j = next_it items i in
      let inside : j < length items = next_it_bound items i h in
      let (x, g) = get_elem?-some items j inside in
      let c1 = (try_reconnect x.conn_idx c).1 in
      elim (Bool-cases (x.conn_idx == origin)) [
        | inl same ↦
            let (it, c', e, r, b) = failover-Keeps items origin j c k inside in
            (it, c', rw (g, same) e, r, b)
        | inr other ↦ elim (Bool-cases (try_reconnect x.conn_idx c).0) [
          | inl up ↦ (some j, c1, rw (g, other, up) refl, tries x.conn_idx c, inside)
          | inr down ↦
              let (it, c', e, r, b) = failover-Keeps items origin j c1 k inside in
              (it, c', rw (g, other, down) e, keeps_trans c c1 c' (tries x.conn_idx c) r, b)
        ]
      ]

  check_it-Keeps :
      (s : KetamaSelector) (i : ℕ) (c : C)
      → i < length s.continuum
      → (it : Option ℕ) × (c' : C) × (check_it try_reconnect true s i c ≡ some (it, c'))
        × Keeps c c'
        × IsChoice (length s.continuum) it
  unfolding check_it
  check_it-Keeps s i c h =
      let (x, g) = get_elem?-some s.continuum i h in
      let c1 = (try_reconnect x.conn_idx c).1 in
      elim (Bool-cases (try_reconnect x.conn_idx c).0) [
        | inl up ↦ (some i, c1, rw (g, up) refl, tries x.conn_idx c, h)
        | inr down ↦ elim (Bool-cases s.use_failover) [
          | inr off ↦ (none, c1, rw (g, down, off) refl, tries x.conn_idx c, tt)
          | inl on ↦
              let (it, c', e, r, b) =
                failover-Keeps s.continuum x.conn_idx i c1 (length s.continuum) h in
              (it, c', rw (g, down, on) e, keeps_trans c c1 c' (tries x.conn_idx c) r, b)
        ]
      ]

  without_servers :
      (debug : Bool) (hash_md5 : List ℕ → ℕ) (key : List ℕ) (s : KetamaSelector) (c : C)
      → (s.n_servers == 0) ≡ true
      → get_server_it debug hash_md5 try_reconnect key true s c ≡ some (none, s, c)
  unfolding get_server_it
  without_servers debug hash_md5 key s c e = rw (e, or_true (debug && not s.is_sorted)) refl

  finish :
      (debug : Bool) (hash_md5 : List ℕ → ℕ) (key : List ℕ) (s : KetamaSelector) (c : C)
      (q : KetamaSelector) (c' : C) (it : Option ℕ)
      → get_server_it debug hash_md5 try_reconnect key true s c ≡ some (it, q, c')
      → IsValid q
      → IsChoice (length q.continuum) it
      → (r : Option ℕ) × (get_server debug hash_md5 try_reconnect key true s c ≡ some (r, q, c'))
        × IsChoice q.n_servers r
  unfolding get_server
  finish debug hash_md5 key s c q c' none e v b = (none, rw e refl, tt)
  finish debug hash_md5 key s c q c' (some i) e v b =
      let (x, g, h) = below q.n_servers q.continuum i v.indices b in
      (some x.conn_idx, rw (e, g) refl, h)

  -- A valid selector returns a connection below the number of servers, or none.
  pub get_server-Keeps :
      (debug : Bool) (hash_md5 : List ℕ → ℕ) (key : List ℕ) (s : KetamaSelector) (c : C)
      → IsValid s
      → (r : Option ℕ) × (s' : KetamaSelector) × (c' : C) × (get_server debug hash_md5 try_reconnect
            key true s c
          ≡ some (r, s', c'))
        × Keeps c c'
        × IsChoice s'.n_servers r
        × IsValid s'
        × (s'.n_servers ≡ s.n_servers)
  get_server-Keeps debug hash_md5 key s c v = elim (Bool-cases (s.n_servers == 0)) [
    | inl no_server ↦
        let (r, e, b) =
          finish debug hash_md5 key s c s c none (without_servers debug hash_md5 key s c no_server)
            v tt in
        (r, s, c, e, keeps_refl c, b, v, refl)
    | inr servers ↦
        let h : 0 < s.n_servers = ground (arith, servers) in
        let q = selected_state hash_md5 key s v in
        let i = selected hash_md5 key s v in
        let same = same_continuum hash_md5 key s v in
        let inside : i < length q.continuum =
          omega (arith, selected_bound hash_md5 key s v h, ap length same) in
        let (it, c', e, kept, b) = check_it-Keeps q i c inside in
        let e' = get_server_it_lem hash_md5 key s v h debug try_reconnect true c it c' e in
        let w = same_servers hash_md5 key s v in
        let (r, f, small) = finish debug hash_md5 key s c q c' it e' w b in
        (r, q, c', f, kept, small, w, same_count hash_md5 key s)
  ]
