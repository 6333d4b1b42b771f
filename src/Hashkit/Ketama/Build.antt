-- ===== src/Hashkit/Ketama/Build.antt =====
-- What `addServers` makes, and the invariant of the selector.
use libmc.Prelude.{
  ℕ, zero, suc, ◌+◌, ◌<◌, ◌≡◌, refl, sym, ap, subst, ◌*◌, ◌∙◌, true, Bool, List, [], ◌∷◌, ◌++◌,
  arith, length, All, All-append, length-append,
}
use libmc.Hashkit.Ketama.{
  ContinuumItem, KetamaSelector, Server, Formats, points, all_points, add_servers,
}
use libmc.Hashkit.Ketama.Points.{count, HasPoints, all_points-HasPoints, same_count-HasPoints}
use libmc.Hashkit.Ketama.Circle.{IsSorted, All-map}

abbrev pub IsBelow : ℕ → ContinuumItem → Type 0
IsBelow n x = x.conn_idx < n

pub record IsValid (s : KetamaSelector) : Type 0 where
  pub sorted : IsSorted s.continuum
  pub some_points : 0 < s.n_servers → 0 < length s.continuum
  pub indices : All (IsBelow s.n_servers) s.continuum
  pub built : 0 < s.n_servers → s.is_sorted ≡ true

-- What is asked of `std::sort`: it orders the points, and loses and adds none.
pub record Sorts (sort : List ContinuumItem → List ContinuumItem) : Type 1 where
  pub orders : (xs : List ContinuumItem) → IsSorted (sort xs)
  pub same_length : (xs : List ContinuumItem) → length (sort xs) ≡ length xs
  pub same_count :
      (test : ContinuumItem → Bool) (xs : List ContinuumItem) → count test (sort xs) ≡ count test xs
  pub keeps : (P : ContinuumItem → Type 0) (xs : List ContinuumItem) → All P xs → All P (sort xs)

module _ (f : Formats) (hash_md5 : List ℕ → ℕ) where
  points-IsBelow :
      (conn : Server) (i p k : ℕ) → All (IsBelow (suc i)) (points f hash_md5 conn i p k)
  unfolding points
  points-IsBelow conn i p zero = tt
  points-IsBelow conn i p (suc k) = (omega arith, points-IsBelow conn i (suc p) k)

  length-points : (conn : Server) (i p k : ℕ) → length (points f hash_md5 conn i p k) ≡ k
  unfolding points
  length-points conn i p zero = refl
  length-points conn i p (suc k) = omega (arith, length-points conn i (suc p) k)

  all_points-IsBelow :
      (i : ℕ) (conns : List Server)
      → All (IsBelow (i + length conns)) (all_points f hash_md5 i conns)
  unfolding all_points
  all_points-IsBelow i [] = tt
  all_points-IsBelow i (conn ∷ conns) =
      All-append (IsBelow (i + length (conn ∷ conns))) (points f hash_md5 conn i 0 100)
        (all_points f hash_md5 (suc i) conns)
        (All-map (points f hash_md5 conn i 0 100) (λ x h. omega arith)
          (points-IsBelow conn i 0 100))
        (All-map (all_points f hash_md5 (suc i) conns) (λ x h. omega arith)
          (all_points-IsBelow (suc i) conns))

  length-all_points :
      (i : ℕ) (conns : List Server) → length (all_points f hash_md5 i conns) ≡ length conns * 100
  unfolding all_points
  length-all_points i [] = refl
  length-all_points i (conn ∷ conns) = omega (
    arith,
    length-append (points f hash_md5 conn i 0 100) (all_points f hash_md5 (suc i) conns),
    length-points conn i 0 100,
    length-all_points (suc i) conns,
  )

  -- For a selector with no points yet, `addServers` gives a valid selector: the points are in the
  -- order of their hashes, and each has the index of a server. There are 100 of them for each
  -- server, exactly 100 with its index, and among these is, for each number below 100, one with the
  -- server's index and the hash of the server's name with that number. It is asked that `std::sort`
  -- sorts, and keeps how often each item occurs.
  pub add_servers-IsValid :
      (sort : List ContinuumItem → List ContinuumItem) (conns : List Server) (s : KetamaSelector)
      → Sorts sort
      → s.continuum ≡ []
      → IsValid (add_servers f hash_md5 sort conns s)
        × (length (add_servers f hash_md5 sort conns s).continuum ≡ length conns * 100)
        × HasPoints f hash_md5 conns (add_servers f hash_md5 sort conns s).continuum
  unfolding add_servers
  add_servers-IsValid sort conns s o e =
      let n = o.same_length (s.continuum ++ all_points f hash_md5 0 conns) in
      let m = length-append s.continuum (all_points f hash_md5 0 conns) in
      let l : length (add_servers f hash_md5 sort conns s).continuum ≡ length conns * 100 =
        omega (arith, n, m, ap length e, length-all_points 0 conns) in
      (
        record {
          sorted = o.orders (s.continuum ++ all_points f hash_md5 0 conns);
          some_points = λ h. omega (arith, l);
          indices =
              o.keeps (IsBelow (length conns)) (s.continuum ++ all_points f hash_md5 0 conns) (
                subst (λ xs. All (IsBelow (length conns)) (xs ++ all_points f hash_md5 0 conns))
                  (sym e)
                  (All-map (all_points f hash_md5 0 conns) (λ x h. omega arith)
                    (all_points-IsBelow 0 conns)));
          built = λ h. refl;
        },
        l,
        same_count-HasPoints f hash_md5 conns (all_points f hash_md5 0 conns)
            (sort (s.continuum ++ all_points f hash_md5 0 conns))
            (all_points-HasPoints f hash_md5 conns)
            (λ test.
              o.same_count test (s.continuum ++ all_points f hash_md5 0 conns)
              ∙ ap (λ xs. count test (xs ++ all_points f hash_md5 0 conns)) e),
      )
