-- ===== src/Hashkit/Ketama/Points.antt =====
-- How many points of a continuum have a property, and which points `addServers` makes.
use libmc.Prelude.{
  ℕ, zero, suc, ◌+◌, ◌≤◌, ◌<◌, ◌≡◌, refl, ◌&&◌, Bool, List, [], ◌∷◌, ◌++◌, some, arith, ◌==◌,
  if◌then◌else◌, length, get_elem?, inl, inr, Bool-cases, true, false, subst, ◌∙◌,
}
use mathlib.Core.Option.{some-injective, none-ne-some}
use libmc.Hashkit.Ketama.{ContinuumItem, Server, Formats, sort_host, points, all_points}

abbrev pub count : (ContinuumItem → Bool) → List ContinuumItem → ℕ
count test [] = 0
count test (x ∷ xs) = let rest = count test xs in if test x then suc rest else rest

-- The points of a server, and a point of one with a hash.
abbrev pub of_server : ℕ → ContinuumItem → Bool
of_server j x = x.conn_idx == j

abbrev pub is_point : ℕ → ℕ → ContinuumItem → Bool
is_point h j x = (x.hash_value == h) && (x.conn_idx == j)

-- Each server has 100 points, among them one for the hash of its name with each number below 100.
pub record HasPoints (f : Formats) (hash_md5 : List ℕ → ℕ) (conns : List Server)
    (items : List ContinuumItem) : Type 0 where
  pub share : (j : ℕ) → j < length conns → count (of_server j) items ≡ 100
  pub each :
      (j p : ℕ) (conn : Server)
      → get_elem? conns j ≡ some conn
      → p < 100
      → 0 < count (is_point (hash_md5 (sort_host f conn p)) j) items

pub count-append :
    (test : ContinuumItem → Bool) (xs ys : List ContinuumItem)
    → count test (xs ++ ys) ≡ count test xs + count test ys
count-append test [] ys = omega arith
count-append test (x ∷ xs) ys = ground (arith, count-append test xs ys)

is_point_self : (h j : ℕ) → is_point h j (record { hash_value = h; conn_idx = j }) ≡ true
is_point_self h j = ground arith

module _ (f : Formats) (hash_md5 : List ℕ → ℕ) where
  count-points :
      (conn : Server) (i p k : ℕ) → count (of_server i) (points f hash_md5 conn i p k) ≡ k
  unfolding points
  count-points conn i p zero = refl
  count-points conn i p (suc k) =
      let same : (i == i) ≡ true = ground arith in rw (same, count-points conn i (suc p) k) refl

  count-points_other :
      (conn : Server) (i j p k : ℕ)
      → (i == j) ≡ false
      → count (of_server j) (points f hash_md5 conn i p k) ≡ 0
  unfolding points
  count-points_other conn i j p zero h = refl
  count-points_other conn i j p (suc k) h = rw h (count-points_other conn i j (suc p) k h)

  points_first :
      (conn : Server) (i p k : ℕ)
      → 0 < count (is_point (hash_md5 (sort_host f conn p)) i) (points f hash_md5 conn i p (suc k))
  unfolding points
  points_first conn i p k =
      let found = is_point_self (hash_md5 (sort_host f conn p)) i in rw found (omega arith)

  points_each :
      (conn : Server) (i p k q : ℕ)
      → p ≤ q
      → q < p + k
      → 0 < count (is_point (hash_md5 (sort_host f conn q)) i) (points f hash_md5 conn i p k)
  unfolding points
  points_each conn i p zero q l h = absurd (omega arith)
  points_each conn i p (suc k) q l h = elim (Bool-cases (p == q)) [
    | inl same ↦
        let here : p ≡ q = ground arith in
        subst
          (λ n.
            0
            < count (is_point (hash_md5 (sort_host f conn n)) i)
                (points f hash_md5 conn i p (suc k)))
          here (points_first conn i p k)
    | inr other ↦
        let rest = points_each conn i (suc p) k q (ground arith) (omega arith) in ground arith
  ]

  no_points :
      (i j : ℕ) (conns : List Server)
      → j < i
      → count (of_server j) (all_points f hash_md5 i conns) ≡ 0
  unfolding all_points
  no_points i j [] h = refl
  no_points i j (conn ∷ conns) h = omega (
    arith,
    count-append (of_server j) (points f hash_md5 conn i 0 100)
        (all_points f hash_md5 (suc i) conns),
    count-points_other conn i j 0 100 (ground arith),
    no_points (suc i) j conns (omega arith),
  )

  all_points-share :
      (i j n : ℕ) (conns : List Server)
      → n ≡ i + j
      → j < length conns
      → count (of_server n) (all_points f hash_md5 i conns) ≡ 100
  unfolding all_points
  all_points-share i j n [] e h = absurd (omega arith)
  all_points-share i zero n (conn ∷ conns) e h =
      let here : i ≡ n = omega arith in
      let first =
        subst (λ m. count (of_server m) (points f hash_md5 conn i 0 100) ≡ 100) here
          (count-points conn i 0 100) in
      omega (
        arith,
        count-append (of_server n) (points f hash_md5 conn i 0 100)
            (all_points f hash_md5 (suc i) conns),
        first,
        no_points (suc i) n conns (omega arith),
      )
  all_points-share i (suc j) n (conn ∷ conns) e h = omega (
    arith,
    count-append (of_server n) (points f hash_md5 conn i 0 100)
        (all_points f hash_md5 (suc i) conns),
    count-points_other conn i n 0 100 (ground arith),
    all_points-share (suc i) j n conns (omega arith) (omega arith),
  )

  all_points-each :
      (i j n p : ℕ) (conns : List Server) (conn : Server)
      → n ≡ i + j
      → get_elem? conns j ≡ some conn
      → p < 100
      → 0 < count (is_point (hash_md5 (sort_host f conn p)) n) (all_points f hash_md5 i conns)
  unfolding all_points
  all_points-each i j n p [] conn e g h = absurd (none-ne-some conn g)
  all_points-each i zero n p (c ∷ conns) conn e g h =
      let test = is_point (hash_md5 (sort_host f conn p)) in
      let here : i ≡ n = omega arith in
      let first =
        subst
          (λ d. 0 < count (is_point (hash_md5 (sort_host f d p)) i) (points f hash_md5 c i 0 100))
          (some-injective c conn g) (points_each c i 0 100 p (omega arith) (omega arith)) in
      let there = subst (λ m. 0 < count (test m) (points f hash_md5 c i 0 100)) here first in
      omega (
        arith,
        there,
        count-append (test n) (points f hash_md5 c i 0 100) (all_points f hash_md5 (suc i) conns),
      )
  all_points-each i (suc j) n p (c ∷ conns) conn e g h = omega (
    arith,
    count-append (is_point (hash_md5 (sort_host f conn p)) n) (points f hash_md5 c i 0 100)
        (all_points f hash_md5 (suc i) conns),
    all_points-each (suc i) j n p conns conn (omega arith) g h,
  )

  pub all_points-HasPoints :
      (conns : List Server) → HasPoints f hash_md5 conns (all_points f hash_md5 0 conns)
  all_points-HasPoints conns = record {
    share = λ j h. all_points-share 0 j j conns (omega arith) h;
    each = λ j p conn g h. all_points-each 0 j j p conns conn (omega arith) g h;
  }

-- A list with the same number of points of each kind.
pub same_count-HasPoints :
    (f : Formats) (hash_md5 : List ℕ → ℕ) (conns : List Server) (xs ys : List ContinuumItem)
    → HasPoints f hash_md5 conns xs
    → ((test : ContinuumItem → Bool) → count test ys ≡ count test xs)
    → HasPoints f hash_md5 conns ys
same_count-HasPoints f hash_md5 conns xs ys v same = record {
  share = λ j h. same (of_server j) ∙ v.share j h;
  each = λ j p conn g h.
      omega (arith, same (is_point (hash_md5 (sort_host f conn p)) j), v.each j p conn g h);
}
