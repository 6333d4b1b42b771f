-- ===== src/Tests/Sorting.antt =====
-- Insertion sort, in the place of `std::sort`.
use libmc.Prelude.{
  suc, Bool, ◌≤◌, ◌≡◌, List, [], ◌∷◌, arith, refl, leb, if◌then◌else◌, length, All, Bool-cases, inl,
  inr,
}
use libmc.Hashkit.Ketama.{ContinuumItem}
use libmc.Hashkit.Ketama.Build.{Sorts}
use libmc.Hashkit.Ketama.Points.{count}
use libmc.Hashkit.Ketama.Circle.{IsSorted, All-map}

unfoldable pub insert : ContinuumItem → List ContinuumItem → List ContinuumItem
insert x [] = x ∷ []
insert x (y ∷ ys) =
    let rest = insert x ys in if leb x.hash_value y.hash_value then x ∷ y ∷ ys else y ∷ rest

unfoldable pub sort : List ContinuumItem → List ContinuumItem
sort [] = []
sort (x ∷ xs) = insert x (sort xs)

insert-All :
    (P : ContinuumItem → Type 0) (x : ContinuumItem) (xs : List ContinuumItem)
    → P x
    → All P xs
    → All P (insert x xs)
unfolding insert
insert-All P x [] p a = (p, a)
insert-All P x (y ∷ ys) p a = elim (Bool-cases (leb x.hash_value y.hash_value)) [
  | inl le ↦ rw le (p, a)
  | inr gt ↦ rw gt (a.0, insert-All P x ys p a.1)
]

insert-IsSorted :
    (x : ContinuumItem) (xs : List ContinuumItem) → IsSorted xs → IsSorted (insert x xs)
unfolding insert
insert-IsSorted x [] s = (tt, tt)
insert-IsSorted x (y ∷ ys) s = elim (Bool-cases (leb x.hash_value y.hash_value)) [
  | inl le ↦ rw le ((ground arith, All-map ys (λ z h. ground arith) s.0), s)
  | inr gt ↦ rw gt (
    insert-All (λ z. y.hash_value ≤ z.hash_value) x ys (ground arith) s.0,
    insert-IsSorted x ys s.1,
  )
]

length-insert :
    (x : ContinuumItem) (xs : List ContinuumItem) → length (insert x xs) ≡ suc (length xs)
unfolding insert
length-insert x [] = refl
length-insert x (y ∷ ys) = ground (arith, length-insert x ys)

sort-IsSorted : (xs : List ContinuumItem) → IsSorted (sort xs)
unfolding sort
sort-IsSorted [] = tt
sort-IsSorted (x ∷ xs) = insert-IsSorted x (sort xs) (sort-IsSorted xs)

length-sort : (xs : List ContinuumItem) → length (sort xs) ≡ length xs
unfolding sort
length-sort [] = refl
length-sort (x ∷ xs) = omega (arith, length-insert x (sort xs), length-sort xs)

sort-All : (P : ContinuumItem → Type 0) (xs : List ContinuumItem) → All P xs → All P (sort xs)
unfolding sort
sort-All P [] a = a
sort-All P (x ∷ xs) a = insert-All P x (sort xs) a.0 (sort-All P xs a.1)

count-insert :
    (test : ContinuumItem → Bool) (x : ContinuumItem) (xs : List ContinuumItem)
    → count test (insert x xs) ≡ count test (x ∷ xs)
unfolding insert
count-insert test x [] = refl
count-insert test x (y ∷ ys) = ground (arith, count-insert test x ys)

count-sort :
    (test : ContinuumItem → Bool) (xs : List ContinuumItem) → count test (sort xs) ≡ count test xs
unfolding sort
count-sort test [] = refl
count-sort test (x ∷ xs) = ground (arith, count-insert test x (sort xs), count-sort test xs)

pub sort-Sorts : Sorts sort
sort-Sorts = record {
  orders = sort-IsSorted;
  same_length = length-sort;
  same_count = count-sort;
  keeps = sort-All;
}
