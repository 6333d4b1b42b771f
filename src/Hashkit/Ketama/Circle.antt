-- ===== src/Hashkit/Ketama/Circle.antt =====
-- The continuum as a circle of points in the order of their hashes.
use libmc.Prelude.{
  ℕ, suc, ◌≤◌, ◌<◌, ◌≡◌, refl, sym, ap, subst, ◌∙◌, ◌⊎◌, inl, inr, List, [], ◌∷◌, some, arith, ltb,
  length, get_elem?, All, Bool-cases,
}
use mathlib.Core.Option.{none-ne-some, some-injective}
use libmc.Hashkit.Ketama.{ContinuumItem, lower_bound}

abbrev pub IsSorted : List ContinuumItem → Type 0
IsSorted [] = Unit
IsSorted (x ∷ xs) = All (λ y. x.hash_value ≤ y.hash_value) xs × IsSorted xs

-- The point that a hash belongs to: the first that is not below it, or, when all are below, the
-- first of all.
abbrev pub Nearest : ℕ → List ContinuumItem → ContinuumItem → Type 0
Nearest h items x =
    ((h ≤ x.hash_value) × All (λ y. (y.hash_value < h) ⊎ (x.hash_value ≤ y.hash_value)) items)
    ⊎ (All (λ y. y.hash_value < h) items × All (λ y. x.hash_value ≤ y.hash_value) items)

pub All-map :
    {P Q : ContinuumItem → Type 0} (xs : List ContinuumItem)
    → ((x : ContinuumItem) → P x → Q x)
    → All P xs
    → All Q xs
All-map [] f a = tt
All-map (x ∷ xs) f a = (f x a.0, All-map xs f a.1)

pub All-of_elements :
    {P : ContinuumItem → Type 0} (xs : List ContinuumItem)
    → ((j : ℕ) (x : ContinuumItem) → get_elem? xs j ≡ some x → P x)
    → All P xs
All-of_elements [] f = tt
All-of_elements (x ∷ xs) f = (f 0 x refl, All-of_elements xs (λ j. f (suc j)))

pub lower_bound_le : (h : ℕ) (items : List ContinuumItem) → lower_bound h items ≤ length items
unfolding lower_bound
lower_bound_le h [] = omega arith
lower_bound_le h (x ∷ xs) = ground (arith, lower_bound_le h xs)

pub lower_bound_end :
    (h : ℕ) (items : List ContinuumItem)
    → lower_bound h items ≡ length items
    → All (λ y. y.hash_value < h) items
unfolding lower_bound
lower_bound_end h [] e = tt
lower_bound_end h (x ∷ xs) e = elim (Bool-cases (ltb x.hash_value h)) [
  | inl below ↦ (ground arith, lower_bound_end h xs (ground arith))
  | inr above ↦ absurd (ground arith)
]

pub lower_bound_least :
    (h : ℕ) (items : List ContinuumItem) (x : ContinuumItem)
    → IsSorted items
    → get_elem? items (lower_bound h items) ≡ some x
    → (h ≤ x.hash_value) × All (λ y. (y.hash_value < h) ⊎ (x.hash_value ≤ y.hash_value)) items
unfolding lower_bound
lower_bound_least h [] x s e = absurd (none-ne-some x e)
lower_bound_least h (z ∷ zs) x s e = elim (Bool-cases (ltb z.hash_value h)) [
  | inl below ↦
      let shift : lower_bound h (z ∷ zs) ≡ suc (lower_bound h zs) = rw below refl in
      let (least, others) =
        lower_bound_least h zs x s.1 (ap (get_elem? (z ∷ zs)) (sym shift) ∙ e) in
      (least, (inl (ground arith), others))
  | inr above ↦
      let here : lower_bound h (z ∷ zs) ≡ 0 = rw above refl in
      let same : z ≡ x = some-injective z x (ap (get_elem? (z ∷ zs)) (sym here) ∙ e) in
      subst
        (λ y.
          (h ≤ y.hash_value)
          × All (λ w. (w.hash_value < h) ⊎ (y.hash_value ≤ w.hash_value)) (z ∷ zs))
        same (ground arith, (inr (omega arith), All-map zs (λ y l. inr l) s.0))
]

-- The first point of all.
pub first_least :
    (items : List ContinuumItem) (x : ContinuumItem)
    → IsSorted items
    → get_elem? items 0 ≡ some x
    → All (λ y. x.hash_value ≤ y.hash_value) items
first_least [] x s e = absurd (none-ne-some x e)
first_least (z ∷ zs) x s e =
    subst (λ y. All (λ w. y.hash_value ≤ w.hash_value) (z ∷ zs)) (some-injective z x e)
      (omega arith, s.0)
