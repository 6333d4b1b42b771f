-- ===== src/Hashkit/Fnv/Laws.antt =====
-- The two ways to compile the FNV hashes agree, and the hashes fit in 32 bits.
use Prim.Native.Nat.{bit_xor, bit_xor-bitwise, digits, differ}
use libmc.Prelude.{
  ℕ, zero, suc, ◌/◌, ◌%◌, ◌^◌, ◌≤◌, ◌<◌, ◌≡◌, refl, sym, subst, true, false, not, Bool, List, [],
  ◌∷◌, arith, All,
}
use libmc.Hashkit.Fnv.{mix, fnv1_from, fnv1a_from, hash_fnv1_32, hash_fnv1a_32}

differ_le : (x y : ℕ) → x ≤ 1 → y ≤ 1 → differ x y ≤ 1
differ_le zero y h k = k
differ_le (suc x) zero h k = h
differ_le (suc x) (suc y) h k = differ_le x y (omega arith) (omega arith)

digits_bound : (n k a b : ℕ) → a < 2 ^ k → b < 2 ^ k → digits (λ b. b) differ n a b < 2 ^ k
digits_bound zero k a b h l = l
digits_bound (suc n) k zero b h l = l
digits_bound (suc n) zero (suc a) b h l = absurd (omega arith)
digits_bound (suc n) (suc k) (suc a) b h l =
    let low = differ_le (suc a % 2) (b % 2) (omega arith) (omega arith) in
    let high = digits_bound n k (suc a / 2) (b / 2) (omega arith) (omega arith) in
    omega (arith, low, high)

pub bit_xor_bound : (k a b : ℕ) → a < 2 ^ k → b < 2 ^ k → bit_xor a b < 2 ^ k
bit_xor_bound k a b h l =
    subst (λ x. x < 2 ^ k) (sym (bit_xor-bitwise a b)) (digits_bound a k a b h l)

mix_bound : (o : Bool) (hash : ℕ) → mix o hash < 2 ^ 32
unfolding mix
mix_bound true hash = omega arith
mix_bound false hash = omega arith

-- The sum of shifts is the product with the prime.
mix_same : (hash : ℕ) → mix false hash ≡ mix true hash
unfolding mix
mix_same hash = omega arith

fnv1_from_same : (hash : ℕ) (key : List ℕ) → fnv1_from false hash key ≡ fnv1_from true hash key
unfolding fnv1_from
fnv1_from_same hash [] = refl
fnv1_from_same hash (val ∷ key) =
    rw (mix_same hash) (fnv1_from_same (bit_xor (mix true hash) val) key)

fnv1a_from_same : (hash : ℕ) (key : List ℕ) → fnv1a_from false hash key ≡ fnv1a_from true hash key
unfolding fnv1a_from
fnv1a_from_same hash [] = refl
fnv1a_from_same hash (val ∷ key) =
    rw (mix_same (bit_xor hash val)) (fnv1a_from_same (mix true (bit_xor hash val)) key)

hash_fnv_same :
    (key : List ℕ)
    → (hash_fnv1_32 false key ≡ hash_fnv1_32 true key)
      × (hash_fnv1a_32 false key ≡ hash_fnv1a_32 true key)
unfolding hash_fnv1_32 hash_fnv1a_32
hash_fnv_same key = (fnv1_from_same _ key, fnv1a_from_same _ key)

abbrev pub Bytes : List ℕ → Type 0
Bytes = All (λ c. c < 256)

fnv1_from_bound :
    (o : Bool) (key : List ℕ) (hash : ℕ) → hash < 2 ^ 32 → Bytes key → fnv1_from o hash key < 2 ^ 32
unfolding fnv1_from
fnv1_from_bound o [] hash h b = h
fnv1_from_bound o (val ∷ key) hash h b =
    fnv1_from_bound o key (bit_xor (mix o hash) val)
      (bit_xor_bound 32 (mix o hash) val (mix_bound o hash) (omega (arith, b.0))) b.1

fnv1a_from_bound :
    (o : Bool) (key : List ℕ) (hash : ℕ)
    → hash < 2 ^ 32
    → Bytes key
    → fnv1a_from o hash key < 2 ^ 32
unfolding fnv1a_from
fnv1a_from_bound o [] hash h b = h
fnv1a_from_bound o (val ∷ key) hash h b =
    fnv1a_from_bound o key (mix o (bit_xor hash val)) (mix_bound o (bit_xor hash val)) b.1

hash_fnv_bound :
    (o : Bool) (key : List ℕ)
    → Bytes key
    → (hash_fnv1_32 o key < 2 ^ 32) × (hash_fnv1a_32 o key < 2 ^ 32)
unfolding hash_fnv1_32 hash_fnv1a_32
hash_fnv_bound o key b =
    (fnv1_from_bound o key _ (omega arith) b, fnv1a_from_bound o key _ (omega arith) b)

-- For a key of bytes both ways to compile each of the two FNV hashes compute the same, and the hash
-- fits in 32 bits.
pub hash_fnv_lem :
    (o : Bool) (key : List ℕ)
    → Bytes key
    → (hash_fnv1_32 o key ≡ hash_fnv1_32 (not o) key)
      × (hash_fnv1a_32 o key ≡ hash_fnv1a_32 (not o) key)
      × (hash_fnv1_32 o key < 2 ^ 32)
      × (hash_fnv1a_32 o key < 2 ^ 32)
hash_fnv_lem true key b =
    let same = hash_fnv_same key in
    let bound = hash_fnv_bound true key b in (sym same.0, sym same.1, bound.0, bound.1)
hash_fnv_lem false key b =
    let same = hash_fnv_same key in
    let bound = hash_fnv_bound false key b in (same.0, same.1, bound.0, bound.1)
