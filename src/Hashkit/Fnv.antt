-- ===== src/Hashkit/Fnv.antt =====
-- src/HashkitFnv.cpp, in both of the ways that it is compiled: `no_gcc_optimization` stands for
-- NO_FNV_GCC_OPTIMIZATION. An `uint32_t` is a number below 2 ^ 32.
pub mod Laws
use Prim.Native.Nat.{bit_xor}
use libmc.Prelude.{ℕ, ◌+◌, ◌*◌, ◌%◌, ◌^◌, Bool, List, [], ◌∷◌, if◌then◌else◌}

abbrev pub init : ℕ
init = 2166136261

abbrev pub prime : ℕ
prime = 16777619

abbrev pub add32 : ℕ → ℕ → ℕ
add32 a b = (a + b) % 2 ^ 32

-- `hash << k`.
abbrev pub shl32 : ℕ → ℕ → ℕ
shl32 hash k = hash * 2 ^ k % 2 ^ 32

-- `hash *= FNV_32_PRIME`, or the sum of shifts in its place.
unfoldable pub mix : Bool → ℕ → ℕ
mix no_gcc_optimization hash =
    if no_gcc_optimization
    then hash * prime % 2 ^ 32
    else add32 hash (
        add32 (add32 (add32 (add32 (shl32 hash 1) (shl32 hash 4)) (shl32 hash 7)) (shl32 hash 8))
          (shl32 hash 24))

-- The loops, over what is left of the key.
unfoldable pub fnv1_from : Bool → ℕ → List ℕ → ℕ
fnv1_from no_gcc_optimization hash [] = hash
fnv1_from no_gcc_optimization hash (val ∷ key) =
    fnv1_from no_gcc_optimization (bit_xor (mix no_gcc_optimization hash) val) key

unfoldable pub fnv1a_from : Bool → ℕ → List ℕ → ℕ
fnv1a_from no_gcc_optimization hash [] = hash
fnv1a_from no_gcc_optimization hash (val ∷ key) =
    fnv1a_from no_gcc_optimization (mix no_gcc_optimization (bit_xor hash val)) key

unfoldable pub hash_fnv1_32 : Bool → List ℕ → ℕ
hash_fnv1_32 no_gcc_optimization key = fnv1_from no_gcc_optimization init key

unfoldable pub hash_fnv1a_32 : Bool → List ℕ → ℕ
hash_fnv1a_32 no_gcc_optimization key = fnv1a_from no_gcc_optimization init key
