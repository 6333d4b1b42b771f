-- ===== src/Hashkit/Crc/Laws.antt =====
-- The table of the CRC against the polynomial, bit by bit.
use Prim.Native.Nat.{bit_xor}
use libmc.Prelude.{
  ℕ, zero, suc, ◌+◌, ◌/◌, ◌%◌, ◌^◌, ◌<◌, ◌≡◌, refl, ap, ◌∙◌, true, false, Bool, List, [], ◌∷◌, some,
  arith, get_elem?, ◌==◌, if◌then◌else◌,
}
use libmc.Hashkit.Fnv.Laws.{bit_xor_bound}
use libmc.Hashkit.Crc.{crc32tab, crc_from, complement, hash_crc_32}

-- The polynomial of CRC-32, its bits in reverse order.
abbrev pub polynomial : ℕ
polynomial = 3988292384

-- One bit, and several.
unfoldable pub crc_bit : ℕ → ℕ
crc_bit c = if c % 2 == 0 then c / 2 else bit_xor (c / 2) polynomial

unfoldable pub crc_bits : ℕ → ℕ → ℕ
unfolding crc_bit
crc_bits zero c = c
crc_bits (suc n) c = crc_bits n (crc_bit c)

-- The table of the bytes from `i` on.
unfoldable table_from : ℕ → ℕ → List ℕ
unfolding crc_bits
table_from zero i = []
table_from (suc n) i = crc_bits 8 i ∷ table_from n (suc i)

crc32tab_lem : crc32tab ≡ table_from 256 0
unfolding table_from
crc32tab_lem = refl

get_elem?-table_from :
    (n i j : ℕ) → j < n → get_elem? (table_from n i) j ≡ some (crc_bits 8 (i + j))
unfolding table_from
get_elem?-table_from zero i j h = absurd (omega arith)
get_elem?-table_from (suc n) i zero h =
    let e : i ≡ i + 0 = omega arith in ap (λ k. some (crc_bits 8 k)) e
get_elem?-table_from (suc n) i (suc j) h =
    let e : suc i + j ≡ i + suc j = omega arith in
    get_elem?-table_from n (suc i) j (omega arith) ∙ ap (λ k. some (crc_bits 8 k)) e

crc_bit_bound : (c : ℕ) → c < 2 ^ 32 → crc_bit c < 2 ^ 32
unfolding crc_bit
crc_bit_bound c h = go (c % 2 == 0)
  where
    go : (b : Bool) → (if b then c / 2 else bit_xor (c / 2) polynomial) < 2 ^ 32
    go true = omega arith
    go false = bit_xor_bound 32 (c / 2) polynomial (omega arith) (omega arith)

crc_bits_bound : (n c : ℕ) → c < 2 ^ 32 → crc_bits n c < 2 ^ 32
unfolding crc_bits
crc_bits_bound zero c h = h
crc_bits_bound (suc n) c h = crc_bits_bound n (crc_bit c) (crc_bit_bound c h)

-- The CRC without a table: each byte is joined to the low byte, which is divided bit by bit.
unfoldable pub divide_from : ℕ → List ℕ → ℕ
unfolding crc_bits
divide_from crc [] = crc
divide_from crc (c ∷ key) = divide_from (bit_xor (crc / 256) (crc_bits 8 (bit_xor crc c % 256))) key

entry_lem : (i : ℕ) → i < 256 → get_elem? crc32tab i ≡ some (crc_bits 8 i)
entry_lem i h =
    let e : 0 + i ≡ i = omega arith in
    ap (λ t. get_elem? t i) crc32tab_lem
    ∙ get_elem?-table_from 256 0 i h
    ∙ ap (λ k. some (crc_bits 8 k)) e

crc_from-divide_from : (key : List ℕ) (crc : ℕ) → crc_from crc key ≡ some (divide_from crc key)
unfolding crc_from divide_from
crc_from-divide_from [] crc = refl
crc_from-divide_from (c ∷ key) crc =
    let small : bit_xor crc c % 256 < 256 = omega arith in
    rw (entry_lem (bit_xor crc c % 256) small)
      (crc_from-divide_from key (bit_xor (crc / 256) (crc_bits 8 (bit_xor crc c % 256))))

divide_from_bound : (key : List ℕ) (crc : ℕ) → crc < 2 ^ 32 → divide_from crc key < 2 ^ 32
unfolding divide_from
divide_from_bound [] crc h = h
divide_from_bound (c ∷ key) crc h =
    let low = crc_bits_bound 8 (bit_xor crc c % 256) (omega arith) in
    divide_from_bound key _ (bit_xor_bound 32 (crc / 256) _ (omega arith) low)

-- For every key, `hash_crc_32` reads within its table and returns the CRC that is computed without
-- one, each byte bit by bit with the polynomial of CRC-32, and that fits in 32 bits.
pub hash_crc_32-divide_from :
    (key : List ℕ)
    → (hash_crc_32 key ≡ some (complement (divide_from (complement 0) key)))
      × (divide_from (complement 0) key < 2 ^ 32)
unfolding hash_crc_32
hash_crc_32-divide_from key = (
  rw (crc_from-divide_from key (complement 0)) refl,
  divide_from_bound key (complement 0) (omega arith),
)
