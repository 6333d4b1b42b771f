-- ===== src/Blocks.antt =====
-- The loops of src/BufferReader.cpp over the list of data blocks. Each takes the blocks from the
-- read cursor's iterator to the end of the list and the cursor's offset, and recurs on the blocks:
-- `++iterator` is the step to the rest, and `[]` is `m_dataBlockList.end()`, where a read faults.
pub mod Content
pub mod Counted
pub mod Slices
pub mod Search
pub mod Until
pub mod Compare
pub mod Growth
use libmc.Prelude.{
  ℕ, zero, suc, ◌+◌, ◌-◌, ◌*◌, ◌%◌, ◌^◌, Bool, true, false, List, [], ◌∷◌, ◌++◌, Option, none, some,
  ltb, ◌==◌, if◌then◌else◌, length, take, drop, ◌>>=◌,
}
use libmc.DataBlock.{DataBlock, size, release, at, find_if}

-- `DataBlockSlice`. An iterator is a position in the list.
pub record DataBlockSlice : Type 0 where
  pub iterator : ℕ
  pub offset : ℕ
  pub size : ℕ

abbrev pub TokenData : Type 0
TokenData = List DataBlockSlice

-- The sum that `nBytesRef` takes over the list.
abbrev pub sum_refs : List DataBlock → ℕ
sum_refs [] = 0
sum_refs (b ∷ bs) = b.n_bytes_ref + sum_refs bs

-- A cursor behind the one that a loop started at: how many blocks further, and the offset there.
pub record Target : Type 0 where
  pub moved : ℕ
  pub offset : ℕ

abbrev pub later : Target → Target
later t = record t { moved = suc t.moved }

-- The first loop of `readUntil`, `skipUntil` and `readUnsigned`: `endCur`.
unfoldable pub seek : (ℕ → Bool) → List DataBlock → ℕ → Target
seek test [] off = record { moved = 0; offset = off }
seek test (b ∷ bs) off =
    if find_if test off b == size b
    then later (seek test bs 0)
    else record { moved = 0; offset = find_if test off b }

abbrev pub slice : ℕ → ℕ → ℕ → DataBlockSlice
slice i off n = record { iterator = i; offset = off; size = n }

-- `if (dbs.size > 0) tokenData.push_back(dbs)`.
abbrev pub slice_if_any : ℕ → ℕ → ℕ → TokenData
slice_if_any i off n = if ltb 0 n then slice i off n ∷ [] else []

-- The second loop of `readUntil`, up to the target; `i` is the iterator of the first block.
unfoldable pub slices_to : List DataBlock → ℕ → ℕ → ℕ → ℕ → Option TokenData
slices_to [] i off zero stop = some []
slices_to [] i off (suc m) stop = none
slices_to (b ∷ bs) i off zero stop = some (slice_if_any i off (stop - off))
slices_to (b ∷ bs) i off (suc m) stop = do
  rest ← slices_to bs (suc i) 0 m stop
  some (slice_if_any i off (size b - off) ++ rest)

-- The sum of the sizes of a token's slices.
unfoldable pub sizes : TokenData → ℕ
sizes [] = 0
sizes (s ∷ td) = s.size + sizes td

-- The second loop of `skipUntil`, with `nSize`.
unfoldable pub skip_to : List DataBlock → ℕ → ℕ → ℕ → Option (ℕ × List DataBlock)
skip_to [] off zero stop = some (0, [])
skip_to [] off (suc m) stop = none
skip_to (b ∷ bs) off zero stop = do b' ← release (stop - off) b; some (stop - off, b' ∷ bs)
skip_to (b ∷ bs) off (suc m) stop = do
  b' ← release (size b - off) b
  (n, bs') ← skip_to bs 0 m stop
  some (size b - off + n, b' ∷ bs')

-- `value = value * 10ULL + (c - '0')` for each byte, in 64 bits.
unfoldable pub accumulate : ℕ → List ℕ → ℕ
accumulate value [] = value
accumulate value (c ∷ cs) = accumulate ((value * 10 + (c + 2 ^ 64 - b'0')) % 2 ^ 64) cs

-- The second loop of `readUnsigned`: the number of bytes read, and the value.
unfoldable pub digits_to : List DataBlock → ℕ → ℕ → ℕ → ℕ → Option (ℕ × ℕ × List DataBlock)
digits_to [] off zero stop value = some (0, value, [])
digits_to [] off (suc m) stop value = none
digits_to (b ∷ bs) off zero stop value = do
  b' ← release (stop - off) b
  some (stop - off, accumulate value (take (stop - off) (drop off b.data_)), b' ∷ bs)
digits_to (b ∷ bs) off (suc m) stop value = do
  b' ← release (size b - off) b
  (n, value', bs') ← digits_to bs 0 m stop (accumulate value (drop off b.data_))
  some (size b - off + n, value', b' ∷ bs')

-- The loop of `readBytes`.
unfoldable pub slices_of : List DataBlock → ℕ → ℕ → ℕ → Option (TokenData × Target)
slices_of bs i off zero = some ([], record { moved = 0; offset = off })
slices_of [] i off (suc k) = none
slices_of (b ∷ bs) i off (suc k) =
    if ltb (suc k) (size b - off)
    then some (slice i off (suc k) ∷ [], record { moved = 0; offset = off + suc k })
    else (do
      (rest, t) ← slices_of bs (suc i) 0 (suc k - (size b - off))
      some (slice i off (size b - off) ∷ rest, later t))

-- The loop of `skipBytes`.
unfoldable pub skip_of : List DataBlock → ℕ → ℕ → Option (List DataBlock × Target)
skip_of bs off zero = some (bs, record { moved = 0; offset = off })
skip_of [] off (suc k) = none
skip_of (b ∷ bs) off (suc k) =
    if ltb (suc k) (size b - off)
    then (do b' ← release (suc k) b; some (b' ∷ bs, record { moved = 0; offset = off + suc k }))
    else (do
      b' ← release (size b - off) b
      (bs', t) ← skip_of bs 0 (suc k - (size b - off))
      some (b' ∷ bs', later t))

-- `strncmp(p, s, n) == 0`. Neither string ends before `n` where it is called.
unfoldable pub strncmp_eq : List ℕ → List ℕ → ℕ → Bool
strncmp_eq p s zero = true
strncmp_eq (x ∷ p) (y ∷ s) (suc n) =
    if x == y then if x == 0 then true else strncmp_eq p s n else false
strncmp_eq _ _ (suc n) = false

-- What `expectBytes` has done when it returns: whether all bytes agreed, and the cursor and blocks.
pub record Expected : Type 0 where
  pub agreed : Bool
  pub blocks : List DataBlock
  pub target : Target

-- The loop of `expectBytes` over what is left of the string.
unfoldable pub expect_of : List DataBlock → ℕ → List ℕ → ℕ → Option Expected
expect_of bs off str zero =
    some (record { agreed = true; blocks = bs; target = record { moved = 0; offset = off } })
expect_of [] off str (suc k) = none
expect_of (b ∷ bs) off str (suc k) =
    if ltb (suc k) (size b - off)
    then if strncmp_eq (drop off b.data_) str (suc k)
      then (do
        b' ← release (suc k) b
        some (record {
          agreed = true;
          blocks = b' ∷ bs;
          target = record { moved = 0; offset = off + suc k };
        }))
      else stopped
    else if strncmp_eq (drop off b.data_) str (size b - off)
    then (do
      b' ← release (size b - off) b
      e ← expect_of bs 0 (drop (size b - off) str) (suc k - (size b - off))
      some (record e { blocks = b' ∷ e.blocks; target = later e.target }))
    else stopped
  where
    stopped : Option Expected
    stopped =
        some
          (record { agreed = false; blocks = b ∷ bs; target = record { moved = 0; offset = off } })

-- The loop of `peek` and `charAtCursor`, with the iterators of the first block and of the block
-- that is written to; the inner `none` is RET_INCOMPLETE_BUFFER_ERR.
unfoldable pub peek_of : List DataBlock → ℕ → ℕ → ℕ → ℕ → Option (Option ℕ)
peek_of [] i write_iterator off n = none
peek_of (b ∷ bs) i write_iterator off zero = do c ← at off b; some (some c)
peek_of (b ∷ bs) i write_iterator off (suc k) =
    if ltb (suc k) (size b - off)
    then (do c ← at (off + suc k) b; some (some c))
    else if i == write_iterator
    then some none
    else peek_of bs (suc i) write_iterator 0 (suc k - (size b - off))
