-- ===== src/Tokens.antt =====
-- `freeTokenData`, `parseTokenData` and `copyTokenData` of src/BufferReader.cpp, on the blocks that
-- the slices of a token lie in. A fault is the outer `none`.
pub mod Ledger
pub mod Text
use libmc.Prelude.{
  ℕ, ◌+◌, Bool, List, [], ◌∷◌, ◌++◌, Option, none, some, ltb, leb, ◌==◌, if◌then◌else◌, length,
  get_elem?, set, take, drop, ◌>>=◌, ◌>>◌, assert,
}
use libmc.DataBlock.{DataBlock, size, acquire, release}
use libmc.Blocks.{DataBlockSlice, TokenData}

unfoldable pub free_token_data : List DataBlock → TokenData → Option (List DataBlock)
free_token_data bs [] = some bs
free_token_data bs (s ∷ td) = do
  b ← get_elem? bs s.iterator
  b' ← release s.size b
  free_token_data (set bs s.iterator b') td

-- The loop of `copyTokenData`.
unfoldable pub acquire_all : List DataBlock → TokenData → Option (List DataBlock)
acquire_all bs [] = some bs
acquire_all bs (s ∷ td) = do
  b ← get_elem? bs s.iterator
  acquire_all (set bs s.iterator (acquire s.size b)) td

-- The blocks, and what `dst` holds then.
unfoldable pub copy_token_data :
    List DataBlock → TokenData → TokenData → Option (List DataBlock × TokenData)
unfolding acquire_all
copy_token_data bs [] dst = some (bs, dst)
copy_token_data bs (s ∷ src) dst = do
  assert (length dst == 0)
  bs' ← acquire_all bs (s ∷ src)
  some (bs', s ∷ src)

-- The bytes at `it->iterator->at(it->offset)`; `memcpy` reads no more than are written.
unfoldable pub slice_bytes : List DataBlock → DataBlockSlice → Option (List ℕ)
slice_bytes bs s = do
  b ← get_elem? bs s.iterator
  assert (ltb s.offset (size b))
  assert (leb (s.offset + s.size) (size b))
  some (take s.size (drop s.offset b.data_))

-- The loop of `parseTokenData`, at `pos`; the inner `none` is NULL.
unfoldable pub copy_slices : List DataBlock → TokenData → ℕ → ℕ → Option (Option (List ℕ))
unfolding slice_bytes
copy_slices bs [] reserved pos = do assert (reserved == pos); some (some [])
copy_slices bs (s ∷ td) reserved pos = if ltb reserved (pos + s.size) then some none else (do
  c ← slice_bytes bs s
  rest ← copy_slices bs td reserved (pos + s.size)
  some (elim rest [ none ↦ none | some cs ↦ some (c ++ cs) ]))

unfoldable pub parse_token_data : List DataBlock → TokenData → ℕ → Option (Option (List ℕ))
unfolding slice_bytes copy_slices
parse_token_data bs (s ∷ []) reserved =
    if reserved == 0
    then some none
    else (do assert (s.size == reserved); c ← slice_bytes bs s; some (some c))
parse_token_data bs [] reserved = if reserved == 0 then some none else copy_slices bs [] reserved 0
parse_token_data bs (s ∷ s' ∷ td) reserved =
    if reserved == 0 then some none else copy_slices bs (s ∷ s' ∷ td) reserved 0
