-- ===== src/BufferReader/Early.antt =====
-- `commitWrite` compares the block's size, which counts the new bytes already, plus their number
-- with the capacity.
use libmc.Prelude.{
  ℕ, ◌+◌, ◌≤◌, ◌<◌, ◌≡◌, ap, ◌∙◌, true, List, [], ◌∷◌, ◌++◌, some, arith, ◌==◌, length, get_elem?,
  length-append, get_elem?_last,
}
use libmc.DataBlock
use libmc.DataBlock.{DataBlock}
use libmc.BufferReader.{BufferReader, commit_write}
use libmc.BufferReader.Commit.{CanWrite, filled_block, after, commit_write_lem}

-- If a commit fills exactly half of the room that the last block had, the write iterator leaves the
-- block although the other half is free.
pub commit_write_early :
    (bytes : List ℕ) (r : BufferReader) (w : CanWrite r)
    → 0 < length bytes
    → DataBlock.get_write_left w.block ≡ length bytes + length bytes
    → (r' : BufferReader) × (b : DataBlock) × (commit_write bytes r ≡ some r')
      × (r'.write_iterator ≡ length r'.blocks)
      × (get_elem? r'.blocks r.write_iterator ≡ some b)
      × (DataBlock.get_write_left b ≡ length bytes)
commit_write_early bytes r w p h =
    let fits : length bytes ≤ DataBlock.get_write_left w.block = omega (arith, h) in
    let b = filled_block w.block bytes in
    let grown = length-append w.block.data_ bytes in
    let half : (DataBlock.size b + length bytes == w.block.capacity) ≡ true =
      ground (arith, h, p, grown) in
    (
      after r w bytes p fits,
      b,
      commit_write_lem r w bytes p fits,
      rw half (omega (arith, w.write_at, length-append w.front (b ∷ []))),
      ap (get_elem? (w.front ++ b ∷ [])) w.write_at ∙ get_elem?_last w.front b,
      omega (arith, h, grown),
    )
