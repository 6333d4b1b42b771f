-- ===== src/BufferReader.antt =====
-- src/BufferReader.cpp: the bytes received, in a list of data blocks, with a cursor that reads and
-- an iterator that writes. An iterator is a position in the list; `end()` is its length. The methods
-- return `none` where an assertion fails or an iterator at `end()` is read. `DataBlock::minCapacity()`
-- is an argument.
pub mod Valid
pub mod Counted
pub mod Until
pub mod Unsigned
pub mod Commit
pub mod Place
pub mod Prepare
pub mod Write
pub mod Early
pub mod RoundTrip
pub mod Reset
use libmc.Prelude.{
  ℕ, zero, suc, ◌+◌, ◌-◌, ◌&&◌, Bool, List, [], ◌∷◌, ◌++◌, map, Option, none, some, min, max, ltb,
  leb, ◌==◌, if◌then◌else◌, length, get_elem?, take, drop, set, ◌>>=◌, ◌>>◌, assert,
}
use libmc.Types.{ErrCode}
use libmc.DataBlock
use libmc.DataBlock.{DataBlock, is_not_digit}
use libmc.Blocks.{
  TokenData, Target, sum_refs, sizes, seek, slices_to, skip_to, digits_to, slices_of, skip_of,
  expect_of, peek_of,
}

pub record BufferReader : Type 0 where
  pub blocks : List DataBlock
  pub capacity : ℕ
  pub size : ℕ
  pub read_left : ℕ
  pub read_iterator : ℕ
  pub read_offset : ℕ
  pub write_iterator : ℕ
  pub next_prefered_size : ℕ

-- `BufferReader()`.
abbrev pub empty : BufferReader
empty = record {
  blocks = [];
  capacity = 0;
  size = 0;
  read_left = 0;
  read_iterator = 0;
  read_offset = 0;
  write_iterator = 0;
  next_prefered_size = 0;
}

-- `m_capacity -= dbPtr->capacity()` for each block but the first.
pub capacity_after_reset : ℕ → List DataBlock → ℕ
capacity_after_reset capacity [] = capacity
capacity_after_reset capacity (b ∷ bs) = capacity_after_reset (capacity - b.capacity) bs

pub reset : BufferReader → BufferReader
unfolding capacity_after_reset
reset r = record r {
  blocks = take 1 (map DataBlock.reset r.blocks);
  capacity = capacity_after_reset r.capacity (drop 1 r.blocks);
  size = 0;
  read_left = 0;
  write_iterator = 0;
  read_iterator = 0;
  read_offset = 0;
}

-- `++m_blockWriteIterator` if the block that it stands at is full.
pub past_full : BufferReader → ℕ
past_full r = elim (get_elem? r.blocks r.write_iterator) [
  | none ↦ r.write_iterator
  | some b ↦ if DataBlock.get_write_left b == 0 then r.write_iterator + 1 else r.write_iterator
]

-- `push_back` of a new block; an iterator at `end()` stays there.
pub push_block : ℕ → BufferReader → BufferReader
push_block len r = record r {
  blocks = r.blocks ++ DataBlock.init len DataBlock.fresh ∷ [];
  capacity = r.capacity + len;
  write_iterator = length r.blocks;
  read_iterator =
      if r.read_iterator == length r.blocks then r.read_iterator + 1 else r.read_iterator;
}

-- The end of `prepareWriteBlock`: the read cursor, when nothing is left to read, and the result.
pub init_cursor : ℕ → BufferReader → Option (ℕ × BufferReader)
init_cursor len r = do
  b ← get_elem? r.blocks r.write_iterator
  some (
    min len (DataBlock.get_write_left b),
    if r.read_left == 0
        then record r { read_iterator = r.write_iterator; read_offset = DataBlock.size b }
        else r,
  )

pub prepare_write_block : ℕ → ℕ → BufferReader → Option (ℕ × BufferReader)
unfolding past_full push_block init_cursor
prepare_write_block min_capacity len r =
    let w = past_full r in
    elim (get_elem? r.blocks w) [
      | none ↦ init_cursor len (push_block (max len min_capacity) r)
      | some b ↦ do
        assert (ltb 0 (DataBlock.get_write_left b))
        init_cursor len (record r { write_iterator = w })
    ]

-- The bytes are those that the caller has put at `getWritePtr()`; their number is `len`.
pub commit_write : List ℕ → BufferReader → Option BufferReader
commit_write bytes r = do
  b ← get_elem? r.blocks r.write_iterator
  b' ← DataBlock.occupy bytes b
  some (record r {
    blocks = set r.blocks r.write_iterator b';
    write_iterator =
        if DataBlock.size b' + length bytes == b'.capacity
        then r.write_iterator + 1
        else r.write_iterator;
    size = r.size + length bytes;
    read_left = r.read_left + length bytes;
  })

-- `write`, on fuel; BufferReader/Write shows that the number of bytes is enough fuel.
pub write_loop : ℕ → ℕ → List ℕ → BufferReader → Option BufferReader
write_loop fuel min_capacity [] r = some r
write_loop zero min_capacity (x ∷ xs) r = none
write_loop (suc fuel) min_capacity (x ∷ xs) r = do
  (n, r') ← prepare_write_block min_capacity (length (x ∷ xs)) r
  r'' ← commit_write (take n (x ∷ xs)) r'
  write_loop fuel min_capacity (drop n (x ∷ xs)) r''

pub write : ℕ → List ℕ → BufferReader → Option BufferReader
unfolding write_loop
write min_capacity bytes r = write_loop (length bytes) min_capacity bytes r

pub n_bytes_ref : BufferReader → ℕ
n_bytes_ref r = sum_refs r.blocks

-- The blocks from the read cursor's on, and the reader when a loop has left others and a cursor
-- behind them, with `n` bytes fewer to read.
abbrev pub ahead : BufferReader → List DataBlock
ahead r = drop r.read_iterator r.blocks

abbrev pub advance : BufferReader → List DataBlock → Target → ℕ → BufferReader
advance r bs t n = record r {
  blocks = take r.read_iterator r.blocks ++ bs;
  read_iterator = r.read_iterator + t.moved;
  read_offset = t.offset;
  read_left = r.read_left - n;
}

pub peek : ℕ → BufferReader → Option (ErrCode × ℕ)
peek offset r = if leb r.read_left offset then some (ErrCode.incomplete_buffer_err, 0) else (do
  c ← peek_of (ahead r) r.read_iterator r.write_iterator r.read_offset offset
  some (elim c [ none ↦ (ErrCode.incomplete_buffer_err, 0) | some x ↦ (ErrCode.ok, x) ]))

abbrev pub at_end : BufferReader → Target → Bool
at_end r t = r.read_iterator + t.moved == length r.blocks

pub read_until : ℕ → BufferReader → Option (ErrCode × ℕ × TokenData × BufferReader)
read_until value r =
    let t = seek (λ x. x == value) (ahead r) r.read_offset in
    if at_end r t then some (ErrCode.incomplete_buffer_err, 0, [], r) else (do
      td ← slices_to (ahead r) r.read_iterator r.read_offset t.moved t.offset
      some (ErrCode.ok, sizes td, td, advance r (ahead r) t (sizes td)))

pub skip_until : ℕ → BufferReader → Option (ErrCode × ℕ × BufferReader)
skip_until value r =
    let t = seek (λ x. x == value) (ahead r) r.read_offset in
    if at_end r t then some (ErrCode.incomplete_buffer_err, 0, r) else (do
      (n, bs) ← skip_to (ahead r) r.read_offset t.moved t.offset
      some (ErrCode.ok, n, advance r bs t n))

pub read_unsigned : BufferReader → Option (ErrCode × ℕ × BufferReader)
read_unsigned r =
    let t = seek is_not_digit (ahead r) r.read_offset in
    if ltb r.read_left 2
    then some (ErrCode.incomplete_buffer_err, 0, r)
    else if t.moved == 0 && t.offset == r.read_offset
    then some (ErrCode.programming_err, 0, r)
    else if at_end r t
    then some (ErrCode.incomplete_buffer_err, 0, r)
    else (do
      (n, value, bs) ← digits_to (ahead r) r.read_offset t.moved t.offset 0
      some (ErrCode.ok, value, advance r bs t n))

pub read_bytes : ℕ → BufferReader → Option (ErrCode × TokenData × BufferReader)
read_bytes len r =
    if len == 0
    then some (ErrCode.ok, [], r)
    else if ltb r.read_left len
    then some (ErrCode.incomplete_buffer_err, [], r)
    else (do
      (td, t) ← slices_of (ahead r) r.read_iterator r.read_offset len
      some (ErrCode.ok, td, advance r (ahead r) t len))

pub expect_bytes : List ℕ → BufferReader → Option (ErrCode × BufferReader)
expect_bytes str r = do
  assert (ltb 0 (length str))
  if ltb r.read_left (length str) then some (ErrCode.incomplete_buffer_err, r) else (do
    e ← expect_of (ahead r) r.read_offset str (length str)
    some (
      if e.agreed then ErrCode.ok else ErrCode.programming_err,
      advance r e.blocks e.target (length str),
    ))

pub skip_bytes : ℕ → BufferReader → Option (ErrCode × BufferReader)
skip_bytes len r = do
  assert (ltb 0 len)
  if ltb r.read_left len
      then some (ErrCode.incomplete_buffer_err, r)
      else (do (bs, t) ← skip_of (ahead r) r.read_offset len; some (ErrCode.ok, advance r bs t len))

pub get_next_prefered_size : ℕ → BufferReader → ℕ × BufferReader
get_next_prefered_size min_capacity r = (
  if r.next_prefered_size == 0 then min_capacity else r.next_prefered_size,
  record r { next_prefered_size = min_capacity },
)

pub set_next_prefered_size : ℕ → BufferReader → BufferReader
set_next_prefered_size n r = record r { next_prefered_size = n }
