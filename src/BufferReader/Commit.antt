-- ===== src/BufferReader/Commit.antt =====
-- `commitWrite` on the bytes that the reader holds.
use libmc.Prelude.{
  ℕ, ◌+◌, ◌≤◌, ◌<◌, ◌≡◌, refl, sym, ap, ap₂, ◌∙◌, subst, List, [], ◌∷◌, ◌++◌, some, arith, ◌==◌,
  length, get_elem?, set, drop, if◌then◌else◌, All, length-append, length-map, drop-append_le,
  get_elem?_last, set_last,
}
use mathlib.Core.List.{map-append}
use libmc.DataBlock
use libmc.DataBlock.{DataBlock, occupy}
use libmc.Blocks.{sum_refs}
use libmc.Blocks.Content.{shape, shapes, content, Covered, InRange, Packed}
use libmc.Blocks.Growth.{
  grown, content-grown, InRange-grown, Packed-grown, All-IsFilled-grown, All-grown, All_last,
  Covered-grown,
}
use libmc.BufferReader.{BufferReader, n_bytes_ref, ahead, commit_write}
use libmc.BufferReader.Valid.{unread, HasRoom, IsFilled, IsValid, sum_refs-append}

-- The block that is written to is the last, it has room, and the cursor is not behind it.
pub record CanWrite (r : BufferReader) : Type 0 where
  pub valid : IsValid r
  pub front : List DataBlock
  pub block : DataBlock
  pub blocks_eq : r.blocks ≡ front ++ block ∷ []
  pub write_at : r.write_iterator ≡ length front
  pub cursor_le : r.read_iterator ≤ length front
  pub write_left : 0 < DataBlock.get_write_left block

-- The block once the bytes are in it.
abbrev pub filled_block : DataBlock → List ℕ → DataBlock
filled_block b bytes = record b {
  data_ = b.data_ ++ bytes;
  n_bytes_ref = b.n_bytes_ref + length bytes;
}

occupy_lem :
    (b : DataBlock) (bytes : List ℕ)
    → DataBlock.size b + length bytes ≤ b.capacity
    → occupy bytes b ≡ some (filled_block b bytes)
unfolding occupy
occupy_lem b bytes h = ground arith

module _ (r : BufferReader) (w : CanWrite r) (bytes : List ℕ) (some_bytes : 0 < length bytes)
    (fits : length bytes ≤ DataBlock.get_write_left w.block) where
  open w use {valid, front, block, blocks_eq, write_at, cursor_le}

  abbrev pub after : BufferReader
  after = record r {
    blocks = front ++ filled_block block bytes ∷ [];
    write_iterator =
        if DataBlock.size (filled_block block bytes) + length bytes == block.capacity
        then r.write_iterator + 1
        else r.write_iterator;
    size = r.size + length bytes;
    read_left = r.read_left + length bytes;
  }

  pub commit_write_lem : commit_write bytes r ≡ some after
  unfolding commit_write
  commit_write_lem =
      let at = ap₂ get_elem? blocks_eq write_at ∙ get_elem?_last front block in
      let over : set r.blocks r.write_iterator (filled_block block bytes)
          ≡ front ++ filled_block block bytes ∷ [] =
        ap₂ (λ bs n. set bs n (filled_block block bytes)) blocks_eq write_at
        ∙ set_last front block (filled_block block bytes) in
      rw (at, occupy_lem block bytes (omega (arith, w.write_left)), over)

  before_shapes :
      drop r.read_iterator (shapes r.blocks)
      ≡ drop r.read_iterator (shapes front) ++ shape block ∷ []
  before_shapes =
      ap (λ bs. drop r.read_iterator (shapes bs)) blocks_eq
      ∙ ap (drop r.read_iterator) (map-append shape front (block ∷ []))
      ∙ drop-append_le r.read_iterator (shapes front) (shape block ∷ [])
          (omega (arith, cursor_le, length-map front shape))

  after_shapes :
      drop r.read_iterator (shapes after.blocks)
      ≡ drop r.read_iterator (shapes front) ++ grown (shape block) bytes ∷ []
  after_shapes =
      ap (drop r.read_iterator) (map-append shape front (filled_block block bytes ∷ []))
      ∙ drop-append_le r.read_iterator (shapes front) (grown (shape block) bytes ∷ [])
          (omega (arith, cursor_le, length-map front shape))

  in_range : InRange (drop r.read_iterator (shapes front) ++ shape block ∷ []) r.read_offset
  in_range = subst (λ ss. InRange ss r.read_offset) before_shapes valid.in_range

  pub unread-after : unread after ≡ unread r ++ bytes
  unread-after =
      ap (λ ss. content ss r.read_offset) after_shapes
      ∙ content-grown (shape block) bytes (drop r.read_iterator (shapes front)) r.read_offset (λ e.
        ground (arith, subst (λ ss. InRange (ss ++ shape block ∷ []) r.read_offset) e in_range))
      ∙ ap (λ ss. content ss r.read_offset ++ bytes) (sym before_shapes)

  after-length : length after.blocks ≡ length front + 1
  after-length = omega (arith, length-append front (filled_block block bytes ∷ []))

  all_shapes : shapes r.blocks ≡ shapes front ++ shape block ∷ []
  all_shapes = ap shapes blocks_eq ∙ map-append shape front (block ∷ [])

  all_after : shapes after.blocks ≡ shapes front ++ grown (shape block) bytes ∷ []
  all_after = map-append shape front (filled_block block bytes ∷ [])

  packed : Packed (shapes front ++ shape block ∷ [])
  packed = subst Packed all_shapes valid.packed

  room : All HasRoom (shapes front ++ shape block ∷ [])
  room = subst (All HasRoom) all_shapes valid.room

  ahead-after : Covered (ahead after) r.read_offset
  ahead-after =
      subst (λ bs. Covered bs r.read_offset)
        (sym (drop-append_le r.read_iterator front (filled_block block bytes ∷ []) cursor_le))
        (Covered-grown (drop r.read_iterator front) block (filled_block block bytes) r.read_offset
          (length bytes) (length-append block.data_ bytes) refl
          (subst (λ bs. Covered bs r.read_offset)
            (ap (drop r.read_iterator) blocks_eq
              ∙ drop-append_le r.read_iterator front (block ∷ []) cursor_le)
            valid.covered))

  pub after-IsValid : IsValid after
  after-IsValid = record {
    left = omega (arith, valid.left, ap length unread-after, length-append (unread r) bytes);
    cursor_in = omega (arith, cursor_le, after-length);
    in_range =
        subst (λ ss. InRange ss r.read_offset) (sym after_shapes)
          (InRange-grown (shape block) bytes (drop r.read_iterator (shapes front)) r.read_offset
            some_bytes in_range);
    packed = subst Packed (sym all_after) (Packed-grown (shape block) bytes (shapes front) packed);
    room = subst (All HasRoom) (sym all_after) (
        All-grown (shape block) bytes HasRoom (shapes front) room (
          omega (arith, length-append block.data_ bytes, w.write_left),
          (All_last HasRoom (shapes front) (shape block) room).1,
        ));
    covered = ahead-after;
    last = ground (arith, after-length, write_at);
    write_in = ground (arith, after-length, write_at);
    filled = λ _.
        subst (All IsFilled) (sym all_after)
          (All-IsFilled-grown (shape block) bytes (shapes front) some_bytes packed);
  }

  pub refs-after : n_bytes_ref after ≡ n_bytes_ref r + length bytes
  unfolding n_bytes_ref
  refs-after = omega (
    arith,
    ap sum_refs blocks_eq,
    sum_refs-append front (block ∷ []),
    sum_refs-append front (filled_block block bytes ∷ []),
  )
