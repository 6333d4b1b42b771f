-- ===== src/BufferReader/Place.antt =====
-- A reader with room to write in its last block, once its read cursor is set.
use libmc.Prelude.{
  ℕ, ◌+◌, ◌≤◌, ◌<◌, ◌≡◌, refl, sym, ap, ap₂, ◌∙◌, subst, ◌⊎◌, inl, inr, List, [], ◌∷◌, ◌++◌, some,
  min, arith, ◌==◌, if◌then◌else◌, length, get_elem?, drop, All, Bool-cases, length-append,
  length-map, append-nil, drop-append_self, get_elem?_last, drop_all,
}
use mathlib.Core.List.{map-append}
use libmc.DataBlock
use libmc.DataBlock.{DataBlock, init}
use libmc.Blocks.Content.{shape, shapes, content, Covered, InRange, Packed}
use libmc.BufferReader.{BufferReader, n_bytes_ref, init_cursor}
use libmc.BufferReader.Commit.{CanWrite}
use libmc.BufferReader.Valid.{unread, HasRoom, IsValid}

-- Room to write, as `init_cursor` finds it: the cursor may still be stale if nothing is to be read.
pub record HasPlace (q : BufferReader) : Type 0 where
  pub front : List DataBlock
  pub block : DataBlock
  pub blocks_eq : q.blocks ≡ front ++ block ∷ []
  pub write_at : q.write_iterator ≡ length front
  pub write_left : 0 < DataBlock.get_write_left block
  pub packed : Packed (shapes q.blocks)
  pub room : All HasRoom (shapes q.blocks)
  pub cursor : (q.read_left ≡ 0) ⊎ (IsValid q × (q.read_iterator ≤ length front))

abbrev cursor_set : BufferReader → DataBlock → BufferReader
cursor_set q b =
    if q.read_left == 0
    then record q { read_iterator = q.write_iterator; read_offset = DataBlock.size b }
    else q

init_cursor_lem :
    (len : ℕ) (q : BufferReader) (p : HasPlace q)
    → init_cursor len q ≡ some (min len (DataBlock.get_write_left p.block), cursor_set q p.block)
unfolding init_cursor
init_cursor_lem len q p =
    let at = ap₂ get_elem? p.blocks_eq p.write_at ∙ get_elem?_last p.front p.block in rw at

module _ (q : BufferReader) (p : HasPlace q) (nothing : q.read_left ≡ 0) where
  open p use {front, block, blocks_eq, write_at}

  abbrev fresh_cursor : BufferReader
  fresh_cursor = record q { read_iterator = q.write_iterator; read_offset = DataBlock.size block }

  rest_blocks : drop q.write_iterator q.blocks ≡ block ∷ []
  rest_blocks = ap₂ drop write_at blocks_eq ∙ drop-append_self front (block ∷ [])

  rest_shapes : drop q.write_iterator (shapes q.blocks) ≡ shape block ∷ []
  rest_shapes =
      ap₂ drop (write_at ∙ sym (length-map front shape))
        (ap shapes blocks_eq ∙ map-append shape front (block ∷ []))
      ∙ drop-append_self (shapes front) (shape block ∷ [])

  unread-fresh_cursor : unread fresh_cursor ≡ []
  unread-fresh_cursor =
      ap (λ ss. content ss (DataBlock.size block)) rest_shapes
      ∙ append-nil _
      ∙ drop_all (DataBlock.size block) block.data_ (omega arith)

  blocks_length : length q.blocks ≡ length front + 1
  blocks_length = ap length blocks_eq ∙ length-append front (block ∷ [])

  fresh_cursor-CanWrite : CanWrite fresh_cursor
  fresh_cursor-CanWrite = record {
    valid = record {
      left = nothing ∙ sym (ap length unread-fresh_cursor);
      cursor_in = omega (arith, blocks_length, write_at);
      in_range =
          subst (λ ss. InRange ss (DataBlock.size block)) (sym rest_shapes) (inr (refl, refl));
      packed = p.packed;
      room = p.room;
      covered = subst (λ bs. Covered bs (DataBlock.size block)) (sym rest_blocks) (omega arith, tt);
      last = omega (arith, blocks_length, write_at);
      write_in = omega (arith, blocks_length, write_at);
      filled = λ e. absurd (omega (arith, blocks_length, write_at));
    };
    front = front;
    block = block;
    blocks_eq = blocks_eq;
    write_at = write_at;
    cursor_le = omega (arith, write_at);
    write_left = p.write_left;
  }

-- The reader that `prepareWriteBlock` leaves, against the one before.
pub record Prepared (r : BufferReader) (len n : ℕ) (r' : BufferReader) : Type 0 where
  pub can_write : CanWrite r'
  pub places : n ≡ min len (DataBlock.get_write_left (CanWrite.block can_write))
  pub same : unread r' ≡ unread r
  pub refs : n_bytes_ref r' ≡ n_bytes_ref r

pub nil_of_length {ℓ} : {A : Type ℓ} (xs : List A) → length xs ≡ 0 → xs ≡ []
nil_of_length [] e = refl
nil_of_length (x ∷ xs) e = absurd (omega arith)

-- `init_cursor` finishes the preparation of a reader that has place.
pub finish :
    (r q : BufferReader) (len : ℕ) (p : HasPlace q)
    → (q.read_left ≡ 0 → unread r ≡ [])
    → (IsValid q → unread q ≡ unread r)
    → n_bytes_ref q ≡ n_bytes_ref r
    → (n : ℕ) × (r' : BufferReader) × (init_cursor len q ≡ some (n, r')) × Prepared r len n r'
unfolding fresh_cursor-CanWrite n_bytes_ref
finish r q len p empty same refs = elim (Bool-cases (q.read_left == 0)) [
  | inl e ↦
      let nothing : q.read_left ≡ 0 = ground arith in
      (
        min len (DataBlock.get_write_left p.block),
        fresh_cursor q p nothing,
        init_cursor_lem len q p ∙ rw e,
        record {
          can_write = fresh_cursor-CanWrite q p nothing;
          places = refl;
          same = unread-fresh_cursor q p nothing ∙ sym (empty nothing);
          refs = refs;
        },
      )
  | inr e ↦ elim p.cursor [
    | inl nothing ↦ absurd (ground arith)
    | inr (v, le) ↦ (
      min len (DataBlock.get_write_left p.block),
      q,
      init_cursor_lem len q p ∙ rw e,
      record {
        can_write = record {
          valid = v;
          front = p.front;
          block = p.block;
          blocks_eq = p.blocks_eq;
          write_at = p.write_at;
          cursor_le = le;
          write_left = p.write_left;
        };
        places = refl;
        same = same v;
        refs = refs;
      },
    )
  ]
]
