-- ===== src/BufferReader/Valid.antt =====
-- The invariant of the reader, and the bytes that it holds.
use libmc.Prelude.{
  ℕ, ◌+◌, ◌≤◌, ◌<◌, ◌≡◌, refl, sym, ap, ap₂, ◌∙◌, subst, List, [], ◌∷◌, ◌++◌, arith, length, take,
  drop, length-append, length-map, length-take, take-append-drop, drop-append_self, drop-drop,
  length-drop, map-drop, map-take, All,
}
use mathlib.Core.List.{map-append}
use libmc.DataBlock.{DataBlock}
use libmc.Blocks.{Target, sum_refs}
use libmc.Blocks.Content.{Shape, shape, shapes, content, Covered, InRange, Packed, Walk}
use libmc.BufferReader.{BufferReader, n_bytes_ref, ahead, advance}

-- The bytes received and not read yet, in order.
abbrev pub unread : BufferReader → List ℕ
unread r = content (drop r.read_iterator (shapes r.blocks)) r.read_offset

-- A block has a place, and holds no more than fits.
abbrev pub HasRoom : Shape → Type 0
HasRoom s = (length s.0 ≤ s.1) × (0 < s.1)

abbrev pub IsFilled : Shape → Type 0
IsFilled s = 0 < length s.0

pub record IsValid (r : BufferReader) : Type 0 where
  pub left : r.read_left ≡ length (unread r)
  pub cursor_in : r.read_iterator ≤ length r.blocks
  pub in_range : InRange (drop r.read_iterator (shapes r.blocks)) r.read_offset
  pub packed : Packed (shapes r.blocks)
  pub room : All HasRoom (shapes r.blocks)
  pub covered : Covered (ahead r) r.read_offset
  pub last : length r.blocks ≤ r.write_iterator + 1
  pub write_in : r.write_iterator ≤ length r.blocks
  pub filled : r.write_iterator ≡ length r.blocks → All IsFilled (shapes r.blocks)

-- What a read does: it passes the bytes `taken`, releases `released` references and leaves the
-- blocks' bytes as they are.
pub record Reads (r r' : BufferReader) (taken : List ℕ) (released : ℕ) : Type 0 where
  pub valid : IsValid r'
  pub splits : unread r ≡ taken ++ unread r'
  pub same_bytes : shapes r'.blocks ≡ shapes r.blocks
  pub refs : n_bytes_ref r' + released ≡ n_bytes_ref r
  pub same_write : r'.write_iterator ≡ r.write_iterator

pub sum_refs-append : (bs cs : List DataBlock) → sum_refs (bs ++ cs) ≡ sum_refs bs + sum_refs cs
sum_refs-append [] cs = omega arith
sum_refs-append (b ∷ bs) cs = omega (arith, sum_refs-append bs cs)

length-shapes : (bs : List DataBlock) → length (shapes bs) ≡ length bs
length-shapes bs = length-map bs shape

module _ (r : BufferReader) (v : IsValid r) (bs' : List DataBlock) (t : Target) (taken : List ℕ)
    (n released : ℕ) (w : Walk (ahead r) r.read_offset bs' t taken released)
    (e : n ≡ length taken) where
  front-length : length (take r.read_iterator r.blocks) ≡ r.read_iterator
  front-length = omega (arith, length-take r.read_iterator r.blocks, v.cursor_in)

  ahead-shapes : shapes (ahead r) ≡ drop r.read_iterator (shapes r.blocks)
  ahead-shapes = map-drop shape r.read_iterator r.blocks

  advance-shapes : shapes (advance r bs' t n).blocks ≡ shapes r.blocks
  advance-shapes =
      map-append shape (take r.read_iterator r.blocks) bs'
      ∙ ap₂ ◌++◌ (map-take shape r.read_iterator r.blocks) (w.shapes_eq ∙ ahead-shapes)
      ∙ take-append-drop r.read_iterator (shapes r.blocks)

  behind-shapes :
      drop (r.read_iterator + t.moved) (shapes (advance r bs' t n).blocks)
      ≡ drop t.moved (shapes (ahead r))
  behind-shapes =
      ap (drop (r.read_iterator + t.moved)) advance-shapes
      ∙ sym (drop-drop r.read_iterator t.moved (shapes r.blocks))
      ∙ ap (drop t.moved) (sym ahead-shapes)

  behind-blocks : drop (r.read_iterator + t.moved) (advance r bs' t n).blocks ≡ drop t.moved bs'
  behind-blocks =
      sym (drop-drop r.read_iterator t.moved (advance r bs' t n).blocks)
      ∙ ap (drop t.moved) (
          subst (λ k. drop k (take r.read_iterator r.blocks ++ bs') ≡ bs') front-length
            (drop-append_self (take r.read_iterator r.blocks) bs'))

  advance-splits : unread r ≡ taken ++ unread (advance r bs' t n)
  advance-splits =
      ap (λ ss. content ss r.read_offset) (sym ahead-shapes)
      ∙ w.splits
      ∙ ap (λ ss. taken ++ content ss t.offset) (sym behind-shapes)

  advance-length : length (advance r bs' t n).blocks ≡ length r.blocks
  advance-length =
      sym (length-shapes (advance r bs' t n).blocks)
      ∙ ap length advance-shapes
      ∙ length-shapes r.blocks

  -- A loop over the blocks is a read of the reader.
  pub advance-Reads : Reads r (advance r bs' t n) taken released
  unfolding n_bytes_ref
  advance-Reads = record {
    valid = record {
      left = omega (
        arith,
        v.left,
        e,
        ap length advance-splits,
        length-append taken (unread (advance r bs' t n)),
      );
      cursor_in =
          omega (arith, v.cursor_in, w.bound, advance-length, length-drop r.read_iterator r.blocks);
      in_range = subst (λ ss. InRange ss t.offset) (sym behind-shapes) w.in_range;
      packed = subst Packed (sym advance-shapes) v.packed;
      room = subst (All HasRoom) (sym advance-shapes) v.room;
      covered = subst (λ bs. Covered bs t.offset) (sym behind-blocks) w.covered;
      last = omega (arith, v.last, advance-length);
      write_in = omega (arith, v.write_in, advance-length);
      filled = λ h.
          subst (All IsFilled) (sym advance-shapes) (v.filled (omega (arith, h, advance-length)));
    };
    splits = advance-splits;
    same_bytes = advance-shapes;
    refs = omega (
      arith,
      w.refs,
      sum_refs-append (take r.read_iterator r.blocks) bs',
      sum_refs-append (take r.read_iterator r.blocks) (ahead r),
      ap sum_refs (take-append-drop r.read_iterator r.blocks),
    );
    same_write = refl;
  }
