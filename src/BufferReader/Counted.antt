-- ===== src/BufferReader/Counted.antt =====
-- `skipBytes`, `readBytes`, `expectBytes` and `peek` on the bytes that the reader holds.
use libmc.Prelude.{
  ℕ, ◌≤◌, ◌<◌, ◌≡◌, refl, sym, ap, ◌∙◌, subst, true, false, List, [], some, arith, ltb, leb, ◌==◌,
  length, take, drop, get_elem?, length-take, length-drop, map-drop, All, get_elem?-some,
  Bool-cases, inl, inr,
}
use libmc.Types.{ErrCode}
use libmc.Blocks.{TokenData}
use libmc.Blocks.Content.{shape, shapes, content, InRange, Packed, Packed-drop, Walk}
use libmc.Blocks.Counted.{skip_of-Walk}
use libmc.Blocks.Slices.{Denotes, slices_of-Walk}
use libmc.Blocks.Compare.{expect_of-Walk, Accepts-some, expect_of-Accepts, peek_of-get_elem?}
use libmc.BufferReader.{BufferReader, ahead, advance, peek, read_bytes, expect_bytes, skip_bytes}
use libmc.BufferReader.Valid.{unread, IsValid, Reads, advance-Reads}

-- What the loops ask of the blocks from the cursor's on.
pub record Ahead (r : BufferReader) : Type 0 where
  pub shapes_eq : shapes (ahead r) ≡ drop r.read_iterator (shapes r.blocks)
  pub holds : content (shapes (ahead r)) r.read_offset ≡ unread r
  pub in_range : InRange (shapes (ahead r)) r.read_offset
  pub packed : Packed (shapes (ahead r))

pub IsValid-Ahead : (r : BufferReader) → IsValid r → Ahead r
IsValid-Ahead r v =
    let e = map-drop shape r.read_iterator r.blocks in
    record {
      shapes_eq = e;
      holds = ap (λ ss. content ss r.read_offset) e;
      in_range = subst (λ ss. InRange ss r.read_offset) (sym e) v.in_range;
      packed = subst Packed (sym e) (Packed-drop r.read_iterator (shapes r.blocks) v.packed);
    }

module _ (n : ℕ) (r : BufferReader) (v : IsValid r) where
  a : Ahead r
  a = IsValid-Ahead r v

  enough : n ≤ length (unread r) → n ≤ length (content (shapes (ahead r)) r.read_offset)
  enough h = omega (arith, ap length (a.holds))

  taken-length : n ≤ length (unread r) → n ≡ length (take n (unread r))
  taken-length h = omega (arith, length-take n (unread r))

  -- If a valid reader has `n` bytes to read, and `n` is not 0, then `skipBytes` returns RET_OK,
  -- passes these bytes and releases `n` references; the reader stays valid.
  pub skip_bytes-Reads :
      0 < n
      → n ≤ length (unread r)
      → (r' : BufferReader) × (skip_bytes n r ≡ some (ErrCode.ok, r'))
        × Reads r r' (take n (unread r)) n
  unfolding skip_bytes
  skip_bytes-Reads p h =
      let (bs, t, e, w) =
        skip_of-Walk (ahead r) r.read_offset n a.in_range a.packed v.covered (enough h) in
      let some_bytes : ltb 0 n ≡ true = ground arith in
      let left : ltb r.read_left n ≡ false = ground (arith, v.left) in
      (
        advance r bs t n,
        rw (some_bytes, left, e),
        advance-Reads r v bs t (take n (unread r)) n n
            (subst (λ xs. Walk (ahead r) r.read_offset bs t (take n xs) n) a.holds w)
            (taken-length h),
      )

  -- If it has fewer, `skipBytes` returns RET_INCOMPLETE_BUFFER_ERR and changes nothing.
  pub skip_bytes_short :
      length (unread r) < n → skip_bytes n r ≡ some (ErrCode.incomplete_buffer_err, r)
  unfolding skip_bytes
  skip_bytes_short h =
      let some_bytes : ltb 0 n ≡ true = ground arith in
      let left : ltb r.read_left n ≡ true = ground (arith, v.left) in rw (some_bytes, left)

  -- If a valid reader has `n` bytes to read, and `n` is not 0, then `readBytes` returns RET_OK and
  -- slices that stand for these bytes, passes them and releases no reference; the reader stays
  -- valid.
  pub read_bytes-Reads :
      0 < n
      → n ≤ length (unread r)
      → (td : TokenData) × (r' : BufferReader) × (read_bytes n r ≡ some (ErrCode.ok, td, r'))
        × Reads r r' (take n (unread r)) 0
        × Denotes (shapes r.blocks) td (take n (unread r))
  unfolding read_bytes
  read_bytes-Reads p h =
      let (td, t, e, w, d) =
        slices_of-Walk (shapes r.blocks) (ahead r) r.read_iterator r.read_offset n (sym a.shapes_eq)
          a.in_range a.packed v.covered (enough h) in
      let some_bytes : (n == 0) ≡ false = ground arith in
      let left : ltb r.read_left n ≡ false = ground (arith, v.left) in
      (
        td,
        advance r (ahead r) t n,
        rw (some_bytes, left, e),
        advance-Reads r v (ahead r) t (take n (unread r)) n 0
            (subst (λ xs. Walk (ahead r) r.read_offset (ahead r) t (take n xs) 0) a.holds w)
            (taken-length h),
        subst (λ xs. Denotes (shapes r.blocks) td (take n xs)) a.holds d,
      )

  pub read_bytes_short :
      length (unread r) < n → read_bytes n r ≡ some (ErrCode.incomplete_buffer_err, [], r)
  unfolding read_bytes
  read_bytes_short h =
      let some_bytes : (n == 0) ≡ false = ground arith in
      let left : ltb r.read_left n ≡ true = ground (arith, v.left) in rw (some_bytes, left)

  -- If a valid reader has more than `n` bytes to read, then `peek` at the offset `n` returns RET_OK
  -- and the byte with index `n` among them.
  pub peek_lem :
      n < length (unread r)
      → (c : ℕ) × (get_elem? (unread r) n ≡ some c) × (peek n r ≡ some (ErrCode.ok, c))
  unfolding peek
  peek_lem h =
      let (c, g) = get_elem?-some (unread r) n h in
      let left : leb r.read_left n ≡ false = ground (arith, v.left) in
      let seen =
        peek_of-get_elem? (ahead r) r.read_iterator r.write_iterator r.read_offset n a.in_range
          a.packed (omega (arith, v.last, v.cursor_in, length-drop r.read_iterator r.blocks))
          (omega (arith, ap length (a.holds)))
        ∙ ap (λ xs. some (get_elem? xs n)) a.holds
        ∙ ap some g in
      (c, g, rw (left, seen))

  pub peek_short : length (unread r) ≤ n → peek n r ≡ some (ErrCode.incomplete_buffer_err, 0)
  unfolding peek
  peek_short h = let left : leb r.read_left n ≡ true = ground (arith, v.left) in rw left

module _ (str : List ℕ) (r : BufferReader) (v : IsValid r) where
  b : Ahead r
  b = IsValid-Ahead r v

  -- If the bytes to read in a valid reader begin with those expected, at least one, then
  -- `expectBytes` returns RET_OK, passes them and releases their references; the reader stays valid.
  pub expect_bytes-Reads :
      0 < length str
      → length str ≤ length (unread r)
      → take (length str) (unread r) ≡ str
      → (r' : BufferReader) × (expect_bytes str r ≡ some (ErrCode.ok, r'))
        × Reads r r' (take (length str) (unread r)) (length str)
  unfolding expect_bytes
  expect_bytes-Reads p h same =
      let (bs, t, e, w) =
        expect_of-Walk (ahead r) r.read_offset str (length str) b.in_range b.packed v.covered refl
          (enough (length str) r v h) (ap (take (length str)) b.holds ∙ same) in
      let some_bytes : ltb 0 (length str) ≡ true = ground arith in
      let left : ltb r.read_left (length str) ≡ false = ground (arith, v.left) in
      (
        advance r bs t (length str),
        rw (some_bytes, left, e),
        advance-Reads r v bs t (take (length str) (unread r)) (length str) (length str)
            (subst (λ xs. Walk (ahead r) r.read_offset bs t (take (length str) xs) (length str))
              b.holds w)
            (taken-length (length str) r v h),
      )

  pub expect_bytes_short :
      length (unread r) < length str → expect_bytes str r ≡ some (ErrCode.incomplete_buffer_err, r)
  unfolding expect_bytes
  expect_bytes_short h =
      let some_bytes : ltb 0 (length str) ≡ true = ground arith in
      let left : ltb r.read_left (length str) ≡ true = ground (arith, v.left) in
      rw (some_bytes, left)

  -- If a valid reader has as many bytes to read as are expected, at least one, but not the same,
  -- and no NUL is expected, then `expectBytes` returns RET_PROGRAMMING_ERR with no fault.
  pub expect_bytes_other :
      All (λ c. 0 < c) str
      → 0 < length str
      → length str ≤ length (unread r)
      → ¬ (take (length str) (unread r) ≡ str)
      → (r' : BufferReader) × (expect_bytes str r ≡ some (ErrCode.programming_err, r'))
  unfolding expect_bytes
  expect_bytes_other z p h differ =
      let some_bytes : ltb 0 (length str) ≡ true = ground arith in
      let left : ltb r.read_left (length str) ≡ false = ground (arith, v.left) in
      let (e, g, only) = Accepts-some _ (
        expect_of-Accepts (ahead r) r.read_offset str (length str) b.in_range b.packed v.covered z
          refl (enough (length str) r v h)) in
      elim (Bool-cases e.agreed) [
        | inl agree ↦ absurd (differ (sym (ap (take (length str)) b.holds) ∙ only agree))
        | inr other ↦ (advance r e.blocks e.target (length str), rw (some_bytes, left, g, other))
      ]
