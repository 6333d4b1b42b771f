-- ===== src/BufferReader/Unsigned.antt =====
-- `readUnsigned`: the number that the next digits spell, in 64 bits.
use libmc.Prelude.{
  ℕ, ◌+◌, ◌-◌, ◌*◌, ◌%◌, ◌^◌, ◌≤◌, ◌<◌, ◌≡◌, refl, ap, ap₂, ◌∙◌, subst₂, true, false, List, [], ◌∷◌,
  ◌++◌, some, arith, ltb, ◌==◌, ◌&&◌, length, drop, length-append, length-drop, Bool-cases, inl,
  inr,
}
use libmc.Types.{ErrCode}
use libmc.DataBlock.{DataBlock, is_not_digit}
use libmc.Blocks.{Target, seek, accumulate}
use libmc.Blocks.Compare.{no_blocks}
use libmc.Blocks.Content.{shapes, content, Walk}
use libmc.Blocks.Search.{seek_first}
use libmc.Blocks.Until.{digits_to-Walk}
use libmc.BufferReader.{BufferReader, ahead, advance, read_unsigned}
use libmc.BufferReader.Valid.{unread, IsValid, Reads, advance-Reads}
use libmc.BufferReader.Counted.{IsValid-Ahead}
use libmc.BufferReader.Until.{Free, found, ends}

abbrev pub Digits : List ℕ → Type 0
Digits = Free is_not_digit

-- The number that digits spell, with no bound.
unfoldable pub decimal_from : ℕ → List ℕ → ℕ
decimal_from v [] = v
decimal_from v (c ∷ cs) = decimal_from (v * 10 + (c - b'0')) cs

accumulate_step :
    (v c : ℕ)
    → is_not_digit c ≡ false
    → (v % 2 ^ 64 * 10 + (c + 2 ^ 64 - b'0')) % 2 ^ 64 ≡ (v * 10 + (c - b'0')) % 2 ^ 64
accumulate_step v c h = let low : b'0' ≤ c = ground arith in omega arith

accumulate-decimal :
    (v : ℕ) (cs : List ℕ) → Digits cs → accumulate (v % 2 ^ 64) cs ≡ decimal_from v cs % 2 ^ 64
unfolding accumulate decimal_from
accumulate-decimal v [] d = refl
accumulate-decimal v (c ∷ cs) d =
    rw (accumulate_step v c d.0) (accumulate-decimal (v * 10 + (c - b'0')) cs d.1)

-- A loop that has taken a byte has moved.
moves :
    (bs : List DataBlock) (off : ℕ) (bs' : List DataBlock) (t : Target) (taken : List ℕ) (n : ℕ)
    → Walk bs off bs' t taken n
    → 0 < length taken
    → (t.moved == 0 && t.offset == off) ≡ false
moves bs off bs' t taken n w h = elim (Bool-cases (t.moved == 0 && t.offset == off)) [
  | inr e ↦ e
  | inl e ↦
      let none_moved : t.moved ≡ 0 = ground arith in
      let same_offset : t.offset ≡ off = ground arith in
      let same = ap₂ (λ m o. length (content (drop m (shapes bs)) o)) none_moved same_offset in
      absurd (
        omega (
          arith,
          same,
          ap length w.splits,
          length-append taken (content (drop t.moved (shapes bs)) t.offset),
        ))
]

module _ (r : BufferReader) (v : IsValid r) where
  -- If the bytes to read in a valid reader are digits, at least one, then another byte and the rest,
  -- then `readUnsigned` returns RET_OK and the digits' decimal value modulo 2 ^ 64, passes the digits
  -- and releases their references; the reader stays valid.
  pub read_unsigned-Reads :
      (digits : List ℕ) (c : ℕ) (rest : List ℕ)
      → unread r ≡ digits ++ c ∷ rest
      → 0 < length digits
      → Digits digits
      → is_not_digit c ≡ true
      → (r' : BufferReader) × (read_unsigned r
          ≡ some (ErrCode.ok, decimal_from 0 digits % 2 ^ 64, r'))
        × Reads r r' digits (length digits)
  unfolding read_unsigned
  read_unsigned-Reads digits c rest e p d h =
      let a = IsValid-Ahead r v in
      let m = found is_not_digit r digits c rest v e d h in
      let (bs, g, w) =
        digits_to-Walk is_not_digit (ahead r) r.read_offset 0 a.in_range a.packed v.covered
          m.inside in
      let t = seek is_not_digit (ahead r) r.read_offset in
      let w' = subst₂ (λ xs n. Walk (ahead r) r.read_offset bs t xs n) m.taken m.count w in
      let two : ltb r.read_left 2 ≡ false =
        ground (arith, v.left, ap length e, length-append digits (c ∷ rest)) in
      (
        advance r bs t (length digits),
        rw (two, moves (ahead r) r.read_offset bs t digits (length digits) w' p, m.stops, g)
            (ap₂ (λ k x. some (ErrCode.ok, x, advance r bs t k)) m.count
              (ap (accumulate 0) m.taken ∙ accumulate-decimal 0 digits d)),
        advance-Reads r v bs t digits (length digits) (length digits) w' refl,
      )

  -- If a valid reader has at least two bytes to read and the first is no digit, then `readUnsigned`
  -- returns RET_PROGRAMMING_ERR and changes nothing.
  pub read_unsigned_other :
      (c x : ℕ) (rest : List ℕ)
      → unread r ≡ c ∷ x ∷ rest
      → is_not_digit c ≡ true
      → read_unsigned r ≡ some (ErrCode.programming_err, 0, r)
  unfolding read_unsigned
  read_unsigned_other c x rest e h =
      let a = IsValid-Ahead r v in
      let m = found is_not_digit r [] c (x ∷ rest) v e tt h in
      let two : ltb r.read_left 2 ≡ false = ground (arith, v.left, ap length e) in
      let stays =
        seek_first is_not_digit (ahead r) r.read_offset a.in_range m.count
          (omega (arith, ap length a.holds, ap length e)) in
      ground (arith, two, stays)

  -- If all bytes to read in a valid reader are digits, and there is one, then `readUnsigned` returns
  -- RET_INCOMPLETE_BUFFER_ERR and changes nothing.
  pub read_unsigned_none :
      Digits (unread r)
      → 0 < length (unread r)
      → read_unsigned r ≡ some (ErrCode.incomplete_buffer_err, 0, r)
  unfolding read_unsigned
  read_unsigned_none d p =
      let a = IsValid-Ahead r v in
      let end = ends is_not_digit r v d in
      ground (
        arith,
        end,
        length-drop r.read_iterator r.blocks,
        no_blocks (ahead r) r.read_offset,
        ap length a.holds,
      )
