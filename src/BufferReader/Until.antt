-- ===== src/BufferReader/Until.antt =====
-- `readUntil`, `skipUntil` and `readUnsigned` on the bytes that the reader holds.
use libmc.Prelude.{
  ℕ, ◌<◌, ◌≡◌, ◌≢◌, refl, sym, ap, ◌∙◌, subst, subst₂, true, false, Bool, List, [], ◌∷◌, ◌++◌, some,
  arith, ◌==◌, length, take, All, length-append, length-drop, take-append_self,
}
use libmc.Types.{ErrCode}
use libmc.DataBlock.{count_until}
use libmc.Blocks.{TokenData, sizes, seek}
use libmc.Blocks.Content.{shapes, content, Walk}
use libmc.Blocks.Search.{before, prefix, seek_none, seek_some}
use libmc.Blocks.Slices.{Denotes, sizes-Denotes}
use libmc.Blocks.Until.{slices_to-Walk, skip_to-Walk}
use libmc.BufferReader.{BufferReader, ahead, advance, at_end, read_until, skip_until}
use libmc.BufferReader.Valid.{unread, IsValid, Reads, advance-Reads}
use libmc.BufferReader.Counted.{Ahead, IsValid-Ahead}

-- No byte passes the test.
abbrev pub Free : (ℕ → Bool) → List ℕ → Type 0
Free test = All (λ x. test x ≡ false)

count_until-Free : (test : ℕ → Bool) (xs : List ℕ) → Free test xs → count_until test xs ≡ length xs
unfolding count_until
count_until-Free test [] f = refl
count_until-Free test (x ∷ xs) f = ground (arith, count_until-Free test xs f.1)

count_until-hit :
    (test : ℕ → Bool) (xs : List ℕ) (c : ℕ) (rest : List ℕ)
    → Free test xs
    → test c ≡ true
    → count_until test (xs ++ c ∷ rest) ≡ length xs
unfolding count_until
count_until-hit test [] c rest f h = rw h
count_until-hit test (x ∷ xs) c rest f h = ground (arith, count_until-hit test xs c rest f.1)

-- What the search finds when the unread bytes are `pre`, then a hit `c`.
pub record Found (test : ℕ → Bool) (r : BufferReader) (pre : List ℕ) : Type 0 where
  pub count : before test (ahead r) r.read_offset ≡ length pre
  pub taken : prefix test (ahead r) r.read_offset ≡ pre
  pub inside :
      before test (ahead r) r.read_offset < length (content (shapes (ahead r)) r.read_offset)
  pub stops : at_end r (seek test (ahead r) r.read_offset) ≡ false

pub found :
    (test : ℕ → Bool) (r : BufferReader) (pre : List ℕ) (c : ℕ) (rest : List ℕ)
    → IsValid r
    → unread r ≡ pre ++ c ∷ rest
    → Free test pre
    → test c ≡ true
    → Found test r pre
found test r pre c rest v e f h = record {
  count = count;
  taken = rw count (ap (take (length pre)) same ∙ take-append_self pre (c ∷ rest));
  inside = inside;
  stops = ground (
    arith,
    seek_some test (ahead r) r.read_offset a.in_range a.packed inside,
    length-drop r.read_iterator r.blocks,
  );
}
  where
    a : Ahead r
    a = IsValid-Ahead r v

    same : content (shapes (ahead r)) r.read_offset ≡ pre ++ c ∷ rest
    same = a.holds ∙ e

    count : before test (ahead r) r.read_offset ≡ length pre
    count = ap (count_until test) same ∙ count_until-hit test pre c rest f h

    inside : before test (ahead r) r.read_offset < length (content (shapes (ahead r)) r.read_offset)
    inside = omega (arith, count, ap length same, length-append pre (c ∷ rest))

-- With no hit the search runs to the end.
pub ends :
    (test : ℕ → Bool) (r : BufferReader)
    → IsValid r
    → Free test (unread r)
    → at_end r (seek test (ahead r) r.read_offset) ≡ true
ends test r v f =
    let a = IsValid-Ahead r v in
    let count =
      ap (count_until test) a.holds
      ∙ count_until-Free test (unread r) f
      ∙ sym (ap length a.holds) in
    ground (
      arith,
      seek_none test (ahead r) r.read_offset a.in_range a.packed count,
      length-drop r.read_iterator r.blocks,
      v.cursor_in,
    )

Free-of_ne : (c : ℕ) (xs : List ℕ) → All (λ x. x ≢ c) xs → Free (λ x. x == c) xs
Free-of_ne c [] f = tt
Free-of_ne c (x ∷ xs) f = (ground (arith, f.0), Free-of_ne c xs f.1)

module _ (c : ℕ) (r : BufferReader) (v : IsValid r) where
  abbrev is_it : ℕ → Bool
  is_it x = x == c

  it : is_it c ≡ true
  it = ground arith

  -- If the bytes to read in a valid reader are `pre`, without `c`, then `c` and the rest, then
  -- `readUntil` for `c` returns RET_OK, the length of `pre` and slices that stand for it, passes `pre`
  -- and releases no reference; the reader stays valid.
  pub read_until-Reads :
      (pre rest : List ℕ)
      → unread r ≡ pre ++ c ∷ rest
      → All (λ x. x ≢ c) pre
      → (td : TokenData) × (r' : BufferReader) × (read_until c r
          ≡ some (ErrCode.ok, length pre, td, r'))
        × Reads r r' pre 0
        × Denotes (shapes r.blocks) td pre
  unfolding read_until
  read_until-Reads pre rest e f =
      let a = IsValid-Ahead r v in
      let m = found is_it r pre c rest v e (Free-of_ne c pre f) it in
      let (td, g, w, d) =
        slices_to-Walk is_it (shapes r.blocks) (ahead r) r.read_iterator r.read_offset
          (sym a.shapes_eq) a.in_range a.packed v.covered m.inside in
      let d' = subst (Denotes (shapes r.blocks) td) m.taken d in
      let n = sizes-Denotes (shapes r.blocks) td d' in
      let t = seek is_it (ahead r) r.read_offset in
      (
        td,
        advance r (ahead r) t (sizes td),
        rw (m.stops, g) (ap (λ k. some (ErrCode.ok, k, td, advance r (ahead r) t (sizes td))) n),
        advance-Reads r v (ahead r) t pre (sizes td) 0
            (subst (λ xs. Walk (ahead r) r.read_offset (ahead r) t xs 0) m.taken w) n,
        d',
      )

  read_until_none :
      All (λ x. x ≢ c) (unread r) → read_until c r ≡ some (ErrCode.incomplete_buffer_err, 0, [], r)
  unfolding read_until
  read_until_none f = rw (ends is_it r v (Free-of_ne c (unread r) f))

  -- If the bytes to read in a valid reader are `pre`, without `c`, then `c` and the rest, then
  -- `skipUntil` for `c` returns RET_OK and the length of `pre`, passes `pre` and releases its
  -- references; the reader stays valid.
  pub skip_until-Reads :
      (pre rest : List ℕ)
      → unread r ≡ pre ++ c ∷ rest
      → All (λ x. x ≢ c) pre
      → (r' : BufferReader) × (skip_until c r ≡ some (ErrCode.ok, length pre, r'))
        × Reads r r' pre (length pre)
  unfolding skip_until
  skip_until-Reads pre rest e f =
      let a = IsValid-Ahead r v in
      let m = found is_it r pre c rest v e (Free-of_ne c pre f) it in
      let (bs, g, w) =
        skip_to-Walk is_it (ahead r) r.read_offset a.in_range a.packed v.covered m.inside in
      let t = seek is_it (ahead r) r.read_offset in
      (
        advance r bs t (length pre),
        rw (m.stops, g) (ap (λ k. some (ErrCode.ok, k, advance r bs t k)) m.count),
        advance-Reads r v bs t pre (length pre) (length pre)
            (subst₂ (λ xs n. Walk (ahead r) r.read_offset bs t xs n) m.taken m.count w) refl,
      )

  skip_until_none :
      All (λ x. x ≢ c) (unread r) → skip_until c r ≡ some (ErrCode.incomplete_buffer_err, 0, r)
  unfolding skip_until
  skip_until_none f = rw (ends is_it r v (Free-of_ne c (unread r) f))

  -- If no byte to read in a valid reader is `c`, then `readUntil` and `skipUntil` for `c` return
  -- RET_INCOMPLETE_BUFFER_ERR and change nothing.
  pub until_none :
      All (λ x. x ≢ c) (unread r)
      → (read_until c r ≡ some (ErrCode.incomplete_buffer_err, 0, [], r))
        × (skip_until c r ≡ some (ErrCode.incomplete_buffer_err, 0, r))
  until_none f = (read_until_none f, skip_until_none f)
