-- ===== src/Blocks/Until.antt =====
-- The loops that read up to a byte: `readUntil`, `skipUntil` and `readUnsigned`.
use libmc.Prelude.{
  ℕ, zero, suc, ◌+◌, ◌-◌, ◌*◌, ◌%◌, ◌^◌, ◌≤◌, ◌<◌, ◌≡◌, refl, sym, inl, inr, Bool, List, [], ◌∷◌,
  ◌++◌, some, arith, ◌==◌, length, take, drop, drop_all, drop-suc_of_drop, append-nil, Bool-cases,
}
use libmc.DataBlock.{DataBlock, size, count_until, find_if}
use libmc.Blocks.{TokenData, slice, slice_if_any, seek, slices_to, skip_to, accumulate, digits_to}
use libmc.Blocks.Content.{
  Shape, shape, shapes, content, Covered, InRange, Packed, Packed-InRange, Walk, Walk-within,
  Walk-further,
}
use libmc.Blocks.Counted.{released, release_lem}
use libmc.Blocks.Search.{before, prefix, hit, miss}
use libmc.Blocks.Slices.{
  Denotes, Denotes-nil, Denotes-cons, Denotes-rest, InRange-le, data_at, data_at_of_drop,
}

accumulate-append :
    (value : ℕ) (xs ys : List ℕ) → accumulate value (xs ++ ys) ≡ accumulate (accumulate value xs) ys
unfolding accumulate
accumulate-append value [] ys = refl
accumulate-append value (x ∷ xs) ys =
    accumulate-append ((value * 10 + (x + 2 ^ 64 - b'0')) % 2 ^ 64) xs ys

module _ (test : ℕ → Bool) where
  slice_if_any-suc : (i off n : ℕ) → slice_if_any i off (suc n) ≡ slice i off (suc n) ∷ []
  slice_if_any-suc i off n = ground arith

  slice_if_any-Denotes :
      (ss : List Shape) (i off n : ℕ) (d : List ℕ)
      → data_at ss i ≡ d
      → off + n ≤ length d
      → Denotes ss (slice_if_any i off n) (take n (drop off d))
  slice_if_any-Denotes ss i off zero d e h = Denotes-nil ss
  slice_if_any-Denotes ss i off (suc n) d e h =
      rw (slice_if_any-suc i off n)
        (rw append-nil at (Denotes-cons ss i off (suc n) d e (omega arith) h (Denotes-nil ss)))

  slice_if_any-Denotes_rest :
      (ss : List Shape) (i off n : ℕ) (d : List ℕ) {td : TokenData} {bytes : List ℕ}
      → data_at ss i ≡ d
      → off + n ≡ length d
      → Denotes ss td bytes
      → Denotes ss (slice_if_any i off n ++ td) (drop off d ++ bytes)
  slice_if_any-Denotes_rest ss i off zero d e h s = rw (drop_all off d (omega arith)) s
  slice_if_any-Denotes_rest ss i off (suc n) d {td} {bytes} e h s =
      let k : length d - off ≡ suc n = omega arith in
      rw (slice_if_any-suc i off n, ← k) (Denotes-rest ss i off d e (omega arith) s)

  -- `readUntil` stops before the first hit; its slices stand for what is before, and no reference
  -- is released.
  pub slices_to-Walk :
      (ss : List Shape) (bs : List DataBlock) (i off : ℕ)
      → drop i ss ≡ shapes bs
      → InRange (shapes bs) off
      → Packed (shapes bs)
      → Covered bs off
      → before test bs off < length (content (shapes bs) off)
      → (td : TokenData) × (slices_to bs i off (seek test bs off).moved (seek test bs off).offset
          ≡ some td)
        × Walk bs off bs (seek test bs off) (prefix test bs off) 0
        × Denotes ss td (prefix test bs off)
  unfolding slices_to
  slices_to-Walk ss [] i off a r p c h = absurd (omega arith)
  slices_to-Walk ss (b ∷ bs) i off a r p c h =
      let inside = InRange-le (shape b) (shapes bs) off r in
      elim (Bool-cases (find_if test off b == size b)) [
        | inl e ↦
            let m = miss test b bs off inside e in
            let (td, f, w, s) =
              slices_to-Walk ss bs (suc i) 0 (drop-suc_of_drop i ss a)
                (Packed-InRange (shapes bs) p.1) p.1 c.1 (omega (arith, m.count, m.total)) in
            (
              slice_if_any i off (size b - off) ++ td,
              rw (m.goes_on, f),
              rw (m.goes_on, m.taken) (Walk-further b b bs off 0 0 refl (omega arith) refl w),
              rw m.taken (
                  slice_if_any-Denotes_rest ss i off (size b - off) b.data_ (data_at_of_drop i ss a)
                    (omega arith) s),
            )
        | inr e ↦
            let m = hit test b bs off inside e in
            let n = count_until test (drop off b.data_) in
            let gap : off + n - off ≡ n = omega arith in
            (
              slice_if_any i off n,
              rw (m.stops, gap),
              rw (m.stops, m.taken)
                  (Walk-within b b bs off n 0 m.within refl (omega arith) (omega arith) c),
              rw m.taken (
                  slice_if_any-Denotes ss i off n b.data_ (data_at_of_drop i ss a)
                    (omega (arith, m.within))),
            )
      ]

  -- `skipUntil` releases what is before the first hit.
  pub skip_to-Walk :
      (bs : List DataBlock) (off : ℕ)
      → InRange (shapes bs) off
      → Packed (shapes bs)
      → Covered bs off
      → before test bs off < length (content (shapes bs) off)
      → (bs' : List DataBlock) × (skip_to bs off (seek test bs off).moved (seek test bs off).offset
          ≡ some (before test bs off, bs'))
        × Walk bs off bs' (seek test bs off) (prefix test bs off) (before test bs off)
  unfolding skip_to
  skip_to-Walk [] off r p c h = absurd (omega arith)
  skip_to-Walk (b ∷ bs) off r p c h =
      let inside = InRange-le (shape b) (shapes bs) off r in
      elim (Bool-cases (find_if test off b == size b)) [
        | inl e ↦
            let m = miss test b bs off inside e in
            let (bs', f, w) =
              skip_to-Walk bs 0 (Packed-InRange (shapes bs) p.1) p.1 c.1
                (omega (arith, m.count, m.total)) in
            (
              released (size b - off) b ∷ bs',
              rw (m.goes_on, m.count, release_lem (size b - off) b c.0, f),
              rw (m.goes_on, m.taken)
                  (Walk-further b _ bs off (size b - off) (before test (b ∷ bs) off) refl
                    (omega arith) (sym m.count) w),
            )
        | inr e ↦
            let m = hit test b bs off inside e in
            let n = count_until test (drop off b.data_) in
            let gap : off + n - off ≡ n = omega arith in
            (
              released n b ∷ bs,
              rw (m.stops, m.count, gap, release_lem n b (omega (arith, m.within))),
              rw (m.stops, m.taken, m.count)
                  (Walk-within b _ bs off n n m.within refl (omega (arith, m.within)) (omega arith)
                    c),
            )
      ]

  -- `readUnsigned` also accumulates it.
  pub digits_to-Walk :
      (bs : List DataBlock) (off value : ℕ)
      → InRange (shapes bs) off
      → Packed (shapes bs)
      → Covered bs off
      → before test bs off < length (content (shapes bs) off)
      → (bs' : List DataBlock) × (digits_to bs off
            (seek test bs off).moved
            (seek test bs off).offset
            value
          ≡ some (before test bs off, accumulate value (prefix test bs off), bs'))
        × Walk bs off bs' (seek test bs off) (prefix test bs off) (before test bs off)
  unfolding digits_to
  digits_to-Walk [] off value r p c h = absurd (omega arith)
  digits_to-Walk (b ∷ bs) off value r p c h =
      let inside = InRange-le (shape b) (shapes bs) off r in
      elim (Bool-cases (find_if test off b == size b)) [
        | inl e ↦
            let m = miss test b bs off inside e in
            let (bs', f, w) =
              digits_to-Walk bs 0 (accumulate value (drop off b.data_))
                (Packed-InRange (shapes bs) p.1) p.1 c.1 (omega (arith, m.count, m.total)) in
            (
              released (size b - off) b ∷ bs',
              rw (
                m.goes_on,
                m.taken,
                m.count,
                accumulate-append value (drop off b.data_) (prefix test bs 0),
                release_lem (size b - off) b c.0,
                f,
              ),
              rw (m.goes_on, m.taken)
                  (Walk-further b _ bs off (size b - off) (before test (b ∷ bs) off) refl
                    (omega arith) (sym m.count) w),
            )
        | inr e ↦
            let m = hit test b bs off inside e in
            let n = count_until test (drop off b.data_) in
            let gap : off + n - off ≡ n = omega arith in
            (
              released n b ∷ bs,
              rw (m.stops, m.taken, m.count, gap, release_lem n b (omega (arith, m.within))),
              rw (m.stops, m.taken, m.count)
                  (Walk-within b _ bs off n n m.within refl (omega (arith, m.within)) (omega arith)
                    c),
            )
      ]
