-- ===== src/Blocks/Search.antt =====
-- The search behind `readUntil`, `skipUntil` and `readUnsigned`: where it stops.
use libmc.Prelude.{
  ℕ, suc, ◌+◌, ◌-◌, ◌≤◌, ◌<◌, ◌≡◌, refl, ap, ◌∙◌, inl, inr, Bool, true, false, List, [], ◌∷◌, ◌++◌,
  arith, ◌==◌, length, take, drop, Bool-cases, length-append, length-drop, take-append_le,
  take-append_ge,
}
use libmc.DataBlock.{DataBlock, size, count_until, find_if}
use libmc.Blocks.{later, seek}
use libmc.Blocks.Content.{shape, shapes, content, InRange, Packed, Packed-InRange, still}
use libmc.Blocks.Slices.{InRange-le}

module _ (test : ℕ → Bool) where
  pub count_until-le-length : (xs : List ℕ) → count_until test xs ≤ length xs
  unfolding count_until
  count_until-le-length [] = omega arith
  count_until-le-length (x ∷ xs) = ground (arith, count_until-le-length xs)

  -- The first hit is in the first list, or there is none there.
  count_until-append_hit :
      (xs ys : List ℕ)
      → count_until test xs < length xs
      → count_until test (xs ++ ys) ≡ count_until test xs
  unfolding count_until
  count_until-append_hit [] ys h = absurd (omega arith)
  count_until-append_hit (x ∷ xs) ys h = ground (arith, count_until-append_hit xs ys)

  count_until-append_miss :
      (xs ys : List ℕ)
      → count_until test xs ≡ length xs
      → count_until test (xs ++ ys) ≡ length xs + count_until test ys
  unfolding count_until
  count_until-append_miss [] ys h = omega arith
  count_until-append_miss (x ∷ xs) ys h = ground (arith, count_until-append_miss xs ys)

  -- How many bytes stand before the first hit behind the cursor.
  abbrev pub before : List DataBlock → ℕ → ℕ
  before bs off = count_until test (content (shapes bs) off)

  -- The bytes before the first hit.
  abbrev pub prefix : List DataBlock → ℕ → List ℕ
  prefix bs off = take (before bs off) (content (shapes bs) off)

  module _ (b : DataBlock) (bs : List DataBlock) (off : ℕ) (inside : off ≤ size b) where
    abbrev pub here : ℕ
    here = count_until test (drop off b.data_)

    -- The search stops in the first block.
    pub record Hit : Type 0 where
      pub stops : seek test (b ∷ bs) off ≡ still (off + here)
      pub within : off + here < size b
      pub count : before (b ∷ bs) off ≡ here
      pub taken :
          take (before (b ∷ bs) off) (content (shapes (b ∷ bs)) off) ≡ take here (drop off b.data_)

    pub record Miss : Type 0 where
      pub goes_on : seek test (b ∷ bs) off ≡ later (seek test bs 0)
      pub count : before (b ∷ bs) off ≡ size b - off + before bs 0
      pub total :
          length (content (shapes (b ∷ bs)) off) ≡ size b - off + length (content (shapes bs) 0)
      pub taken :
          take (before (b ∷ bs) off) (content (shapes (b ∷ bs)) off)
          ≡ drop off b.data_ ++ take (before bs 0) (content (shapes bs) 0)

    pub hit : (find_if test off b == size b) ≡ false → Hit
    unfolding find_if seek
    hit e = record {
      stops = rw e;
      within = strict;
      count = same;
      taken = rw same (
          take-append_le here (drop off b.data_) (content (shapes bs) 0)
            (count_until-le-length (drop off b.data_)));
    }
      where
        strict : off + here < size b
        strict = ground (arith, count_until-le-length (drop off b.data_), length-drop off b.data_)

        same : before (b ∷ bs) off ≡ here
        same =
            count_until-append_hit (drop off b.data_) (content (shapes bs) 0)
              (omega (arith, strict, length-drop off b.data_))

    pub miss : (find_if test off b == size b) ≡ true → Miss
    unfolding find_if seek
    miss e = record {
      goes_on = rw e;
      count = omega (arith, sum, length-drop off b.data_);
      total = omega (
        arith,
        length-append (drop off b.data_) (content (shapes bs) 0),
        length-drop off b.data_,
      );
      taken = rw sum (
          take-append_ge (length (drop off b.data_) + before bs 0) (drop off b.data_)
            (content (shapes bs) 0) (omega arith)
          ∙ ap (λ n. drop off b.data_ ++ take n (content (shapes bs) 0)) (omega arith));
    }
      where
        sum : before (b ∷ bs) off ≡ length (drop off b.data_) + before bs 0
        sum =
            count_until-append_miss (drop off b.data_) (content (shapes bs) 0)
              (ground (arith, length-drop off b.data_))

  -- With no hit the search runs to the end.
  pub seek_none :
      (bs : List DataBlock) (off : ℕ)
      → InRange (shapes bs) off
      → Packed (shapes bs)
      → before bs off ≡ length (content (shapes bs) off)
      → (seek test bs off).moved ≡ length bs
  unfolding seek
  seek_none [] off r p h = refl
  seek_none (b ∷ bs) off r p h =
      let inside = InRange-le (shape b) (shapes bs) off r in
      elim (Bool-cases (find_if test off b == size b)) [
        | inl e ↦
            let m = miss b bs off inside e in
            rw m.goes_on (
              ap suc (
                seek_none bs 0 (Packed-InRange (shapes bs) p.1) p.1
                  (omega (arith, m.count, m.total))))
        | inr e ↦
            let m = hit b bs off inside e in
            absurd (
              omega (
                arith,
                m.within,
                m.count,
                length-append (drop off b.data_) (content (shapes bs) 0),
                length-drop off b.data_,
              ))
      ]

  -- With a hit it stops before the end.
  pub seek_some :
      (bs : List DataBlock) (off : ℕ)
      → InRange (shapes bs) off
      → Packed (shapes bs)
      → before bs off < length (content (shapes bs) off)
      → (seek test bs off).moved < length bs
  unfolding seek
  seek_some [] off r p h = absurd (omega arith)
  seek_some (b ∷ bs) off r p h =
      let inside = InRange-le (shape b) (shapes bs) off r in
      elim (Bool-cases (find_if test off b == size b)) [
        | inl e ↦
            let m = miss b bs off inside e in
            rw m.goes_on (
              omega (
                arith,
                seek_some bs 0 (Packed-InRange (shapes bs) p.1) p.1
                    (omega (arith, m.count, m.total)),
              ))
        | inr e ↦ rw (hit b bs off inside e).stops (omega arith)
      ]

  -- With a hit at the cursor it does not move.
  pub seek_first :
      (bs : List DataBlock) (off : ℕ)
      → InRange (shapes bs) off
      → before bs off ≡ 0
      → 0 < length (content (shapes bs) off)
      → seek test bs off ≡ still off
  seek_first [] off r z h = absurd (omega arith)
  seek_first (b ∷ bs) off r z h =
      let inside = InRange-le (shape b) (shapes bs) off r in
      elim (Bool-cases (find_if test off b == size b)) [
        | inl e ↦
            absurd (ground (arith, (miss b bs off inside e).count, (miss b bs off inside e).total))
        | inr e ↦ let m = hit b bs off inside e in m.stops ∙ ap still (omega (arith, m.count))
      ]
