-- ===== src/Blocks/Counted.antt =====
-- The loop of `skipBytes`, and what a loop over a number of bytes takes of the first block.
use libmc.Prelude.{
  ℕ, zero, suc, ◌+◌, ◌-◌, ◌≤◌, ◌≡◌, refl, inl, inr, List, [], ◌∷◌, ◌++◌, some, arith, ltb, length,
  take, drop, Bool-cases, length-append, length-drop, take-append_le, take-append_ge,
}
use libmc.DataBlock.{DataBlock, size, release}
use libmc.Blocks.{Target, later, skip_of}
use libmc.Blocks.Content.{
  shapes, content, Covered, InRange, Packed, Packed-InRange, Walk, Walk-still, Walk-within,
  Walk-further,
}

-- A release within the block's count succeeds.
abbrev pub released : ℕ → DataBlock → DataBlock
released n b = record b { n_bytes_ref = b.n_bytes_ref - n }

pub release_lem : (n : ℕ) (b : DataBlock) → n ≤ b.n_bytes_ref → release n b ≡ some (released n b)
unfolding release
release_lem n b h = ground arith

module _ (b : DataBlock) (bs : List DataBlock) (off k : ℕ) where
  -- What is left of the first block, and the bytes behind it.
  pub take_within :
      k ≤ size b - off → take k (content (shapes (b ∷ bs)) off) ≡ take k (drop off b.data_)
  take_within h = take-append_le k (drop off b.data_) _ (omega (arith, length-drop off b.data_))

  pub take_further :
      size b - off ≤ k
      → take k (content (shapes (b ∷ bs)) off)
        ≡ drop off b.data_ ++ take (k - (size b - off)) (content (shapes bs) 0)
  take_further h =
      rw (← length-drop off b.data_)
        (take-append_ge k (drop off b.data_) _ (omega (arith, length-drop off b.data_)))

  pub length_further :
      k ≤ length (content (shapes (b ∷ bs)) off)
      → k - (size b - off) ≤ length (content (shapes bs) 0)
  length_further h =
      omega
        (arith, length-append (drop off b.data_) (content (shapes bs) 0), length-drop off b.data_)

-- `skipBytes` passes `k` bytes and releases as many.
pub skip_of-Walk :
    (bs : List DataBlock) (off k : ℕ)
    → InRange (shapes bs) off
    → Packed (shapes bs)
    → Covered bs off
    → k ≤ length (content (shapes bs) off)
    → (bs' : List DataBlock) × (t : Target) × (skip_of bs off k ≡ some (bs', t))
      × Walk bs off bs' t (take k (content (shapes bs) off)) k
unfolding skip_of
skip_of-Walk [] off zero r p c h = ([], _, refl, Walk-still [] off r c)
skip_of-Walk [] off (suc k) r p c h = absurd (omega arith)
skip_of-Walk (b ∷ bs) off zero r p c h = (b ∷ bs, _, refl, Walk-still (b ∷ bs) off r c)
skip_of-Walk (b ∷ bs) off (suc k) r p c h = elim (Bool-cases (ltb (suc k) (size b - off))) [
  | inl short ↦ (
    released (suc k) b ∷ bs,
    record { moved = 0; offset = off + suc k },
    rw (short, release_lem (suc k) b (ground arith)),
    rw (take_within b bs off (suc k) (ground arith))
        (Walk-within b _ bs off (suc k) (suc k) (ground arith) refl (ground arith) (omega arith) c),
  )
  | inr long ↦
      let (bs', t, e, w) =
        skip_of-Walk bs 0 (suc k - (size b - off)) (Packed-InRange (shapes bs) p.1) p.1 c.1
          (length_further b bs off (suc k) h) in
      (
        released (size b - off) b ∷ bs',
        later t,
        rw (long, release_lem (size b - off) b c.0, e),
        rw (take_further b bs off (suc k) (ground arith))
            (Walk-further b _ bs off (size b - off) (suc k) refl (omega arith) (ground arith) w),
      )
]
