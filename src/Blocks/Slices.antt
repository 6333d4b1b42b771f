-- ===== src/Blocks/Slices.antt =====
-- The loop of `readBytes`, and what the slices of a token stand for.
use libmc.Prelude.{
  ℕ, zero, suc, ◌+◌, ◌-◌, ◌≤◌, ◌<◌, ◌≡◌, refl, ap, subst, inl, inr, List, [], ◌∷◌, ◌++◌, some,
  arith, ltb, length, take, drop, get_or, get_or_of_drop, drop-suc_of_drop, All, Bool-cases,
  append-nil, length-append, length-drop, length-take, take_all,
}
use libmc.DataBlock.{DataBlock, size}
use libmc.Blocks.{DataBlockSlice, TokenData, Target, later, slice, sizes, slices_of}
use libmc.Blocks.Content.{
  Shape, shapes, content, Covered, InRange, Packed, Packed-InRange, Walk, Walk-still, Walk-within,
  Walk-further,
}
use libmc.Blocks.Counted.{take_within, take_further, length_further}

abbrev pub data_at : List Shape → ℕ → List ℕ
data_at ss i = (get_or ss i ([], 0)).0

abbrev pub slice_text : List Shape → DataBlockSlice → List ℕ
slice_text ss s = take s.size (drop s.offset (data_at ss s.iterator))

abbrev pub token_text : List Shape → TokenData → List ℕ
token_text ss [] = []
token_text ss (s ∷ td) = slice_text ss s ++ token_text ss td

-- The slice is not empty, and lies in the written part of its block.
abbrev pub Fits : List Shape → DataBlockSlice → Type 0
Fits ss s = (0 < s.size) × (s.offset + s.size ≤ length (data_at ss s.iterator))

-- The token stands for the bytes.
pub record Denotes (ss : List Shape) (td : TokenData) (bytes : List ℕ) : Type 0 where
  pub text : token_text ss td ≡ bytes
  pub fits : All (Fits ss) td

pub Denotes-nil : (ss : List Shape) → Denotes ss [] []
Denotes-nil ss = record { text = refl; fits = tt }

-- A slice of the block that stands at `i`, in front of the slices of later blocks.
pub Denotes-cons :
    (ss : List Shape) (i off n : ℕ) (d : List ℕ) {td : TokenData} {bytes : List ℕ}
    → data_at ss i ≡ d
    → 0 < n
    → off + n ≤ length d
    → Denotes ss td bytes
    → Denotes ss (slice i off n ∷ td) (take n (drop off d) ++ bytes)
Denotes-cons ss i off n d e z h s = record {
  text = rw (e, s.text) refl;
  fits = ((z, rw e h), s.fits);
}

pub Denotes-rest :
    (ss : List Shape) (i off : ℕ) (d : List ℕ) {td : TokenData} {bytes : List ℕ}
    → data_at ss i ≡ d
    → off < length d
    → Denotes ss td bytes
    → Denotes ss (slice i off (length d - off) ∷ td) (drop off d ++ bytes)
Denotes-rest ss i off d {td} {bytes} e h s =
    subst (λ xs. Denotes ss (slice i off (length d - off) ∷ td) (xs ++ bytes))
      (take_all (length d - off) (drop off d) (omega (arith, length-drop off d)))
      (Denotes-cons ss i off (length d - off) d e (omega arith) (omega arith) s)

pub InRange-le : (s : Shape) (ss : List Shape) (off : ℕ) → InRange (s ∷ ss) off → off ≤ length s.0
InRange-le s ss off r = ground arith

-- The offset is at a byte when there is one to read.
InRange-lt :
    (b : DataBlock) (bs : List DataBlock) (off k : ℕ)
    → InRange (shapes (b ∷ bs)) off
    → suc k ≤ length (content (shapes (b ∷ bs)) off)
    → off < length b.data_
InRange-lt b bs off k (inl r) h = r
InRange-lt b (c ∷ bs) off k (inr (e, n)) h = absurd (ground arith)
InRange-lt b [] off k (inr (e, n)) h =
    omega (arith, length-append (drop off b.data_) [], length-drop off b.data_)

-- The first block of a rest of the list.
pub data_at_of_drop :
    (i : ℕ) (ss : List Shape) {s : Shape} {rest : List Shape}
    → drop i ss ≡ s ∷ rest
    → data_at ss i ≡ s.0
data_at_of_drop i ss e = ap (λ (s : Shape). s.0) (get_or_of_drop i ss ([], 0) e)

pub sizes-Denotes :
    (ss : List Shape) (td : TokenData) {bytes : List ℕ}
    → Denotes ss td bytes
    → sizes td ≡ length bytes
unfolding sizes
sizes-Denotes ss [] s = ap length s.text
sizes-Denotes ss (x ∷ td) s = omega (
  arith,
  ap length s.text,
  s.fits.0.1,
  length-append (slice_text ss x) (token_text ss td),
  length-take x.size (drop x.offset (data_at ss x.iterator)),
  length-drop x.offset (data_at ss x.iterator),
  sizes-Denotes ss td {bytes = token_text ss td} (record { text = refl; fits = s.fits.1 }),
)

-- `readBytes` passes `k` bytes, releases none, and its slices stand for them.
pub slices_of-Walk :
    (ss : List Shape) (bs : List DataBlock) (i off k : ℕ)
    → drop i ss ≡ shapes bs
    → InRange (shapes bs) off
    → Packed (shapes bs)
    → Covered bs off
    → k ≤ length (content (shapes bs) off)
    → (td : TokenData) × (t : Target) × (slices_of bs i off k ≡ some (td, t))
      × Walk bs off bs t (take k (content (shapes bs) off)) 0
      × Denotes ss td (take k (content (shapes bs) off))
unfolding slices_of
slices_of-Walk ss [] i off zero a r p c h = ([], _, refl, Walk-still [] off r c, Denotes-nil ss)
slices_of-Walk ss [] i off (suc k) a r p c h = absurd (omega arith)
slices_of-Walk ss (b ∷ bs) i off zero a r p c h =
    ([], _, refl, Walk-still (b ∷ bs) off r c, Denotes-nil ss)
slices_of-Walk ss (b ∷ bs) i off (suc k) a r p c h =
    elim (Bool-cases (ltb (suc k) (size b - off))) [
      | inl short ↦ (
        slice i off (suc k) ∷ [],
        record { moved = 0; offset = off + suc k },
        rw short,
        rw (take_within b bs off (suc k) (ground arith))
            (Walk-within b b bs off (suc k) 0 (ground arith) refl (omega arith) (omega arith) c),
        rw (take_within b bs off (suc k) (ground arith)) (
            rw append-nil at (
              Denotes-cons ss i off (suc k) b.data_ (data_at_of_drop i ss a) (omega arith)
                (ground arith) (Denotes-nil ss))),
      )
      | inr long ↦
          let (td, t, e, w, s) =
            slices_of-Walk ss bs (suc i) 0 (suc k - (size b - off)) (drop-suc_of_drop i ss a)
              (Packed-InRange (shapes bs) p.1) p.1 c.1 (length_further b bs off (suc k) h) in
          (
            slice i off (size b - off) ∷ td,
            later t,
            rw (long, e),
            rw (take_further b bs off (suc k) (ground arith))
                (Walk-further b b bs off 0 0 refl (omega arith) refl w),
            rw (take_further b bs off (suc k) (ground arith)) (
                Denotes-rest ss i off b.data_ (data_at_of_drop i ss a) (InRange-lt b bs off k r h)
                  s),
          )
    ]
