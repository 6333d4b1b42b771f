-- ===== src/Blocks/Content.antt =====
-- What the blocks from a cursor on hold, and what a loop over them leaves: `Walk`.
use libmc.Prelude.{
  ℕ, zero, suc, ◌+◌, ◌-◌, ◌≤◌, ◌<◌, ◌≡◌, refl, sym, ap, ◌∙◌, ◌⊎◌, inl, List, [], ◌∷◌, ◌++◌, map,
  arith, length, take, drop, append_assoc, take-append-drop, drop-drop,
}
use libmc.DataBlock.{DataBlock, size}
use libmc.Blocks.{Target, later, sum_refs}

-- What a loop that reads leaves alone: the bytes of a block and its capacity.
abbrev pub Shape : Type 0
Shape = List ℕ × ℕ

abbrev pub shape : DataBlock → Shape
shape b = (b.data_, b.capacity)

abbrev pub shapes : List DataBlock → List Shape
shapes = map shape

-- The bytes from the offset in the first block to the end of the last.
abbrev pub content : List Shape → ℕ → List ℕ
content [] off = []
content (s ∷ ss) off = drop off s.0 ++ content ss 0

-- Each block still counts its bytes behind the cursor.
abbrev pub Covered : List DataBlock → ℕ → Type 0
Covered [] off = Unit
Covered (b ∷ bs) off = (size b - off ≤ b.n_bytes_ref) × Covered bs 0

-- The offset is at a byte, or at the end of the last block, or the cursor is at the end.
abbrev pub InRange : List Shape → ℕ → Type 0
InRange [] off = off ≡ 0
InRange (s ∷ ss) off = (off < length s.0) ⊎ ((off ≡ length s.0) × (ss ≡ []))

-- Only the last block may be empty.
abbrev pub Packed : List Shape → Type 0
Packed [] = Unit
Packed (s ∷ ss) = ((0 < length s.0) ⊎ (ss ≡ [])) × Packed ss

pub Packed-InRange : (ss : List Shape) → Packed ss → InRange ss 0
Packed-InRange [] p = refl
Packed-InRange (s ∷ ss) p = ground arith

pub Packed-drop : (n : ℕ) (ss : List Shape) → Packed ss → Packed (drop n ss)
Packed-drop zero ss p = p
Packed-drop (suc n) [] p = tt
Packed-drop (suc n) (s ∷ ss) p = Packed-drop n ss p.1

-- A loop that starts at `bs` and `off` ends at `t` with the blocks `bs'`: it has passed the bytes
-- `taken` and released `released` references.
pub record Walk (bs : List DataBlock) (off : ℕ) (bs' : List DataBlock) (t : Target) (taken : List ℕ)
    (released : ℕ) : Type 0 where
  pub shapes_eq : shapes bs' ≡ shapes bs
  pub splits : content (shapes bs) off ≡ taken ++ content (drop t.moved (shapes bs)) t.offset
  pub in_range : InRange (drop t.moved (shapes bs)) t.offset
  pub bound : t.moved ≤ length bs
  pub covered : Covered (drop t.moved bs') t.offset
  pub refs : sum_refs bs' + released ≡ sum_refs bs

abbrev pub still : ℕ → Target
still off = record { moved = 0; offset = off }

pub Walk-still :
    (bs : List DataBlock) (off : ℕ)
    → InRange (shapes bs) off
    → Covered bs off
    → Walk bs off bs (still off) [] 0
Walk-still bs off r c = record {
  shapes_eq = refl;
  splits = refl;
  in_range = r;
  bound = omega arith;
  covered = c;
  refs = omega arith;
}

-- A step that stays within the first block.
pub Walk-within :
    (b b' : DataBlock) (bs : List DataBlock) (off n released : ℕ)
    → off + n < size b
    → shape b' ≡ shape b
    → b'.n_bytes_ref + released ≡ b.n_bytes_ref
    → released ≤ n
    → Covered (b ∷ bs) off
    → Walk (b ∷ bs) off (b' ∷ bs) (still (off + n)) (take n (drop off b.data_)) released
Walk-within b b' bs off n released h e r l c = record {
  shapes_eq = ap (λ s. s ∷ shapes bs) e;
  splits =
      ap (λ d. d ++ content (shapes bs) 0)
        (sym (take-append-drop n (drop off b.data_))
          ∙ ap (λ d. take n (drop off b.data_) ++ d) (drop-drop off n b.data_))
      ∙ append_assoc (take n (drop off b.data_)) (drop (off + n) b.data_) (content (shapes bs) 0);
  in_range = inl h;
  bound = omega arith;
  covered = (rw same_data (omega arith), c.1);
  refs = omega arith;
}
  where
    same_data : b'.data_ ≡ b.data_
    same_data = ap (λ (s : Shape). s.0) e

-- A step that takes what is left of the first block and goes on in the next.
pub Walk-further :
    (b b' : DataBlock) (bs : List DataBlock) (off r total : ℕ) {bs' : List DataBlock} {t : Target}
    {taken : List ℕ} {released : ℕ}
    → shape b' ≡ shape b
    → b'.n_bytes_ref + r ≡ b.n_bytes_ref
    → r + released ≡ total
    → Walk bs 0 bs' t taken released
    → Walk (b ∷ bs) off (b' ∷ bs') (later t) (drop off b.data_ ++ taken) total
Walk-further b b' bs off r total {bs'} {t} {taken} {released} e h s w = record {
  shapes_eq = λ i. e i ∷ w.shapes_eq i;
  splits =
      ap (λ d. drop off b.data_ ++ d) w.splits
      ∙ sym (append_assoc (drop off b.data_) taken (content (drop t.moved (shapes bs)) t.offset));
  in_range = w.in_range;
  bound = omega (arith, w.bound);
  covered = w.covered;
  refs = omega (arith, w.refs);
}
