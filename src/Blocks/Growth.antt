-- ===== src/Blocks/Growth.antt =====
-- What a write does to the blocks: bytes come to the end of the last one, or an empty one comes
-- behind it.
use libmc.Prelude.{
  ℕ, ◌+◌, ◌≤◌, ◌<◌, ◌≡◌, refl, ap, inl, inr, List, [], ◌∷◌, ◌++◌, arith, length, drop, All,
  append-nil, append_assoc, length-append, length-drop, drop-append_le, drop-nil,
}
use libmc.DataBlock.{DataBlock, size}
use libmc.Blocks.Content.{Shape, content, Covered, InRange, Packed}

-- The last block with more bytes.
abbrev pub grown : Shape → List ℕ → Shape
grown s bytes = (s.0 ++ bytes, s.1)

snoc-ne-nil {ℓ} : {A : Type ℓ} (xs : List A) (x : A) → ¬ (xs ++ x ∷ [] ≡ [])
snoc-ne-nil [] x e = cc
snoc-ne-nil (y ∷ xs) x e = cc

module _ (s : Shape) (bytes : List ℕ) where
  pub content-grown :
      (ss : List Shape) (off : ℕ)
      → (ss ≡ [] → off ≤ length s.0)
      → content (ss ++ grown s bytes ∷ []) off ≡ content (ss ++ s ∷ []) off ++ bytes
  content-grown [] off r = rw (append-nil, append-nil) (drop-append_le off s.0 bytes (r refl))
  content-grown (x ∷ ss) off r =
      rw append_assoc (ap (λ xs. drop off x.0 ++ xs) (content-grown ss 0 (λ _. omega arith)))

  pub InRange-grown :
      (ss : List Shape) (off : ℕ)
      → 0 < length bytes
      → InRange (ss ++ s ∷ []) off
      → InRange (ss ++ grown s bytes ∷ []) off
  InRange-grown [] off p r = inl (ground (arith, length-append s.0 bytes))
  InRange-grown (x ∷ ss) off p (inl h) = inl h
  InRange-grown (x ∷ ss) off p (inr (h, e)) = absurd (snoc-ne-nil ss s e)

  pub Packed-grown : (ss : List Shape) → Packed (ss ++ s ∷ []) → Packed (ss ++ grown s bytes ∷ [])
  Packed-grown [] p = (inr refl, tt)
  Packed-grown (x ∷ ss) (inl h, p) = (inl h, Packed-grown ss p)
  Packed-grown (x ∷ ss) (inr e, p) = absurd (snoc-ne-nil ss s e)

  -- The last block is not empty then, so none is.
  pub All-IsFilled-grown :
      (ss : List Shape)
      → 0 < length bytes
      → Packed (ss ++ s ∷ [])
      → All (λ (x : Shape). 0 < length x.0) (ss ++ grown s bytes ∷ [])
  All-IsFilled-grown [] h p = (omega (arith, length-append s.0 bytes), tt)
  All-IsFilled-grown (x ∷ ss) h (inl q, p) = (q, All-IsFilled-grown ss h p)
  All-IsFilled-grown (x ∷ ss) h (inr e, p) = absurd (snoc-ne-nil ss s e)

  pub All-grown {ℓ} :
      (P : Shape → Type ℓ) (ss : List Shape)
      → All P (ss ++ s ∷ [])
      → P (grown s bytes)
      → All P (ss ++ grown s bytes ∷ [])
  All-grown P [] a h = (h, tt)
  All-grown P (x ∷ ss) a h = (a.0, All-grown P ss a.1 h)

pub All_last {ℓ} : (P : Shape → Type ℓ) (ss : List Shape) (s : Shape) → All P (ss ++ s ∷ []) → P s
All_last P [] s a = a.0
All_last P (x ∷ ss) s a = All_last P ss s a.1

-- Where every block is filled, an empty one may follow.
pub Packed-push :
    (ss : List Shape) (s : Shape) → All (λ (x : Shape). 0 < length x.0) ss → Packed (ss ++ s ∷ [])
Packed-push [] s a = (inr refl, tt)
Packed-push (x ∷ ss) s a = (inl a.0, Packed-push ss s a.1)

pub All-IsFilled :
    (ss : List Shape) (s : Shape)
    → Packed (ss ++ s ∷ [])
    → 0 < length s.0
    → All (λ (x : Shape). 0 < length x.0) (ss ++ s ∷ [])
All-IsFilled [] s p h = (h, tt)
All-IsFilled (x ∷ ss) s (inl q, p) h = (q, All-IsFilled ss s p h)
All-IsFilled (x ∷ ss) s (inr e, p) h = absurd (snoc-ne-nil ss s e)

-- An empty block at the end holds nothing.
pub content-push :
    (ss : List Shape) (cap off : ℕ) → content (ss ++ ([], cap) ∷ []) off ≡ content ss off
content-push [] cap off = rw (drop-nil off) refl
content-push (x ∷ ss) cap off = ap (λ xs. drop off x.0 ++ xs) (content-push ss cap 0)

pub Covered-grown :
    (bs : List DataBlock) (b b' : DataBlock) (off n : ℕ)
    → size b' ≡ size b + n
    → b'.n_bytes_ref ≡ b.n_bytes_ref + n
    → Covered (bs ++ b ∷ []) off
    → Covered (bs ++ b' ∷ []) off
Covered-grown [] b b' off n e f c = (omega arith, tt)
Covered-grown (x ∷ bs) b b' off n e f c = (c.0, Covered-grown bs b b' 0 n e f c.1)

pub Covered-push :
    (bs : List DataBlock) (b : DataBlock) (off : ℕ)
    → size b ≡ 0
    → Covered bs off
    → Covered (bs ++ b ∷ []) off
Covered-push [] b off e c = (omega arith, tt)
Covered-push (x ∷ bs) b off e c = (c.0, Covered-push bs b 0 e c.1)

-- A cursor with bytes behind it is at one of them, also when an empty block follows.
pub InRange-push :
    (ss : List Shape) (s : Shape) (off : ℕ)
    → InRange ss off
    → 0 < length (content ss off)
    → InRange (ss ++ s ∷ []) off
InRange-push [] s off r h = absurd (omega arith)
InRange-push (x ∷ ss) s off (inl i) h = inl i
InRange-push (x ∷ ss) s off (inr (i, e)) h = absurd (
    omega (
      arith,
      length-append (drop off x.0) (content ss 0),
      length-drop off x.0,
      ap (λ ss. length (content ss 0)) e,
    ))
