-- ===== src/Tokens/Ledger.antt =====
-- `copyTokenData` and `freeTokenData` on the counts of the blocks.
use libmc.Prelude.{
  ℕ, zero, suc, ◌+◌, ◌-◌, ◌<◌, ◌≡◌, refl, sym, ap, ◌∙◌, List, [], ◌∷◌, some, true, arith, leb,
  length, set, get_elem?, All,
}
use libmc.DataBlock.{DataBlock, acquire, release}
use libmc.Blocks.{TokenData, sizes, sum_refs}
use libmc.Blocks.Content.{shapes}
use libmc.Tokens.{free_token_data, acquire_all, copy_token_data}

-- The blocks once the one at `i` counts `n` bytes more.
abbrev pub acquired_at : ℕ → ℕ → List DataBlock → List DataBlock
acquired_at i n [] = []
acquired_at zero n (b ∷ bs) = acquire n b ∷ bs
acquired_at (suc i) n (b ∷ bs) = b ∷ acquired_at i n bs

-- The blocks once they count the token's bytes.
abbrev pub acquired : TokenData → List DataBlock → List DataBlock
acquired [] bs = bs
acquired (s ∷ td) bs = acquired_at s.iterator s.size (acquired td bs)

-- The token's slices are in blocks of the list.
abbrev pub InBlocks : List DataBlock → TokenData → Type 0
InBlocks bs = All (λ s. s.iterator < length bs)

length-acquired_at : (i n : ℕ) (bs : List DataBlock) → length (acquired_at i n bs) ≡ length bs
length-acquired_at i n [] = refl
length-acquired_at zero n (b ∷ bs) = refl
length-acquired_at (suc i) n (b ∷ bs) = ap suc (length-acquired_at i n bs)

pub length-acquired : (td : TokenData) (bs : List DataBlock) → length (acquired td bs) ≡ length bs
length-acquired [] bs = refl
length-acquired (s ∷ td) bs =
    length-acquired_at s.iterator s.size (acquired td bs) ∙ length-acquired td bs

acquire-acquire : (n m : ℕ) (b : DataBlock) → acquire n (acquire m b) ≡ acquire m (acquire n b)
unfolding acquire
acquire-acquire n m b =
    let e : b.n_bytes_ref + m + n ≡ b.n_bytes_ref + n + m = omega arith in
    ap (λ k. record b { n_bytes_ref = k }) e

acquired_at_comm :
    (i n j m : ℕ) (bs : List DataBlock)
    → acquired_at i n (acquired_at j m bs) ≡ acquired_at j m (acquired_at i n bs)
acquired_at_comm i n j m [] = refl
acquired_at_comm zero n zero m (b ∷ bs) = ap (λ c. c ∷ bs) (acquire-acquire n m b)
acquired_at_comm zero n (suc j) m (b ∷ bs) = refl
acquired_at_comm (suc i) n zero m (b ∷ bs) = refl
acquired_at_comm (suc i) n (suc j) m (b ∷ bs) = ap (λ cs. b ∷ cs) (acquired_at_comm i n j m bs)

acquired-acquired_at :
    (td : TokenData) (i n : ℕ) (bs : List DataBlock)
    → acquired td (acquired_at i n bs) ≡ acquired_at i n (acquired td bs)
acquired-acquired_at [] i n bs = refl
acquired-acquired_at (s ∷ td) i n bs =
    ap (acquired_at s.iterator s.size) (acquired-acquired_at td i n bs)
    ∙ acquired_at_comm s.iterator s.size i n (acquired td bs)

pub acquired_comm :
    (td ud : TokenData) (bs : List DataBlock)
    → acquired td (acquired ud bs) ≡ acquired ud (acquired td bs)
acquired_comm [] ud bs = refl
acquired_comm (s ∷ td) ud bs =
    ap (acquired_at s.iterator s.size) (acquired_comm td ud bs)
    ∙ sym (acquired-acquired_at ud s.iterator s.size (acquired td bs))

-- The block at `i`, before and after.
block_acquired :
    (bs : List DataBlock) (i n : ℕ)
    → i < length bs
    → (b : DataBlock) × (get_elem? bs i ≡ some b)
      × (set bs i (acquire n b) ≡ acquired_at i n bs)
      × (get_elem? (acquired_at i n bs) i ≡ some (acquire n b))
      × (set (acquired_at i n bs) i b ≡ bs)
block_acquired [] i n h = absurd (omega arith)
block_acquired (b ∷ bs) zero n h = (b, refl, refl, refl, refl)
block_acquired (b ∷ bs) (suc i) n h =
    let (c, e, f, g, k) = block_acquired bs i n (omega arith) in
    (c, e, ap (λ cs. b ∷ cs) f, g, ap (λ cs. b ∷ cs) k)

release-acquire : (n : ℕ) (b : DataBlock) → release n (acquire n b) ≡ some b
unfolding release acquire
release-acquire n b =
    let le : leb n (b.n_bytes_ref + n) ≡ true = ground arith in
    let e : b.n_bytes_ref + n - n ≡ b.n_bytes_ref = omega arith in
    rw le (ap (λ k. some (record b { n_bytes_ref = k })) e)

pub InBlocks-length :
    (bs cs : List DataBlock) (td : TokenData)
    → length cs ≡ length bs
    → InBlocks bs td
    → InBlocks cs td
InBlocks-length bs cs [] e h = tt
InBlocks-length bs cs (s ∷ td) e h = (omega (arith, e, h.0), InBlocks-length bs cs td e h.1)

acquire_all_lem :
    (td : TokenData) (bs : List DataBlock)
    → InBlocks bs td
    → acquire_all bs td ≡ some (acquired td bs)
unfolding acquire_all
acquire_all_lem [] bs h = refl
acquire_all_lem (s ∷ td) bs h =
    let (b, e, f, g, k) = block_acquired bs s.iterator s.size h.0 in
    let cs = acquired_at s.iterator s.size bs in
    rw (e, f)
      (acquire_all_lem td cs
          (InBlocks-length bs cs td (length-acquired_at s.iterator s.size bs) h.1)
        ∙ ap some (acquired-acquired_at td s.iterator s.size bs))

pub copy_token_data_lem :
    (td : TokenData) (bs : List DataBlock)
    → InBlocks bs td
    → copy_token_data bs td [] ≡ some (acquired td bs, td)
unfolding copy_token_data
copy_token_data_lem [] bs h = refl
copy_token_data_lem (s ∷ td) bs h = rw (acquire_all_lem (s ∷ td) bs h) refl

pub free_token_data_lem :
    (td : TokenData) (bs : List DataBlock)
    → InBlocks bs td
    → free_token_data (acquired td bs) td ≡ some bs
unfolding free_token_data
free_token_data_lem [] bs h = refl
free_token_data_lem (s ∷ td) bs h =
    let cs = acquired td bs in
    let inside : s.iterator < length cs = omega (arith, length-acquired td bs, h.0) in
    let (b, e, f, g, k) = block_acquired cs s.iterator s.size inside in
    rw (g, release-acquire s.size b, k) (free_token_data_lem td bs h.1)

sum_refs-acquired_at :
    (i n : ℕ) (bs : List DataBlock)
    → i < length bs
    → sum_refs (acquired_at i n bs) ≡ sum_refs bs + n
unfolding acquire
sum_refs-acquired_at i n [] h = absurd (omega arith)
sum_refs-acquired_at zero n (b ∷ bs) h = omega arith
sum_refs-acquired_at (suc i) n (b ∷ bs) h = omega (arith, sum_refs-acquired_at i n bs (omega arith))

pub sum_refs-acquired :
    (td : TokenData) (bs : List DataBlock)
    → InBlocks bs td
    → sum_refs (acquired td bs) ≡ sum_refs bs + sizes td
unfolding sizes
sum_refs-acquired [] bs h = omega arith
sum_refs-acquired (s ∷ td) bs h =
    let inside : s.iterator < length (acquired td bs) = omega (arith, length-acquired td bs, h.0) in
    omega (
      arith,
      sum_refs-acquired_at s.iterator s.size (acquired td bs) inside,
      sum_refs-acquired td bs h.1,
    )

shapes-acquired_at : (i n : ℕ) (bs : List DataBlock) → shapes (acquired_at i n bs) ≡ shapes bs
unfolding acquire
shapes-acquired_at i n [] = refl
shapes-acquired_at zero n (b ∷ bs) = refl
shapes-acquired_at (suc i) n (b ∷ bs) =
    ap (λ ss. (b.data_, b.capacity) ∷ ss) (shapes-acquired_at i n bs)

pub shapes-acquired : (td : TokenData) (bs : List DataBlock) → shapes (acquired td bs) ≡ shapes bs
shapes-acquired [] bs = refl
shapes-acquired (s ∷ td) bs =
    shapes-acquired_at s.iterator s.size (acquired td bs) ∙ shapes-acquired td bs
