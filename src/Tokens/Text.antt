-- ===== src/Tokens/Text.antt =====
-- `parseTokenData` on a token that stands for some bytes.
use libmc.Prelude.{
  ℕ, zero, suc, ◌+◌, ◌<◌, ◌≡◌, refl, sym, ap, ◌∙◌, List, [], ◌∷◌, some, arith, ltb, leb, ◌==◌,
  length, take, drop, get_elem?, append-nil, false, true,
}
use libmc.DataBlock.{DataBlock, size}
use libmc.Blocks.{DataBlockSlice, TokenData, sizes}
use libmc.Blocks.Content.{shapes}
use libmc.Blocks.Slices.{data_at, slice_text, token_text, Fits, Denotes, sizes-Denotes}
use libmc.Tokens.{slice_bytes, copy_slices, parse_token_data}

block_at :
    (bs : List DataBlock) (i : ℕ)
    → 0 < length (data_at (shapes bs) i)
    → (b : DataBlock) × (get_elem? bs i ≡ some b) × (b.data_ ≡ data_at (shapes bs) i)
block_at [] i h = absurd (omega arith)
block_at (b ∷ bs) zero h = (b, refl, refl)
block_at (b ∷ bs) (suc i) h = block_at bs i h

slice_bytes-Fits :
    (bs : List DataBlock) (s : DataBlockSlice)
    → Fits (shapes bs) s
    → slice_bytes bs s ≡ some (slice_text (shapes bs) s)
unfolding slice_bytes
slice_bytes-Fits bs s f =
    let (b, g, e) = block_at bs s.iterator (omega (arith, f.0, f.1)) in
    let l : length b.data_ ≡ length (data_at (shapes bs) s.iterator) = ap length e in
    let inside : ltb s.offset (size b) ≡ true = ground (arith, f.0, f.1, l) in
    let fits : leb (s.offset + s.size) (size b) ≡ true = ground (arith, f.1, l) in
    rw (g, inside, fits) (ap (λ d. some (take s.size (drop s.offset d))) e)

copy_slices_lem :
    (bs : List DataBlock) (td : TokenData) (reserved pos : ℕ) {bytes : List ℕ}
    → Denotes (shapes bs) td bytes
    → pos + sizes td ≡ reserved
    → copy_slices bs td reserved pos ≡ some (some bytes)
unfolding copy_slices sizes
copy_slices_lem bs [] reserved pos d e =
    let full : (reserved == pos) ≡ true = ground (arith, e) in
    rw full (ap (λ xs. some (some xs)) d.text)
copy_slices_lem bs (s ∷ td) reserved pos d e =
    let within : ltb reserved (pos + s.size) ≡ false = ground (arith, e) in
    let rest =
      copy_slices_lem bs td reserved (pos + s.size) {bytes = token_text (shapes bs) td}
        (record { text = refl; fits = d.fits.1 }) (omega (arith, e)) in
    rw (within, slice_bytes-Fits bs s d.fits.0, rest) (ap (λ xs. some (some xs)) d.text)

-- If a token stands for some bytes, and there is one, then `parse_token_data`, told their number,
-- returns those bytes.
pub parse_token_data-Denotes :
    (bs : List DataBlock) (td : TokenData) (bytes : List ℕ)
    → 0 < length bytes
    → Denotes (shapes bs) td bytes
    → parse_token_data bs td (length bytes) ≡ some (some bytes)
unfolding parse_token_data sizes
parse_token_data-Denotes bs [] bytes h d = absurd (omega (arith, ap length d.text))
parse_token_data-Denotes bs (s ∷ []) bytes h d =
    let some_ : (length bytes == 0) ≡ false = ground arith in
    let whole : (s.size == length bytes) ≡ true =
      ground (arith, sizes-Denotes (shapes bs) (s ∷ []) d) in
    rw (some_, whole, slice_bytes-Fits bs s d.fits.0)
      (ap (λ xs. some (some xs)) (sym (append-nil (slice_text (shapes bs) s)) ∙ d.text))
parse_token_data-Denotes bs (s ∷ s' ∷ td) bytes h d =
    let some_ : (length bytes == 0) ≡ false = ground arith in
    rw some_ (
      copy_slices_lem bs (s ∷ s' ∷ td) (length bytes) 0 d
        (omega (arith, sizes-Denotes (shapes bs) (s ∷ s' ∷ td) d)))
