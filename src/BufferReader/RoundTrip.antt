-- ===== src/BufferReader/RoundTrip.antt =====
-- What is written is what is read.
use libmc.Prelude.{
  ℕ, ◌<◌, ◌≡◌, sym, ap, ◌∙◌, subst, List, [], ◌++◌, some, arith, length, take, take_all,
  append-cancel_left, append-nil, ◌>>=◌,
}
use libmc.Types.{ErrCode}
use libmc.Blocks.{TokenData}
use libmc.Blocks.Content.{shapes}
use libmc.Blocks.Slices.{Denotes}
use libmc.BufferReader.{BufferReader, write, read_bytes}
use libmc.BufferReader.Valid.{unread, IsValid}
use libmc.BufferReader.Counted.{read_bytes-Reads}
use libmc.BufferReader.Write.{write-Wrote}

-- If nothing is left to read in a valid reader, then writing some bytes and reading as many succeeds
-- with slices that stand for these bytes, and leaves a valid reader with nothing to read.
pub write-read_bytes :
    (min_capacity : ℕ) (bytes : List ℕ) (r : BufferReader)
    → IsValid r
    → unread r ≡ []
    → 0 < length bytes
    → (td : TokenData) × (r' : BufferReader) × ((do
      q ← write min_capacity bytes r
      read_bytes (length bytes) q)
        ≡ some (ErrCode.ok, td, r'))
      × Denotes (shapes r'.blocks) td bytes
      × IsValid r'
      × (unread r' ≡ [])
write-read_bytes m bytes r v e p =
    let (q, f, w) = write-Wrote m bytes r v in
    let held : unread q ≡ bytes = w.holds ∙ ap (λ d. d ++ bytes) e in
    let (td, r', g, reads, d) =
      read_bytes-Reads (length bytes) q w.valid p (omega (arith, ap length held)) in
    let all : take (length bytes) (unread q) ≡ bytes =
      ap (take (length bytes)) held ∙ take_all (length bytes) bytes (omega arith) in
    (
      td,
      r',
      rw f g,
      subst (λ ss. Denotes ss td bytes) (sym reads.same_bytes)
          (subst (Denotes (shapes q.blocks) td) all d),
      reads.valid,
      append-cancel_left bytes (unread r') []
          (ap (λ d. d ++ unread r') (sym all) ∙ sym reads.splits ∙ held ∙ sym (append-nil bytes)),
    )
