-- ===== src/Parser/Calls.antt =====
-- The parser's calls of the reader, when the bytes that they ask for are there.
use libmc.Prelude.{
  ℕ, ◌%◌, ◌^◌, ◌<◌, ◌≡◌, ◌≢◌, refl, sym, ap, ◌∙◌, subst, true, false, List, ◌∷◌, ◌++◌, some, arith,
  length, take, get_elem?, All, append-cancel_left, length-append, take-append_self,
}
use mathlib.Core.Option.{some-injective}
use libmc.DataBlock.{is_not_digit}
use libmc.Blocks.{TokenData}
use libmc.Blocks.Content.{shapes}
use libmc.Blocks.Slices.{Denotes}
use libmc.BufferReader.{BufferReader}
use libmc.BufferReader.Valid.{unread, IsValid, Reads}
use libmc.BufferReader.Counted.{skip_bytes-Reads, read_bytes-Reads, peek_lem}
use libmc.BufferReader.Until.{read_until-Reads, skip_until-Reads}
use libmc.BufferReader.Unsigned.{Digits, decimal_from, read_unsigned-Reads}
use libmc.Parser.State.{PacketParser}
use libmc.Parser.Monad.{
  Outcome, peek, skip, expect, read_unsigned, read_until, read_bytes, skip_until,
}

-- The reader has passed what stands before `rest`, and holds the same bytes.
pub record Moved (r r' : BufferReader) (rest : List ℕ) : Type 0 where
  pub valid : IsValid r'
  pub holds : unread r' ≡ rest
  pub same_bytes : shapes r'.blocks ≡ shapes r.blocks

pub Moved-trans :
    (r s t : BufferReader) (mid rest : List ℕ) → Moved r s mid → Moved s t rest → Moved r t rest
Moved-trans r s t mid rest m n = record {
  valid = n.valid;
  holds = n.holds;
  same_bytes = n.same_bytes ∙ m.same_bytes;
}

Reads-Moved :
    (r r' : BufferReader) (taken rest : List ℕ) (n : ℕ)
    → unread r ≡ taken ++ rest
    → Reads r r' taken n
    → Moved r r' rest
Reads-Moved r r' taken rest n e m = record {
  valid = m.valid;
  holds = append-cancel_left taken (unread r') rest (sym m.splits ∙ e);
  same_bytes = m.same_bytes;
}

abbrev pub moved : PacketParser → BufferReader → PacketParser
moved p r = record p { reader = r }

module _ (p : PacketParser) (v : IsValid p.reader) where
  pub skip_lem :
      (taken rest : List ℕ)
      → unread p.reader ≡ taken ++ rest
      → 0 < length taken
      → (r : BufferReader) × (skip (length taken) p ≡ Outcome.done tt (moved p r))
        × Moved p.reader r rest
  unfolding skip
  skip_lem taken rest e h =
      let n = length taken in
      let (r, g, m) =
        skip_bytes-Reads n p.reader v h (omega (arith, ap length e, length-append taken rest)) in
      (
        r,
        rw g refl,
        Reads-Moved p.reader r (take n (unread p.reader)) rest n
            (e ∙ ap (λ xs. xs ++ rest) (sym (ap (take n) e ∙ take-append_self taken rest))) m,
      )

  pub expect_lem :
      (taken rest : List ℕ)
      → unread p.reader ≡ taken ++ rest
      → 0 < length taken
      → (r : BufferReader) × (expect false taken p ≡ Outcome.done tt (moved p r))
        × Moved p.reader r rest
  unfolding expect skip
  expect_lem taken rest e h = skip_lem taken rest e h

  pub peek_at :
      (n c : ℕ)
      → n < length (unread p.reader)
      → get_elem? (unread p.reader) n ≡ some c
      → peek n p ≡ Outcome.done c p
  unfolding peek
  peek_at n c h e =
      let (x, g, f) = peek_lem n p.reader v h in
      let same : x ≡ c = some-injective x c (sym g ∙ e) in rw f (ap (λ y. Outcome.done y p) same)

  pub peek_here : (c : ℕ) (rest : List ℕ) → unread p.reader ≡ c ∷ rest → peek 0 p ≡ Outcome.done c p
  peek_here c rest e = peek_at 0 c (omega (arith, ap length e)) (ap (λ xs. get_elem? xs 0) e)

  pub peek_next :
      (c d : ℕ) (rest : List ℕ) → unread p.reader ≡ c ∷ (d ∷ rest) → peek 1 p ≡ Outcome.done d p
  peek_next c d rest e = peek_at 1 d (omega (arith, ap length e)) (ap (λ xs. get_elem? xs 1) e)

  pub read_until_lem :
      (c : ℕ) (store : ℕ × TokenData → PacketParser → PacketParser) (pre rest : List ℕ)
      → unread p.reader ≡ pre ++ c ∷ rest
      → All (λ x. x ≢ c) pre
      → (td : TokenData) × (r : BufferReader) × (read_until c store p
          ≡ Outcome.done (length pre, td) (store (length pre, td) (moved p r)))
        × Moved p.reader r (c ∷ rest)
        × Denotes (shapes p.reader.blocks) td pre
  unfolding read_until
  read_until_lem c store pre rest e f =
      let (td, r, g, m, d) = read_until-Reads c p.reader v pre rest e f in
      (td, r, rw g refl, Reads-Moved p.reader r pre (c ∷ rest) 0 e m, d)

  pub skip_until_lem :
      (c : ℕ) (pre rest : List ℕ)
      → unread p.reader ≡ pre ++ c ∷ rest
      → All (λ x. x ≢ c) pre
      → (r : BufferReader) × (skip_until c p ≡ Outcome.done (length pre) (moved p r))
        × Moved p.reader r (c ∷ rest)
  unfolding skip_until
  skip_until_lem c pre rest e f =
      let (r, g, m) = skip_until-Reads c p.reader v pre rest e f in
      (r, rw g refl, Reads-Moved p.reader r pre (c ∷ rest) (length pre) e m)

  pub read_unsigned_lem :
      (store : ℕ → PacketParser → PacketParser) (digits : List ℕ) (c : ℕ) (rest : List ℕ)
      → unread p.reader ≡ digits ++ c ∷ rest
      → 0 < length digits
      → Digits digits
      → is_not_digit c ≡ true
      → (r : BufferReader) × (read_unsigned store p
          ≡ Outcome.done
              (decimal_from 0 digits % 2 ^ 64)
              (store (decimal_from 0 digits % 2 ^ 64) (moved p r)))
        × Moved p.reader r (c ∷ rest)
  unfolding read_unsigned
  read_unsigned_lem store digits c rest e h d n =
      let (r, g, m) = read_unsigned-Reads p.reader v digits c rest e h d n in
      (r, rw g refl, Reads-Moved p.reader r digits (c ∷ rest) (length digits) e m)

  pub read_bytes_lem :
      (store : TokenData → PacketParser → PacketParser) (taken rest : List ℕ)
      → unread p.reader ≡ taken ++ rest
      → 0 < length taken
      → (td : TokenData) × (r : BufferReader) × (read_bytes (length taken) store p
          ≡ Outcome.done td (store td (moved p r)))
        × Moved p.reader r rest
        × Denotes (shapes p.reader.blocks) td taken
  unfolding read_bytes
  read_bytes_lem store taken rest e h =
      let n = length taken in
      let same = ap (take n) e ∙ take-append_self taken rest in
      let (td, r, g, m, d) =
        read_bytes-Reads n p.reader v h (omega (arith, ap length e, length-append taken rest)) in
      (
        td,
        r,
        rw g refl,
        Reads-Moved p.reader r (take n (unread p.reader)) rest 0
            (e ∙ ap (λ xs. xs ++ rest) (sym same)) m,
        subst (Denotes (shapes p.reader.blocks) td) same d,
      )
