-- ===== src/Result/Views.antt =====
-- What `inner` gives of a result whose tokens stand for some bytes.
use libmc.Prelude.{
  ℕ, ◌+◌, ◌-◌, ◌%◌, ◌^◌, ◌<◌, ◌≡◌, refl, ap, ◌∙◌, List, [], ◌∷◌, Option, some, none, arith, length,
}
use libmc.DataBlock.{DataBlock}
use libmc.Blocks.{TokenData}
use libmc.Blocks.Content.{shapes}
use libmc.Blocks.Slices.{Denotes}
use libmc.Tokens.{parse_token_data}
use libmc.Tokens.Text.{parse_token_data-Denotes}
use libmc.Result.{RetrievalResult, RetrievalView, LineResult, fill, retrieval_inner, line_inner}

-- A pointer to the bytes: NULL when there is none.
abbrev pub pointer : List ℕ → Option (List ℕ)
pointer [] = none
pointer (c ∷ cs) = some (c ∷ cs)

parse_token_data-pointer :
    (bs : List DataBlock) (td : TokenData) (bytes : List ℕ) (n : ℕ)
    → n ≡ length bytes
    → Denotes (shapes bs) td bytes
    → parse_token_data bs td n ≡ some (pointer bytes)
unfolding parse_token_data
parse_token_data-pointer bs [] [] n e d = rw e refl
parse_token_data-pointer bs (s ∷ []) [] n e d = rw e refl
parse_token_data-pointer bs (s ∷ s' ∷ td) [] n e d = rw e refl
parse_token_data-pointer bs td (c ∷ cs) n e d =
    ap (parse_token_data bs td) e ∙ parse_token_data-Denotes bs td (c ∷ cs) (omega arith) d

fill-pointer :
    (bytes : List ℕ) (parsed : Option (Option (List ℕ)))
    → parsed ≡ some (pointer bytes)
    → fill (pointer bytes) parsed ≡ some (pointer bytes)
unfolding fill
fill-pointer [] parsed e = e
fill-pointer (c ∷ cs) parsed e = refl

-- What a client sees of a result.
abbrev pub view : RetrievalResult → List ℕ → List ℕ → RetrievalView
view k key value = record {
  key = pointer key;
  data_block = pointer value;
  cas_unique = k.cas_unique;
  bytes = k.bytes;
  flags = k.flags;
  key_len = k.key_len;
}

-- If the tokens of a result that has not been viewed stand for a key and a value, and its lengths are
-- theirs, then `RetrievalResult::inner` gives the key and the value (NULL for an empty one) with the
-- result's flags, cas and lengths, and so does every later call.
pub retrieval_inner-Denotes :
    (bs : List DataBlock) (k : RetrievalResult) (key value : List ℕ)
    → k.inner_key ≡ none
    → k.inner_data_block ≡ none
    → Denotes (shapes bs) k.key key
    → Denotes (shapes bs) k.data_block value
    → k.key_len ≡ length key
    → k.bytes ≡ length value
    → (k' : RetrievalResult) × (retrieval_inner bs k ≡ some (view k key value, k'))
      × (retrieval_inner bs k' ≡ some (view k key value, k'))
unfolding retrieval_inner fill
retrieval_inner-Denotes bs k key value a b d e l m =
    let p = parse_token_data-pointer bs k.key key k.key_len l d in
    let q = parse_token_data-pointer bs k.data_block value k.bytes m e in
    (
      record k { inner_key = pointer key; inner_data_block = pointer value },
      rw (a, b, p, q) refl,
      rw (fill-pointer key _ p, fill-pointer value _ q) refl,
    )

-- If the token of a line that has not been viewed stands for some bytes, as many as the line's
-- length, and there is one and fewer than 2 ^ 64, then `LineResult::inner` gives the bytes and
-- their number less one, and so does every later call.
pub line_inner-Denotes :
    (bs : List DataBlock) (l : LineResult) (line : List ℕ)
    → l.inner ≡ none
    → Denotes (shapes bs) l.line line
    → l.line_len ≡ length line
    → 0 < length line
    → length line < 2 ^ 64
    → (l' : LineResult) × (line_inner bs l ≡ some (length line - 1, pointer line, l'))
      × (line_inner bs l' ≡ some (length line - 1, pointer line, l'))
unfolding line_inner fill
line_inner-Denotes bs l line a d m h s =
    let p = parse_token_data-pointer bs l.line line l.line_len m d in
    let n : (l.line_len + (2 ^ 64 - 1)) % 2 ^ 64 ≡ length line - 1 = ground (arith, m, h, s) in
    (record l { inner = pointer line }, rw (a, p, n) refl, rw (fill-pointer line _ p, n) refl)
