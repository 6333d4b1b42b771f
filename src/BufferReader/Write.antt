-- ===== src/BufferReader/Write.antt =====
-- `write`: the bytes come behind those that are still to be read.
use libmc.Prelude.{
  ℕ, zero, suc, ◌+◌, ◌≤◌, ◌<◌, ◌≡◌, refl, sym, ap, ◌∙◌, List, [], ◌∷◌, ◌++◌, some, arith, length,
  take, drop, append-nil, append_assoc, length-append, length-take, length-drop, take-append-drop,
}
use libmc.DataBlock
use libmc.BufferReader.{BufferReader, n_bytes_ref, write_loop, write}
use libmc.BufferReader.Commit.{after, commit_write_lem, unread-after, after-IsValid, refs-after}
use libmc.BufferReader.Prepare.{prepare_write_block-Prepared}
use libmc.BufferReader.Valid.{unread, IsValid}

-- What a write of the bytes leaves.
pub record Wrote (r r' : BufferReader) (bytes : List ℕ) : Type 0 where
  pub valid : IsValid r'
  pub holds : unread r' ≡ unread r ++ bytes
  pub refs : n_bytes_ref r' ≡ n_bytes_ref r + length bytes

write_loop-Wrote :
    (fuel min_capacity : ℕ) (bytes : List ℕ) (r : BufferReader)
    → IsValid r
    → length bytes ≤ fuel
    → (r' : BufferReader) × (write_loop fuel min_capacity bytes r ≡ some r') × Wrote r r' bytes
unfolding write_loop
write_loop-Wrote fuel m [] r v h =
    (r, refl, record { valid = v; holds = sym (append-nil (unread r)); refs = omega arith })
write_loop-Wrote zero m (x ∷ xs) r v h = absurd (omega arith)
write_loop-Wrote (suc fuel) m (x ∷ xs) r v h =
    let bytes = x ∷ xs in
    let (n, q, e, p) = prepare_write_block-Prepared m (length bytes) r v (omega arith) in
    let c = p.can_write in
    let l = length-take n bytes in
    let some_bytes : 0 < length (take n bytes) = omega (arith, p.places, c.write_left, l) in
    let fits : length (take n bytes) ≤ DataBlock.get_write_left c.block =
      omega (arith, p.places, l) in
    let q' = after q c (take n bytes) some_bytes fits in
    let (r', f, w) =
      write_loop-Wrote fuel m (drop n bytes) q' (after-IsValid q c (take n bytes) some_bytes fits)
        (omega (arith, length-drop n bytes, some_bytes, l)) in
    (
      r',
      rw (e, commit_write_lem q c (take n bytes) some_bytes fits, f),
      record {
        valid = w.valid;
        holds =
            w.holds
            ∙ ap (λ d. d ++ drop n bytes)
                (unread-after q c (take n bytes) some_bytes fits
                  ∙ ap (λ d. d ++ take n bytes) p.same)
            ∙ append_assoc (unread r) (take n bytes) (drop n bytes)
            ∙ ap (λ d. unread r ++ d) (take-append-drop n bytes);
        refs = omega (
          arith,
          w.refs,
          refs-after q c (take n bytes) some_bytes fits,
          p.refs,
          ap length (take-append-drop n bytes),
          length-append (take n bytes) (drop n bytes),
        );
      },
    )

-- In a valid reader `write` ends with no fault, whatever the smallest capacity of a block is, and
-- leaves a valid reader: its bytes to read are those before and then the bytes written, each of
-- which counts as one more reference.
pub write-Wrote :
    (min_capacity : ℕ) (bytes : List ℕ) (r : BufferReader)
    → IsValid r
    → (r' : BufferReader) × (write min_capacity bytes r ≡ some r') × Wrote r r' bytes
unfolding write
write-Wrote m bytes r v = write_loop-Wrote (length bytes) m bytes r v (omega arith)
