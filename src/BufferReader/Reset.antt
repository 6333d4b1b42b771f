-- ===== src/BufferReader/Reset.antt =====
-- `reset`.
use libmc.Prelude.{
  ℕ, ◌+◌, ◌-◌, ◌≤◌, ◌≡◌, refl, ap, ◌∙◌, length-take, inr, List, [], ◌∷◌, map, arith, length, take,
  drop, All,
}
use libmc.DataBlock
use libmc.DataBlock.{DataBlock}
use libmc.Blocks.Content.{shapes}
use libmc.BufferReader.{BufferReader, n_bytes_ref, empty, capacity_after_reset, reset}
use libmc.BufferReader.Valid.{unread, HasRoom, IsValid}

-- The sum of the blocks' capacities.
abbrev pub sum_capacities : List DataBlock → ℕ
sum_capacities [] = 0
sum_capacities (b ∷ bs) = b.capacity + sum_capacities bs

capacity_after_reset_lem :
    (rest : ℕ) (bs : List DataBlock) → capacity_after_reset (rest + sum_capacities bs) bs ≡ rest
unfolding capacity_after_reset
capacity_after_reset_lem rest [] = omega arith
capacity_after_reset_lem rest (b ∷ bs) =
    let e : rest + sum_capacities (b ∷ bs) - b.capacity ≡ rest + sum_capacities bs = omega arith in
    rw e (capacity_after_reset_lem rest bs)

reset_blocks-IsValid :
    (c p : ℕ) (bs : List DataBlock)
    → All HasRoom (shapes bs)
    → IsValid (record {
      blocks = take 1 (map DataBlock.reset bs);
      capacity = c;
      size = 0;
      read_left = 0;
      read_iterator = 0;
      read_offset = 0;
      write_iterator = 0;
      next_prefered_size = p;
    })
unfolding DataBlock.reset
reset_blocks-IsValid c p [] h = record {
  left = refl;
  cursor_in = omega arith;
  in_range = refl;
  packed = tt;
  room = tt;
  covered = tt;
  last = omega arith;
  write_in = omega arith;
  filled = λ e. tt;
}
reset_blocks-IsValid c p (b ∷ bs) h = record {
  left = refl;
  cursor_in = omega arith;
  in_range = inr (refl, refl);
  packed = (inr refl, tt);
  room = ((omega arith, h.0.1), tt);
  covered = (omega arith, tt);
  last = omega arith;
  write_in = omega arith;
  filled = λ e. absurd (omega (arith, e));
}

reset_blocks-unread :
    (bs : List DataBlock)
    → (unread (reset (record empty { blocks = bs })) ≡ [])
      × (n_bytes_ref (reset (record empty { blocks = bs })) ≡ 0)
unfolding reset DataBlock.reset n_bytes_ref
reset_blocks-unread [] = (refl, refl)
reset_blocks-unread (b ∷ bs) = (refl, refl)

reset_capacity :
    (bs : List DataBlock)
    → capacity_after_reset (sum_capacities bs) (drop 1 bs)
      ≡ sum_capacities (take 1 (map DataBlock.reset bs))
unfolding DataBlock.reset capacity_after_reset
reset_capacity [] = refl
reset_capacity (b ∷ bs) = capacity_after_reset_lem b.capacity bs ∙ omega arith

-- A valid reader whose capacity is the sum of its blocks' is so after `reset`; it keeps one block at
-- most, nothing is left to read, and no reference is counted.
pub reset-IsValid :
    (r : BufferReader)
    → IsValid r
    → r.capacity ≡ sum_capacities r.blocks
    → IsValid (reset r)
      × ((reset r).capacity ≡ sum_capacities (reset r).blocks)
      × (unread (reset r) ≡ [])
      × (n_bytes_ref (reset r) ≡ 0)
      × (length (reset r).blocks ≤ 1)
unfolding reset n_bytes_ref
reset-IsValid r v e = (
  reset_blocks-IsValid (reset r).capacity r.next_prefered_size r.blocks v.room,
  ap (λ c. capacity_after_reset c (drop 1 r.blocks)) e ∙ reset_capacity r.blocks,
  (reset_blocks-unread r.blocks).0,
  (reset_blocks-unread r.blocks).1,
  omega (arith, length-take 1 (map DataBlock.reset r.blocks)),
)
