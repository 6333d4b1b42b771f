-- ===== src/BufferReader/Prepare.antt =====
-- `prepareWriteBlock`: afterwards there is room to write, and the bytes to read are the same.
use libmc.Prelude.{
  ℕ, ◌+◌, ◌<◌, ◌≡◌, refl, sym, ap, ap₂, ◌∙◌, subst, true, false, inl, inr, [], ◌∷◌, ◌++◌, some,
  none, max, arith, ltb, ◌==◌, if◌then◌else◌, length, get_elem?, drop, All, All-append, Bool-cases,
  length-append, length-map, drop-append_le, split_last, get_elem?_last, get_elem?_end, drop_all,
}
use mathlib.Core.List.{map-append}
use libmc.DataBlock
use libmc.DataBlock.{DataBlock, init}
use libmc.Blocks.Content.{shape, shapes, content, Covered, InRange, Packed}
use libmc.Blocks.Growth.{
  All_last, Packed-push, All-IsFilled, content-push, Covered-push, InRange-push,
}
use libmc.BufferReader.{
  BufferReader, n_bytes_ref, ahead, past_full, push_block, init_cursor, prepare_write_block,
}
use libmc.BufferReader.Valid.{unread, HasRoom, IsFilled, IsValid, sum_refs-append}
use libmc.BufferReader.Place.{HasPlace, Prepared, finish, nil_of_length}

-- With bytes to read the cursor is not at the end.
cursor_inside : (r : BufferReader) → IsValid r → 0 < r.read_left → r.read_iterator < length r.blocks
cursor_inside r v more = elim (Bool-cases (ltb r.read_iterator (length r.blocks))) [
  | inl lt ↦ ground arith
  | inr ge ↦ absurd (
      ground (
        arith,
        v.left,
        ap (λ ss. length (content ss r.read_offset))
            (drop_all r.read_iterator (shapes r.blocks)
              (ground (arith, length-map r.blocks shape))),
      ))
]

module _ (r : BufferReader) (v : IsValid r) (cap : ℕ) (positive : 0 < cap)
    (all_filled : All IsFilled (shapes r.blocks)) where
  abbrev new_block : DataBlock
  new_block = record { allocated = true; data_ = []; capacity = cap; n_bytes_ref = 0 }

  abbrev pushed : BufferReader
  pushed = record r {
    blocks = r.blocks ++ new_block ∷ [];
    capacity = r.capacity + cap;
    write_iterator = length r.blocks;
    read_iterator =
        if r.read_iterator == length r.blocks then r.read_iterator + 1 else r.read_iterator;
  }

  push_block_lem : push_block cap r ≡ pushed
  unfolding push_block init
  push_block_lem = refl

  pushed_shapes : shapes pushed.blocks ≡ shapes r.blocks ++ ([], cap) ∷ []
  pushed_shapes = map-append shape r.blocks (new_block ∷ [])

  module _ (more : 0 < r.read_left) where
    inside : r.read_iterator < length r.blocks
    inside = cursor_inside r v more

    stays : pushed.read_iterator ≡ r.read_iterator
    stays = let e : (r.read_iterator == length r.blocks) ≡ false = ground (arith, inside) in rw e

    rest_eq :
        drop pushed.read_iterator (shapes pushed.blocks)
        ≡ drop r.read_iterator (shapes r.blocks) ++ ([], cap) ∷ []
    rest_eq =
        ap₂ drop stays pushed_shapes
        ∙ drop-append_le r.read_iterator (shapes r.blocks) (([], cap) ∷ [])
            (omega (arith, inside, length-map r.blocks shape))

    unread-pushed : unread pushed ≡ unread r
    unread-pushed =
        ap (λ ss. content ss r.read_offset) rest_eq
        ∙ content-push (drop r.read_iterator (shapes r.blocks)) cap r.read_offset

    pushed-IsValid : IsValid pushed
    pushed-IsValid = record {
      left = v.left ∙ sym (ap length unread-pushed);
      cursor_in = omega (arith, stays, inside, length-append r.blocks (new_block ∷ []));
      in_range =
          subst (λ ss. InRange ss r.read_offset) (sym rest_eq)
            (InRange-push (drop r.read_iterator (shapes r.blocks)) ([], cap) r.read_offset
              v.in_range (omega (arith, v.left)));
      packed =
          subst Packed (sym pushed_shapes) (Packed-push (shapes r.blocks) ([], cap) all_filled);
      room = subst (All HasRoom) (sym pushed_shapes) (
          All-append HasRoom (shapes r.blocks) (([], cap) ∷ []) v.room
            ((omega arith, positive), tt));
      covered =
          subst (λ bs. Covered bs r.read_offset)
            (sym (
              ap (λ k. drop k pushed.blocks) stays
              ∙ drop-append_le r.read_iterator r.blocks (new_block ∷ []) (omega (arith, inside))))
            (Covered-push (ahead r) new_block r.read_offset refl v.covered);
      last = omega (arith, length-append r.blocks (new_block ∷ []));
      write_in = omega (arith, length-append r.blocks (new_block ∷ []));
      filled = λ e. absurd (omega (arith, e, length-append r.blocks (new_block ∷ [])));
    }

  pushed-HasPlace : HasPlace pushed
  pushed-HasPlace = record {
    front = r.blocks;
    block = new_block;
    blocks_eq = refl;
    write_at = refl;
    write_left = omega (arith, positive);
    packed = subst Packed (sym pushed_shapes) (Packed-push (shapes r.blocks) ([], cap) all_filled);
    room = subst (All HasRoom) (sym pushed_shapes) (
        All-append HasRoom (shapes r.blocks) (([], cap) ∷ []) v.room ((omega arith, positive), tt));
    cursor = elim (Bool-cases (r.read_left == 0)) [
      | inl e ↦ inl (ground arith)
      | inr e ↦
          let more : 0 < r.read_left = ground arith in
          inr (pushed-IsValid more, omega (arith, stays more, inside more))
    ];
  }

  refs-pushed : n_bytes_ref pushed ≡ n_bytes_ref r
  unfolding n_bytes_ref
  refs-pushed = omega (arith, sum_refs-append r.blocks (new_block ∷ []))

  same-pushed : IsValid pushed → unread pushed ≡ unread r
  same-pushed w = elim (Bool-cases (r.read_left == 0)) [
    | inl e ↦
        nil_of_length (unread pushed) (ground (arith, w.left))
        ∙ sym (nil_of_length (unread r) (ground (arith, v.left)))
    | inr e ↦ unread-pushed (ground arith)
  ]

  push-Prepared :
      (len : ℕ)
      → (n : ℕ) × (r' : BufferReader) × (init_cursor len (push_block cap r) ≡ some (n, r'))
        × Prepared r len n r'
  push-Prepared len = rw push_block_lem (
      finish r pushed len pushed-HasPlace (λ e. nil_of_length (unread r) (omega (arith, v.left, e)))
        same-pushed refs-pushed)

past_full_end :
    (r : BufferReader) → get_elem? r.blocks r.write_iterator ≡ none → past_full r ≡ r.write_iterator
unfolding past_full
past_full_end r e = rw (e, past_full)

past_full-some :
    (r : BufferReader) (b : DataBlock)
    → get_elem? r.blocks r.write_iterator ≡ some b
    → past_full r
      ≡ (if DataBlock.get_write_left b == 0 then r.write_iterator + 1 else r.write_iterator)
unfolding past_full
past_full-some r b e = rw (e, past_full)

-- In a valid reader, for at least one byte, `prepareWriteBlock` succeeds. It leaves the write
-- iterator at a last block with room, allows the lesser of this room and the number asked for,
-- and changes neither the bytes to read nor the references.
pub prepare_write_block-Prepared :
    (min_capacity len : ℕ) (r : BufferReader)
    → IsValid r
    → 0 < len
    → (n : ℕ) × (r' : BufferReader) × (prepare_write_block min_capacity len r ≡ some (n, r'))
      × Prepared r len n r'
unfolding prepare_write_block
prepare_write_block-Prepared m len r v h =
    elim (Bool-cases (ltb r.write_iterator (length r.blocks))) [
      | inr at_end ↦
          let e : r.write_iterator ≡ length r.blocks = ground (arith, v.write_in) in
          let past = get_elem?_end r.blocks r.write_iterator (omega (arith, e)) in
          rw (prepare_write_block, past_full_end r past, past)
            (push-Prepared r v (max len m) (omega arith) (v.filled e) len)
      | inl lt ↦
          let (front, b, e, l) = split_last r.blocks r.write_iterator (ground arith) v.last in
          let at = ap₂ get_elem? e (sym l) ∙ get_elem?_last front b in
          let shapes_eq = ap shapes e ∙ map-append shape front (b ∷ []) in
          elim (Bool-cases (DataBlock.get_write_left b == 0)) [
            | inl full ↦
                let past =
                  get_elem?_end r.blocks (r.write_iterator + 1)
                    (omega (arith, ap length e, length-append front (b ∷ []), l)) in
                let fit =
                  All_last HasRoom (shapes front) (shape b)
                    (subst (All HasRoom) shapes_eq v.room) in
                rw (prepare_write_block, past_full-some r b at, full, past)
                  (push-Prepared r v (max len m) (omega arith)
                    (subst (All IsFilled) (sym shapes_eq) (
                      All-IsFilled (shapes front) (shape b) (subst Packed shapes_eq v.packed)
                        (ground (arith, fit.0, fit.1))))
                    len)
            | inr roomy ↦
                let stay : past_full r ≡ r.write_iterator = past_full-some r b at ∙ rw roomy in
                let some_room : ltb 0 (DataBlock.get_write_left b) ≡ true = ground arith in
                let place : HasPlace r = record {
                  front = front;
                  block = b;
                  blocks_eq = e;
                  write_at = sym l;
                  write_left = ground arith;
                  packed = v.packed;
                  room = v.room;
                  cursor = elim (Bool-cases (r.read_left == 0)) [
                    | inl z ↦ inl (ground arith)
                    | inr z ↦
                        let in_front = cursor_inside r v (ground arith) in
                        inr (v, omega (arith, in_front, ap length e, length-append front (b ∷ [])))
                  ];
                } in
                rw (prepare_write_block, stay, at, some_room)
                  (subst
                    (λ w.
                      (n : ℕ) × (r' : BufferReader) × (init_cursor len
                          (record r { write_iterator = w })
                        ≡ some (n, r'))
                      × Prepared r len n r')
                    (sym stay)
                    (finish r r len place (λ z. nil_of_length (unread r) (omega (arith, v.left, z)))
                      (λ _. refl) refl))
          ]
    ]
