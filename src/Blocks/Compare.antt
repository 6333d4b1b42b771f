-- ===== src/Blocks/Compare.antt =====
-- The loops of `expectBytes` and `peek`.
use libmc.Prelude.{
  ℕ, zero, suc, ◌+◌, ◌-◌, ◌≤◌, ◌<◌, ◌≡◌, refl, sym, ap, ap₂, ◌∙◌, inl, inr, true, false, List, [],
  ◌∷◌, ◌++◌, Option, none, some, arith, ltb, ◌==◌, length, take, drop, get_elem?, All, Bool-cases,
  length-append, length-drop, take_all, take-append_le, take-append-drop, drop-append_self,
  get_elem?-append_left, get_elem?-append_right, get_elem?-drop, get_elem?-some, ◌>>=◌,
}
use libmc.DataBlock.{DataBlock, size, at}
use libmc.Blocks.{Target, later, strncmp_eq, Expected, expect_of, peek_of}
use libmc.Blocks.Content.{
  shapes, content, Covered, InRange, Packed, Packed-InRange, Walk, Walk-still, Walk-within,
  Walk-further,
}
use libmc.Blocks.Counted.{released, release_lem, take_within, take_further, length_further}

-- Equal bytes compare equal.
strncmp_eq_of_take :
    (p s : List ℕ) (n : ℕ)
    → n ≤ length p
    → n ≤ length s
    → take n p ≡ take n s
    → strncmp_eq p s n ≡ true
unfolding strncmp_eq
strncmp_eq_of_take p s zero h k e = refl
strncmp_eq_of_take [] s (suc n) h k e = absurd (omega arith)
strncmp_eq_of_take (x ∷ p) [] (suc n) h k e = absurd (omega arith)
strncmp_eq_of_take (x ∷ p) (y ∷ s) (suc n) h k e =
    ground (arith, strncmp_eq_of_take p s n (omega arith) (omega arith) (cc))

-- Without NUL bytes only equal ones do.
take_of_strncmp_eq :
    (p s : List ℕ) (n : ℕ)
    → All (λ c. 0 < c) s
    → n ≤ length p
    → n ≤ length s
    → strncmp_eq p s n ≡ true
    → take n p ≡ take n s
unfolding strncmp_eq
take_of_strncmp_eq p s zero z h k e = refl
take_of_strncmp_eq [] s (suc n) z h k e = absurd (omega arith)
take_of_strncmp_eq (x ∷ p) [] (suc n) z h k e = absurd (omega arith)
take_of_strncmp_eq (x ∷ p) (y ∷ s) (suc n) z h k e =
    ground (arith, take_of_strncmp_eq p s n z.1 (omega arith) (omega arith))

All-drop {ℓ κ} : {A : Type ℓ} (P : A → Type κ) (n : ℕ) (xs : List A) → All P xs → All P (drop n xs)
All-drop P zero xs h = h
All-drop P (suc n) [] h = h
All-drop P (suc n) (x ∷ xs) h = All-drop P n xs h.1

take_of_parts :
    (xs ys str : List ℕ) (n : ℕ) → xs ++ ys ≡ str → n ≡ length xs → take n str ≡ take n xs
take_of_parts xs ys str n e h = sym (ap (take n) e) ∙ take-append_le n xs ys (omega arith)

drop_of_parts : (xs ys str : List ℕ) (n : ℕ) → xs ++ ys ≡ str → n ≡ length xs → ys ≡ drop n str
drop_of_parts xs ys str n e h = rw (h, ← e) (sym (drop-append_self xs ys))

-- `expectBytes` over the bytes that it expects.
pub expect_of-Walk :
    (bs : List DataBlock) (off : ℕ) (str : List ℕ) (k : ℕ)
    → InRange (shapes bs) off
    → Packed (shapes bs)
    → Covered bs off
    → k ≡ length str
    → k ≤ length (content (shapes bs) off)
    → take k (content (shapes bs) off) ≡ str
    → (bs' : List DataBlock) × (t : Target) × (expect_of bs off str k
        ≡ some (record { agreed = true; blocks = bs'; target = t }))
      × Walk bs off bs' t (take k (content (shapes bs) off)) k
unfolding expect_of
expect_of-Walk [] off str zero r p c l h e = ([], _, refl, Walk-still [] off r c)
expect_of-Walk [] off str (suc k) r p c l h e = absurd (omega arith)
expect_of-Walk (b ∷ bs) off str zero r p c l h e = (b ∷ bs, _, refl, Walk-still (b ∷ bs) off r c)
expect_of-Walk (b ∷ bs) off str (suc k) r p c l h e =
    elim (Bool-cases (ltb (suc k) (size b - off))) [
      | inl short ↦
          let w = take_within b bs off (suc k) (ground arith) in
          let same =
            strncmp_eq_of_take (drop off b.data_) str (suc k)
              (ground (arith, length-drop off b.data_)) (omega arith)
              (sym w ∙ e ∙ sym (take_all (suc k) str (omega arith))) in
          (
            released (suc k) b ∷ bs,
            record { moved = 0; offset = off + suc k },
            rw (short, same, release_lem (suc k) b (ground arith)),
            rw w (
                Walk-within b _ bs off (suc k) (suc k) (ground arith) refl (ground arith)
                  (omega arith) c),
          )
      | inr long ↦
          let f = take_further b bs off (suc k) (ground arith) in
          let n : size b - off ≡ length (drop off b.data_) =
            omega (arith, length-drop off b.data_) in
          let same =
            strncmp_eq_of_take (drop off b.data_) str (size b - off) (omega arith) (ground arith)
              (sym (take_of_parts _ _ str (size b - off) (sym f ∙ e) n)) in
          let (bs', t, g, w) =
            expect_of-Walk bs 0 (drop (size b - off) str) (suc k - (size b - off))
              (Packed-InRange (shapes bs) p.1) p.1 c.1
              (omega (arith, length-drop (size b - off) str)) (length_further b bs off (suc k) h)
              (drop_of_parts _ _ str (size b - off) (sym f ∙ e) n) in
          (
            released (size b - off) b ∷ bs',
            later t,
            rw (long, same, release_lem (size b - off) b c.0, g),
            rw f (
                Walk-further b _ bs off (size b - off) (suc k) refl (omega arith) (ground arith) w),
          )
    ]

-- It returns, and what holds if all bytes agreed.
abbrev pub Accepts : Type 0 → Option Expected → Type 0
Accepts P none = ⊥
Accepts P (some e) = e.agreed ≡ true → P

pub Accepts-some :
    {P : Type 0} (o : Option Expected)
    → Accepts P o
    → (e : Expected) × (o ≡ some e) × (e.agreed ≡ true → P)
Accepts-some none a = absurd a
Accepts-some (some e) a = (e, refl, a)

-- What `expectBytes` accepts is what it expects; it never faults.
pub expect_of-Accepts :
    (bs : List DataBlock) (off : ℕ) (str : List ℕ) (k : ℕ)
    → InRange (shapes bs) off
    → Packed (shapes bs)
    → Covered bs off
    → All (λ c. 0 < c) str
    → k ≡ length str
    → k ≤ length (content (shapes bs) off)
    → Accepts (take k (content (shapes bs) off) ≡ str) (expect_of bs off str k)
unfolding expect_of
expect_of-Accepts [] off [] zero r p c z l h = λ _. refl
expect_of-Accepts [] off (x ∷ str) zero r p c z l h = absurd (omega arith)
expect_of-Accepts [] off str (suc k) r p c z l h = absurd (omega arith)
expect_of-Accepts (b ∷ bs) off [] zero r p c z l h = λ _. refl
expect_of-Accepts (b ∷ bs) off (x ∷ str) zero r p c z l h = absurd (omega arith)
expect_of-Accepts (b ∷ bs) off str (suc k) r p c z l h =
    elim (Bool-cases (ltb (suc k) (size b - off))) [
      | inl short ↦ elim (Bool-cases (strncmp_eq (drop off b.data_) str (suc k))) [
        | inl same ↦
            rw (short, same, release_lem (suc k) b (ground arith))
              λ _. rw (take_within b bs off (suc k) (ground arith)) (
                take_of_strncmp_eq (drop off b.data_) str (suc k) z
                  (ground (arith, length-drop off b.data_)) (omega arith) same
                ∙ take_all (suc k) str (omega arith))
        | inr other ↦ rw (short, other) λ bad. cc
      ]
      | inr long ↦ elim (Bool-cases (strncmp_eq (drop off b.data_) str (size b - off))) [
        | inl same ↦
            let (e, g, w) = Accepts-some _ (
              expect_of-Accepts bs 0 (drop (size b - off) str) (suc k - (size b - off))
                (Packed-InRange (shapes bs) p.1) p.1 c.1 (All-drop _ (size b - off) str z)
                (omega (arith, length-drop (size b - off) str))
                (length_further b bs off (suc k) h)) in
            rw (long, same, release_lem (size b - off) b c.0, g)
              λ ok. rw (take_further b bs off (suc k) (ground arith)) (
                ap₂ ◌++◌
                  (sym (
                      take_all (size b - off) (drop off b.data_)
                        (omega (arith, length-drop off b.data_)))
                    ∙ take_of_strncmp_eq (drop off b.data_) str (size b - off) z
                        (omega (arith, length-drop off b.data_)) (ground arith) same)
                  (w ok)
                ∙ take-append-drop (size b - off) str)
        | inr other ↦ rw (long, other) λ bad. cc
      ]
    ]

peek_here :
    (b : DataBlock) (bs : List DataBlock) (off k : ℕ)
    → off + k < size b
    → (at (off + k) b >>= λ c. some (some c)) ≡ some (get_elem? (content (shapes (b ∷ bs)) off) k)
unfolding at
peek_here b bs off k h =
    let (c, e) = get_elem?-some b.data_ (off + k) h in
    let here =
      get_elem?-append_left (drop off b.data_) (content (shapes bs) 0) k
        (omega (arith, length-drop off b.data_))
      ∙ get_elem?-drop off b.data_ k
      ∙ e in
    rw (here, e)

pub no_blocks :
    (bs : List DataBlock) (off : ℕ) → length bs ≡ 0 → length (content (shapes bs) off) ≡ 0
no_blocks [] off e = refl
no_blocks (b ∷ bs) off e = absurd (omega arith)

-- `peek` sees the byte at its offset, when there is one. `i` is the iterator of the first block;
-- no block stands behind the one that is written to.
pub peek_of-get_elem? :
    (bs : List DataBlock) (i write_iterator off k : ℕ)
    → InRange (shapes bs) off
    → Packed (shapes bs)
    → i + length bs ≤ write_iterator + 1
    → k < length (content (shapes bs) off)
    → peek_of bs i write_iterator off k ≡ some (get_elem? (content (shapes bs) off) k)
unfolding peek_of
peek_of-get_elem? [] i w off k r p l h = absurd (omega arith)
peek_of-get_elem? (b ∷ bs) i w off zero r p l h =
    let e : off + 0 ≡ off = omega arith in
    rw e at (
      peek_here b bs off 0 (
        ground (
          arith,
          length-append (drop off b.data_) (content (shapes bs) 0),
          length-drop off b.data_,
        )))
peek_of-get_elem? (b ∷ bs) i w off (suc k) r p l h =
    elim (Bool-cases (ltb (suc k) (size b - off))) [
      | inl short ↦ rw short (peek_here b bs off (suc k) (ground arith))
      | inr long ↦
          let more = length_further b bs off (suc (suc k)) h in
          let differ : (i == w) ≡ false = ground (arith, no_blocks bs 0) in
          let right =
            get_elem?-append_right (drop off b.data_) (content (shapes bs) 0) (suc k)
              (ground (arith, length-drop off b.data_)) in
          let n : length (drop off b.data_) ≡ size b - off =
            omega (arith, length-drop off b.data_) in
          rw (long, differ, right, n)
            (peek_of-get_elem? bs (suc i) w 0 (suc k - (size b - off))
              (Packed-InRange (shapes bs) p.1) p.1 (omega arith) (ground arith))
    ]
