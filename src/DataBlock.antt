-- ===== src/DataBlock.antt =====
-- src/DataBlock.cpp: a fixed array of bytes that is written from the front, and the count of its
-- bytes that somebody still refers to. `data` is the written part of `m_data`, so `m_size` is its
-- length; what lies behind it is not initialised, and no function reads it. A byte is a number.
-- A failed assertion is `none`.
use libmc.Prelude.{
  ℕ, suc, ◌+◌, ◌-◌, ◌&&◌, Bool, true, false, not, List, [], ◌∷◌, ◌++◌, Option, some, leb, ◌==◌,
  if◌then◌else◌, length, get_elem?, drop, ◌>>◌, assert,
}

pub record DataBlock : Type 0 where
  pub allocated : Bool
  pub data_ : List ℕ
  pub capacity : ℕ
  pub n_bytes_ref : ℕ

-- `DataBlock()`.
abbrev pub fresh : DataBlock
fresh = record { allocated = false; data_ = []; capacity = 0; n_bytes_ref = 0 }

abbrev pub size : DataBlock → ℕ
size b = length b.data_

-- A second call only logs an error.
unfoldable pub init : ℕ → DataBlock → DataBlock
init len b =
    if b.allocated
    then b
    else record { allocated = true; data_ = []; capacity = len; n_bytes_ref = 0 }

unfoldable pub reset : DataBlock → DataBlock
reset b = record b { data_ = []; n_bytes_ref = 0 }

unfoldable pub acquire : ℕ → DataBlock → DataBlock
acquire len b = record b { n_bytes_ref = b.n_bytes_ref + len }

unfoldable pub release : ℕ → DataBlock → Option DataBlock
release len b = do
  assert (leb len b.n_bytes_ref)
  some (record b { n_bytes_ref = b.n_bytes_ref - len })

-- The bytes are those that the caller has put at `getWritePtr()`.
unfoldable pub occupy : List ℕ → DataBlock → Option DataBlock
unfolding acquire
occupy bytes b = do
  assert (leb (size b + length bytes) b.capacity)
  some (record (acquire (length bytes) b) { data_ = b.data_ ++ bytes })

abbrev pub get_write_left : DataBlock → ℕ
get_write_left b = b.capacity - size b

unfoldable pub at : ℕ → DataBlock → Option ℕ
at offset b = get_elem? b.data_ offset

-- `std::find_if`, as the number of bytes before the first that passes the test.
unfoldable pub count_until : (ℕ → Bool) → List ℕ → ℕ
count_until test [] = 0
count_until test (c ∷ cs) = if test c then 0 else suc (count_until test cs)

-- `find` and `findNotNumeric`: the position of the first such byte from `since` on, or the size.
unfoldable pub find_if : (ℕ → Bool) → ℕ → DataBlock → ℕ
find_if test since b = since + count_until test (drop since b.data_)

abbrev pub is_not_digit : ℕ → Bool
is_not_digit c = not (leb b'0' c && leb c b'9')

unfoldable pub find : ℕ → ℕ → DataBlock → ℕ
unfolding find_if
find c = find_if (λ x. x == c)

unfoldable pub find_not_numeric : ℕ → DataBlock → ℕ
unfolding find_if
find_not_numeric = find_if is_not_digit

unfoldable pub reusable : DataBlock → Bool
reusable b = b.n_bytes_ref == 0
