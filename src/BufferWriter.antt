-- ===== src/BufferWriter.antt =====
-- src/BufferWriter.cpp: the pieces of a message that wait to be sent. An `iovec` is the list of the
-- bytes that it spans. Reading past the vector's end is `none`.
pub mod Stream
pub mod History
use libmc.Prelude.{
  ℕ, zero, suc, ◌+◌, ◌-◌, Bool, not, List, [], ◌∷◌, ◌++◌, Option, none, some, leb, ltb, ◌==◌,
  if◌then◌else◌, length, get_elem?, set, drop, ◌>>=◌,
}

pub record BufferWriter : Type 0 where
  pub iovec : List (List ℕ)
  pub original_iovec : List (List ℕ)
  pub unsigned_string_list : List (List ℕ)
  pub read_idx : ℕ
  pub msg_iovlen : ℕ

-- `BufferWriter()`, and what `reset` leaves.
abbrev pub empty : BufferWriter
empty = record {
  iovec = [];
  original_iovec = [];
  unsigned_string_list = [];
  read_idx = 0;
  msg_iovlen = 0;
}

abbrev pub reset : BufferWriter → BufferWriter
reset w = record w {
  iovec = [];
  original_iovec = [];
  unsigned_string_list = [];
  read_idx = 0;
  msg_iovlen = 0;
}

unfoldable pub take_buffer : List ℕ → BufferWriter → BufferWriter
take_buffer buf w = record w { iovec = w.iovec ++ buf ∷ []; msg_iovlen = w.msg_iovlen + 1 }

-- `int64ToCharArray` is RapidJSON's.
unfoldable pub take_number : {V : Type 0} → (V → List ℕ) → V → BufferWriter → BufferWriter
unfolding take_buffer
take_number int64_to_char_array val w =
    let buf = int64_to_char_array val in
    take_buffer buf (record w { unsigned_string_list = w.unsigned_string_list ++ buf ∷ [] })

-- The number of pieces, and the pieces behind the pointer, or the null pointer.
unfoldable pub get_read_ptr : BufferWriter → ℕ × Option (List (List ℕ))
get_read_ptr w = (w.msg_iovlen, if ltb 0 w.msg_iovlen then some (drop w.read_idx w.iovec) else none)

-- The loop of `commitRead`: the pieces sent whole. It leaves the two counters and `nSent`.
unfoldable pub skip_sent : List (List ℕ) → ℕ → ℕ → ℕ → Option (ℕ × ℕ × ℕ)
skip_sent iovec i zero n = some (i, 0, n)
skip_sent iovec i (suc k) n = do
  v ← get_elem? iovec i
  if leb (length v) n then skip_sent iovec (suc i) k (n - length v) else some (i, suc k, n)

abbrev pub is_empty : List (List ℕ) → Bool
is_empty vs = length vs == 0

unfoldable pub commit_read : ℕ → BufferWriter → Option BufferWriter
commit_read n w = do
  (i, k, m) ← skip_sent w.iovec w.read_idx w.msg_iovlen n
  if ltb 0 m
      then (do
        v ← get_elem? w.iovec i
        some (record w {
          iovec = set w.iovec i (drop m v);
          original_iovec = if is_empty w.original_iovec then w.iovec else w.original_iovec;
          read_idx = i;
          msg_iovlen = k;
        }))
      else some (record w { read_idx = i; msg_iovlen = k })

unfoldable pub rewind : BufferWriter → BufferWriter
rewind w = record w {
  read_idx = 0;
  msg_iovlen = length w.iovec;
  iovec = if is_empty w.original_iovec then w.iovec else w.original_iovec;
}

unfoldable pub is_read : BufferWriter → Bool
is_read w = not (w.read_idx == 0)
