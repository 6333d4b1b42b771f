-- ===== src/Tests/Reader.antt =====
-- Concrete readers, and the theorems on BufferReader at them.
use libmc.Prelude.{ℕ, ◌≡◌, refl, true, [], ◌∷◌, some, arith, inl, length, get_elem?, ◌>>=◌}
use libmc.Types.{ErrCode}
use libmc.DataBlock
use libmc.DataBlock.{DataBlock}
use libmc.Blocks.{TokenData}
use libmc.Blocks.Content.{shapes}
use libmc.Blocks.Slices.{Denotes}
use libmc.BufferReader.{
  BufferReader, commit_write, empty, prepare_write_block, read_bytes, read_unsigned, read_until,
  write,
}
use libmc.BufferReader.Commit.{CanWrite}
use libmc.BufferReader.Counted.{read_bytes-Reads}
use libmc.BufferReader.Early.{commit_write_early}
use libmc.BufferReader.Place.{Prepared}
use libmc.BufferReader.Prepare.{prepare_write_block-Prepared}
use libmc.BufferReader.RoundTrip.{write-read_bytes}
use libmc.BufferReader.Unsigned.{decimal_from, read_unsigned-Reads}
use libmc.BufferReader.Until.{read_until-Reads}
use libmc.BufferReader.Valid.{unread, IsValid, Reads}
use libmc.BufferReader.{n_bytes_ref, reset}
use libmc.BufferReader.Reset.{reset-IsValid, sum_capacities}
use libmc.Prelude.{◌≤◌}
use libmc.BufferReader.Write.{Wrote, write-Wrote}

-- "12" in a block that is full, and "3\r\n" in one with room for two more bytes.
abbrev number_line : BufferReader
number_line = record {
  blocks =
      record { allocated = true; data_ = 49 ∷ 50 ∷ []; capacity = 2; n_bytes_ref = 2 }
      ∷ record { allocated = true; data_ = 51 ∷ 13 ∷ 10 ∷ []; capacity = 5; n_bytes_ref = 3 }
      ∷ [];
  capacity = 7;
  size = 5;
  read_left = 5;
  read_iterator = 0;
  read_offset = 0;
  write_iterator = 1;
  next_prefered_size = 0;
}

number_line-IsValid : IsValid number_line
number_line-IsValid = record {
  left = refl;
  cursor_in = omega arith;
  in_range = inl (omega arith);
  packed = (inl (omega arith), (inl (omega arith), tt));
  room = ((omega arith, omega arith), ((omega arith, omega arith), tt));
  covered = (omega arith, (omega arith, tt));
  last = omega arith;
  write_in = omega arith;
  filled = λ h. absurd (omega (arith, h));
}

abbrev number_line-CanWrite : CanWrite number_line
number_line-CanWrite = record {
  valid = number_line-IsValid;
  front = record { allocated = true; data_ = 49 ∷ 50 ∷ []; capacity = 2; n_bytes_ref = 2 } ∷ [];
  block = record { allocated = true; data_ = 51 ∷ 13 ∷ 10 ∷ []; capacity = 5; n_bytes_ref = 3 };
  blocks_eq = refl;
  write_at = refl;
  cursor_le = omega arith;
  write_left = omega arith;
}

empty-IsValid : IsValid empty
empty-IsValid = record {
  left = refl;
  cursor_in = omega arith;
  in_range = refl;
  packed = tt;
  room = tt;
  covered = tt;
  last = omega arith;
  write_in = omega arith;
  filled = λ h. tt;
}

write-Wrote_example :
    (r' : BufferReader) × (write 4 (65 ∷ 66 ∷ 67 ∷ []) number_line ≡ some r')
    × Wrote number_line r' (65 ∷ 66 ∷ 67 ∷ [])
write-Wrote_example = write-Wrote 4 (65 ∷ 66 ∷ 67 ∷ []) number_line number_line-IsValid

write-read_bytes_example :
    (td : TokenData) × (r' : BufferReader) × ((do
      q ← write 2 (65 ∷ 66 ∷ 67 ∷ []) empty
      read_bytes 3 q)
      ≡ some (ErrCode.ok, td, r'))
    × Denotes (shapes r'.blocks) td (65 ∷ 66 ∷ 67 ∷ [])
    × IsValid r'
    × (unread r' ≡ [])
write-read_bytes_example =
    write-read_bytes 2 (65 ∷ 66 ∷ 67 ∷ []) empty empty-IsValid refl (omega arith)

read_unsigned-Reads_example :
    (r' : BufferReader) × (read_unsigned number_line ≡ some (ErrCode.ok, 123, r'))
    × Reads number_line r' (49 ∷ 50 ∷ 51 ∷ []) 3
unfolding decimal_from
read_unsigned-Reads_example =
    read_unsigned-Reads number_line number_line-IsValid (49 ∷ 50 ∷ 51 ∷ []) 13 (10 ∷ []) refl
      (omega arith) (refl, (refl, (refl, tt))) refl

-- "12" alone: the number may go on.
abbrev number_start : BufferReader
number_start = record number_line {
  blocks = record { allocated = true; data_ = 49 ∷ 50 ∷ []; capacity = 2; n_bytes_ref = 2 } ∷ [];
  capacity = 2;
  size = 2;
  read_left = 2;
  write_iterator = 0;
}

number_start-IsValid : IsValid number_start
number_start-IsValid = record {
  left = refl;
  cursor_in = omega arith;
  in_range = inl (omega arith);
  packed = (inl (omega arith), tt);
  room = ((omega arith, omega arith), tt);
  covered = (omega arith, tt);
  last = omega arith;
  write_in = omega arith;
  filled = λ h. absurd (omega (arith, h));
}

-- The same blocks behind the number: "\r\n" is to be read.
abbrev line_end : BufferReader
line_end = record number_line { read_left = 2; read_iterator = 1; read_offset = 1 }

line_end-IsValid : IsValid line_end
line_end-IsValid = record {
  left = refl;
  cursor_in = omega arith;
  in_range = inl (omega arith);
  packed = (inl (omega arith), (inl (omega arith), tt));
  room = ((omega arith, omega arith), ((omega arith, omega arith), tt));
  covered = (omega arith, tt);
  last = omega arith;
  write_in = omega arith;
  filled = λ h. absurd (omega (arith, h));
}

read_until-Reads_example :
    (td : TokenData) × (r' : BufferReader) × (read_until 13 number_line
      ≡ some (ErrCode.ok, 3, td, r'))
    × Reads number_line r' (49 ∷ 50 ∷ 51 ∷ []) 0
    × Denotes (shapes number_line.blocks) td (49 ∷ 50 ∷ 51 ∷ [])
read_until-Reads_example =
    read_until-Reads 13 number_line number_line-IsValid (49 ∷ 50 ∷ 51 ∷ []) (10 ∷ []) refl (
      (λ e. absurd (omega (arith, e))),
      ((λ e. absurd (omega (arith, e))), ((λ e. absurd (omega (arith, e))), tt)),
    )

read_bytes-Reads_example :
    (td : TokenData) × (r' : BufferReader) × (read_bytes 4 number_line ≡ some (ErrCode.ok, td, r'))
    × Reads number_line r' (49 ∷ 50 ∷ 51 ∷ 13 ∷ []) 0
    × Denotes (shapes number_line.blocks) td (49 ∷ 50 ∷ 51 ∷ 13 ∷ [])
read_bytes-Reads_example =
    read_bytes-Reads 4 number_line number_line-IsValid (omega arith) (omega arith)

prepare_write_block-Prepared_example :
    (n : ℕ) × (r' : BufferReader) × (prepare_write_block 8192 3 number_line ≡ some (n, r'))
    × Prepared number_line 3 n r'
prepare_write_block-Prepared_example =
    prepare_write_block-Prepared 8192 3 number_line number_line-IsValid (omega arith)

commit_write_early_example :
    (r' : BufferReader) × (b : DataBlock) × (commit_write (65 ∷ []) number_line ≡ some r')
    × (r'.write_iterator ≡ length r'.blocks)
    × (get_elem? r'.blocks 1 ≡ some b)
    × (DataBlock.get_write_left b ≡ 1)
commit_write_early_example =
    commit_write_early (65 ∷ []) number_line number_line-CanWrite (omega arith) (omega arith)

reset-IsValid_example :
    IsValid (reset number_line)
    × ((reset number_line).capacity ≡ sum_capacities (reset number_line).blocks)
    × (unread (reset number_line) ≡ [])
    × (n_bytes_ref (reset number_line) ≡ 0)
    × (length (reset number_line).blocks ≤ 1)
reset-IsValid_example = reset-IsValid number_line number_line-IsValid refl
