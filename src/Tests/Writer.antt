-- ===== src/Tests/Writer.antt =====
-- A request to send and keys, and the theorems on BufferWriter, the FNV hashes and keys at them.
use libmc.Prelude.{List, ◌≡◌, ◌<◌, refl, true, false, [], ◌∷◌, some, arith, inr, ◌≤◌, ◌↔◌, All, ◌^◌}
use libmc.BufferWriter.Stream
use libmc.BufferWriter.{BufferWriter, empty, take_buffer, commit_read, skip_sent, rewind}
use libmc.BufferWriter.History.{Sends, take_buffers, rewind-concat}
use libmc.BufferWriter.Stream.{Sent, commit_read-Sent, message, pending, take_buffer-pending}
use libmc.Hashkit.Fnv.{hash_fnv1_32, hash_fnv1a_32}
use libmc.Hashkit.Fnv.Laws.{hash_fnv_lem}
use libmc.Common.{split_server_string}
use libmc.Common.Split
use libmc.Prelude.{ℕ}
use libmc.Common.Split.{split_server_string_lem}
use libmc.Prelude.{◌==◌, ◌||◌}
use libmc.Utility.{IsPlain, is_valid_key, is_valid_key_iff}

-- "get", " " and "k" wait to be sent, the first piece cut by an earlier send of one byte.
abbrev request : BufferWriter
request = record {
  iovec = (101 ∷ 116 ∷ []) ∷ (32 ∷ []) ∷ (107 ∷ []) ∷ [];
  original_iovec = (103 ∷ 101 ∷ 116 ∷ []) ∷ (32 ∷ []) ∷ (107 ∷ []) ∷ [];
  unsigned_string_list = [];
  read_idx = 0;
  msg_iovlen = 3;
}

request-IsValid : Stream.IsValid request
request-IsValid = record { counts = refl; kept = inr refl }

commit_read-Sent_example :
    (w' : BufferWriter) × (commit_read 3 request ≡ some w') × Sent 3 request w'
commit_read-Sent_example = commit_read-Sent 3 request request-IsValid (omega arith)

-- "get", " " and "k" are taken, four bytes are sent, the writer is rewound, and one byte is sent.
abbrev pieces : List (List ℕ)
pieces = (103 ∷ 101 ∷ 116 ∷ []) ∷ (32 ∷ []) ∷ (107 ∷ []) ∷ []

abbrev half_sent : BufferWriter
half_sent = record {
  iovec = (101 ∷ 116 ∷ []) ∷ (32 ∷ []) ∷ (107 ∷ []) ∷ [];
  original_iovec = pieces;
  unsigned_string_list = [];
  read_idx = 0;
  msg_iovlen = 3;
}

half_sent-Sends : Sends (take_buffers pieces empty) half_sent
unfolding take_buffer commit_read skip_sent rewind
half_sent-Sends =
    Sends.sends (Sends.rewinds (Sends.sends Sends.start 4 (omega arith) refl)) 1 (omega arith) refl

rewind-concat_example :
    Stream.IsValid (rewind half_sent)
    × (pending (rewind half_sent) ≡ 103 ∷ 101 ∷ 116 ∷ 32 ∷ 107 ∷ [])
rewind-concat_example = rewind-concat pieces half_sent half_sent-Sends

hash_fnv_lem_example :
    (hash_fnv1_32 true (107 ∷ 49 ∷ []) ≡ hash_fnv1_32 false (107 ∷ 49 ∷ []))
    × (hash_fnv1a_32 true (107 ∷ 49 ∷ []) ≡ hash_fnv1a_32 false (107 ∷ 49 ∷ []))
    × (hash_fnv1_32 true (107 ∷ 49 ∷ []) < 2 ^ 32)
    × (hash_fnv1a_32 true (107 ∷ 49 ∷ []) < 2 ^ 32)
hash_fnv_lem_example = hash_fnv_lem true (107 ∷ 49 ∷ []) (omega arith, (omega arith, tt))

is_valid_key_iff_example :
    (is_valid_key (107 ∷ 32 ∷ []) ≡ true) ↔ ((2 ≤ 250) × All IsPlain (107 ∷ 32 ∷ []))
is_valid_key_iff_example = is_valid_key_iff (107 ∷ 32 ∷ [])

plain : (c : ℕ) → (c == 0 || c == 58 || c == 92 || c == 32) ≡ false → Split.IsPlain c
plain c h = (ground arith, ground arith, ground arith, ground arith)

-- "ab:1 c".
split_server_string_lem_example :
    split_server_string (97 ∷ 98 ∷ 58 ∷ 49 ∷ 32 ∷ 99 ∷ 0 ∷ [])
    ≡ some (97 ∷ 98 ∷ 0 ∷ 49 ∷ 0 ∷ 99 ∷ 0 ∷ [], record { host = 0; port = some 3; alias = some 5 })
split_server_string_lem_example =
    split_server_string_lem (97 ∷ 98 ∷ []) (49 ∷ []) (99 ∷ []) (plain 97 refl, (plain 98 refl, tt))
      (plain 49 refl, tt) (plain 99 refl, tt)
