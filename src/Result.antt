-- ===== src/Result.antt =====
-- The results that the parser collects: include/Result.h and src/Result.cpp. A token's blocks are the
-- reader's, and are passed to the methods that acquire, release or read them. A fault is `none`.
pub mod Views
pub mod Lifetime
use libmc.Prelude.{ℕ, ◌+◌, ◌-◌, ◌%◌, ◌^◌, List, [], ◌∷◌, Option, none, some, ◌>>=◌}
use libmc.Types.{MessageResultType}
use libmc.DataBlock.{DataBlock}
use libmc.Blocks.{TokenData}
use libmc.Tokens.{copy_token_data, free_token_data, parse_token_data}

-- `inner_key` and `inner_data_block` are the pointers `m_inner.key` and `m_inner.data_block`; the
-- other fields of `m_inner` are written before each use.
pub record RetrievalResult : Type 0 where
  pub key : TokenData
  pub data_block : TokenData
  pub cas_unique : ℕ
  pub bytes_remain : ℕ
  pub bytes : ℕ
  pub flags : ℕ
  pub key_len : ℕ
  pub inner_key : Option (List ℕ)
  pub inner_data_block : Option (List ℕ)

-- `RetrievalResult()`.
abbrev pub new_retrieval : RetrievalResult
new_retrieval = record {
  key = [];
  data_block = [];
  cas_unique = 0;
  bytes_remain = 1;
  bytes = 0;
  flags = 0;
  key_len = 0;
  inner_key = none;
  inner_data_block = none;
}

-- `RetrievalResult(other)`.
unfoldable pub copy_retrieval :
    List DataBlock → RetrievalResult → Option (List DataBlock × RetrievalResult)
copy_retrieval bs other = do
  (bs1, key) ← copy_token_data bs other.key []
  (bs2, data_block) ← copy_token_data bs1 other.data_block []
  some (
    bs2,
    record other { key = key; data_block = data_block; inner_key = none; inner_data_block = none },
  )

-- `~RetrievalResult()`.
unfoldable pub destroy_retrieval : List DataBlock → RetrievalResult → Option (List DataBlock)
destroy_retrieval bs k = do bs1 ← free_token_data bs k.key; free_token_data bs1 k.data_block

-- `retrieval_result_t`.
pub record RetrievalView : Type 0 where
  pub key : Option (List ℕ)
  pub data_block : Option (List ℕ)
  pub cas_unique : ℕ
  pub bytes : ℕ
  pub flags : ℕ
  pub key_len : ℕ

-- A pointer that is NULL is filled.
unfoldable pub fill : Option (List ℕ) → Option (Option (List ℕ)) → Option (Option (List ℕ))
fill none parsed = parsed
fill (some text) parsed = some (some text)

-- `RetrievalResult::inner`.
unfoldable pub retrieval_inner :
    List DataBlock → RetrievalResult → Option (RetrievalView × RetrievalResult)
unfolding fill
retrieval_inner bs k = do
  key ← fill k.inner_key (parse_token_data bs k.key k.key_len)
  data_block ← fill k.inner_data_block (parse_token_data bs k.data_block k.bytes)
  some (
    record {
      key = key;
      data_block = data_block;
      cas_unique = k.cas_unique;
      bytes = k.bytes;
      flags = k.flags;
      key_len = k.key_len;
    },
    record k { inner_key = key; inner_data_block = data_block },
  )

pub record LineResult : Type 0 where
  pub line : TokenData
  pub line_len : ℕ
  pub inner : Option (List ℕ)

-- `LineResult()`.
abbrev pub new_line : LineResult
new_line = record { line = []; line_len = 0; inner = none }

-- `LineResult(other)`.
unfoldable pub copy_line : List DataBlock → LineResult → Option (List DataBlock × LineResult)
copy_line bs other = do
  (bs1, line) ← copy_token_data bs other.line []
  some (bs1, record { line = line; line_len = other.line_len; inner = none })

-- `~LineResult()`.
abbrev pub destroy_line : List DataBlock → LineResult → Option (List DataBlock)
destroy_line bs l = free_token_data bs l.line

-- `LineResult::inner`, with `n`, an unsigned number of 64 bits.
unfoldable pub line_inner : List DataBlock → LineResult → Option (ℕ × Option (List ℕ) × LineResult)
unfolding fill
line_inner bs l = do
  text ← fill l.inner (parse_token_data bs l.line l.line_len)
  some ((l.line_len + (2 ^ 64 - 1)) % 2 ^ 64, text, record l { inner = text })

-- `message_result_t`; the key of MSG_OK is NULL.
pub record MessageResult : Type 0 where
  pub type_ : MessageResultType
  pub key : Option (List ℕ)

pub record UnsignedResult : Type 0 where
  pub key : Option (List ℕ)
  pub value : ℕ

abbrev pub new_unsigned : UnsignedResult
new_unsigned = record { key = none; value = 0 }
