-- ===== src/Result/Lifetime.antt =====
-- Copies of the results and their destructors, on the counts of the blocks.
use libmc.Prelude.{◌+◌, ◌≡◌, refl, ◌∙◌, List, some, none, arith}
use libmc.DataBlock.{DataBlock}
use libmc.Blocks.{sizes, sum_refs}
use libmc.Blocks.Content.{shapes}
use libmc.Tokens.Ledger.{
  InBlocks, InBlocks-length, acquired, acquired_comm, length-acquired, copy_token_data_lem,
  free_token_data_lem, sum_refs-acquired, shapes-acquired,
}
use libmc.Result.{
  RetrievalResult, LineResult, copy_retrieval, destroy_retrieval, copy_line, destroy_line,
}

-- If the slices of a result's key and data block are in blocks of the list, then `RetrievalResult`'s
-- copy constructor copies all but the pointers in `m_inner`, which are NULL. It adds the lengths of
-- the slices to the counts of the blocks and leaves their bytes as they are, and the copy's
-- destructor leaves the blocks as they were before the copy.
pub copy_retrieval-destroy_retrieval :
    (bs : List DataBlock) (k : RetrievalResult)
    → InBlocks bs k.key
    → InBlocks bs k.data_block
    → (bs' : List DataBlock) × (copy_retrieval bs k
        ≡ some (bs', record k { inner_key = none; inner_data_block = none }))
      × (destroy_retrieval bs' (record k { inner_key = none; inner_data_block = none }) ≡ some bs)
      × (sum_refs bs' ≡ sum_refs bs + sizes k.key + sizes k.data_block)
      × (shapes bs' ≡ shapes bs)
unfolding copy_retrieval destroy_retrieval
copy_retrieval-destroy_retrieval bs k h d =
    let cs = acquired k.key bs in
    let ds = acquired k.data_block bs in
    let d' : InBlocks cs k.data_block =
      InBlocks-length bs cs k.data_block (length-acquired k.key bs) d in
    let h' : InBlocks ds k.key = InBlocks-length bs ds k.key (length-acquired k.data_block bs) h in
    let swapped = acquired_comm k.data_block k.key bs in
    (
      acquired k.data_block cs,
      rw (copy_token_data_lem k.key bs h, copy_token_data_lem k.data_block cs d') refl,
      rw (swapped, free_token_data_lem k.key ds h') (free_token_data_lem k.data_block bs d),
      omega (arith, sum_refs-acquired k.data_block cs d', sum_refs-acquired k.key bs h),
      shapes-acquired k.data_block cs ∙ shapes-acquired k.key bs,
    )

-- The same for `LineResult`, which has one token.
pub copy_line-destroy_line :
    (bs : List DataBlock) (l : LineResult)
    → InBlocks bs l.line
    → (bs' : List DataBlock) × (copy_line bs l ≡ some (bs', record l { inner = none }))
      × (destroy_line bs' (record l { inner = none }) ≡ some bs)
      × (sum_refs bs' ≡ sum_refs bs + sizes l.line)
      × (shapes bs' ≡ shapes bs)
unfolding copy_line
copy_line-destroy_line bs l h = (
  acquired l.line bs,
  rw (copy_token_data_lem l.line bs h) refl,
  free_token_data_lem l.line bs h,
  sum_refs-acquired l.line bs h,
  shapes-acquired l.line bs,
)
