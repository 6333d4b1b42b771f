-- ===== src/Pool/Collect.antt =====
-- The results of the active connections, and the end of a command. A list of connections is taken
-- in the order of `m_activeConns`.
use libmc.Prelude.{
  ℕ, Bool, true, false, List, [], ◌∷◌, ◌++◌, Option, none, some, ltb, ◌==◌, if◌then◌else◌, length,
  get_elem?, set, ◌>>=◌,
}
use libmc.Types.{MessageResultType}
use libmc.DataBlock.{DataBlock}
use libmc.Result.{
  RetrievalResult, RetrievalView, LineResult, MessageResult, UnsignedResult, retrieval_inner,
  line_inner,
}
use libmc.Connection
use libmc.Connection.{Connection}
use libmc.Pool.State.{Pool}

-- The results of one connection that are complete, and what `inner` leaves of all.
unfoldable pub complete_results :
    List DataBlock → List RetrievalResult → Option (List RetrievalView × List RetrievalResult)
complete_results bs [] = some ([], [])
complete_results bs (k ∷ ks) = do
  (views, ks') ← complete_results bs ks
  (if ltb 0 k.bytes_remain
      then some (views, k ∷ ks')
      else (do (view, k') ← retrieval_inner bs k; some (view ∷ views, k' ∷ ks')))

abbrev with_retrievals : List RetrievalResult → Connection → Connection
with_retrievals ks c = record c { parser = record (c.parser) { retrieval_results = ks } }

unfoldable pub collect_retrieval_of :
    List ℕ → List Connection → Option (List RetrievalView × List Connection)
unfolding complete_results
collect_retrieval_of [] cs = some ([], cs)
collect_retrieval_of (i ∷ is) cs = do
  c ← get_elem? cs i
  (views, ks) ← complete_results c.parser.reader.blocks c.parser.retrieval_results
  (rest, cs') ← collect_retrieval_of is (set cs i (with_retrievals ks c))
  some (views ++ rest, cs')

unfoldable pub collect_retrieval_result :
    {W : Type 0} → Pool W → Option (List RetrievalView × Pool W)
unfolding collect_retrieval_of
collect_retrieval_result p = do
  (views, cs) ← collect_retrieval_of p.active p.conns
  some (views, record p { conns = cs })

unfoldable pub collect_message_of : List ℕ → List Connection → Option (List MessageResult)
collect_message_of [] cs = some []
collect_message_of (i ∷ is) cs = do
  c ← get_elem? cs i
  rest ← collect_message_of is cs
  some (c.parser.message_results ++ rest)

abbrev pub collect_message_result : {W : Type 0} → Pool W → Option (List MessageResult)
collect_message_result p = collect_message_of p.active p.conns

abbrev is_not_found : MessageResultType → Bool
is_not_found MessageResultType.not_found = true
is_not_found _ = false

-- NULL stands for a key that was not found.
unfoldable pub collect_unsigned_of :
    List UnsignedResult → List MessageResult → Option (List (Option UnsignedResult))
collect_unsigned_of (u ∷ []) msgs = some (some u ∷ [])
collect_unsigned_of us (m ∷ []) = if is_not_found m.type_ then some (none ∷ []) else none
collect_unsigned_of us msgs = some []

unfoldable pub collect_unsigned_result :
    {W : Type 0} → Pool W → Option (List (Option UnsignedResult))
unfolding collect_unsigned_of
collect_unsigned_result p =
    if length p.active == 1
    then (do
      i ← get_elem? p.active 0
      c ← get_elem? p.conns i
      collect_unsigned_of c.parser.unsigned_results c.parser.message_results)
    else some []

-- `broadcast_result_t`: the host, the lines with their lengths, and the type of the message.
pub record BroadcastResult : Type 0 where
  pub host : List ℕ
  pub lines : List (ℕ × Option (List ℕ))
  pub msg_type : MessageResultType

unfoldable pub inner_lines :
    List DataBlock → List LineResult → Option (List (ℕ × Option (List ℕ)) × List LineResult)
inner_lines bs [] = some ([], [])
inner_lines bs (l ∷ ls) = do
  (n, text, l') ← line_inner bs l
  (rest, ls') ← inner_lines bs ls
  some ((n, text) ∷ rest, l' ∷ ls')

-- The type of the only message.
unfoldable pub only_message : List MessageResult → MessageResultType
only_message (m ∷ []) = m.type_
only_message msgs = MessageResultType.libmc_invalid

unfoldable pub collect_broadcast_of :
    Bool → List Connection → Option (List BroadcastResult × List Connection)
unfolding inner_lines only_message
collect_broadcast_of is_flush_all [] = some ([], [])
collect_broadcast_of is_flush_all (c ∷ cs) = do
  (results, cs') ← collect_broadcast_of is_flush_all cs
  (if is_flush_all
      then some (
        record { host = c.name; lines = []; msg_type = only_message c.parser.message_results }
            ∷ results,
        c ∷ cs',
      )
      else (do
        (lines, ls) ← inner_lines c.parser.reader.blocks c.parser.line_results
        some (
          record { host = c.name; lines = lines; msg_type = MessageResultType.libmc_invalid }
              ∷ results,
          record c { parser = record (c.parser) { line_results = ls } } ∷ cs',
        )))

unfoldable pub reset_active : List ℕ → List Connection → Option (List Connection)
reset_active [] cs = some cs
reset_active (i ∷ is) cs = do
  c ← get_elem? cs i
  c' ← Connection.reset c
  reset_active is (set cs i c')

unfoldable pub reset : {W : Type 0} → Pool W → Option (Pool W)
unfolding reset_active
reset p = do
  cs ← reset_active p.active p.conns
  some (record p { conns = cs; n_active = 0; n_invalid = 0; active = [] })
