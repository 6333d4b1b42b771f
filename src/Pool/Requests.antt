-- ===== src/Pool/Requests.antt =====
-- What the dispatches write to a connection for one key.
use libmc.Prelude.{
  ℕ, ◌+◌, Bool, true, false, List, Option, none, some, ◌==◌, if◌then◌else◌, length, ◌>>=◌,
}
use libmc.Types.{OpCode}
use libmc.Keywords
use libmc.Connection.{Connection, take_buffer, take_number, add_request_key}

unfoldable pub storage_word : OpCode → Option (List ℕ)
storage_word OpCode.set_op = some Keywords.set_
storage_word OpCode.add_op = some Keywords.add_
storage_word OpCode.replace_op = some Keywords.replace_
storage_word OpCode.append_op = some Keywords.append_
storage_word OpCode.prepend_op = some Keywords.prepend_
storage_word OpCode.cas_op = some Keywords.cas_
storage_word _ = none

abbrev pub is_cas : OpCode → Bool
is_cas OpCode.cas_op = true
is_cas _ = false

unfoldable pub retrieval_word : OpCode → Option (List ℕ)
retrieval_word OpCode.get_op = some Keywords.get
retrieval_word OpCode.gets_op = some Keywords.gets
retrieval_word _ = none

unfoldable pub change_word : OpCode → Option (List ℕ)
change_word OpCode.incr_op = some Keywords.incr_
change_word OpCode.decr_op = some Keywords.decr_
change_word _ = none

-- `takeBuffer(k_NOREPLY, 8)` or `addRequestKey`.
unfoldable pub await_reply : Bool → List ℕ → Connection → Connection
await_reply noreply key c =
    if noreply then take_buffer Keywords.noreply_ c else add_request_key key c

abbrev pub count_request : Connection → Connection
count_request c = record c { counter = c.counter + 1 }

pub record StorageItem : Type 0 where
  pub key : List ℕ
  pub flags : ℕ
  pub value : List ℕ
  pub cas_unique : ℕ

-- ` <number>`.
abbrev pub take_field : (ℕ → List ℕ) → ℕ → Connection → Connection
take_field print n c = take_number print n (take_buffer Keywords.space c)

unfoldable pub storage_request :
    (ℕ → List ℕ) → OpCode → ℕ → Bool → StorageItem → Connection → Option Connection
unfolding storage_word await_reply
storage_request print op exptime noreply x c = do
  word ← storage_word op
  let c1 = take_buffer (x.key) (take_buffer word c)
  let c2 =
      take_field print (length x.value) (take_field print exptime (take_field print (x.flags) c1))
  let c3 = if is_cas op then take_field print (x.cas_unique) c2 else c2
  let c4 = count_request (await_reply noreply (x.key) c3)
  some (take_buffer Keywords.crlf (take_buffer (x.value) (take_buffer Keywords.crlf c4)))

unfoldable pub deletion_request : Bool → List ℕ → Connection → Option Connection
unfolding await_reply
deletion_request noreply key c = some (
    take_buffer Keywords.crlf
      (count_request (await_reply noreply key (take_buffer key (take_buffer Keywords.delete_ c)))))

unfoldable pub touch_request : (ℕ → List ℕ) → ℕ → Bool → List ℕ → Connection → Option Connection
unfolding await_reply
touch_request print exptime noreply key c = some (
    take_buffer Keywords.crlf (
      count_request (
        await_reply noreply key
          (take_field print exptime (take_buffer key (take_buffer Keywords.touch_ c))))))

unfoldable pub change_request :
    (ℕ → List ℕ) → OpCode → ℕ → Bool → List ℕ → Connection → Option Connection
unfolding change_word await_reply
change_request print op delta noreply key c = do
  word ← change_word op
  some (
      take_buffer Keywords.crlf (
        count_request (
          await_reply noreply key (take_field print delta (take_buffer key (take_buffer word c))))))

-- The word stands in front of the first key only.
unfoldable pub retrieval_request : OpCode → List ℕ → Connection → Option Connection
unfolding retrieval_word
retrieval_request op key c =
    let c' = count_request c in
    if c'.counter == 1
    then (do
      word ← retrieval_word op
      some (take_buffer key (take_buffer Keywords.space (take_buffer word c'))))
    else some (take_buffer key (take_buffer Keywords.space c'))
