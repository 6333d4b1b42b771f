-- ===== src/Pool/Extends.antt =====
-- What a request adds to a connection: bytes to send, keys that await a reply, and a count.
use libmc.Prelude.{
  ℕ, ◌+◌, ◌≡◌, refl, sym, ap, ◌∙◌, true, false, Bool, List, [], ◌∷◌, ◌++◌, arith, length,
  append-nil, append_assoc, if◌then◌else◌,
}
use libmc.BufferWriter
use libmc.BufferWriter.{BufferWriter}
use libmc.BufferWriter.Stream
use libmc.BufferWriter.Stream.{pending, take_buffer-pending}
use libmc.Connection.{Connection, take_buffer, take_number}
use libmc.Pool.Requests.{count_request, take_field, await_reply}
use libmc.Keywords

-- The writer is ready for more: valid, and no send has cut a piece.
pub record Ready (c : Connection) : Type 0 where
  pub valid : Stream.IsValid c.writer
  pub uncut : length c.writer.original_iovec ≡ 0

-- What a request is seen to add to, by the counter and the writer.
abbrev pub View : Type 0
View = ℕ → BufferWriter → List ℕ

-- The bytes to send.
abbrev pub bytes_to_send : View
bytes_to_send n writer = pending writer

abbrev pub seen : View → Connection → List ℕ
seen view c = view c.counter c.writer

pub record ExtendsBy (view : View) (text : List ℕ) (keys : List (List ℕ)) (n : ℕ)
    (c c' : Connection) : Type 0 where
  pub sends : seen view c' ≡ seen view c ++ text
  pub awaits : c'.parser.request_keys ≡ c.parser.request_keys ++ keys
  pub counts : c'.counter ≡ c.counter + n
  pub ready : Ready c'

abbrev pub Extends : List ℕ → List (List ℕ) → ℕ → Connection → Connection → Type 0
Extends = ExtendsBy bytes_to_send

pub Extends-nil : {view : View} (c : Connection) → Ready c → ExtendsBy view [] [] 0 c c
Extends-nil {view} c r = record {
  sends = sym (append-nil (seen view c));
  awaits = sym (append-nil c.parser.request_keys);
  counts = omega arith;
  ready = r;
}

pub Extends-trans :
    {view : View} {t u : List ℕ} {ks ls : List (List ℕ)} {n m : ℕ} {a b c : Connection}
    → ExtendsBy view t ks n a b
    → ExtendsBy view u ls m b c
    → ExtendsBy view (t ++ u) (ks ++ ls) (n + m) a c
Extends-trans {view} {t} {u} {ks} {ls} {n} {m} {a} {b} {c} e f = record {
  sends = f.sends ∙ ap (λ x. x ++ u) e.sends ∙ append_assoc (seen view a) t u;
  awaits = f.awaits ∙ ap (λ x. x ++ ls) e.awaits ∙ append_assoc a.parser.request_keys ks ls;
  counts = omega (arith, e.counts, f.counts);
  ready = f.ready;
}

pub take_buffer-Extends :
    (buf : List ℕ) (c : Connection) → Ready c → Extends buf [] 0 c (take_buffer buf c)
unfolding take_buffer BufferWriter.take_buffer
take_buffer-Extends buf c r =
    let (v, e, _) = take_buffer-pending buf c.writer r.valid r.uncut in
    record {
      sends = e;
      awaits = sym (append-nil c.parser.request_keys);
      counts = omega arith;
      ready = record { valid = v; uncut = r.uncut };
    }

take_number-Extends :
    (print : ℕ → List ℕ) (n : ℕ) (c : Connection)
    → Ready c
    → Extends (print n) [] 0 c (take_number print n c)
unfolding take_buffer take_number BufferWriter.take_number BufferWriter.take_buffer
take_number-Extends print n c r =
    let e = take_buffer-Extends (print n) c r in
    record {
      sends = e.sends;
      awaits = e.awaits;
      counts = e.counts;
      ready = record {
        valid = record { counts = e.ready.valid.counts; kept = e.ready.valid.kept };
        uncut = e.ready.uncut;
      };
    }

-- A space and a number.
abbrev pub field : (ℕ → List ℕ) → ℕ → List ℕ
field print n = Keywords.space ++ print n

pub take_field-Extends :
    (print : ℕ → List ℕ) (n : ℕ) (c : Connection)
    → Ready c
    → Extends (field print n) [] 0 c (take_field print n c)
take_field-Extends print n c r =
    let e = take_buffer-Extends Keywords.space c r in
    Extends-trans e (take_number-Extends print n (take_buffer Keywords.space c) e.ready)

-- What `await_reply` adds.
abbrev pub reply_text : Bool → List ℕ
reply_text noreply = if noreply then Keywords.noreply_ else []

abbrev pub reply_keys : Bool → List ℕ → List (List ℕ)
reply_keys noreply key = if noreply then [] else key ∷ []

pub await_reply-Extends :
    (noreply : Bool) (key : List ℕ) (c : Connection)
    → Ready c
    → Extends (reply_text noreply) (reply_keys noreply key) 0 c (await_reply noreply key c)
unfolding await_reply
await_reply-Extends true key c r = take_buffer-Extends Keywords.noreply_ c r
await_reply-Extends false key c r = record {
  sends = sym (append-nil (pending c.writer));
  awaits = refl;
  counts = omega arith;
  ready = record { valid = r.valid; uncut = r.uncut };
}

pub count_request-Extends : (c : Connection) → Ready c → Extends [] [] 1 c (count_request c)
count_request-Extends c r = record {
  sends = sym (append-nil (pending c.writer));
  awaits = sym (append-nil c.parser.request_keys);
  counts = refl;
  ready = record { valid = r.valid; uncut = r.uncut };
}
