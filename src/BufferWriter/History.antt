-- ===== src/BufferWriter/History.antt =====
-- The life of a message in the writer of src/BufferWriter.cpp: its pieces are taken, some bytes are
-- sent, it is rewound, more bytes are sent, and so on.
use libmc.Prelude.{
  ℕ, ◌≤◌, ◌≡◌, refl, sym, ap, ◌∙◌, subst, List, [], ◌∷◌, ◌++◌, some, length, Bool-cases, inl, inr,
  append_assoc, append-nil,
}
use mathlib.Core.Option.{some-injective}
use libmc.BufferWriter.{BufferWriter, empty, take_buffer, commit_read, rewind, is_empty}
use libmc.BufferWriter.Stream.{
  IsValid, pending, message, concat, commit_read-Sent, rewind-message, take_buffer-pending,
}

-- The pieces are taken one behind the other.
abbrev pub take_buffers : List (List ℕ) → BufferWriter → BufferWriter
take_buffers [] w = w
take_buffers (buf ∷ bufs) w = take_buffers bufs (take_buffer buf w)

-- What becomes of a writer by sends, each of at most as many bytes as wait, and by rewinds.
pub data Sends (w : BufferWriter) : BufferWriter → Type 0 where
  start : Sends w w
  sends :
      {u v : BufferWriter}
      → Sends w u
      → (n : ℕ) → n ≤ length (pending u)
      → commit_read n u ≡ some v
      → Sends w v
  rewinds : {u : BufferWriter} → Sends w u → Sends w (rewind u)

same_original :
    (buf : List ℕ) (w : BufferWriter) → (take_buffer buf w).original_iovec ≡ w.original_iovec
unfolding take_buffer
same_original buf w = refl

take_buffers-message :
    (bufs : List (List ℕ)) (w : BufferWriter)
    → IsValid w
    → length w.original_iovec ≡ 0
    → IsValid (take_buffers bufs w) × (message (take_buffers bufs w) ≡ message w ++ concat bufs)
take_buffers-message [] w v h = (v, sym (append-nil (message w)))
take_buffers-message (buf ∷ bufs) w v h =
    let (v', _, m) = take_buffer-pending buf w v h in
    let (v'', m') =
      take_buffers-message bufs (take_buffer buf w) v' (ap length (same_original buf w) ∙ h) in
    (v'', m' ∙ ap (λ xs. xs ++ concat bufs) m ∙ append_assoc (message w) buf (concat bufs))

rewind-same : (w : BufferWriter) → message (rewind w) ≡ message w
unfolding rewind
rewind-same w = elim (Bool-cases (is_empty w.original_iovec)) [
  | inl e ↦ rw e refl
  | inr e ↦ rw e refl
]

Sends-message : {w u : BufferWriter} → IsValid w → Sends w u → IsValid u × (message u ≡ message w)
Sends-message v Sends.start = (v, refl)
Sends-message v (Sends.sends {u} {v = x} s n h e) =
    let (vu, mu) = Sends-message v s in
    let (x', e', sent) = commit_read-Sent n u vu h in
    let same = some-injective _ _ (sym e' ∙ e) in
    (subst IsValid same sent.valid, ap message (sym same) ∙ sent.same_message ∙ mu)
Sends-message v (Sends.rewinds {u} s) =
    let (vu, mu) = Sends-message v s in ((rewind-message u vu).0, rewind-same u ∙ mu)

empty-IsValid : IsValid empty
empty-IsValid = record { counts = refl; kept = inl refl }

-- If a writer has taken the pieces `bufs`, and from then on sends commit any number of bytes, each at
-- most as many as wait, and rewinds stand anywhere between them, then in the state that this leads
-- to `rewind` leaves a valid writer in which the bytes of all the pieces wait to be sent, in order,
-- even those that had been sent.
pub rewind-concat :
    (bufs : List (List ℕ)) (w : BufferWriter)
    → Sends (take_buffers bufs empty) w
    → IsValid (rewind w) × (pending (rewind w) ≡ concat bufs)
rewind-concat bufs w s =
    let (v, m) = take_buffers-message bufs empty empty-IsValid refl in
    let (vw, mw) = Sends-message v s in let (vr, p) = rewind-message w vw in (vr, p ∙ mw ∙ m)
