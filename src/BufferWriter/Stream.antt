-- ===== src/BufferWriter/Stream.antt =====
-- The writer as a stream of bytes: what a send of some of them leaves, and what `rewind` restores.
use libmc.Prelude.{
  ℕ, zero, suc, ◌+◌, ◌-◌, ◌≤◌, ◌<◌, ◌≡◌, refl, sym, ap, ◌∙◌, subst, true, false, ◌⊎◌, inl, inr,
  List, [], ◌∷◌, ◌++◌, some, arith, leb, ltb, if◌then◌else◌, length, get_elem?, set, drop,
  Bool-cases, length-append, length-set, length-drop, append-nil, append_assoc, drop-append_le,
  drop-append_ge, drop_all, drop-nil,
}
use libmc.BufferWriter.{BufferWriter, take_buffer, skip_sent, commit_read, rewind, is_empty}

abbrev pub concat : List (List ℕ) → List ℕ
concat [] = []
concat (v ∷ vs) = v ++ concat vs

-- The bytes still to be sent.
abbrev pub pending : BufferWriter → List ℕ
pending w = concat (drop w.read_idx w.iovec)

-- The whole message, sent or not.
abbrev pub message : BufferWriter → List ℕ
message w = concat (if is_empty w.original_iovec then w.iovec else w.original_iovec)

pub record IsValid (w : BufferWriter) : Type 0 where
  pub counts : w.read_idx + w.msg_iovlen ≡ length w.iovec
  pub kept : (length w.original_iovec ≡ 0) ⊎ (length w.original_iovec ≡ length w.iovec)

-- What a send of `n` bytes does.
pub record Sent (n : ℕ) (w w' : BufferWriter) : Type 0 where
  pub valid : IsValid w'
  pub rest : pending w' ≡ drop n (pending w)
  pub same_message : message w' ≡ message w
  pub all_sent : (w'.msg_iovlen ≡ 0) ⊎ (n < length (pending w))

pub concat-append : (vs ws : List (List ℕ)) → concat (vs ++ ws) ≡ concat vs ++ concat ws
concat-append [] ws = refl
concat-append (v ∷ vs) ws =
    ap (λ d. v ++ d) (concat-append vs ws) ∙ sym (append_assoc v (concat vs) (concat ws))

-- The element at an index within the list, and the list from there on.
pub drop-get_elem? :
    (vs : List (List ℕ)) (i : ℕ)
    → i < length vs
    → (v : List ℕ) × (get_elem? vs i ≡ some v) × (drop i vs ≡ v ∷ drop (suc i) vs)
drop-get_elem? [] i h = absurd (omega arith)
drop-get_elem? (v ∷ vs) zero h = (v, refl, refl)
drop-get_elem? (v ∷ vs) (suc i) h = drop-get_elem? vs i (omega arith)

drop-set :
    (vs : List (List ℕ)) (i : ℕ) (x v : List ℕ) (rest : List (List ℕ))
    → drop i vs ≡ v ∷ rest
    → drop i (set vs i x) ≡ x ∷ rest
drop-set [] i x v rest h = absurd (omega (arith, ap length (sym (drop-nil i) ∙ h)))
drop-set (y ∷ vs) zero x v rest h = ap (λ d. x ∷ drop 1 d) h
drop-set (y ∷ vs) (suc i) x v rest h = drop-set vs i x v rest h

-- Where the loop stops: within a piece if bytes are left, else at a piece's start or the end.
record Stops (vs : List (List ℕ)) (i k n i' k' m : ℕ) : Type 0 where
  counts : i' + k' ≡ length vs
  rest : drop m (concat (drop i' vs)) ≡ drop n (concat (drop i vs))
  inside :
      (m ≡ 0)
      ⊎ ((v : List ℕ) × (get_elem? vs i' ≡ some v)
          × (drop i' vs ≡ v ∷ drop (suc i') vs)
          × (m < length v))
  all_sent : (k' ≡ 0) ⊎ (n < length (concat (drop i vs)))

skip_sent-Stops :
    (vs : List (List ℕ)) (i k n : ℕ)
    → i + k ≡ length vs
    → n ≤ length (concat (drop i vs))
    → (i' : ℕ) × (k' : ℕ) × (m : ℕ) × (skip_sent vs i k n ≡ some (i', k', m))
      × Stops vs i k n i' k' m
unfolding skip_sent
skip_sent-Stops vs i zero n c h =
    let none_left = drop_all i vs (omega arith) in
    (
      i,
      0,
      n,
      refl,
      record {
        counts = c;
        rest = refl;
        inside = inl (omega (arith, ap (λ d. length (concat d)) none_left));
        all_sent = inl refl;
      },
    )
skip_sent-Stops vs i (suc k) n c h =
    let (v, g, d) = drop-get_elem? vs i (omega arith) in
    let l = ap (λ d. length (concat d)) d ∙ length-append v (concat (drop (suc i) vs)) in
    elim (Bool-cases (leb (length v) n)) [
      | inl whole ↦
          let (i', k', m, e, s) =
            skip_sent-Stops vs (suc i) k (n - length v) (omega arith) (ground (arith, l)) in
          (
            i',
            k',
            m,
            rw (g, whole) e,
            record {
              counts = s.counts;
              rest =
                  s.rest
                  ∙ sym (
                      ap (λ d. drop n (concat d)) d
                      ∙ drop-append_ge n v (concat (drop (suc i) vs)) (ground arith));
              inside = s.inside;
              all_sent = ground (arith, s.all_sent, l);
            },
          )
      | inr part ↦ (
        i,
        suc k,
        n,
        rw (g, part),
        record {
          counts = c;
          rest = refl;
          inside = inr (v, g, d, ground arith);
          all_sent = inr (ground (arith, l));
        },
      )
    ]

-- The pieces that `commitRead` keeps are the message, whatever it does to the others.
kept_message :
    (w : BufferWriter) (vs : List (List ℕ))
    → 0 < length w.iovec
    → (let kept = if is_empty w.original_iovec then w.iovec else w.original_iovec in
        concat (if is_empty kept then vs else kept) ≡ message w)
kept_message w vs h = elim (Bool-cases (is_empty w.original_iovec)) [
  | inl e ↦ let some_pieces : is_empty w.iovec ≡ false = ground arith in rw (e, some_pieces) refl
  | inr e ↦
      let same : (if is_empty w.original_iovec then w.iovec else w.original_iovec)
          ≡ w.original_iovec =
        rw e refl in
      rw (same, e) refl
]

kept-length :
    (w : BufferWriter)
    → IsValid w
    → length w.iovec ≡ length (if is_empty w.original_iovec then w.iovec else w.original_iovec)
kept-length w v = elim (Bool-cases (is_empty w.original_iovec)) [
  | inl e ↦ rw e refl
  | inr e ↦ rw e (ground (arith, v.kept))
]

-- In a valid writer, `commitRead` of at most as many bytes as wait to be sent ends with no fault and
-- leaves a valid writer with the bytes behind them to be sent; the whole message is the same, and if
-- all bytes are sent no piece is left.
pub commit_read-Sent :
    (n : ℕ) (w : BufferWriter)
    → IsValid w
    → n ≤ length (pending w)
    → (w' : BufferWriter) × (commit_read n w ≡ some w') × Sent n w w'
unfolding commit_read
commit_read-Sent n w v h =
    let (i, k, m, e, s) = skip_sent-Stops w.iovec w.read_idx w.msg_iovlen n v.counts h in
    elim (Bool-cases (ltb 0 m)) [
      | inr none_left ↦
          let zero_left : m ≡ 0 = ground arith in
          (
            record w { read_idx = i; msg_iovlen = k },
            rw (e, none_left),
            record {
              valid = record { counts = s.counts; kept = v.kept };
              rest =
                  subst (λ x. drop x (concat (drop i w.iovec)) ≡ drop n (pending w)) zero_left
                    s.rest;
              same_message = refl;
              all_sent = s.all_sent;
            },
          )
      | inl some_left ↦ elim s.inside [
        | inl z ↦ absurd (ground arith)
        | inr (x, g, d, l) ↦
            let kept = if is_empty w.original_iovec then w.iovec else w.original_iovec in
            let split = drop-set w.iovec i (drop m x) x (drop (suc i) w.iovec) d in
            let same = length-set w.iovec i (drop m x) in
            (
              record w {
                iovec = set w.iovec i (drop m x);
                original_iovec = kept;
                read_idx = i;
                msg_iovlen = k;
              },
              rw (e, some_left, g),
              record {
                valid = record {
                  counts = s.counts ∙ sym same;
                  kept = ground (arith, v.kept, same);
                };
                rest =
                    ap concat split
                    ∙ sym (drop-append_le m x (concat (drop (suc i) w.iovec)) (omega arith))
                    ∙ ap (λ d. drop m (concat d)) (sym d)
                    ∙ s.rest;
                same_message =
                    kept_message w (set w.iovec i (drop m x))
                      (ground (arith, ap length d, length-drop i w.iovec));
                all_sent = s.all_sent;
              },
            )
      ]
    ]

kept-rewound :
    (w : BufferWriter)
    → IsValid w
    → (length w.original_iovec ≡ 0)
      ⊎ (length w.original_iovec
          ≡ length (if is_empty w.original_iovec then w.iovec else w.original_iovec))
kept-rewound w v = elim v.kept [ inl e ↦ inl e | inr e ↦ inr (e ∙ kept-length w v) ]

pub rewind-message :
    (w : BufferWriter) → IsValid w → IsValid (rewind w) × (pending (rewind w) ≡ message w)
unfolding rewind
rewind-message w v =
    (record { counts = omega (arith, kept-length w v); kept = kept-rewound w v }, refl)

-- In a valid writer in which no send has cut a piece yet, `takeBuffer` leaves a valid writer, and
-- adds the bytes at the end of those to be sent and of the message.
pub take_buffer-pending :
    (buf : List ℕ) (w : BufferWriter)
    → IsValid w
    → length w.original_iovec ≡ 0
    → IsValid (take_buffer buf w)
      × (pending (take_buffer buf w) ≡ pending w ++ buf)
      × (message (take_buffer buf w) ≡ message w ++ buf)
unfolding take_buffer
take_buffer-pending buf w v h =
    let one = append-nil buf in
    let fresh : is_empty w.original_iovec ≡ true = ground arith in
    (
      record { counts = omega (arith, v.counts, length-append w.iovec (buf ∷ [])); kept = inl h },
      ap concat (drop-append_le w.read_idx w.iovec (buf ∷ []) (omega (arith, v.counts)))
          ∙ concat-append (drop w.read_idx w.iovec) (buf ∷ [])
          ∙ ap (λ d. pending w ++ d) one,
      rw (fresh, concat-append w.iovec (buf ∷ []), one),
    )
