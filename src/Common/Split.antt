-- ===== src/Common/Split.antt =====
-- A server's string with a host, a port and an alias.
use libmc.Prelude.{
  ℕ, suc, ◌+◌, ◌≡◌, ◌≢◌, refl, sym, ap, ◌∙◌, false, List, [], ◌∷◌, ◌++◌, Option, none, some, arith,
  ◌==◌, length, All, ◌>>=◌,
}
use libmc.Common.{ServerStringSplit, round, at_colon, at_space, split_from, split_server_string}

-- None of the bytes that the split looks for.
abbrev pub IsPlain : ℕ → Type 0
IsPlain c = (c ≢ 0) × (c ≢ 58) × (c ≢ 92) × (c ≢ 32)

abbrev prepend : List ℕ → Option (List ℕ × ServerStringSplit) → Option (List ℕ × ServerStringSplit)
prepend xs o = do (done, q) ← o; some (xs ++ done, q)

prepend-cons :
    (c : ℕ) (xs : List ℕ) (o : Option (List ℕ × ServerStringSplit))
    → (do (done, q) ← prepend xs o; some (c ∷ done, q)) ≡ prepend (c ∷ xs) o
prepend-cons c xs none = refl
prepend-cons c xs (some q) = refl

prepend-nil : (o : Option (List ℕ × ServerStringSplit)) → prepend [] o ≡ o
prepend-nil none = refl
prepend-nil (some q) = refl

round_plain :
    (c pos : ℕ) (res : ServerStringSplit)
    → IsPlain c
    → round c pos false res ≡ record { returns = false; byte = c; escaped = false; res = res }
unfolding round
round_plain c pos res p =
    let a : (c == 0) ≡ false = ground (arith, p.0) in
    let b : (c == 58) ≡ false = ground (arith, p.1) in
    let d : (c == 92) ≡ false = ground (arith, p.2) in
    let e : (c == 32) ≡ false = ground (arith, p.3) in rw (a, b, d, e) refl

-- Plain bytes are passed.
split_from-plain :
    (xs rest : List ℕ) (pos : ℕ) (res : ServerStringSplit)
    → All IsPlain xs
    → split_from (xs ++ rest) pos false res
      ≡ prepend xs (split_from rest (pos + length xs) false res)
unfolding split_from
split_from-plain [] rest pos res p =
    let e : pos ≡ pos + 0 = omega arith in
    rw (← e) (sym (prepend-nil (split_from rest pos false res)))
split_from-plain (x ∷ xs) rest pos res p =
    let e : suc pos + length xs ≡ pos + suc (length xs) = omega arith in
    rw (round_plain x pos res p.0, split_from-plain xs rest (suc pos) res p.1, e)
      (prepend-cons x xs (split_from rest (pos + suc (length xs)) false res))

abbrev only_host : ServerStringSplit
only_host = record { host = 0; port = none; alias = none }

split_from-colon :
    (rest : List ℕ) (pos : ℕ)
    → split_from (58 ∷ rest) pos false only_host
      ≡ prepend
          (0 ∷ [])
          (split_from rest (suc pos) false (record only_host { port = some (pos + 1) }))
unfolding split_from round at_colon
split_from-colon rest pos = refl

split_from-space :
    (rest : List ℕ) (pos port : ℕ)
    → split_from (32 ∷ rest) pos false (record only_host { port = some port })
      ≡ prepend (0 ∷ []) (
          split_from rest
            (suc pos)
            false
            (record { host = 0; port = some port; alias = some (pos + 1) }))
unfolding split_from round at_space
split_from-space rest pos port = refl

split_from-end :
    (pos : ℕ) (res : ServerStringSplit) → split_from (0 ∷ []) pos false res ≡ some (0 ∷ [], res)
unfolding split_from round
split_from-end pos res = refl

-- For a host, a port and an alias without NUL, `:`, `\` and space, `splitServerString` of
-- "host:port alias" ends with no fault: it puts NUL in place of the colon and the space, and points
-- to the starts of the three.
pub split_server_string_lem :
    (host port alias : List ℕ)
    → All IsPlain host
    → All IsPlain port
    → All IsPlain alias
    → split_server_string (host ++ (58 ∷ (port ++ (32 ∷ (alias ++ (0 ∷ []))))))
      ≡ some (
        host ++ (0 ∷ (port ++ (0 ∷ (alias ++ (0 ∷ []))))),
        record {
          host = 0;
          port = some (length host + 1);
          alias = some (length host + 1 + length port + 1);
        },
      )
unfolding split_server_string
split_server_string_lem host port alias h p a =
    let q = length host in
    let first = split_from-plain host (58 ∷ (port ++ (32 ∷ (alias ++ (0 ∷ []))))) 0 only_host h in
    let with_port : ServerStringSplit = record only_host { port = some (q + 1) } in
    let second = split_from-plain port (32 ∷ (alias ++ (0 ∷ []))) (suc q) with_port p in
    let r = suc q + length port in
    let all : ServerStringSplit = record with_port { alias = some (r + 1) } in
    let third = split_from-plain alias (0 ∷ []) (suc r) all a in
    let zero_plus : 0 + q ≡ q = omega arith in
    let place : r + 1 ≡ q + 1 + length port + 1 = omega arith in
    first
    ∙ ap
        (λ n.
          prepend host (split_from (58 ∷ (port ++ (32 ∷ (alias ++ (0 ∷ []))))) n false only_host))
        zero_plus
    ∙ ap (prepend host) (
        split_from-colon (port ++ (32 ∷ (alias ++ (0 ∷ [])))) q
        ∙ ap (prepend (0 ∷ [])) (
            second
            ∙ ap (prepend port) (
                split_from-space (alias ++ (0 ∷ [])) r (q + 1)
                ∙ ap (prepend (0 ∷ []))
                    (third ∙ ap (prepend alias) (split_from-end (suc r + length alias) all)))))
    ∙ ap
        (λ n.
          some (
            host ++ (0 ∷ (port ++ (0 ∷ (alias ++ (0 ∷ []))))),
            record with_port { alias = some n },
          ))
        place
