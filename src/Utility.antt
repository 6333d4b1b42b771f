-- ===== src/Utility.antt =====
-- src/Utility.cpp: the check of a key.
use libmc.Prelude.{
  ℕ, ◌≤◌, ◌≡◌, refl, ◌≢◌, ◌↔◌, ◌||◌, Bool, true, false, List, [], ◌∷◌, arith, ltb, ◌==◌,
  if◌then◌else◌, length, All, Bool-cases, inl, inr,
}

-- `MC_MAX_KEY_LENGTH`.
abbrev pub max_key_length : ℕ
max_key_length = 250

-- The cases of the `switch`.
abbrev pub is_bad : ℕ → Bool
is_bad c = c == b' ' || c == 13 || c == 10 || c == 0

unfoldable pub all_good : List ℕ → Bool
all_good [] = true
all_good (c ∷ cs) = if is_bad c then false else all_good cs

unfoldable pub is_valid_key : List ℕ → Bool
unfolding all_good
is_valid_key key = if ltb max_key_length (length key) then false else all_good key

-- No space, carriage return, line feed or NUL, which would end a key in a request.
abbrev pub IsPlain : ℕ → Type 0
IsPlain c = (c ≢ 32) × (c ≢ 13) × (c ≢ 10) × (c ≢ 0)

all_good-IsPlain : (key : List ℕ) → all_good key ≡ true → All IsPlain key
unfolding all_good
all_good-IsPlain [] h = tt
all_good-IsPlain (c ∷ cs) h = elim (Bool-cases (is_bad c)) [
  | inl bad ↦ absurd (ground (arith, h, bad))
  | inr good ↦ (ground (arith, good), all_good-IsPlain cs (ground (arith, h, good)))
]

IsPlain-all_good : (key : List ℕ) → All IsPlain key → all_good key ≡ true
unfolding all_good
IsPlain-all_good [] p = refl
IsPlain-all_good (c ∷ cs) p =
    let good : is_bad c ≡ false = ground (arith, p.0) in rw good (IsPlain-all_good cs p.1)

-- A key is valid exactly if it has 250 bytes at most, and none of them is a space, a carriage
-- return, a line feed or NUL.
pub is_valid_key_iff :
    (key : List ℕ) → (is_valid_key key ≡ true) ↔ ((length key ≤ 250) × All IsPlain key)
unfolding is_valid_key
is_valid_key_iff key = (
  λ h. (ground (arith, h), all_good-IsPlain key (ground (arith, h))),
  λ p.
      let short : ltb 250 (length key) ≡ false = ground (arith, p.0) in
      rw short (IsPlain-all_good key p.1),
)
