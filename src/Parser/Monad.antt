-- ===== src/Parser/Monad.antt =====
-- Pieces of the parser's code that may return early with an error, and its calls of the reader.
use libmc.Prelude.{
  ℕ, ◌&&◌, Bool, true, false, not, List, Option, none, some, if◌then◌else◌, length, last?,
  update_last,
}
use libmc.Types.{ErrCode, ParserState}
use libmc.Blocks.{TokenData}
use libmc.BufferReader
use libmc.BufferReader.{BufferReader}
use libmc.Parser.State.{PacketParser}
use libmc.Result.{RetrievalResult}

-- How a piece of the code ends: it goes on with RET_OK, it returns with another error, or it faults.
pub data Outcome {ℓ} (A : Type ℓ) : Type ℓ where
  done : A → PacketParser → Outcome A
  stop : ErrCode → PacketParser → Outcome A
  fault : Outcome A

abbrev pub Parse {ℓ} : Type ℓ → Type ℓ
Parse A = PacketParser → Outcome A

abbrev pub and_then {ℓ κ} :
    {A : Type ℓ} {B : Type κ} → Outcome A → (A → PacketParser → Outcome B) → Outcome B
and_then (done a p) f = f a p
and_then (stop e p) f = stop e p
and_then fault f = fault

infixl 5 ◌>>=◌ ◌>>◌
abbrev pub ◌>>=◌ {ℓ κ} : {A : Type ℓ} {B : Type κ} → Parse A → (A → Parse B) → Parse B
◌>>=◌ m f p = and_then (m p) f

abbrev pub ◌>>◌ {ℓ} : {B : Type ℓ} → Parse (Unit {0}) → Parse B → Parse B
m >> k = m >>= λ _. k

abbrev pub give {ℓ} : {A : Type ℓ} → A → Parse A
give a p = done a p

abbrev pub modify : (PacketParser → PacketParser) → Parse (Unit {0})
modify f p = done tt (f p)

abbrev pub goto : ParserState → Parse (Unit {0})
goto s = modify (λ p. record p { state = s })

abbrev pub is_ok : ErrCode → Bool
is_ok ErrCode.ok = true
is_ok _ = false

-- `if (err != RET_OK) return;` behind a call, which has also stored its value by `store`.
abbrev pub settle {ℓ} :
    {A : Type ℓ} → (A → PacketParser → PacketParser) → Option (ErrCode × A × BufferReader) → Parse A
settle store none p = fault
settle store (some (e, a, r)) p =
    let q = store a (record p { reader = r }) in if is_ok e then done a q else stop e q

abbrev pub no_store {ℓ} : {A : Type ℓ} → A → PacketParser → PacketParser
no_store a p = p

-- `assert`, in a build with assertions.
abbrev pub asserts : Bool → Bool → Parse (Unit {0})
asserts debug b p = if debug && not b then fault else done tt p

abbrev pub with_reader {ℓ} :
    {A : Type ℓ} → Option (ErrCode × A) → BufferReader → Option (ErrCode × A × BufferReader)
with_reader none r = none
with_reader (some (e, a)) r = some (e, a, r)

abbrev pub no_value : Option (ErrCode × BufferReader) → Option (ErrCode × Unit {0} × BufferReader)
no_value none = none
no_value (some (e, r)) = some (e, tt, r)

abbrev pub paired :
    Option (ErrCode × ℕ × TokenData × BufferReader)
    → Option (ErrCode × (ℕ × TokenData) × BufferReader)
paired none = none
paired (some (e, n, td, r)) = some (e, (n, td), r)

unfoldable pub peek : ℕ → Parse ℕ
peek offset p = settle no_store (with_reader (BufferReader.peek offset p.reader) p.reader) p

-- `SKIP_BYTES`.
unfoldable pub skip : ℕ → Parse (Unit {0})
skip n p = settle no_store (no_value (BufferReader.skip_bytes n p.reader)) p

-- `EXPECT_BYTES`, which compares the bytes only in a build with assertions.
unfoldable pub expect : Bool → List ℕ → Parse (Unit {0})
expect debug str p =
    settle no_store
      (no_value (
        if debug
        then BufferReader.expect_bytes str p.reader
        else BufferReader.skip_bytes (length str) p.reader))
      p

-- `READ_UNSIGNED`; the value is 0 when it fails.
unfoldable pub read_unsigned : (ℕ → PacketParser → PacketParser) → Parse ℕ
read_unsigned store p = settle store (BufferReader.read_unsigned p.reader) p

unfoldable pub read_until :
    ℕ → (ℕ × TokenData → PacketParser → PacketParser) → Parse (ℕ × TokenData)
read_until c store p = settle store (paired (BufferReader.read_until c p.reader)) p

unfoldable pub read_bytes : ℕ → (TokenData → PacketParser → PacketParser) → Parse TokenData
read_bytes n store p = settle store (BufferReader.read_bytes n p.reader) p

unfoldable pub skip_until : ℕ → Parse ℕ
skip_until c p = settle no_store (BufferReader.skip_until c p.reader) p

-- `*mt_kvPtr`, and a write to it.
abbrev pub the_kv : Parse RetrievalResult
the_kv p =
    if p.has_kv
    then elim (last? p.retrieval_results) [ none ↦ fault | some k ↦ done k p ]
    else fault

abbrev pub with_kv : (RetrievalResult → RetrievalResult) → PacketParser → PacketParser
with_kv f p = record p { retrieval_results = update_last f p.retrieval_results }

-- `back()` of a list of results.
abbrev pub back {ℓ} : {A : Type ℓ} → (PacketParser → List A) → Parse A
back results p = elim (last? (results p)) [ none ↦ fault | some a ↦ done a p ]
