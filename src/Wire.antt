-- ===== src/Wire.antt =====
-- Go's `encoding/binary` in big-endian order and `bytes.Buffer`, as the sources use them.
-- A byte is a number below 256, a buffer is the list of its unread bytes. A w-bit integer is kept
-- as its two's complement bit pattern, a number below 2 ^ w.
pub mod Laws
use im_service_modify.Prelude.{
  ℕ, zero, suc, ◌+◌, ◌*◌, ◌/◌, ◌%◌, ◌^◌, Bool, List, [], ◌∷◌, ◌++◌, ltb, leb, length, take, drop,
  if◌then◌else◌,
}

abbrev pub Bytes : Type 0
Bytes = List ℕ

-- `binary.Write` of an integer of n bytes.
unfoldable pub write : ℕ → ℕ → Bytes
write zero v = []
write (suc n) v = write n (v / 256) ++ v % 256 ∷ []

-- The number that big-endian bytes stand for.
unfoldable pub value : ℕ → Bytes → ℕ
value acc [] = acc
value acc (b ∷ bs) = value (acc * 256 + b) bs

-- `binary.Read` into an integer of n bytes that holds `old`. The sources ignore its error: where
-- fewer than n bytes are left the variable keeps its value and the buffer is used up.
unfoldable pub read : ℕ → ℕ → Bytes → ℕ × Bytes
read n old buffer =
    if ltb (length buffer) n then (old, []) else (value 0 (take n buffer), drop n buffer)

-- The sign of an integer of n bytes.
abbrev pub is_negative : ℕ → ℕ → Bool
is_negative n v = leb (256 ^ n / 2) v

-- What a decoder can do: succeed, answer `false` or `nil`, or panic. `stuck` is no outcome of the
-- program: the recursion into nested messages ran out of fuel.
pub data Outcome {ℓ} (A : Type ℓ) : Type ℓ where
  ok : A → Outcome A
  refused : Outcome A
  panics : Outcome A
  stuck : Outcome A

infixl 5 ◌>>=◌
abbrev pub ◌>>=◌ {ℓ κ} : {A : Type ℓ} {B : Type κ} → Outcome A → (A → Outcome B) → Outcome B
ok a >>= f = f a
refused >>= f = refused
panics >>= f = panics
stuck >>= f = stuck
