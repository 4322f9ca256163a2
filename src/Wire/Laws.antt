-- ===== src/Wire/Laws.antt =====
-- What is written is read back.
use im_service_modify.Prelude.{
  ◌≤◌, take-append_le, take, take_zero, ◌∙◌, append-nil, sym, ap, drop_zero, ℕ, zero, suc, ◌+◌, ◌-◌,
  ◌*◌, ◌/◌, ◌%◌, ◌^◌, ◌<◌, ◌≡◌, refl, [], ◌∷◌, ◌++◌, length, drop, length-append, length-drop,
  take-append, drop-append, drop-append_le, take-append_front, drop-append_front, leb, true, arith,
}
use native.Mathlib.Nat.{pow-suc}
use im_service_modify.Wire.{Bytes, write, value, read}

pub length-write : (n v : ℕ) → length (write n v) ≡ n
unfolding write
length-write zero v = refl
length-write (suc n) v =
    omega (arith, length-append {0} (write n (v / 256)) (v % 256 ∷ []), length-write n (v / 256))

value-append : (acc : ℕ) (xs ys : Bytes) → value acc (xs ++ ys) ≡ value (value acc xs) ys
unfolding value
value-append acc [] ys = refl
value-append acc (x ∷ xs) ys = value-append (acc * 256 + x) xs ys

pub value-write : (n v : ℕ) → v < 256 ^ n → value 0 (write n v) ≡ v
unfolding write value
value-write zero v h = omega arith
value-write (suc n) v h =
    rw value-append (rw (value-write n (v / 256) (omega (arith, pow-suc 256 n))) (omega arith))

pub read-write :
    (n old v : ℕ) (rest : Bytes) → v < 256 ^ n → read n old (write n v ++ rest) ≡ (v, rest)
unfolding read
read-write n old v rest h = ground (
  arith,
  length-write n v,
  length-append (write n v) rest,
  take-append n (write n v) rest (length-write n v),
  drop-append n (write n v) rest (length-write n v),
  value-write n v h,
)

-- A read that has its bytes is the same when more follows.
pub read-append_front :
    (n old : ℕ) (buffer more : Bytes)
    → n ≤ length buffer
    → read n old (buffer ++ more) ≡ ((read n old buffer).0, (read n old buffer).1 ++ more)
unfolding read
read-append_front n old buffer more h = ground (
  arith,
  length-append buffer more,
  take-append_front n buffer more,
  drop-append_front n buffer more,
)

-- Dropping at least a written integer drops it whole.
pub drop-write :
    (k n v : ℕ) (rest : Bytes) → leb n k ≡ true → drop k (write n v ++ rest) ≡ drop (k - n) rest
drop-write k n v rest h = drop-append_le k n (write n v) rest (length-write n v) (ground arith)

pub take-write :
    (k n v : ℕ) (rest : Bytes)
    → leb n k ≡ true
    → take k (write n v ++ rest) ≡ write n v ++ take (k - n) rest
take-write k n v rest h = take-append_le k n (write n v) rest (length-write n v) (ground arith)

pub read_short : (n old : ℕ) (buffer : Bytes) → length buffer < n → read n old buffer ≡ (old, [])
unfolding read
read_short n old buffer h = ground arith

pub length-read : (n old : ℕ) (buffer : Bytes) → length (read n old buffer).1 ≡ length buffer - n
unfolding read
length-read n old buffer = ground (arith, length-drop n buffer)

pub read-write_end : (n old v : ℕ) → v < 256 ^ n → read n old (write n v) ≡ (v, [])
read-write_end n old v h = ap (read n old) (sym (append-nil (write n v))) ∙ read-write n old v [] h

-- Together they compute a decoder on what an encoder wrote.
pub ruleset wire_laws = (
  length-append, length-write, read-write, read-write_end, drop-write, drop_zero, take-write,
  take_zero,
)
