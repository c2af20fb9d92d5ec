-- ===== src/Packets/Bytes.antt =====
-- `int.to_bytes` and `int.from_bytes` in little-endian order, as app/packets.py uses them.
use bancho_prism_1_0_0_prod.Base.{
  ℕ, zero, suc, ◌+◌, ◌-◌, ◌*◌, ◌/◌, ◌%◌, ◌<◌, ◌≡◌, ◌∙◌, refl, ap, [], ◌∷◌, arith, ltb,
  if◌then◌else◌, length, Result, ok, err, overflow_error,
}
use bancho_prism_1_0_0_prod.Base.Int.{ℤ, pos, negsuc}
use bancho_prism_1_0_0_prod.Utf8.{Bytes}

-- 256 ^ k
abbrev pub pow256 : ℕ → ℕ
pow256 zero = 1
pow256 (suc k) = 256 * pow256 k

-- The first value of k bytes whose sign bit is set, for k above 0.
abbrev pub sign_bit : ℕ → ℕ
sign_bit k = pow256 k / 2

unfoldable pub le_bytes : ℕ → ℕ → Bytes
le_bytes zero n = []
le_bytes (suc k) n = (n % 256) ∷ le_bytes k (n / 256)

-- int.from_bytes(bs, "little", signed=False): every length is accepted.
unfoldable pub from_bytes : Bytes → ℕ
from_bytes [] = 0
from_bytes (b ∷ bs) = b + 256 * from_bytes bs

-- int.from_bytes(bs, "little", signed=True)
unfoldable pub from_bytes_signed : Bytes → ℤ
unfolding from_bytes
from_bytes_signed [] = pos 0
from_bytes_signed (b ∷ bs) =
    let n = from_bytes (b ∷ bs) in
    let k = suc (length bs) in if ltb n (sign_bit k) then pos n else negsuc (pow256 k - n - 1)

-- n.to_bytes(k, "little") of a number that is not negative
unfoldable pub to_bytes : ℕ → ℕ → Result Bytes
unfolding le_bytes
to_bytes k n = if ltb n (pow256 k) then ok (le_bytes k n) else err overflow_error

-- z.to_bytes(k, "little", signed=True)
unfoldable pub to_bytes_signed : ℕ → ℤ → Result Bytes
unfolding le_bytes
to_bytes_signed k (pos n) = if ltb n (sign_bit k) then ok (le_bytes k n) else err overflow_error
to_bytes_signed k (negsuc n) =
    if ltb n (sign_bit k) then ok (le_bytes k (pow256 k - n - 1)) else err overflow_error

pub length-le_bytes : (k n : ℕ) → length (le_bytes k n) ≡ k
unfolding le_bytes
length-le_bytes zero n = refl
length-le_bytes (suc k) n = ap suc (length-le_bytes k (n / 256))

pub from_bytes-le_bytes : (k n : ℕ) → n < pow256 k → from_bytes (le_bytes k n) ≡ n
unfolding le_bytes from_bytes
from_bytes-le_bytes zero n h = omega arith
from_bytes-le_bytes (suc k) n h = omega (arith, from_bytes-le_bytes k (n / 256) (omega arith))

pub from_bytes_signed-le_bytes :
    (k n : ℕ)
    → n < pow256 (suc k)
    → from_bytes_signed (le_bytes (suc k) n)
      ≡ (if ltb n (sign_bit (suc k)) then pos n else negsuc (pow256 (suc k) - n - 1))
unfolding from_bytes_signed le_bytes
from_bytes_signed-le_bytes k n h =
    ground (arith, from_bytes-le_bytes (suc k) n h, length-le_bytes k (n / 256))

pub pos_form :
    (k n : ℕ) (bs : Bytes)
    → to_bytes_signed k (pos n) ≡ ok bs
    → (n < sign_bit k) × (le_bytes k n ≡ bs)
unfolding to_bytes_signed
pos_form k n bs e = ground arith

negsuc_form :
    (k n : ℕ) (bs : Bytes)
    → to_bytes_signed k (negsuc n) ≡ ok bs
    → (n < sign_bit k) × (le_bytes k (pow256 k - n - 1) ≡ bs)
unfolding to_bytes_signed
negsuc_form k n bs e = ground arith

-- The two's complement form of every integer that fits reads back as that integer.
pub from_bytes_signed-to_bytes_signed :
    (k : ℕ) (z : ℤ) (bs : Bytes) → to_bytes_signed (suc k) z ≡ ok bs → from_bytes_signed bs ≡ z
from_bytes_signed-to_bytes_signed k (pos n) bs e =
    let (h, p) = pos_form (suc k) n bs e in
    rw (← p) (from_bytes_signed-le_bytes k n (omega arith) ∙ ground arith)
from_bytes_signed-to_bytes_signed k (negsuc n) bs e =
    let (h, p) = negsuc_form (suc k) n bs e in
    rw (← p) (from_bytes_signed-le_bytes k (pow256 (suc k) - n - 1) (omega arith) ∙ ground arith)

pub to_bytes_form :
    (k n : ℕ) (bs : Bytes) → to_bytes k n ≡ ok bs → (n < pow256 k) × (le_bytes k n ≡ bs)
unfolding to_bytes
to_bytes_form k n bs e = ground arith

pub from_bytes-to_bytes : (k n : ℕ) (bs : Bytes) → to_bytes k n ≡ ok bs → from_bytes bs ≡ n
unfolding to_bytes
from_bytes-to_bytes k n bs e = ground (arith, from_bytes-le_bytes k n)

pub length-to_bytes : (k n : ℕ) (bs : Bytes) → to_bytes k n ≡ ok bs → length bs ≡ k
unfolding to_bytes
length-to_bytes k n bs e = ground (arith, length-le_bytes k n)

pub length-to_bytes_signed :
    (k : ℕ) (z : ℤ) (bs : Bytes) → to_bytes_signed k z ≡ ok bs → length bs ≡ k
unfolding to_bytes_signed
length-to_bytes_signed k (pos n) bs e = ground (arith, length-le_bytes k n)
length-to_bytes_signed k (negsuc n) bs e = ground (arith, length-le_bytes k (pow256 k - n - 1))
