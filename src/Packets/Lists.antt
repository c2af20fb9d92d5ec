-- ===== src/Packets/Lists.antt =====
-- Lists of numbers of app/packets.py: what `read_i32_list_i16l` makes of what `write_i32_list` wrote.
use bancho_prism_1_0_0_prod.Base.{
  ℕ, ◌-◌, ◌*◌, ◌^◌, ◌≡◌, ◌∙◌, refl, sym, ap, List, [], ◌∷◌, ◌++◌, map, arith, length, take, drop,
  append_assoc, length-append, take-length_append, drop-length_append, ok, >>=-eq-ok, ok-injective,
}
use bancho_prism_1_0_0_prod.Base.Int.{ℤ, pos, negsuc}
use bancho_prism_1_0_0_prod.Utf8.{Bytes}
use bancho_prism_1_0_0_prod.Packets.Bytes.{
  from_bytes, to_bytes, to_bytes_signed, from_bytes-le_bytes, from_bytes-to_bytes, length-to_bytes,
  length-to_bytes_signed,
}
use bancho_prism_1_0_0_prod.Packets.Writer.{write_all, write_i32_list}
use bancho_prism_1_0_0_prod.Packets.Reads.{write_all-cons}
use bancho_prism_1_0_0_prod.Packets.Frames.{read_exact-long, bind-ok}
use bancho_prism_1_0_0_prod.Packets.Reader.{unpack_u32s, read_i32_list_i16l, read_exact}

-- A signed number as the unsigned one with the same four bytes.
abbrev pub unsigned : ℤ → ℕ
unsigned (pos n) = n
unsigned (negsuc n) = 2 ^ 32 - n - 1

from_bytes-to_bytes_signed :
    (z : ℤ) (bs : Bytes) → to_bytes_signed 4 z ≡ ok bs → from_bytes bs ≡ unsigned z
unfolding to_bytes_signed
from_bytes-to_bytes_signed (pos n) bs e = ground (arith, e, from_bytes-le_bytes 4 n)
from_bytes-to_bytes_signed (negsuc n) bs e =
    ground (arith, e, from_bytes-le_bytes 4 (2 ^ 32 - n - 1))

-- The members of a list that could be written, four bytes each.
members :
    (l : List ℤ) (body : Bytes)
    → write_all (map (to_bytes_signed 4) l) ≡ ok body
    → (length body ≡ length l * 4) × (unpack_u32s (length l) body ≡ map unsigned l)
unfolding write_all unpack_u32s
members [] body e = let same : [] ≡ body = cc in (rw (← same) refl, refl)
members (z ∷ l) body e =
    let (bs, p, e₁) = >>=-eq-ok (to_bytes_signed 4 z) _ e in
    let (rest, q, e₂) = >>=-eq-ok (write_all (map (to_bytes_signed 4) l)) _ e₁ in
    let four = length-to_bytes_signed 4 z bs p in
    let (len, values) = members l rest q in
    let same : bs ++ rest ≡ body = ok-injective e₂ in
    let front : take 4 (bs ++ rest) ≡ bs =
      ap (λ k. take k (bs ++ rest)) (sym four) ∙ take-length_append bs rest in
    let back : drop 4 (bs ++ rest) ≡ rest =
      ap (λ k. drop k (bs ++ rest)) (sym four) ∙ drop-length_append bs rest in
    rw (← same) (
      omega (arith, length-append bs rest, four, len),
      rw (front, back, from_bytes-to_bytes_signed z bs p, values) refl,
    )

take-append_of :
    (k : ℕ) (xs ys : Bytes) → length xs ≡ k → (take k (xs ++ ys) ≡ xs) × (drop k (xs ++ ys) ≡ ys)
take-append_of k xs ys e = (
  ap (λ n. take n (xs ++ ys)) (sym e) ∙ take-length_append xs ys,
  ap (λ n. drop n (xs ++ ys)) (sym e) ∙ drop-length_append xs ys,
)

read_exact_front : (k : ℕ) (xs ys : Bytes) → length xs ≡ k → read_exact k (xs ++ ys) ≡ ok (xs, ys)
read_exact_front k xs ys e =
    let (front, back) = take-append_of k xs ys e in
    read_exact-long k (xs ++ ys) (omega (arith, length-append xs ys))
    ∙ ap (λ p. ok p) (λ i. (front i, back i))

-- A list that `write_i32_list` could write is read back from the front of any buffer with its
-- members in their order, each as the unsigned number with the same four bytes: those that are not
-- negative as they are, a negative one as itself plus 2 ^ 32.
pub read_i32_list_i16l-write_i32_list :
    (l : List ℤ) (bs rest : Bytes)
    → write_i32_list l ≡ ok bs
    → read_i32_list_i16l (bs ++ rest) ≡ ok (map unsigned l, rest)
unfolding write_i32_list read_i32_list_i16l
read_i32_list_i16l-write_i32_list l bs rest e =
    let (head, p, body, q, same) =
      write_all-cons (to_bytes 2 (length l)) (map (to_bytes_signed 4) l) bs e in
    let (len, values) = members l body q in
    let (count, tail) = take-append_of 2 head (body ++ rest) (length-to_bytes 2 _ head p) in
    let exact = read_exact_front (length l * 4) body rest len in
    rw (← same, append_assoc head body rest, count, tail, from_bytes-to_bytes 2 _ head p)
      (bind-ok (read_exact (length l * 4)) _ (body ++ rest) exact
        ∙ ap (λ values. ok (values, rest)) values)
