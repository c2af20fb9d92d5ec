-- ===== src/Packets/Reads.antt =====
-- Reading back what was written. `Reads read bs v`: whatever follows the bytes, the reader takes them
-- for the value and leaves the rest. A sequence of readers goes field by field along `write_all`.
use bancho_prism_1_0_0_prod.Base.{
  ℕ, suc, ◌-◌, ◌^◌, ◌<◌, ◌≡◌, ◌∙◌, refl, List, [], ◌∷◌, ◌++◌, arith, ltb, if◌then◌else◌, length,
  append_assoc, take-length_append, drop-length_append, Result, ok, err, ok-injective, Error,
  Result-cases, inl, inr,
}
use bancho_prism_1_0_0_prod.Base.Int.{ℤ, pos, negsuc}
use bancho_prism_1_0_0_prod.Utf8.{Bytes}
use bancho_prism_1_0_0_prod.Packets.Bytes.{
  sign_bit, from_bytes, from_bytes_signed, to_bytes, to_bytes_signed, to_bytes_form,
  length-to_bytes, length-to_bytes_signed, from_bytes-to_bytes, from_bytes_signed-to_bytes_signed,
  from_bytes_signed-le_bytes,
}
use bancho_prism_1_0_0_prod.Packets.Reader.{
  Reader, pure, ◌>>=◌, read_slice, read_i8, read_i16, read_u16, read_i32,
}
use bancho_prism_1_0_0_prod.Packets.Writer.{write_all, pack}

pub record Reads {ℓ} {A : Type ℓ} (read : Reader A) (bs : Bytes) (v : A) : Type ℓ where
  pub reads : (rest : Bytes) → read (bs ++ rest) ≡ ok (v, rest)

module _ {ℓ κ} {A : Type ℓ} {B : Type κ} where
  pub Reads-bind :
      (m : Reader A) (f : A → Reader B) (front bs : Bytes) (v : A) (w : B)
      → Reads m front v
      → Reads (f v) bs w
      → Reads (m >>= f) (front ++ bs) w
  Reads-bind m f front bs v w hm hf = record {
    reads = λ rest. rw (append_assoc front bs rest, hm.reads (bs ++ rest), ◌>>=◌) (hf.reads rest);
  }

pub Reads-pure {ℓ} : {A : Type ℓ} (v : A) → Reads (pure v) [] v
Reads-pure v = record { reads = λ rest. refl }

module _ {ℓ κ} {A : Type ℓ} {B : Type κ} where
  -- The last reader of a block, and what is made of its value.
  pub Reads-map :
      (m : Reader A) (g : A → B) (bs : Bytes) (v : A)
      → Reads m bs v
      → Reads (m >>= λ x. pure (g x)) bs (g v)
  Reads-map m g bs v h = record { reads = λ rest. rw (h.reads rest, ◌>>=◌) }

pub write_all-cons :
    (part : Result Bytes) (parts : List (Result Bytes)) (bs : Bytes)
    → write_all (part ∷ parts) ≡ ok bs
    → (a : Bytes) × (part ≡ ok a) × (b : Bytes) × (write_all parts ≡ ok b) × (a ++ b ≡ bs)
unfolding write_all
write_all-cons (err x) parts bs e = cc
write_all-cons (ok a) parts bs e = elim (Result-cases (write_all parts)) [
  | inl (b, q) ↦ (a, refl, b, q, ground (arith, q))
  | inr (x, q) ↦ absurd (ground (arith, q))
]

-- `part` is what is written of the value `v`, and `read` reads it back.
pub record Field {ℓ} {A : Type ℓ} (read : Reader A) (part : Result Bytes) (v : A) : Type ℓ where
  pub field : (bs : Bytes) → part ≡ ok bs → Reads read bs v

module _ {ℓ κ} {A : Type ℓ} {B : Type κ} where
  pub Field-bind :
      (m : Reader A) (f : A → Reader B) (part : Result Bytes) (parts : List (Result Bytes)) (v : A)
      (w : B)
      → Field m part v
      → Field (f v) (write_all parts) w
      → Field (m >>= f) (write_all (part ∷ parts)) w
  Field-bind m f part parts v w hm hf = record {
    field = λ bs e.
        let (a, p, b, q, r) = write_all-cons part parts bs e in
        rw (← r) (Reads-bind m f a b v w (hm.field a p) (hf.field b q));
  }

-- A result that is there already, and its bytes.
pub Field-ok {ℓ} :
    {A : Type ℓ} (m : Reader A) (bs : Bytes) (v : A) → Reads m bs v → Field m (ok bs) v
Field-ok m bs v h = record { field = λ cs e. let same : bs ≡ cs = cc in rw (← same) h }

module _ {ℓ κ} {A : Type ℓ} {B : Type κ} where
  pub Field-map :
      (m : Reader A) (g : A → B) (part : Result Bytes) (v : A)
      → Field m part v
      → Field (m >>= λ x. pure (g x)) part (g v)
  Field-map m g part v h = record { field = λ bs e. Reads-map m g bs v (h.field bs e) }

-- What is not written is not read.
pub Field-skip {ℓ} :
    {A : Type ℓ} (m : Reader A) (parts : List (Result Bytes)) (v : A)
    → Field m (write_all parts) v
    → Field m (write_all (ok [] ∷ parts)) v
Field-skip m parts v h = record {
  field = λ bs e.
      let (a, p, b, q, r) = write_all-cons (ok []) parts bs e in
      let nothing : [] ≡ a = ok-injective p in rw (← r, ← nothing) (h.field b q);
}

pub Field-err {ℓ} : {A : Type ℓ} (m : Reader A) (x : Error) (v : A) → Field m (err x) v
Field-err m x v = record { field = λ bs e. cc }

pub Field-pure {ℓ} : {A : Type ℓ} (v : A) → Field (pure v) (write_all []) v
unfolding write_all
Field-pure v = record { field = λ bs e. let same : [] ≡ bs = cc in rw (← same) (Reads-pure v) }

read_slice-Reads : (k : ℕ) (bs : Bytes) → length bs ≡ k → Reads (read_slice k) bs bs
unfolding read_slice
read_slice-Reads k bs h =
    rw (← h)
      (record { reads = λ rest. rw (take-length_append bs rest, drop-length_append bs rest) })

module _ {ℓ} {A : Type ℓ} (k : ℕ) (f : Bytes → A) (bs : Bytes) (v : A) where
  slice_value : length bs ≡ k → f bs ≡ v → Reads (do val ← read_slice k; pure (f val)) bs v
  unfolding read_slice
  slice_value h e = record {
    reads = λ rest. rw (← h, take-length_append bs rest, drop-length_append bs rest, e);
  }

module _ (z : ℤ) where
  pub read_i32-Field : Field read_i32 (to_bytes_signed 4 z) z
  unfolding read_i32
  read_i32-Field = record {
    field = λ bs e.
        slice_value 4 from_bytes_signed bs z (length-to_bytes_signed 4 z bs e)
          (from_bytes_signed-to_bytes_signed 3 z bs e);
  }

module _ (n : ℕ) where
  pub read_u16-Field : Field read_u16 (to_bytes 2 n) n
  unfolding read_u16
  read_u16-Field = record {
    field = λ bs e.
        slice_value 2 from_bytes bs n (length-to_bytes 2 n bs e) (from_bytes-to_bytes 2 n bs e);
  }

-- A number below the sign bit, written unsigned, reads back signed.
signed_value :
    (k n : ℕ) (bs : Bytes)
    → n < sign_bit (suc k)
    → to_bytes (suc k) n ≡ ok bs
    → from_bytes_signed bs ≡ pos n
signed_value k n bs h e =
    let (fits, written) = to_bytes_form (suc k) n bs e in
    rw (← written) (from_bytes_signed-le_bytes k n fits ∙ ground (arith, h))

pub pack_form : (k n : ℕ) (bs : Bytes) → pack k n ≡ ok bs → to_bytes k n ≡ ok bs
unfolding pack
pack_form k n bs e = ground arith

module _ (n : ℕ) (h : n < 2 ^ 31) where
  pub read_i32-Field_unsigned : Field read_i32 (to_bytes 4 n) (pos n)
  unfolding read_i32
  read_i32-Field_unsigned = record {
    field = λ bs e.
        slice_value 4 from_bytes_signed bs (pos n) (length-to_bytes 4 n bs e)
          (signed_value 3 n bs h e);
  }

  pub read_i32-Field_packed : Field read_i32 (pack 4 n) (pos n)
  read_i32-Field_packed = record {
    field = λ bs e. read_i32-Field_unsigned.field bs (pack_form 4 n bs e);
  }

module _ (n : ℕ) (h : n < 2 ^ 15) where
  pub read_i16-Field_packed : Field read_i16 (pack 2 n) (pos n)
  unfolding read_i16
  read_i16-Field_packed = record {
    field = λ bs e.
        let written = pack_form 2 n bs e in
        slice_value 2 from_bytes_signed bs (pos n) (length-to_bytes 2 n bs written)
          (signed_value 1 n bs h written);
  }

-- What a byte stands for as an i8.
abbrev pub signed_byte : ℕ → ℤ
signed_byte b = if ltb 127 b then negsuc (255 - b) else pos b

pub read_i8-Reads : (b : ℕ) → Reads read_i8 (b ∷ []) (signed_byte b)
unfolding read_i8
read_i8-Reads b = record { reads = λ rest. refl }

pub read_i8-Field : (b : ℕ) → Field read_i8 (ok (b ∷ [])) (signed_byte b)
read_i8-Field b = record {
  field = λ bs e. let same : (b ∷ []) ≡ bs = cc in rw (← same) (read_i8-Reads b);
}
