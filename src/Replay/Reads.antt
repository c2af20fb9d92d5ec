-- ===== src/Replay/Reads.antt =====
-- Reading back what was written, at any position of the data: `ReadsAt read bs v` says that from
-- where the bytes start, the reader of app/adapters/osr_replay.py takes them for the value and stops
-- behind them. Sequences go field by field along `write_all`.
use bancho_prism_1_0_0_prod.Base.{
  ℕ, ◌+◌, ◌≡◌, refl, ◌∙◌, ap, arith, List, [], ◌∷◌, ◌++◌, append_assoc, true, some, ◌==◌, length,
  take, drop, get_elem?, length-append, take-length_append, drop-length_append, Result, ok,
}
use bancho_prism_1_0_0_prod.Utf8.{Bytes}
use bancho_prism_1_0_0_prod.Packets.Writer.{write_all}
use bancho_prism_1_0_0_prod.Packets.Reads.{write_all-cons}
use bancho_prism_1_0_0_prod.Replay.Reader.{
  Reader, ◌>>=◌, pure, require, next_byte, read_byte, read_bytes, unpack,
}

pub record ReadsAt {ℓ} {A : Type ℓ} (m : Reader A) (bs : Bytes) (v : A) : Type ℓ where
  pub reads :
      (front rest : Bytes)
      → m (front ++ (bs ++ rest)) (length front) ≡ ok (v, length front + length bs)

module _ {ℓ κ} {A : Type ℓ} {B : Type κ} where
  pub ReadsAt-bind :
      (m : Reader A) (f : A → Reader B) (bs cs : Bytes) (v : A) (w : B)
      → ReadsAt m bs v
      → ReadsAt (f v) cs w
      → ReadsAt (m >>= f) (bs ++ cs) w
  ReadsAt-bind m f bs cs v w hm hf = record {
    reads = λ front rest.
        let second = hf.reads (front ++ bs) rest in
        rw (append_assoc bs cs rest, hm.reads front (cs ++ rest), ◌>>=◌, append_assoc bs cs rest)
          (rw (append_assoc front bs (cs ++ rest), length-append front bs) at second
            ∙ ap (λ n. ok (w, n)) (omega (arith, length-append bs cs)));
  }

pub ReadsAt-pure {ℓ} : {A : Type ℓ} (v : A) → ReadsAt (pure v) [] v
ReadsAt-pure v = record { reads = λ front rest. ap (λ n. ok (v, n)) (omega arith) }

get_elem?-here :
    (front rest : Bytes) (b : ℕ) → get_elem? (front ++ b ∷ rest) (length front) ≡ some b
get_elem?-here [] rest b = refl
get_elem?-here (c ∷ front) rest b = get_elem?-here front rest b

require-here :
    (front bs rest : Bytes)
    → require (length bs) (front ++ (bs ++ rest)) (length front) ≡ ok (tt, length front)
unfolding require
require-here front bs rest = ground (arith, length-append front (bs ++ rest), length-append bs rest)

slice_here :
    (front bs rest : Bytes) → take (length bs) (drop (length front) (front ++ (bs ++ rest))) ≡ bs
slice_here front bs rest = rw (drop-length_append front (bs ++ rest)) (take-length_append bs rest)

pub read_byte-ReadsAt : (b : ℕ) → ReadsAt read_byte (b ∷ []) b
unfolding read_byte
read_byte-ReadsAt b = record {
  reads = λ front rest.
      rw (require-here front (b ∷ []) rest, ◌>>=◌, next_byte, get_elem?-here front rest b) refl;
}

pub read_bytes-ReadsAt : (bs : Bytes) → ReadsAt (read_bytes (length bs)) bs bs
unfolding read_bytes
read_bytes-ReadsAt bs = record {
  reads = λ front rest. rw (require-here front bs rest, ◌>>=◌, slice_here front bs rest) refl;
}

pub unpack-ReadsAt : (bs : Bytes) → ReadsAt (unpack (length bs)) bs bs
unfolding unpack
unpack-ReadsAt bs = record {
  reads = λ front rest.
      let whole : (length bs == length bs) ≡ true = ground arith in
      rw (require-here front bs rest, ◌>>=◌, slice_here front bs rest, whole) refl;
}

-- Field by field along `write_all`.
pub record FieldAt {ℓ} {A : Type ℓ} (m : Reader A) (part : Result Bytes) (v : A) : Type ℓ where
  pub field : (bs : Bytes) → part ≡ ok bs → ReadsAt m bs v

module _ {ℓ κ} {A : Type ℓ} {B : Type κ} where
  pub FieldAt-bind :
      (m : Reader A) (f : A → Reader B) (part : Result Bytes) (parts : List (Result Bytes)) (v : A)
      (w : B)
      → FieldAt m part v
      → FieldAt (f v) (write_all parts) w
      → FieldAt (m >>= f) (write_all (part ∷ parts)) w
  FieldAt-bind m f part parts v w hm hf = record {
    field = λ bs e.
        let (a, p, b, q, r) = write_all-cons part parts bs e in
        rw (← r) (ReadsAt-bind m f a b v w (hm.field a p) (hf.field b q));
  }

  -- The last reader of a block, and what is made of its value.
  pub ReadsAt-map :
      (m : Reader A) (g : A → B) (bs : Bytes) (v : A)
      → ReadsAt m bs v
      → ReadsAt (m >>= λ x. pure (g x)) bs (g v)
  ReadsAt-map m g bs v h = record { reads = λ front rest. rw (h.reads front rest, ◌>>=◌) }

pub FieldAt-ok {ℓ} :
    {A : Type ℓ} (m : Reader A) (bs : Bytes) (v : A) → ReadsAt m bs v → FieldAt m (ok bs) v
FieldAt-ok m bs v h = record { field = λ cs e. let same : bs ≡ cs = cc in rw (← same) h }

pub FieldAt-pure {ℓ} : {A : Type ℓ} (v : A) → FieldAt (pure v) (write_all []) v
unfolding write_all
FieldAt-pure v = record { field = λ bs e. let same : [] ≡ bs = cc in rw (← same) (ReadsAt-pure v) }
