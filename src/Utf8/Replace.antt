-- ===== src/Utf8/Replace.antt =====
-- Python's `bytes.decode("utf-8", errors="replace")`, as app/adapters/osr_replay.py calls it: the
-- longest part of a character that was cut short, or one byte that starts none, is U+FFFD.
use bancho_prism_1_0_0_prod.Base.{
  ℕ, suc, zero, ◌+◌, ◌-◌, ◌*◌, [], ◌∷◌, true, false, ◌&&◌, none, some, ltb, leb, ◌≡◌, ap, ◌∙◌,
  Result, ok, ok-injective, ◌>>=◌, >>=-eq-ok, arith, Bool-cases, Option-cases, inl, inr,
}
use bancho_prism_1_0_0_prod.Utf8.{
  Bytes, Text, Decoder, idle, inside, lead_byte, decode, decode_from,
}

abbrev replacement : ℕ
replacement = 0xfffd

-- A byte between characters; `next` goes on after it.
abbrev start : ℕ → (next : Decoder → Text) → Text
start b next = elim (ltb b 0x80) [
  | true ↦ b ∷ next idle
  | false ↦ elim (lead_byte b) [ none ↦ replacement ∷ next idle | some d ↦ next d ]
]

unfoldable pub replace_from : Decoder → Bytes → Text
unfolding lead_byte
replace_from idle [] = []
replace_from (inside left acc low high) [] = replacement ∷ []
replace_from idle (b ∷ bs) = start b (λ d. replace_from d bs)
replace_from (inside zero acc low high) (b ∷ bs) = elim (leb low b && leb b high) [
  | true ↦ (acc * 64 + (b - 128)) ∷ replace_from idle bs
  | false ↦ replacement ∷ start b (λ d. replace_from d bs)
]
replace_from (inside (suc left) acc low high) (b ∷ bs) = elim (leb low b && leb b high) [
  | true ↦ replace_from (inside left (acc * 64 + (b - 128)) 0x80 0xbf) bs
  | false ↦ replacement ∷ start b (λ d. replace_from d bs)
]

unfoldable pub decode_replace : Bytes → Text
unfolding replace_from
decode_replace = replace_from idle

put_form :
    (c : ℕ) (r : Result Text) (s : Text)
    → (r >>= λ t. ok (c ∷ t)) ≡ ok s
    → (t : Text) × (r ≡ ok t) × (c ∷ t ≡ s)
put_form c r s e = let (t, q, w) = >>=-eq-ok r (λ t. ok (c ∷ t)) e in (t, q, ok-injective w)

replace_from-decode_from :
    (d : Decoder) (bs : Bytes) (s : Text) → decode_from d bs ≡ ok s → replace_from d bs ≡ s
unfolding replace_from decode_from
replace_from-decode_from idle [] s e = ok-injective e
replace_from-decode_from (inside left acc low high) [] s e = cc
replace_from-decode_from idle (b ∷ bs) s e = elim (Bool-cases (ltb b 0x80)) [
  | inl small ↦
      let (t, q, w) = put_form b (decode_from idle bs) s (rw small at e) in
      rw (small, start) (ap (λ t. b ∷ t) (replace_from-decode_from idle bs t q) ∙ w)
  | inr large ↦ elim (Option-cases (lead_byte b)) [
    | inl nothing ↦ absurd (ground (arith, e, large, nothing))
    | inr (d, lead) ↦
        rw (large, lead, start) (replace_from-decode_from d bs s (rw (large, lead) at e))
  ]
]
replace_from-decode_from (inside zero acc low high) (b ∷ bs) s e =
    elim (Bool-cases (leb low b && leb b high)) [
      | inl within ↦
          let (t, q, w) =
            put_form (acc * 64 + (b - 128)) (decode_from idle bs) s (rw within at e) in
          rw (within, replace_from)
            (ap (λ t. (acc * 64 + (b - 128)) ∷ t) (replace_from-decode_from idle bs t q) ∙ w)
      | inr outside ↦ absurd (ground (arith, e, outside))
    ]
replace_from-decode_from (inside (suc left) acc low high) (b ∷ bs) s e =
    elim (Bool-cases (leb low b && leb b high)) [
      | inl within ↦
          rw (within, replace_from)
            (replace_from-decode_from (inside left (acc * 64 + (b - 128)) 0x80 0xbf) bs s
              (rw (within, replace_from) at e))
      | inr outside ↦ absurd (ground (arith, e, outside))
    ]

-- What is valid is decoded as by the strict decoder.
pub decode_replace-decode : (bs : Bytes) (s : Text) → decode bs ≡ ok s → decode_replace bs ≡ s
unfolding decode decode_replace
decode_replace-decode = replace_from-decode_from idle
