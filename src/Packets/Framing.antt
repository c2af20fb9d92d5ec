-- ===== src/Packets/Framing.antt =====
-- Packets one after another in a request's body: `_read_header` and `__next__` of BanchoPacketReader
-- in app/packets.py, and what they do with what `write` makes.
use bancho_prism_1_0_0_prod.Base.{
  ℕ, zero, suc, ◌+◌, ◌%◌, ◌^◌, ◌<◌, ◌≤◌, ◌≡◌, ◌∙◌, refl, sym, ap, List, [], ◌∷◌, ◌++◌, Bool, false,
  ◌||◌, Option, none, some, arith, ◌==◌, if◌then◌else◌, length, take, drop, length-drop,
  length-take, Result, ok, err, value_error, Result-cases, Bool-cases, inl, inr,
}
use bancho_prism_1_0_0_prod.Utf8.{Bytes}
use bancho_prism_1_0_0_prod.Packets.Bytes.{le_bytes, from_bytes, from_bytes-le_bytes}
use bancho_prism_1_0_0_prod.Packets.Reader.{Reader, pure, raise, ◌>>=◌, read_exact}

abbrev pub member : ℕ → List ℕ → Bool
member n [] = false
member n (k ∷ ns) = n == k || member n ns

-- The values of ClientPackets that a header can hold: UNKNOWN_PACKET is -1.
abbrev client_packets : List ℕ
client_packets =
    0 ∷ 1 ∷ 2 ∷ 3 ∷ 4 ∷ 16 ∷ 17 ∷ 18 ∷ 20 ∷ 21 ∷ 25 ∷ 29 ∷ 30 ∷ 31 ∷ 32 ∷ 33 ∷ 38 ∷ 39 ∷ 40 ∷ 41
    ∷ 44 ∷ 47 ∷ 49 ∷ 51 ∷ 52 ∷ 54 ∷ 55 ∷ 56 ∷ 59 ∷ 60 ∷ 63 ∷ 68 ∷ 70 ∷ 73 ∷ 74 ∷ 77 ∷ 78 ∷ 79 ∷ 82
    ∷ 84 ∷ 85 ∷ 87 ∷ 90 ∷ 93 ∷ 97 ∷ 98 ∷ 99 ∷ 108 ∷ 109 ∷ []

-- Whether ClientPackets(n) has a member, or raises.
unfoldable pub is_client_packet : ℕ → Bool
is_client_packet n = member n client_packets

-- struct.unpack("<HxI", body_view[:7]), and the member for the id.
unfoldable pub read_header : Reader (ℕ × ℕ)
read_header = do
  raw ← read_exact 7
  let id = from_bytes (take 2 raw)
  if is_client_packet id then pure (id, from_bytes (drop 3 raw)) else raise value_error

-- What `__next__` comes to: the packet that is found, with its type, its length and the buffer from
-- its body on, StopIteration as `ok none`, or what it raises.
abbrev pub Found : Type 0
Found = Result (Option (ℕ × ℕ × Bytes))

-- The loop of `__next__`, to the first packet that `packet_map` handles; `none` where the rounds run
-- out before the loop ends.
unfoldable pub next_from : (fuel : ℕ) → (ℕ → Bool) → Bytes → Option Found
next_from fuel handled [] = some (ok none)
next_from zero handled (b ∷ bs) = none
next_from (suc fuel) handled (b ∷ bs) = elim (read_header (b ∷ bs)) [
  | err e ↦ some (err e)
  | ok ((p_type, p_len), rest) ↦
      let more = next_from fuel handled (drop p_len rest) in
      if handled p_type then some (ok (some (p_type, p_len, rest))) else more
]

-- As many rounds as the buffer has bytes.
unfoldable pub next_packet : (ℕ → Bool) → Bytes → Option Found
unfolding next_from
next_packet handled bs = next_from (length bs) handled bs

abbrev pub header : (id len : ℕ) → Bytes
header id len = le_bytes 2 id ++ 0 ∷ le_bytes 4 len

read_header-header :
    (id len : ℕ) (rest : Bytes)
    → id < 2 ^ 16
    → len < 2 ^ 32
    → read_header (header id len ++ rest)
      ≡ (if is_client_packet id then ok ((id, len), rest) else err value_error)
unfolding read_header read_exact le_bytes
read_header-header id len rest h k =
    let id_back : from_bytes (le_bytes 2 id) ≡ id = from_bytes-le_bytes 2 id h in
    let len_back : from_bytes (le_bytes 4 len) ≡ len = from_bytes-le_bytes 4 len k in
    elim (Bool-cases (is_client_packet id)) [
      | inl known ↦ rw (id_back, len_back, known)
      | inr unknown ↦ rw (id_back, unknown)
    ]

read_header-length :
    (bs rest : Bytes) (id len : ℕ)
    → read_header bs ≡ ok ((id, len), rest)
    → length rest + 7 ≤ length bs
unfolding read_header read_exact
read_header-length bs rest id len e = ground (arith, length-take 7 bs, length-drop 7 bs)

-- One round of the loop, its recursive call passed in.
abbrev round : (ℕ → Bool) → (Bytes → Option Found) → Result ((ℕ × ℕ) × Bytes) → Option Found
round handled more (err e) = some (err e)
round handled more (ok ((p_type, p_len), rest)) =
    if handled p_type then some (ok (some (p_type, p_len, rest))) else more (drop p_len rest)

next_from-round :
    (f : ℕ) (handled : ℕ → Bool) (b : ℕ) (bs : Bytes)
    → next_from (suc f) handled (b ∷ bs)
      ≡ round handled (next_from f handled) (read_header (b ∷ bs))
unfolding next_from
next_from-round f handled b bs = elim (Result-cases (read_header (b ∷ bs))) [
  | inl (((id, len), rest), e) ↦ ground (arith, e)
  | inr (x, e) ↦ ground (arith, e)
]

next_from-nil : (f : ℕ) (handled : ℕ → Bool) → next_from f handled [] ≡ some (ok none)
unfolding next_from
next_from-nil zero handled = refl
next_from-nil (suc f) handled = refl

next_from_fuel :
    (f g : ℕ) (handled : ℕ → Bool) (bs : Bytes)
    → length bs ≤ f
    → length bs ≤ g
    → next_from f handled bs ≡ next_from g handled bs
next_from_fuel f g handled [] h k = next_from-nil f handled ∙ sym (next_from-nil g handled)
next_from_fuel zero g handled (b ∷ bs) h k = absurd (omega arith)
next_from_fuel (suc f) zero handled (b ∷ bs) h k = absurd (omega arith)
next_from_fuel (suc f) (suc g) handled (b ∷ bs) h k =
    rw (next_from-round f handled b bs, next_from-round g handled b bs)
      (elim (Result-cases (read_header (b ∷ bs))) [
        | inl (((id, len), rest), e) ↦
            let shorter = read_header-length (b ∷ bs) rest id len e in
            rw (e, round)
              (ap (λ r. if handled id then some (ok (some (id, len, rest))) else r)
                (next_from_fuel f g handled (drop len rest)
                  (omega (arith, length-drop len rest, shorter))
                  (omega (arith, length-drop len rest, shorter))))
        | inr (x, e) ↦ rw (e, round)
      ])

next_from-some :
    (f : ℕ) (handled : ℕ → Bool) (bs : Bytes)
    → length bs ≤ f
    → (found : Found) × (next_from f handled bs ≡ some found)
next_from-some f handled [] h = (ok none, next_from-nil f handled)
next_from-some zero handled (b ∷ bs) h = absurd (omega arith)
next_from-some (suc f) handled (b ∷ bs) h =
    rw (next_from-round f handled b bs) (elim (Result-cases (read_header (b ∷ bs))) [
      | inr (x, e) ↦ rw (e, round) (err x, refl)
      | inl (((id, len), rest), e) ↦
          let shorter = read_header-length (b ∷ bs) rest id len e in
          let (found, later) =
            next_from-some f handled (drop len rest)
              (omega (arith, length-drop len rest, shorter)) in
          elim (Bool-cases (handled id)) [
            | inl taken ↦ rw (e, round, taken) (ok (some (id, len, rest)), refl)
            | inr skipped ↦ rw (e, round, skipped) (found, later)
          ]
    ])

-- On any buffer the reader's loop ends, within as many rounds as the buffer has bytes: with that many
-- rounds or more it comes to one and the same outcome.
pub next_from_ends :
    (handled : ℕ → Bool) (bs : Bytes)
    → (found : Found) × ((f : ℕ) → length bs ≤ f → next_from f handled bs ≡ some found)
next_from_ends handled bs =
    let (found, e) = next_from-some (length bs) handled bs (omega arith) in
    (found, λ f h. next_from_fuel f (length bs) handled bs h (omega arith) ∙ e)

-- The first round of `next_packet`, at a header that can be read.
pub next_packet-header :
    (handled : ℕ → Bool) (id len : ℕ) (rest : Bytes)
    → id < 2 ^ 16
    → len < 2 ^ 32
    → next_packet handled (header id len ++ rest) ≡ (
        if is_client_packet id
        then (if handled id
            then some (ok (some (id, len, rest)))
            else next_packet handled (drop len rest))
        else some (err value_error))
unfolding next_packet le_bytes
next_packet-header handled id len rest h k =
    let tail : Bytes = drop 1 (header id len ++ rest) in
    next_from-round (length tail) handled (id % 256) tail
    ∙ ap (round handled (next_from (length tail) handled)) (read_header-header id len rest h k)
    ∙ elim (Bool-cases (is_client_packet id)) [
      | inl known ↦ rw known (
          ap (λ r. if handled id then some (ok (some (id, len, rest))) else r)
            (next_from_fuel (length tail) (length (drop len rest)) handled (drop len rest)
              (omega (arith, length-drop len rest)) (omega arith)))
      | inr unknown ↦ rw unknown
    ]
