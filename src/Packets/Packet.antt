-- ===== src/Packets/Packet.antt =====
-- Whole packets of app/packets.py: what `write` makes, and what the reader's loop does with it.
use bancho_prism_1_0_0_prod.Base.{
  ℕ, ◌^◌, ◌<◌, ◌≡◌, ◌∙◌, List, ◌++◌, map, Bool, true, false, some, arith, ltb, length, append_assoc,
  drop-length_append, ok, err, value_error, ltb→lt, >>=-eq-ok, ok-injective,
}
use bancho_prism_1_0_0_prod.Utf8.{Bytes}
use bancho_prism_1_0_0_prod.Packets.Bytes.{pow256, le_bytes}
use bancho_prism_1_0_0_prod.Packets.Writer.{pack, write_all}
use bancho_prism_1_0_0_prod.Packets.Write.{PacketArg, write_arg, write}
use bancho_prism_1_0_0_prod.Packets.Framing.{
  header, is_client_packet, next_packet, next_packet-header,
}

pack_parts :
    (k n : ℕ) (bs : Bytes) → pack k n ≡ ok bs → (ltb n (pow256 k) ≡ true) × (le_bytes k n ≡ bs)
unfolding pack
pack_parts k n bs e = ground arith

-- What a packet that could be written consists of.
pub write_parts :
    (online : ℕ → Bool) (id : ℕ) (args : List PacketArg) (bs : Bytes)
    → write online id args ≡ ok bs
    → (body : Bytes) × (write_all (map (write_arg online) args) ≡ ok body)
      × (id < 2 ^ 16)
      × (length body < 2 ^ 32)
      × (header id (length body) ++ body ≡ bs)
unfolding write
write_parts online id args bs e =
    let (front, p, e₁) = >>=-eq-ok (pack 2 id) _ e in
    let (body, q, e₂) = >>=-eq-ok (write_all (map (write_arg online) args)) _ e₁ in
    let (size, r, e₃) = >>=-eq-ok (pack 4 (length body)) _ e₂ in
    let (a, front_is) = pack_parts 2 id front p in
    let (b, size_is) = pack_parts 4 (length body) size r in
    (
      body,
      q,
      ltb→lt id (2 ^ 16) a,
      ltb→lt (length body) (2 ^ 32) b,
      rw (front_is, size_is) (ok-injective e₃),
    )

module _ (online handled : ℕ → Bool) (id : ℕ) (args : List PacketArg) (bs rest : Bytes) where
  -- A written packet whose id the server handles is found at the front of any buffer, with the body
  -- that was written, its length, and what follows it left.
  pub next_packet-write :
      is_client_packet id ≡ true
      → handled id ≡ true
      → write online id args ≡ ok bs
      → (body : Bytes) × (write_all (map (write_arg online) args) ≡ ok body)
        × (next_packet handled (bs ++ rest) ≡ some (ok (some (id, length body, body ++ rest))))
  next_packet-write known h e =
      let (body, p, a, b, q) = write_parts online id args bs e in
      (
        body,
        p,
        rw (← q, append_assoc (header id (length body)) body rest)
            (next_packet-header handled id (length body) (body ++ rest) a b ∙ rw (known, h)),
      )

  -- A packet whose id the client may send and the server does not handle is passed over.
  pub next_packet_skips :
      is_client_packet id ≡ true
      → handled id ≡ false
      → write online id args ≡ ok bs
      → next_packet handled (bs ++ rest) ≡ next_packet handled rest
  next_packet_skips known h e =
      let (body, p, a, b, q) = write_parts online id args bs e in
      rw (← q, append_assoc (header id (length body)) body rest)
        (next_packet-header handled id (length body) (body ++ rest) a b
          ∙ rw (known, h, drop-length_append body rest))

  -- A packet with an id outside ClientPackets raises: it is not passed over.
  pub next_packet_raises :
      is_client_packet id ≡ false
      → write online id args ≡ ok bs
      → next_packet handled (bs ++ rest) ≡ some (err value_error)
  next_packet_raises unknown e =
      let (body, p, a, b, q) = write_parts online id args bs e in
      rw (← q, append_assoc (header id (length body)) body rest)
        (next_packet-header handled id (length body) (body ++ rest) a b ∙ rw unknown)
