-- ===== src/Packets/Messages.antt =====
-- The composite types of BanchoPacketReader in app/packets.py that are built from strings and numbers,
-- and what is read back of a message.
use bancho_prism_1_0_0_prod.Base.{◌≡◌, ◌++◌, ok}
use bancho_prism_1_0_0_prod.Base.Int.{ℤ}
use bancho_prism_1_0_0_prod.Utf8.{Bytes, Text}
use bancho_prism_1_0_0_prod.Utf8.RoundTrip.{IsText}
use bancho_prism_1_0_0_prod.Packets.Reader.{Reader, pure, ◌>>=◌, read_string, read_i32}
use bancho_prism_1_0_0_prod.Packets.Writer.{write_message}
use bancho_prism_1_0_0_prod.Packets.Reads.{Field, Field-bind, Field-pure, read_i32-Field}
use bancho_prism_1_0_0_prod.Packets.Strings.{write_string-Field}

pub record Message : Type 0 where
  pub sender : Text
  pub text : Text
  pub recipient : Text
  pub sender_id : ℤ

pub record Channel : Type 0 where
  pub name : Text
  pub topic : Text
  pub players : ℤ

unfoldable pub read_message : Reader Message
read_message = do
  sender ← read_string
  text ← read_string
  recipient ← read_string
  sender_id ← read_i32
  pure (record { sender = sender; text = text; recipient = recipient; sender_id = sender_id })

unfoldable pub read_channel : Reader Channel
read_channel = do
  name ← read_string
  topic ← read_string
  players ← read_i32
  pure (record { name = name; topic = topic; players = players })

module _ (m : Message) (a : IsText m.sender) (b : IsText m.text) (c : IsText m.recipient) where
  write_message-Field : Field read_message (write_message m.sender m.text m.recipient m.sender_id) m
  unfolding read_message write_message
  write_message-Field = Field-bind _ _ _ _ m.sender m (write_string-Field m.sender a) (
      Field-bind _ _ _ _ m.text m (write_string-Field m.text b) (
        Field-bind _ _ _ _ m.recipient m (write_string-Field m.recipient c)
          (Field-bind _ _ _ _ m.sender_id m (read_i32-Field m.sender_id) (Field-pure m))))

-- A message of three texts and an id, if it could be written, is read back as it was, whatever
-- follows it.
pub read_message-write_message :
    (m : Message) (bs rest : Bytes)
    → IsText m.sender
    → IsText m.text
    → IsText m.recipient
    → write_message m.sender m.text m.recipient m.sender_id ≡ ok bs
    → read_message (bs ++ rest) ≡ ok (m, rest)
read_message-write_message m bs rest a b c e = ((write_message-Field m a b c).field bs e).reads rest
