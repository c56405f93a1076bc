-- ===== src/Client/Message.antt =====
-- vuvuzela-client/conversation.go: the message inside an exchange.
use mathlib.Core.List.{append-nil}
use vuvuzela.Prelude.{
  suc, zero, ℕ, ◌-◌, ◌≤◌, ◌≡◌, refl, ◌∙◌, [], ◌∷◌, ◌++◌, ◌==◌, length, replicate, take,
  if◌then◌else◌, arith, length-append, length-take, length-replicate,
}
use vuvuzela.Run.{Run, ok, err, panic, malformed}
use vuvuzela.Bytes.{Bytes, copy_zeros}
use vuvuzela.Wire.{size_message}
use vuvuzela.Spans.Cover.{take_all}
use vuvuzela.Client.Varint.{ℤ, IsInt64, put_varint, varint, varint-put_varint, length-put_varint}

-- The `Body` of a ConvoMessage; a time is its Unix seconds, which is all of it that is sent.
pub data ConvoMessage : Type 0 where
  text_message : Bytes → ConvoMessage
  timestamp_message : ℤ → ConvoMessage

unfoldable pub marshal : ConvoMessage → Bytes
unfolding copy_zeros
marshal (timestamp_message t) = 0 ∷ copy_zeros (size_message - 1) (put_varint t)
marshal (text_message m) = 1 ∷ copy_zeros (size_message - 1) m

unfoldable pub unmarshal : Bytes → Run ConvoMessage
unmarshal [] = panic
unmarshal (b ∷ rest) =
    if b == 0
    then ok (timestamp_message (varint rest))
    else if b == 1
    then ok (text_message rest)
    else err malformed

-- `strings.TrimRight(s, "\x00")`.
unfoldable pub trim_right : Bytes → Bytes
trim_right [] = []
trim_right (b ∷ rest) =
    let trimmed = trim_right rest in
    elim trimmed [ [] ↦ if b == 0 then [] else b ∷ [] | c ∷ cs ↦ b ∷ c ∷ cs ]

-- A message that is not longer than the buffer stands in front of zeros.
copy_zeros-short :
    (n : ℕ) (m : Bytes) → length m ≤ n → copy_zeros n m ≡ m ++ replicate (n - length m) 0
unfolding copy_zeros
copy_zeros-short n m h = rw (take_all n m h)

pub copy_zeros_whole : (n : ℕ) (m : Bytes) → length m ≡ n → copy_zeros n m ≡ m
copy_zeros_whole n m h =
    let none_left : n - length m ≡ 0 = omega arith in
    rw (copy_zeros-short n m (omega arith), none_left) (append-nil m)

pub length-copy_zeros : (n : ℕ) (m : Bytes) → length (copy_zeros n m) ≡ n
unfolding copy_zeros
length-copy_zeros n m = omega (
  arith,
  length-append (take n m) (replicate (n - length m) 0),
  length-take n m,
  length-replicate {A = ℕ} (n - length m) 0,
)

trim_right-zeros : (k : ℕ) → trim_right (replicate k 0) ≡ []
unfolding trim_right
trim_right-zeros zero = refl
trim_right-zeros (suc k) = rw (trim_right-zeros k)

trim_right-append_zeros : (m : Bytes) (k : ℕ) → trim_right (m ++ replicate k 0) ≡ trim_right m
unfolding trim_right
trim_right-append_zeros [] k = trim_right-zeros k
trim_right-append_zeros (b ∷ m) k = rw (trim_right-append_zeros m k)

-- A text of at most 239 bytes that does not end in a zero byte, which `trim_right m ≡ m` says, is
-- shown to the other side as it was typed: the reader gets it with zeros behind it, and trims them.
pub unmarshal-marshal_text :
    (m : Bytes)
    → length m ≤ 239
    → trim_right m ≡ m
    → (padded : Bytes) × (unmarshal (marshal (text_message m)) ≡ ok (text_message padded))
      × (trim_right padded ≡ m)
unfolding marshal unmarshal
unmarshal-marshal_text m h t = (
  m ++ replicate (239 - length m) 0,
  rw (copy_zeros-short 239 m h),
  trim_right-append_zeros m (239 - length m) ∙ t,
)

-- A time of 64 bits is read back.
pub unmarshal-marshal_timestamp :
    (t : ℤ) → IsInt64 t → unmarshal (marshal (timestamp_message t)) ≡ ok (timestamp_message t)
unfolding marshal unmarshal
unmarshal-marshal_timestamp t h = rw (
  copy_zeros-short 239 (put_varint t) (omega (arith, length-put_varint t)),
  varint-put_varint t (replicate (239 - length (put_varint t)) 0) h,
)

pub length-marshal : (m : ConvoMessage) → length (marshal m) ≡ size_message
unfolding marshal
length-marshal (text_message m) = omega (arith, length-copy_zeros 239 m)
length-marshal (timestamp_message t) = omega (arith, length-copy_zeros 239 (put_varint t))
