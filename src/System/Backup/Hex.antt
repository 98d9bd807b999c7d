-- ===== src/System/Backup/Hex.antt =====
-- The hexadecimal text of the blobs in components/http_app/dd_http_system.c: what is encoded is decoded again.
use dingdong.Common.{
  ℕ, ◌+◌, ◌*◌, ◌/◌, ◌%◌, ◌<◌, ◌≤◌, ◌≡◌, refl, true, false, some, List, [], ◌∷◌, length, ltb, ◌==◌,
  arith, All,
}
use dingdong.Util.{hex_value-hex_digit}
use dingdong.System.Backup.{hex_encode_str, hex_pairs, hex_decode}

length-hex_encode_str : (bytes : List ℕ) → length (hex_encode_str bytes) ≡ 2 * length bytes
unfolding hex_encode_str
length-hex_encode_str [] = refl
length-hex_encode_str (b ∷ bs) = omega (arith, length-hex_encode_str bs)

hex_pairs-hex_encode_str :
    (bytes : List ℕ) → All (λ b. b < 256) bytes → hex_pairs (hex_encode_str bytes) ≡ some bytes
unfolding hex_pairs hex_encode_str
hex_pairs-hex_encode_str [] h = refl
hex_pairs-hex_encode_str (b ∷ bs) h =
    let whole : b / 16 % 16 * 16 + b % 16 ≡ b = omega (arith, h.0) in
    rw
      (
        hex_pairs,
        hex_value-hex_digit (b / 16 % 16) (omega arith),
        hex_value-hex_digit (b % 16) (omega arith),
        hex_pairs-hex_encode_str bs h.1,
        whole,
      )
      refl

-- Bytes that fit the buffer come back.
pub hex_decode-hex_encode_str :
    (bytes : List ℕ) (cap : ℕ)
    → All (λ b. b < 256) bytes
    → length bytes ≤ cap
    → hex_decode (hex_encode_str bytes) cap ≡ some bytes
unfolding hex_decode
hex_decode-hex_encode_str bytes cap h fits =
    let size = length-hex_encode_str bytes in
    let even : (length (hex_encode_str bytes) % 2 == 0) ≡ true = ground (arith, size) in
    let room : ltb cap (length (hex_encode_str bytes) / 2) ≡ false = ground (arith, size) in
    rw (even, room) (hex_pairs-hex_encode_str bytes h)
