-- ===== src/Backup/Hex.antt =====
-- `hex_encode`, `hex_decode` and `hex_value`.
use Prim.Native.Nat.{◌+◌, ◌-◌, ◌*◌, ◌/◌, ◌%◌, ◌<◌}
use onix_core.Base.{
  ℕ, Bool, true, false, [], ◌∷◌, ◌&&◌, ◌≡◌, refl, All, arith, leb, ltb, if◌then◌else◌,
}
use onix_core.Base.Results.{Result, ok, err, ◌>>=◌}
use onix_core.Base.Text.{Text}
use onix_core.Backup.Types.{Error, odd_hex, invalid_hex}

-- `HEX_DIGITS[i]`
unfoldable pub hex_digit : ℕ → ℕ
hex_digit i = if ltb i 10 then b'0' + i else b'a' + (i - 10)

unfoldable pub hex_encode : Text → Text
unfolding hex_digit
hex_encode [] = []
hex_encode (byte ∷ bytes) = hex_digit (byte / 16) ∷ hex_digit (byte % 16) ∷ hex_encode bytes

unfoldable pub hex_value : ℕ → Result Error ℕ
hex_value value =
    if leb b'0' value && leb value b'9'
    then ok (value - b'0')
    else if leb b'a' value && leb value b'f'
    then ok (value - b'a' + 10)
    else err invalid_hex

-- The loop over the pairs of bytes; the text has an even length.
unfoldable pub decode_pairs : Text → Result Error Text
unfolding hex_value
decode_pairs [] = ok []
decode_pairs (c ∷ []) = ok []
decode_pairs (c ∷ d ∷ s) = do
  high ← hex_value c
  low ← hex_value d
  rest ← decode_pairs s
  ok ((high * 16 + low) ∷ rest)

-- `value.len().is_multiple_of(2)`
unfoldable pub even_length : Text → Bool
even_length [] = true
even_length (c ∷ []) = false
even_length (c ∷ d ∷ s) = even_length s

unfoldable pub hex_decode : Text → Result Error Text
unfolding decode_pairs even_length
hex_decode value = if even_length value then decode_pairs value else err odd_hex

abbrev pub IsByte : ℕ → Type 0
IsByte c = c < 256

hex_value-hex_digit : (i : ℕ) → i < 16 → hex_value (hex_digit i) ≡ ok i
unfolding hex_value hex_digit
hex_value-hex_digit i h = ground arith

even_length-hex_encode : (bytes : Text) → even_length (hex_encode bytes) ≡ true
unfolding even_length hex_encode
even_length-hex_encode [] = refl
even_length-hex_encode (b ∷ bytes) = even_length-hex_encode bytes

decode_pairs-hex_encode :
    (bytes : Text) → All IsByte bytes → decode_pairs (hex_encode bytes) ≡ ok bytes
unfolding decode_pairs hex_encode
decode_pairs-hex_encode [] h = refl
decode_pairs-hex_encode (b ∷ bytes) h = ground (
  arith,
  hex_value-hex_digit (b / 16),
  hex_value-hex_digit (b % 16),
  decode_pairs-hex_encode bytes h.1,
)

-- Decoding the encoding of any bytes gives those bytes.
pub hex_decode-hex_encode :
    (bytes : Text) → All IsByte bytes → hex_decode (hex_encode bytes) ≡ ok bytes
unfolding hex_decode
hex_decode-hex_encode bytes h =
    ground (arith, even_length-hex_encode bytes, decode_pairs-hex_encode bytes h)
