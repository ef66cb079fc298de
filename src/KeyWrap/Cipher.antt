-- ===== src/KeyWrap/Cipher.antt =====
-- Go's crypto/aes as the program uses it: a parameter, with the documented behaviour as laws.
use pkcs.Base.{◌≡◌, Bool, ◌||◌, ◌==◌, length, Bytes, IsByte, All}

-- The two directions of `cipher.Block` for a key, on one block of 16 bytes.
pub record Aes : Type 0 where
  pub encrypt : Bytes → Bytes → Bytes
  pub decrypt : Bytes → Bytes → Bytes

abbrev pub IsBlock : Bytes → Type 0
IsBlock b = (length b ≡ 16) × All IsByte b

-- Each direction maps blocks to blocks and undoes the other.
pub record IsCipher (aes : Aes) (key : Bytes) : Type 0 where
  pub encrypt-IsBlock : (b : Bytes) → IsBlock b → IsBlock (aes.encrypt key b)
  pub decrypt-IsBlock : (b : Bytes) → IsBlock b → IsBlock (aes.decrypt key b)
  pub decrypt-encrypt : (b : Bytes) → IsBlock b → aes.decrypt key (aes.encrypt key b) ≡ b
  pub encrypt-decrypt : (b : Bytes) → IsBlock b → aes.encrypt key (aes.decrypt key b) ≡ b

-- `aes.NewCipher` takes keys of 16, 24 or 32 bytes.
unfoldable pub key_size_ok : Bytes → Bool
key_size_ok key = length key == 16 || (length key == 24 || length key == 32)
