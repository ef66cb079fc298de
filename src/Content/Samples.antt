-- ===== src/Content/Samples.antt =====
-- A cipher that adds 1 to each byte, a decoder of octet strings with a length of one byte, and bytes
-- for runs.
use pkcs.Base.{
  ℕ, suc, ◌-◌, ◌≡◌, refl, ap, subst, Option, none, some, [], ◌∷◌, append-nil, length, take, drop,
  replicate, take_append, drop_append, Bytes, arith,
}
use pkcs.Content.Ciphers.{
  CipherKind, Gcm, Block, GcmParameters, Crypto, IsCbc, IsGcm, IsDecoder, IsGcmDecoder,
}

abbrev pub up : Bytes → Bytes
up [] = []
up (b ∷ bs) = suc b ∷ up bs

abbrev pub down : Bytes → Bytes
down [] = []
down (b ∷ bs) = (b - 1) ∷ down bs

length-up : (bs : Bytes) → length (up bs) ≡ length bs
length-up [] = refl
length-up (b ∷ bs) = ap suc (length-up bs)

down-up : (bs : Bytes) → down (up bs) ≡ bs
down-up [] = refl
down-up (b ∷ bs) = let e : suc b - 1 ≡ b = omega arith in let rest = down-up bs in cc

abbrev pub small_gcm : Gcm
small_gcm = record {
  nonce_size = 12;
  overhead = 16;
  seal = λ nonce. up;
  open_sealed = λ nonce bytes. some (down bytes);
}

pub small_gcm-IsGcm : IsGcm small_gcm
small_gcm-IsGcm = record {
  nonce_is = refl;
  open_seal = λ nonce content h. ap some (down-up content);
}

abbrev unmarshal_small_gcm : Bytes → Option GcmParameters
unmarshal_small_gcm [] = none
unmarshal_small_gcm (icv_len ∷ nonce) = some (record { nonce = nonce; icv_len = icv_len })

abbrev pub shifting : ℕ → Block
shifting size = record {
  block_size = size;
  cbc_encrypt = λ iv. up;
  cbc_decrypt = λ iv. down;
  new_gcm = some small_gcm;
}

pub shifting-IsCbc : (size : ℕ) → IsCbc (shifting size) size
shifting-IsCbc size = record {
  size_is = refl;
  cbc_length = λ iv content _ _. length-up content;
  cbc_round = λ iv content _ _. down-up content;
}

abbrev pub sizes : CipherKind → ℕ
sizes CipherKind.aes = 16
sizes _ = 8

abbrev pub unmarshal : Bytes → Option (Bytes × Bytes)
unmarshal (tag ∷ n ∷ bytes) = some (take n bytes, drop n bytes)
unmarshal _ = none

abbrev pub small_crypto : Crypto
small_crypto = record {
  new_cipher = λ kind key. some (shifting (sizes kind));
  marshal_octets = λ content. 4 ∷ length content ∷ content;
  unmarshal_octets = unmarshal;
  marshal_gcm = λ params. some (params.icv_len ∷ params.nonce);
  unmarshal_gcm = unmarshal_small_gcm;
}

pub small_crypto-IsDecoder : IsDecoder small_crypto
small_crypto-IsDecoder = record { unmarshal_marshal = whole; unmarshal_nil = refl }
  where
    whole : (content : Bytes) → unmarshal (4 ∷ length content ∷ content) ≡ some (content, [])
    whole content =
        let front = rw append-nil at (take_append content []) in
        let back = rw append-nil at (drop_append content []) in rw (front, back) refl

pub small_crypto-IsGcmDecoder : IsGcmDecoder small_crypto
small_crypto-IsGcmDecoder = record {
  unmarshal_marshal = λ params bytes e.
      let same : params.icv_len ∷ params.nonce ≡ bytes = cc in
      subst (λ z. unmarshal_small_gcm z ≡ some params) same refl;
}

abbrev pub zeros : ℕ → Option Bytes
zeros n = some (replicate n 0)

abbrev pub text : Bytes
text = 104 ∷ 101 ∷ 108 ∷ 108 ∷ 111 ∷ []
