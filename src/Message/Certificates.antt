-- ===== src/Message/Certificates.antt =====
-- pkcs7.go `isCertMatchForIssuerAndSerial`, verify.go `getCertFromCertsByIssuerAndSerial` and sign.go
-- `cert2issuerAndSerial`.
use pkcs.Base.{
  ◌≡◌, refl, ap, Bool, true, false, ◌&&◌, ◌==◌, ==→eq, ==_refl, Option, some, List, [], ◌∷◌, arith,
  Bool-cases, inl, inr, Bytes,
}
use pkcs.Subtle.{bytes_equal, bytes_equal→eq, bytes_equal_refl}
use pkcs.Algorithms.Keys.{RawValue}
use pkcs.Algorithms.Choose.{find}
use pkcs.Algorithms.Accept.{ℤ, pos, negsuc}
use pkcs.Message.Types.{Certificate, IssuerAndSerial}

-- `cert.SerialNumber.Cmp(ias.SerialNumber) == 0`
abbrev pub same_serial : ℤ → ℤ → Bool
same_serial (pos n) (pos m) = n == m
same_serial (negsuc n) (negsuc m) = n == m
same_serial (pos n) (negsuc m) = false
same_serial (negsuc n) (pos m) = false

unfoldable pub is_cert_match_for_issuer_and_serial : Certificate → IssuerAndSerial → Bool
is_cert_match_for_issuer_and_serial cert ias =
    same_serial cert.serial_number ias.serial_number
    && bytes_equal cert.raw_issuer ias.issuer_name.full_bytes

unfoldable pub get_cert_from_certs_by_issuer_and_serial :
    List Certificate → IssuerAndSerial → Option Certificate
get_cert_from_certs_by_issuer_and_serial certs ias =
    find (λ (cert : Certificate). is_cert_match_for_issuer_and_serial cert ias) certs

-- A raw value of which only `FullBytes` is set.
abbrev pub raw_full : Bytes → RawValue
raw_full bytes = record { class = 0; tag = 0; is_compound = false; bytes = []; full_bytes = bytes }

abbrev pub cert2issuer_and_serial : Certificate → IssuerAndSerial
cert2issuer_and_serial cert = record {
  issuer_name = raw_full cert.raw_issuer;
  serial_number = cert.serial_number;
}

same_serial_refl : (n : ℤ) → same_serial n n ≡ true
same_serial_refl (pos n) = ==_refl n
same_serial_refl (negsuc n) = ==_refl n

same_serial→eq : (n m : ℤ) → same_serial n m ≡ true → n ≡ m
same_serial→eq (pos n) (pos m) h = ap pos (==→eq n m h)
same_serial→eq (negsuc n) (negsuc m) h = ap negsuc (==→eq n m h)
same_serial→eq (pos n) (negsuc m) h = cc
same_serial→eq (negsuc n) (pos m) h = cc

-- The certificate that a signer names by issuer and number.
pub record IsNamed (cert : Certificate) (ias : IssuerAndSerial) : Type 0 where
  pub issuer : cert.raw_issuer ≡ ias.issuer_name.full_bytes
  pub serial : cert.serial_number ≡ ias.serial_number

pub IsNamed-match :
    (cert : Certificate) (ias : IssuerAndSerial)
    → IsNamed cert ias
    → is_cert_match_for_issuer_and_serial cert ias ≡ true
unfolding is_cert_match_for_issuer_and_serial
IsNamed-match cert ias n =
    rw (n.issuer, n.serial, same_serial_refl ias.serial_number)
      (bytes_equal_refl ias.issuer_name.full_bytes)

pub match-IsNamed :
    (cert : Certificate) (ias : IssuerAndSerial)
    → is_cert_match_for_issuer_and_serial cert ias ≡ true
    → IsNamed cert ias
unfolding is_cert_match_for_issuer_and_serial
match-IsNamed cert ias h = record {
  issuer = bytes_equal→eq cert.raw_issuer ias.issuer_name.full_bytes (ground arith);
  serial = same_serial→eq cert.serial_number ias.serial_number (ground arith);
}

find_test :
    {A : Type 0} (test : A → Bool) (as_list : List A) (a : A)
    → find test as_list ≡ some a
    → test a ≡ true
unfolding find
find_test test [] a h = cc
find_test test (x ∷ xs) a h = elim (Bool-cases (test x)) [
  | inl yes_here ↦ ground (arith, find_test test xs a)
  | inr elsewhere ↦ ground (arith, find_test test xs a)
]

-- A certificate that is found is one that the signer names.
pub get_cert-IsNamed :
    (certs : List Certificate) (ias : IssuerAndSerial) (cert : Certificate)
    → get_cert_from_certs_by_issuer_and_serial certs ias ≡ some cert
    → IsNamed cert ias
unfolding get_cert_from_certs_by_issuer_and_serial
get_cert-IsNamed certs ias cert h =
    match-IsNamed cert ias
      (find_test (λ (c : Certificate). is_cert_match_for_issuer_and_serial c ias) certs cert h)

-- The first certificate of a message is found by its own name.
pub get_cert-cert2issuer_and_serial :
    (cert : Certificate) (certs : List Certificate)
    → get_cert_from_certs_by_issuer_and_serial (cert ∷ certs) (cert2issuer_and_serial cert)
      ≡ some cert
unfolding get_cert_from_certs_by_issuer_and_serial find
get_cert-cert2issuer_and_serial cert certs =
    rw (IsNamed-match cert (cert2issuer_and_serial cert) (record { issuer = refl; serial = refl }))
      refl
