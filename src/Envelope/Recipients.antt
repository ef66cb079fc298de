-- ===== src/Envelope/Recipients.antt =====
-- decrypt.go `selectRecipientForCertificate`.
use pkcs.Base.{
  ℕ, ◌≡◌, ◌↔◌, refl, ap, ◌∙◌, subst, Bool, true, false, ◌||◌, not, ◌==◌, if◌then◌else◌, Option,
  none, some, List, [], ◌∷◌, length, Bytes, Outcome, ok, err, ◌>>=◌, ◌>>◌, fail_if, value_or,
  value_or-eq-ok, fail_if-eq-ok, >>=-eq-ok, ok_injective, Bool-cases, inl, inr, arith,
}
use pkcs.Algorithms.Keys.{RawValue, AlgorithmIdentifier}
use pkcs.Message.Types.{Certificate, IssuerAndSerial}
use pkcs.Message.Certificates.{
  is_cert_match_for_issuer_and_serial, IsNamed, IsNamed-match, match-IsNamed,
}

-- `recipientInfo`
pub record RecipientInfo : Type 0 where
  pub version : ℕ
  pub issuer_and_serial_number : IssuerAndSerial
  pub key_encryption_algorithm : AlgorithmIdentifier
  pub encrypted_key : Bytes

pub data RecipientError : Type 0 where
  nil_certificate malformed_recipient trailing_data no_recipient : RecipientError

-- `raw.Class != 0 || raw.Tag != asn1.TagSequence`
abbrev pub is_other : RawValue → Bool
is_other raw = not (raw.class == 0) || not (raw.tag == 16)

-- `decode` is `asn1.Unmarshal` at a recipient.
module _ (decode : Bytes → Option (RecipientInfo × Bytes)) where
  unfoldable pub select_recipient :
      List RawValue → Certificate → Outcome RecipientError RecipientInfo
  select_recipient [] cert = err no_recipient
  select_recipient (raw ∷ recipients) cert =
      if is_other raw then select_recipient recipients cert else (do
        (recp, rest) ← value_or (decode raw.full_bytes) malformed_recipient
        fail_if (not (length rest == 0)) trailing_data
        if is_cert_match_for_issuer_and_serial cert recp.issuer_and_serial_number
            then ok recp
            else select_recipient recipients cert)

  -- `none` is a nil certificate.
  unfoldable pub select_recipient_for_certificate :
      List RawValue → Option Certificate → Outcome RecipientError RecipientInfo
  select_recipient_for_certificate recipients none = err nil_certificate
  select_recipient_for_certificate recipients (some cert) = select_recipient recipients cert

  -- The first key transport recipient that the certificate names, where those before it are decoded.
  pub data IsFirst (cert : Certificate) (found : RecipientInfo) : List RawValue → Type 0 where
    here :
        {raw : RawValue} {recipients : List RawValue}
        → is_other raw ≡ false
        → decode raw.full_bytes ≡ some (found, [])
        → IsNamed cert found.issuer_and_serial_number
        → IsFirst cert found (raw ∷ recipients)
    past_other :
        {raw : RawValue} {recipients : List RawValue}
        → is_other raw ≡ true
        → IsFirst cert found recipients
        → IsFirst cert found (raw ∷ recipients)
    past_recipient :
        {raw : RawValue} {recipients : List RawValue} (recp : RecipientInfo)
        → is_other raw ≡ false
        → decode raw.full_bytes ≡ some (recp, [])
        → ¬ (IsNamed cert recp.issuer_and_serial_number)
        → IsFirst cert found recipients
        → IsFirst cert found (raw ∷ recipients)

  no_bytes : (bytes : Bytes) → not (length bytes == 0) ≡ false → bytes ≡ []
  no_bytes [] h = refl
  no_bytes (b ∷ bytes) h = ground arith

  not_match :
      (cert : Certificate) (ias : IssuerAndSerial)
      → ¬ (IsNamed cert ias)
      → is_cert_match_for_issuer_and_serial cert ias ≡ false
  not_match cert ias h = elim (Bool-cases (is_cert_match_for_issuer_and_serial cert ias)) [
    | inl named ↦ absurd (h (match-IsNamed cert ias named))
    | inr other ↦ other
  ]

  IsFirst-select_recipient :
      {cert : Certificate} {found : RecipientInfo} {recipients : List RawValue}
      → IsFirst cert found recipients
      → select_recipient recipients cert ≡ ok found
  unfolding select_recipient
  IsFirst-select_recipient {cert = cert} {found = found} (here t d n) =
      rw (t, d, IsNamed-match cert found.issuer_and_serial_number n) refl
  IsFirst-select_recipient (past_other t f) = rw t (IsFirst-select_recipient f)
  IsFirst-select_recipient {cert = cert} (past_recipient recp t d n f) =
      rw (t, d, not_match cert recp.issuer_and_serial_number n) (IsFirst-select_recipient f)

  select_recipient-IsFirst :
      (recipients : List RawValue) (cert : Certificate) (found : RecipientInfo)
      → select_recipient recipients cert ≡ ok found
      → IsFirst cert found recipients
  unfolding select_recipient
  select_recipient-IsFirst [] cert found e = cc
  select_recipient-IsFirst (raw ∷ recipients) cert found e = elim (Bool-cases (is_other raw)) [
    | inl other ↦ past_other other (select_recipient-IsFirst recipients cert found (rw other at e))
    | inr transport ↦
        let (pair, d, e1) =
          >>=-eq-ok (value_or (decode raw.full_bytes) malformed_recipient) _ (rw transport at e) in
        let (u, whole, e2) = >>=-eq-ok (fail_if (not (length pair.1 == 0)) trailing_data) _ e1 in
        let decoded : decode raw.full_bytes ≡ some (pair.0, []) =
          value_or-eq-ok _ _ d
          ∙ ap (λ bytes. some (pair.0, bytes)) (no_bytes pair.1 (fail_if-eq-ok _ _ whole)) in
        elim (Bool-cases
          (is_cert_match_for_issuer_and_serial cert pair.0.issuer_and_serial_number)) [
            | inl named ↦
                let same = ok_injective (rw named at e2) in
                subst (λ r. IsFirst cert r (raw ∷ recipients)) same
                  (here transport decoded
                    (match-IsNamed cert pair.0.issuer_and_serial_number named))
            | inr other ↦
                past_recipient pair.0 transport decoded
                  (λ n. let wrong = IsNamed-match cert pair.0.issuer_and_serial_number n in cc)
                  (select_recipient-IsFirst recipients cert found (rw other at e2))
          ]
  ]

  -- A certificate selects exactly the first recipient for key transport that it names by issuer and
  -- serial number, where the recipients for key transport up to it are decoded without a rest; other
  -- recipients are passed over.
  pub select_recipient_for_certificate_iff :
      (recipients : List RawValue) (cert : Certificate) (found : RecipientInfo)
      → (select_recipient_for_certificate recipients (some cert) ≡ ok found)
        ↔ IsFirst cert found recipients
  unfolding select_recipient_for_certificate
  select_recipient_for_certificate_iff recipients cert found =
      (select_recipient-IsFirst recipients cert found, IsFirst-select_recipient)
