-- ===== src/Algorithms/Pss.antt =====
-- verify.go `getRSAPSSSignatureAlgorithm`: which parameters it accepts.
use pkcs.Base.{not-false}
use pkcs.Base.{
  ℕ, ◌≡◌, ◌↔◌, refl, ap, ◌∙◌, false, not, ◌==◌, ==→eq, ==_refl, Option, none, some, [], ◌∷◌, Bytes,
  ok, Ensures, holds, rejected, Ensures-ok, Ensures->>=, Ensures-fail_if, Ensures-if,
}
use pkcs.Subtle.{bytes_equal, bytes_equal→eq, bytes_equal_refl}
use pkcs.Algorithms.Oids
use pkcs.Algorithms.Oids.{Oid, equal}
use pkcs.Algorithms.Keys.{Hash, SignatureAlgorithm, RawValue, AlgorithmIdentifier}
use pkcs.Algorithms.Accept.{
  VerifyError, ℤ, pos, is_int, PssParameters, Asn1, pss_hash, decode_all, check_pss,
  get_rsa_pss_signature_algorithm,
}

-- The identifier of a hash.
abbrev pub digest_oid : Hash → Oid
digest_oid Hash.sha1 = Oids.digest_algorithm_sha1
digest_oid Hash.sha256 = Oids.digest_algorithm_sha256
digest_oid Hash.sha384 = Oids.digest_algorithm_sha384
digest_oid Hash.sha512 = Oids.digest_algorithm_sha512

-- The hashes of RFC 4056 that crypto/x509 verifies, the size of each and its algorithm.
pub data PssHash : Hash → ℕ → SignatureAlgorithm → Type 0 where
  pss_sha256 : PssHash Hash.sha256 32 SignatureAlgorithm.sha256_with_rsa_pss
  pss_sha384 : PssHash Hash.sha384 48 SignatureAlgorithm.sha384_with_rsa_pss
  pss_sha512 : PssHash Hash.sha512 64 SignatureAlgorithm.sha512_with_rsa_pss

-- Parameters of one hash throughout: of the signature, of MGF1 and of the signer's digest, with a
-- salt as long as that hash, and nothing behind either encoding.
pub record IsPssProfile (asn1 : Asn1) (parameters : RawValue) (digest : AlgorithmIdentifier)
    (algorithm : SignatureAlgorithm) : Type 0 where
  pub params : PssParameters
  pub mgf_hash : AlgorithmIdentifier
  pub hash : Hash
  pub size : ℕ
  pub decoded : asn1.unmarshal_pss parameters.full_bytes ≡ some (params, [])
  pub mgf_decoded : asn1.unmarshal_identifier params.mgf.parameters.full_bytes ≡ some (mgf_hash, [])
  pub profile : PssHash hash size algorithm
  pub digest_is : digest.algorithm ≡ digest_oid hash
  pub hash_is : params.hash.algorithm ≡ digest_oid hash
  pub mgf_hash_is : mgf_hash.algorithm ≡ digest_oid hash
  pub mgf_is : params.mgf.algorithm ≡ Oids.mask_generation_function_mgf1
  pub salt_is : params.salt_length ≡ pos size
  pub trailer_is : params.trailer_field ≡ pos 1

same_oid : (a b : Oid) → not (equal a b) ≡ false → a ≡ b
same_oid a b h = bytes_equal→eq a b (not-false (equal a b) h)

same_int : (n : ℤ) (m : ℕ) → not (is_int n m) ≡ false → n ≡ pos m
same_int (pos n) m h = ap pos (==→eq n m (not-false (n == m) h))
same_int (ℤ.negsuc n) m h = cc

decode_all-Ensures :
    {A : Type 0} (r : Option (A × Bytes)) (invalid trailing : VerifyError)
    → Ensures (λ (a : A). r ≡ some (a, [])) (decode_all r invalid trailing)
decode_all-Ensures none invalid trailing = rejected
decode_all-Ensures (some (a, [])) invalid trailing = holds refl
decode_all-Ensures (some (a, b ∷ rest)) invalid trailing = rejected

record PssChoice (oid : Oid) (chosen : SignatureAlgorithm × ℕ) : Type 0 where
  hash : Hash
  profile : PssHash hash chosen.1 chosen.0
  oid_is : oid ≡ digest_oid hash

pss_hash-Ensures : (oid : Oid) → Ensures (PssChoice oid) (pss_hash oid)
unfolding pss_hash
pss_hash-Ensures oid =
    Ensures-if (equal oid Oids.digest_algorithm_sha256)
      (λ h.
        holds
          (record { hash = Hash.sha256; profile = pss_sha256; oid_is = bytes_equal→eq oid _ h }))
      λ _.
        Ensures-if (equal oid Oids.digest_algorithm_sha384)
          (λ h.
            holds (record {
              hash = Hash.sha384;
              profile = pss_sha384;
              oid_is = bytes_equal→eq oid _ h;
            }))
          λ _.
            Ensures-if (equal oid Oids.digest_algorithm_sha512)
              (λ h. holds (record {
                hash = Hash.sha512;
                profile = pss_sha512;
                oid_is = bytes_equal→eq oid _ h;
              }))
              λ _. rejected

pss_hash_run :
    {hash : Hash} {size : ℕ} {algorithm : SignatureAlgorithm}
    → PssHash hash size algorithm
    → pss_hash (digest_oid hash) ≡ ok (algorithm, size)
unfolding pss_hash bytes_equal
pss_hash_run pss_sha256 = refl
pss_hash_run pss_sha384 = refl
pss_hash_run pss_sha512 = refl

module _ (asn1 : Asn1) (parameters : RawValue) (digest : AlgorithmIdentifier) where
  pub get_rsa_pss_signature_algorithm-Ensures :
      Ensures
        (IsPssProfile asn1 parameters digest)
        (get_rsa_pss_signature_algorithm asn1 parameters digest)
  unfolding get_rsa_pss_signature_algorithm check_pss
  get_rsa_pss_signature_algorithm-Ensures =
      Ensures->>= (decode_all-Ensures (asn1.unmarshal_pss parameters.full_bytes) _ _)
        λ params decoded. Ensures->>= (pss_hash-Ensures params.hash.algorithm) λ chosen choice.
          Ensures-fail_if (not (equal params.mgf.algorithm Oids.mask_generation_function_mgf1)) _
            λ mgf.
              Ensures->>=
                (decode_all-Ensures (asn1.unmarshal_identifier params.mgf.parameters.full_bytes) _
                  _)
                λ mgf_hash mgf_decoded.
                  Ensures-fail_if (not (equal mgf_hash.algorithm params.hash.algorithm)) _ λ same.
                    Ensures-fail_if (not (is_int params.salt_length chosen.1)) _ λ salt.
                      Ensures-fail_if (not (is_int params.trailer_field 1)) _ λ trailer.
                        Ensures-fail_if (not (equal digest.algorithm params.hash.algorithm)) _
                          λ digests. holds (record {
                            params = params;
                            mgf_hash = mgf_hash;
                            hash = choice.hash;
                            size = chosen.1;
                            decoded = decoded;
                            mgf_decoded = mgf_decoded;
                            profile = choice.profile;
                            digest_is =
                                same_oid digest.algorithm params.hash.algorithm digests
                                ∙ choice.oid_is;
                            hash_is = choice.oid_is;
                            mgf_hash_is =
                                same_oid mgf_hash.algorithm params.hash.algorithm same
                                ∙ choice.oid_is;
                            mgf_is = same_oid params.mgf.algorithm _ mgf;
                            salt_is = same_int params.salt_length chosen.1 salt;
                            trailer_is = same_int params.trailer_field 1 trailer;
                          })

  get_rsa_pss_signature_algorithm_run :
      {algorithm : SignatureAlgorithm}
      → IsPssProfile asn1 parameters digest algorithm
      → get_rsa_pss_signature_algorithm asn1 parameters digest ≡ ok algorithm
  unfolding get_rsa_pss_signature_algorithm check_pss
  get_rsa_pss_signature_algorithm_run p =
      rw
        (
          p.decoded,
          p.hash_is,
          pss_hash_run p.profile,
          p.mgf_is,
          bytes_equal_refl Oids.mask_generation_function_mgf1,
          p.mgf_decoded,
          p.mgf_hash_is,
          bytes_equal_refl (digest_oid p.hash),
          p.salt_is,
          ==_refl p.size,
          p.trailer_is,
          p.digest_is,
          bytes_equal_refl (digest_oid p.hash),
        )
        refl

  -- `getRSAPSSSignatureAlgorithm` accepts exactly the parameters in which the signature hash, the
  -- hash of MGF1 and the signer's digest are one of SHA-256, SHA-384 and SHA-512, the salt is as long
  -- as that hash, the trailer field is 1 and nothing follows, and it returns the algorithm of that hash.
  pub get_rsa_pss_signature_algorithm_iff :
      (algorithm : SignatureAlgorithm)
      → (get_rsa_pss_signature_algorithm asn1 parameters digest ≡ ok algorithm)
        ↔ IsPssProfile asn1 parameters digest algorithm
  get_rsa_pss_signature_algorithm_iff algorithm = (
    λ e. Ensures-ok get_rsa_pss_signature_algorithm-Ensures e,
    get_rsa_pss_signature_algorithm_run,
  )
