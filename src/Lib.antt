-- ===== src/Lib.antt =====
-- Verification library of the pkcs7 package: CMS messages in Go.
--
-- The package parses a message by `ber2der` (ber.go), which rewrites BER as DER, and by Go's
-- encoding/asn1; it signs (sign.go), verifies (verify.go), encrypts (encrypt.go), decrypts
-- (decrypt.go) and transports keys to recipients (encrypt.go, kem.go). The identifiers and the types
-- they share are in pkcs7.go. The files here and the code they are about:
--   Base        the helpers all parts share: Outcome, the result of a Go call (a value, an error, a
--               panic, or stuck where the model's fuel is out), lists, bits and big-endian numbers
--   Ber         ber.go. Decode holds the reader (`read_object` for `readObject`, with the tag, the
--               length and the header as functions of their own), Encode the writer (`encode_to`,
--               `encode_length`), Grammar an independent description of the encodings that are read
--   Subtle      what the program calls of crypto/subtle, and `bytes.Equal`
--   Padding     `pad` of encrypt.go and `unpad` of decrypt.go
--   KeyWrap     `aesKeyWrap` and `aesKeyUnwrap` of kem.go
--   Algorithms  the identifiers of pkcs7.go, `getCMSSignerAlgorithm` of sign.go, which chooses them,
--               and `getSignatureAlgorithm` of verify.go, which reads them
--   Content     `encryptDESCBC`, `encryptAESCBC` and `encryptAESGCM` of encrypt.go, and the `decrypt`
--               of decrypt.go that undoes them
--   Message     the structures of a signed message (pkcs7.go, sign.go) and the lookup of a certificate
--               by issuer and serial number
--   Attributes  the attributes of a signer: `ForMarshalling` of pkcs7.go with its sorting,
--               `marshalAttributes` of sign.go and `unmarshalAttribute` of verify.go
--   Verify      `Verify`, `VerifyWithChain`, `VerifyWithChainAtTime`, `VerifyWithOpts` and
--               `GetOnlySigner` of verify.go (Check), over the signers of a parsed message
--   Sign        sign.go: the state `SignedData` and the calls that change it (Monad), what makes a
--               signer (Signer), the methods (State), and the methods as steps (Steps)
--   Parse       `Parse` of pkcs7.go with `parseSignedData` of verify.go (Read), and `Finish` and
--               `DegenerateCertificate` of sign.go (Write)
--   Envelope    `EncryptUsingPSK` of encrypt.go and `DecryptUsingPSK` of decrypt.go (Psk), and
--               `selectRecipientForCertificate` of decrypt.go (Recipients)
-- A function keeps its name, in snake case. In each part Runs holds the runs at concrete inputs.
--
-- A byte slice is a list of numbers; where a statement needs them below 256 it says so by All IsByte.
-- `len` and positions are native numbers. A length that is read is bounded by the source's own tests,
-- which keep it below 2 ^ 31, the bound that the code sets for a 32-bit int. `uint64` keeps its
-- wrap-around. Errors keep their kinds and lose their texts. The reader recurses on fuel, the length
-- of the input and one more, since each level and each element consumes a byte; the loop of `decrypt`
-- over octet strings takes the length of its input and two more.
--
-- Parameters: the block cipher of crypto/aes (KeyWrap/Cipher), with the law that its two directions
-- map blocks of 16 bytes to such blocks and undo each other; the ciphers and modes of crypto/des,
-- crypto/aes and crypto/cipher, the random bytes of crypto/rand and the octet strings of
-- encoding/asn1 (Content/Ciphers, Content/Encrypt); and asn1.Unmarshal at the two types that the PSS
-- parameters are decoded to (Algorithms/Accept). Signing and verification have as parameters the
-- encodings of encoding/asn1 (Attributes/Encoding), `sort.Sort`, which permutes its input into an order
-- but need not be stable (Attributes/Sorted), the hashes, `CheckSignature` and `Verify` of
-- crypto/x509 (Verify/Check), `CheckSignatureFrom` and the private keys (Sign/Signer), and the clock.
-- Whole messages have encoding/asn1 and `ParseCertificates` (Parse/Wire), with the law that the
-- messages the program writes are decoded again if they are shorter than 2 ^ 31 bytes; that a message
-- is DER is a premise on that message, since encoding/asn1 writes raw values unchecked. The encoding of
-- a time keeps its whole seconds. A call of the clock or of a random source is an
-- argument of its own. A certificate is the fields that the program reads; times are numbers of
-- nanoseconds from Go's zero time on. What the Go code would panic on is a panic of the model: an index
-- or a slice out of range in ber.go and `unpad`, an IV or a ciphertext of a wrong length in CBC
-- decryption, and a nonce of a wrong length in GCM.
--
-- Not modelled: encoding/asn1 and crypto/x509 themselves; `Encrypt`, `Decrypt` and the recipients of
-- encrypt.go, decrypt.go and kem.go, of which the parts above are the pieces that do their own
-- computation; erasing key material (`clear`), which no result depends on; the error texts;
-- `debugprint`, which prints nothing.
pub mod Base
pub mod Ber
pub mod Subtle
pub mod Padding
pub mod KeyWrap
pub mod Algorithms
pub mod Content
pub mod Message
pub mod Attributes
pub mod Verify
pub mod Sign
pub mod Parse
pub mod Envelope
