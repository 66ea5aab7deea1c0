-- ===== src/EncDec.antt =====
-- Encryption of a configuration's content (conreg-server/src/config/enc_dec.rs). A byte is a number
-- below 256. ChaCha20-Poly1305, base58 and UTF-8 are the fields of `Crypto`; the nonce is random.
use conreg.Prelude.{
  ℕ, zero, suc, ◌+◌, ◌*◌, ◌/◌, ◌%◌, String, Option, none, some, List, [], ◌∷◌, ◌++◌, length, take,
  drop, ltb, leb, if◌then◌else◌, Anyhow, ok, err,
}
pub mod RoundTrip

pub record Crypto : Type 0 where
  pub encrypt : List ℕ → List ℕ → List ℕ → Option (List ℕ)
  pub decrypt : List ℕ → List ℕ → List ℕ → Option (List ℕ)
  pub to_base58 : List ℕ → String
  pub from_base58 : String → Option (List ℕ)
  pub as_bytes : String → List ℕ
  pub from_utf8 : List ℕ → Option String

pub record EncDec : Type 0 where
  pub nonce : List ℕ
  pub s1 : ℕ
  pub s2 : ℕ
  pub content_len : ℕ
  pub content : String

-- `Result<EncDec, EncDecError>`, and where the code stops: a slice out of range, or `unwrap` on a
-- text that is no UTF-8.
pub data Decrypted : Type 0 where
  decrypted : EncDec → Decrypted
  invalid_format : Decrypted
  panic : Decrypted

-- the last `w` bytes of a number, and the number of some bytes
unfoldable pub be_bytes : ℕ → ℕ → List ℕ
be_bytes zero n = []
be_bytes (suc w) n = be_bytes w (n / 256) ++ (n % 256 ∷ [])

unfoldable pub from_be_bytes : ℕ → List ℕ → ℕ
from_be_bytes n [] = n
from_be_bytes n (b ∷ bs) = from_be_bytes (n * 256 + b) bs

module _ (c : Crypto) where
  unfoldable pub new : List ℕ → String → EncDec
  new nonce content = record {
    nonce = nonce;
    s1 = 0;
    s2 = 0;
    content_len = length (c.as_bytes content);
    content = content;
  }

  unfoldable pub encrypt : EncDec → List ℕ → Anyhow String
  unfolding be_bytes
  encrypt e key =
      let data' = e.s1 ∷ e.s2 ∷ (be_bytes 8 e.content_len ++ c.as_bytes e.content) in
      elim (c.encrypt key e.nonce data') [
        | none ↦ err "Encryption failed: Error"
        | some ciphertext ↦ ok (c.to_base58 (e.nonce ++ ciphertext))
      ]

  -- `&plaintext[10..10 + principal_len]`, from its tenth byte on
  unfoldable pub read_content : List ℕ → ℕ → ℕ → ℕ → List ℕ → Decrypted
  read_content nonce s1 s2 principal_len rest =
      if leb principal_len (length rest)
      then (elim (c.from_utf8 (take principal_len rest)) [
        | none ↦ Decrypted.panic
        | some principal ↦ Decrypted.decrypted (record {
          nonce = nonce;
          s1 = s1;
          s2 = s2;
          content_len = principal_len;
          content = principal;
        })
      ])
      else Decrypted.panic

  unfoldable pub read_plaintext : List ℕ → List ℕ → Decrypted
  unfolding read_content from_be_bytes
  read_plaintext nonce (s1 ∷ s2 ∷ rest) =
      if ltb (length rest) 8
      then Decrypted.panic
      else read_content nonce s1 s2 (from_be_bytes 0 (take 8 rest)) (drop 8 rest)
  read_plaintext nonce (s1 ∷ []) = Decrypted.panic
  read_plaintext nonce [] = Decrypted.panic

  unfoldable pub open_box : List ℕ → List ℕ → List ℕ → Decrypted
  unfolding read_plaintext
  open_box key nonce ciphertext = elim (c.decrypt key nonce ciphertext) [
    | none ↦ Decrypted.invalid_format
    | some plaintext ↦ read_plaintext nonce plaintext
  ]

  unfoldable pub decrypt : List ℕ → String → Decrypted
  unfolding open_box
  decrypt key ciphertext = elim (c.from_base58 ciphertext) [
    | none ↦ Decrypted.invalid_format
    | some nonce_ciphertext ↦
        if ltb (length nonce_ciphertext) 12
        then Decrypted.panic
        else open_box key (take 12 nonce_ciphertext) (drop 12 nonce_ciphertext)
  ]
