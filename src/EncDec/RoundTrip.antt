-- ===== src/EncDec/RoundTrip.antt =====
-- What `decrypt` makes of `encrypt`'s texts, and of texts that are too short
-- (conreg-server/src/config/enc_dec.rs).
use conreg.Prelude.{
  ℕ, zero, suc, ◌+◌, ◌*◌, ◌/◌, ◌%◌, ◌^◌, ◌<◌, String, some, List, [], ◌∷◌, ◌++◌, length, take, drop,
  ok, ◌≡◌, refl, sym, ap, ◌∙◌, arith, length-append, take-append, drop-append, take-length,
  Option-cases, inl, inr,
}
use conreg.EncDec.{
  Crypto, Decrypted, be_bytes, from_be_bytes, new, encrypt, decrypt, open_box, read_plaintext,
  read_content,
}

from_be_bytes-append :
    (n : ℕ) (bs : List ℕ) (b : ℕ) → from_be_bytes n (bs ++ (b ∷ [])) ≡ from_be_bytes n bs * 256 + b
unfolding from_be_bytes
from_be_bytes-append n [] b = refl
from_be_bytes-append n (x ∷ bs) b = from_be_bytes-append (n * 256 + x) bs b

length-be_bytes : (w n : ℕ) → length (be_bytes w n) ≡ w
unfolding be_bytes
length-be_bytes zero n = refl
length-be_bytes (suc w) n =
    ground (arith, length-append (be_bytes w (n / 256)) (n % 256 ∷ []), length-be_bytes w (n / 256))

from_be_bytes-be_bytes : (w n : ℕ) → n < 256 ^ w → from_be_bytes 0 (be_bytes w n) ≡ n
unfolding be_bytes from_be_bytes
from_be_bytes-be_bytes zero n h = omega arith
from_be_bytes-be_bytes (suc w) n h =
    let rest = from_be_bytes-be_bytes w (n / 256) (omega arith) in
    ground (arith, from_be_bytes-append 0 (be_bytes w (n / 256)) (n % 256), rest)

-- What the program relies on: a text that the cipher makes is opened with the same key and nonce,
-- base58 is read back, and so is UTF-8.
pub record IsSound (c : Crypto) : Type 0 where
  pub opens :
      (key nonce plaintext ciphertext : List ℕ)
      → c.encrypt key nonce plaintext ≡ some ciphertext
      → c.decrypt key nonce ciphertext ≡ some plaintext
  pub base58 : (bytes : List ℕ) → c.from_base58 (c.to_base58 bytes) ≡ some bytes
  pub utf8 : (text : String) → c.from_utf8 (c.as_bytes text) ≡ some text

module _ (c : Crypto) (sound : IsSound c) where
  -- The bytes that `encrypt` hands to the cipher.
  abbrev plaintext_of : String → List ℕ
  plaintext_of content = 0 ∷ 0 ∷ (be_bytes 8 (length (c.as_bytes content)) ++ c.as_bytes content)

  read_content-as_bytes :
      (nonce : List ℕ) (s1 s2 : ℕ) (content : String)
      → read_content c nonce s1 s2 (length (c.as_bytes content)) (c.as_bytes content)
        ≡ Decrypted.decrypted (record {
          nonce = nonce;
          s1 = s1;
          s2 = s2;
          content_len = length (c.as_bytes content);
          content = content;
        })
  unfolding read_content
  read_content-as_bytes nonce s1 s2 content =
      ground (arith, take-length (c.as_bytes content), sound.utf8 content)

  split_header :
      (nonce : List ℕ) (s1 s2 n : ℕ) (bytes : List ℕ)
      → n < 256 ^ 8
      → read_plaintext c nonce (s1 ∷ s2 ∷ (be_bytes 8 n ++ bytes))
        ≡ read_content c nonce s1 s2 n bytes
  unfolding read_plaintext
  split_header nonce s1 s2 n bytes small =
      let header = length-be_bytes 8 n in
      let front : take 8 (be_bytes 8 n ++ bytes) ≡ be_bytes 8 n =
        ap (λ k. take k (be_bytes 8 n ++ bytes)) (sym header) ∙ take-append (be_bytes 8 n) bytes in
      let back : drop 8 (be_bytes 8 n ++ bytes) ≡ bytes =
        ap (λ k. drop k (be_bytes 8 n ++ bytes)) (sym header) ∙ drop-append (be_bytes 8 n) bytes in
      ground (
        arith,
        front,
        back,
        header,
        length-append (be_bytes 8 n) bytes,
        from_be_bytes-be_bytes 8 n small,
      )

  open_box-sealed :
      (key nonce ciphertext : List ℕ) (content : String)
      → length (c.as_bytes content) < 256 ^ 8
      → c.encrypt key nonce (plaintext_of content) ≡ some ciphertext
      → open_box c key nonce ciphertext ≡ Decrypted.decrypted (new c nonce content)
  unfolding open_box new
  open_box-sealed key nonce ciphertext content small made =
      let n = length (c.as_bytes content) in
      ground (
        arith,
        sound.opens key nonce _ ciphertext made,
        split_header nonce 0 0 n (c.as_bytes content) small,
        read_content-as_bytes nonce 0 0 content,
      )

  -- The two parts that `decrypt` cuts a text into.
  decrypt-sealed :
      (key nonce ciphertext : List ℕ)
      → length nonce ≡ 12
      → decrypt c key (c.to_base58 (nonce ++ ciphertext)) ≡ open_box c key nonce ciphertext
  unfolding decrypt
  decrypt-sealed key nonce ciphertext twelve =
      let front : take 12 (nonce ++ ciphertext) ≡ nonce =
        ap (λ k. take k (nonce ++ ciphertext)) (sym twelve) ∙ take-append nonce ciphertext in
      let back : drop 12 (nonce ++ ciphertext) ≡ ciphertext =
        ap (λ k. drop k (nonce ++ ciphertext)) (sym twelve) ∙ drop-append nonce ciphertext in
      ground (
        arith,
        front,
        back,
        twelve,
        length-append nonce ciphertext,
        sound.base58 (nonce ++ ciphertext),
      )

  -- With a nonce of 12 bytes, whatever text `encrypt` makes of a content shorter than 2^64 bytes,
  -- `decrypt` gives all of it back under the same key: the nonce, both marks, the length and the content.
  pub decrypt-encrypt :
      (key nonce : List ℕ) (content text : String)
      → length nonce ≡ 12
      → length (c.as_bytes content) < 256 ^ 8
      → encrypt c (new c nonce content) key ≡ ok text
      → decrypt c key text ≡ Decrypted.decrypted (new c nonce content)
  unfolding encrypt new
  decrypt-encrypt key nonce content text twelve small made =
      elim (Option-cases (c.encrypt key nonce (plaintext_of content))) [
        | inl refused ↦ absurd (ground (arith, made, refused))
        | inr (ciphertext, sealed) ↦
            let shape : c.to_base58 (nonce ++ ciphertext) ≡ text = ground (arith, made, sealed) in
            ap (decrypt c key) (sym shape)
            ∙ decrypt-sealed key nonce ciphertext twelve
            ∙ open_box-sealed key nonce ciphertext content small sealed
      ]
