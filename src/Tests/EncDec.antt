-- ===== src/Tests/EncDec.antt =====
-- A run of the encryption (conreg-server/src/config/enc_dec.rs), with a cipher that hides nothing.
use Prim.Native.Char.{Char, char, code, IsLt}
use Prim.Native.Nat.{Ordering, compare}
use conreg.Prelude.{
  ℕ, zero, suc, ◌+◌, String, Option, none, some, List, [], ◌∷◌, ◌++◌, ◌≡◌, refl, ap, arith, nat_beq,
  if◌then◌else◌,
}
use conreg.EncDec.{Crypto, Decrypted, new, encrypt, decrypt, be_bytes}
use conreg.EncDec.RoundTrip.{IsSound, decrypt-encrypt}

-- What makes a number a character's: the three comparisons of the built-in characters.
abbrev BothHold : Ordering → Ordering → Type 0
BothHold Ordering.lt o = IsLt o
BothHold Ordering.eq _ = ⊥
BothHold Ordering.gt _ = ⊥

abbrev IsScalarOf : Ordering → Ordering → Ordering → Type 0
IsScalarOf Ordering.lt _ _ = Unit
IsScalarOf Ordering.eq o p = BothHold o p
IsScalarOf Ordering.gt o p = BothHold o p

-- The characters as numbers, and back.
scalar_of : (o p q : Ordering) → Option (IsScalarOf o p q)
scalar_of Ordering.lt p q = some tt
scalar_of Ordering.eq Ordering.lt Ordering.lt = some tt
scalar_of Ordering.gt Ordering.lt Ordering.lt = some tt
scalar_of _ _ _ = none

scalar_of-some : (o p q : Ordering) (h : IsScalarOf o p q) → scalar_of o p q ≡ some h
unfolding scalar_of
scalar_of-some Ordering.lt p q h = refl
scalar_of-some Ordering.eq Ordering.lt Ordering.lt h = refl
scalar_of-some Ordering.gt Ordering.lt Ordering.lt h = refl
scalar_of-some Ordering.eq Ordering.lt Ordering.eq h = elim h [ ]
scalar_of-some Ordering.eq Ordering.lt Ordering.gt h = elim h [ ]
scalar_of-some Ordering.eq Ordering.eq q h = elim h [ ]
scalar_of-some Ordering.eq Ordering.gt q h = elim h [ ]
scalar_of-some Ordering.gt Ordering.lt Ordering.eq h = elim h [ ]
scalar_of-some Ordering.gt Ordering.lt Ordering.gt h = elim h [ ]
scalar_of-some Ordering.gt Ordering.eq q h = elim h [ ]
scalar_of-some Ordering.gt Ordering.gt q h = elim h [ ]

as_char : ℕ → Option Char
unfolding scalar_of
as_char n = elim (scalar_of (compare n 55296) (compare 57343 n) (compare n 1114112)) [
  | none ↦ none
  | some h ↦ some (char n h)
]

as_char-code : (c : Char) → as_char (code c) ≡ some c
unfolding as_char
as_char-code (char n h) =
    ground (arith, scalar_of-some (compare n 55296) (compare 57343 n) (compare n 1114112) h)

codes : String → List ℕ
codes String.[] = []
codes (String.◌∷◌ c s) = code c ∷ codes s

text : List ℕ → Option String
text [] = some ""
text (n ∷ ns) =
    let rest = text ns in
    elim (as_char n) [
      | none ↦ none
      | some c ↦ elim rest [ none ↦ none | some s ↦ some (String.◌∷◌ c s) ]
    ]

text-codes : (s : String) → text (codes s) ≡ some s
unfolding text codes
text-codes String.[] = refl
text-codes (String.◌∷◌ c s) = ground (arith, as_char-code c, text-codes s)

-- A list of numbers as a text: each in ones, with a mark behind it.
strokes : ℕ → String → String
strokes zero s = String.◌∷◌ (char 98 tt) s
strokes (suc n) s = String.◌∷◌ (char 97 tt) (strokes n s)

tally : List ℕ → String
unfolding strokes
tally [] = ""
tally (n ∷ ns) = strokes n (tally ns)

count : ℕ → String → List ℕ
count n String.[] = []
count n (String.◌∷◌ c s) =
    let more = count (suc n) s in
    let next = count 0 s in if nat_beq (code c) 97 then more else n ∷ next

count-strokes : (n k : ℕ) (s : String) → count k (strokes n s) ≡ (k + n) ∷ count 0 s
unfolding count strokes
count-strokes zero k s = ground arith
count-strokes (suc n) k s = ground (arith, count-strokes n (suc k) s)

count-tally : (ns : List ℕ) → count 0 (tally ns) ≡ ns
unfolding count tally
count-tally [] = refl
count-tally (n ∷ ns) = ground (arith, count-strokes n 0 (tally ns), count-tally ns)

abbrev crypto : Crypto
crypto = record {
  encrypt = λ key nonce plaintext. some plaintext;
  decrypt = λ key nonce ciphertext. some ciphertext;
  to_base58 = tally;
  from_base58 = λ s. some (count 0 s);
  as_bytes = codes;
  from_utf8 = text;
}

IsSound-crypto : IsSound crypto
IsSound-crypto = record {
  opens = λ key nonce plaintext ciphertext made. ap some (ground (arith, made));
  base58 = λ bytes. ap some (count-tally bytes);
  utf8 = text-codes;
}

abbrev nonce : List ℕ
nonce = 1 ∷ 2 ∷ 3 ∷ 4 ∷ 5 ∷ 6 ∷ 7 ∷ 8 ∷ 9 ∷ 10 ∷ 11 ∷ 12 ∷ []

decrypt-encrypt_example :
    decrypt crypto [] (tally (nonce ++ (0 ∷ 0 ∷ (be_bytes 8 2 ++ codes "hi"))))
    ≡ Decrypted.decrypted (new crypto nonce "hi")
unfolding encrypt new codes
decrypt-encrypt_example =
    decrypt-encrypt crypto IsSound-crypto [] nonce "hi"
      (tally (nonce ++ (0 ∷ 0 ∷ (be_bytes 8 2 ++ codes "hi")))) refl (omega arith) refl
