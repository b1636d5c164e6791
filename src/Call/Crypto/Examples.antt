-- ===== src/Call/Crypto/Examples.antt =====
-- Runs of the crypto lines.
use rawr.Common.{ℕ, zero, suc, ◌+◌, ◌≡◌, refl, arith, true, false, List, [], ◌∷◌, none, some}
use rawr.Common.{length, if◌then◌else◌, leb}
use rawr.Call.Crypto.{
  Srtp, key_bytes, call_suite, get_keylen, get_saltlen, get_taglen, space, crypto_line, words,
  after_colon, use_key, read_key, read_tokens, accept_key, crypto_handler,
}
use rawr.Call.Crypto.Words.{NoSpace}
use rawr.Call.Crypto.Line.{Accepted, crypto_handler-crypto_line, crypto_handler-Accepted}

-- The call's key and salt are as long as its suite asks.
suite_lengths :
    (get_keylen call_suite + get_saltlen call_suite ≡ key_bytes) × (get_taglen call_suite ≡ 10)
unfolding get_keylen get_saltlen get_taglen
suite_lengths = (refl, refl)

-- A suite called "A1", and an encoding that leaves the bytes as they are; a text that is too long
-- is refused.
abbrev plain : Srtp
plain = record {
  suite_name = 65 ∷ 49 ∷ [];
  base64_encode = λ key. key;
  base64_decode = λ text size. if leb (length text) size then some text else none;
  allocates = λ key. true;
}

abbrev letters : ℕ → ℕ → List ℕ
letters c zero = []
letters c (suc n) = c ∷ letters c n

abbrev tx_key : List ℕ
tx_key = letters 97 30

abbrev stack : List ℕ
stack = letters 0 30

letters-NoSpace : (n : ℕ) → NoSpace (letters 97 n)
letters-NoSpace zero = _
letters-NoSpace (suc n) = (refl, letters-NoSpace n)

crypto_handler-crypto_line_example :
    crypto_handler plain stack (some (crypto_line plain tx_key)) none ≡ (true, some tx_key)
crypto_handler-crypto_line_example =
    crypto_handler-crypto_line plain stack tx_key (omega arith) (refl, (refl, _))
      (letters-NoSpace 30) (omega arith) refl refl refl refl

-- "1 A1 inline:aa", with a key of two bytes, is accepted; the stack gives the others.
abbrev short_line : List ℕ
short_line = 49 ∷ space ∷ 65 ∷ 49 ∷ space ∷ 105 ∷ 110 ∷ 108 ∷ 105 ∷ 110 ∷ 101 ∷ 58 ∷ 97 ∷ 97 ∷ []

short_line_accepted :
    crypto_handler plain stack (some short_line) none ≡ (true, some (97 ∷ 97 ∷ letters 0 28))
unfolding crypto_handler read_tokens read_key after_colon use_key accept_key words
short_line_accepted = refl

crypto_handler-Accepted_example : Accepted plain stack short_line (97 ∷ 97 ∷ letters 0 28)
crypto_handler-Accepted_example =
    crypto_handler-Accepted plain stack short_line (97 ∷ 97 ∷ letters 0 28) short_line_accepted

-- A line of another suite, and one without a key.
other_lines :
    (crypto_handler plain stack (some (49 ∷ space ∷ 66 ∷ space ∷ 58 ∷ 97 ∷ [])) none
      ≡ (false, none))
    × (crypto_handler plain stack (some (49 ∷ space ∷ space ∷ 65 ∷ 49 ∷ [])) none ≡ (false, none))
unfolding crypto_handler read_tokens read_key after_colon use_key accept_key words
other_lines = (refl, refl)
