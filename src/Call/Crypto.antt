-- ===== src/Call/Crypto.antt =====
-- The keys of a call in src/Call.c: the crypto line that a call sends, and
-- `rawr_Call_CryptoAttribHandler`, which reads the line of the other side. A text is the list of its
-- character codes, without the final 0.
pub mod Words
pub mod Line
mod Examples
use rawr.Common.{ℕ, ◌+◌, Bool, true, false, not, List, [], ◌∷◌, ◌++◌, Option, none, some, take}
use rawr.Common.{◌==◌, if◌then◌else◌}
use rawr.Common.Memory.{splice}
use rawr.Endpoint.{bytes_eq}

-- `enum srtp_suite`
pub data Suite : Type 0 where
  aes_cm_128_hmac_sha1_32 aes_cm_128_hmac_sha1_80 : Suite
  aes_256_cm_hmac_sha1_32 aes_256_cm_hmac_sha1_80 : Suite
  aes_128_gcm aes_256_gcm : Suite

pub get_keylen : Suite → ℕ
get_keylen aes_cm_128_hmac_sha1_32 = 16
get_keylen aes_cm_128_hmac_sha1_80 = 16
get_keylen aes_256_cm_hmac_sha1_32 = 32
get_keylen aes_256_cm_hmac_sha1_80 = 32
get_keylen aes_128_gcm = 16
get_keylen aes_256_gcm = 32

pub get_saltlen : Suite → ℕ
get_saltlen aes_cm_128_hmac_sha1_32 = 14
get_saltlen aes_cm_128_hmac_sha1_80 = 14
get_saltlen aes_256_cm_hmac_sha1_32 = 14
get_saltlen aes_256_cm_hmac_sha1_80 = 14
get_saltlen aes_128_gcm = 12
get_saltlen aes_256_gcm = 12

pub get_taglen : Suite → ℕ
get_taglen aes_cm_128_hmac_sha1_32 = 4
get_taglen aes_cm_128_hmac_sha1_80 = 10
get_taglen aes_256_cm_hmac_sha1_32 = 4
get_taglen aes_256_cm_hmac_sha1_80 = 10
get_taglen aes_128_gcm = 16
get_taglen aes_256_gcm = 16

-- `RAWR_CALL_SRTP_SUITE`, and `RAWR_CALL_SRTP_KEY_LEN + RAWR_CALL_SRTP_SALT_LEN`.
abbrev pub call_suite : Suite
call_suite = aes_cm_128_hmac_sha1_80

abbrev pub key_bytes : ℕ
key_bytes = 16 + 14

-- What libre answers: the suite's name, base64 of a key, the bytes that a text decodes to in an array
-- of so many, and whether a context can be made with a key.
pub record Srtp : Type 0 where
  pub suite_name : List ℕ
  pub base64_encode : List ℕ → List ℕ
  pub base64_decode : List ℕ → ℕ → Option (List ℕ)
  pub allocates : List ℕ → Bool

abbrev pub space : ℕ
space = 32

abbrev pub colon : ℕ
colon = 58

-- "inline:"
abbrev pub inline_text : List ℕ
inline_text = 105 ∷ 110 ∷ 108 ∷ 105 ∷ 110 ∷ 101 ∷ colon ∷ []

-- `snprintf(sdp_crypto_buf, 4095, "1 %s inline:%s", …)`
pub crypto_line : Srtp → List ℕ → List ℕ
crypto_line srtp key =
    take 4094 (49 ∷ space ∷ (srtp.suite_name ++ (space ∷ (inline_text ++ srtp.base64_encode key))))

-- `strtok(text, " ")` until it is NULL.
abbrev pub begins_word : List ℕ → Bool
begins_word [] = false
begins_word (c ∷ cs) = not (c == space)

abbrev pub put_before : ℕ → List (List ℕ) → List (List ℕ)
put_before c [] = (c ∷ []) ∷ []
put_before c (word ∷ words) = (c ∷ word) ∷ words

pub words : List ℕ → List (List ℕ)
words [] = []
words (c ∷ cs) =
    let rest = words cs in
    if c == space then rest else if begins_word cs then put_before c rest else (c ∷ []) ∷ rest

-- The text behind `strchr(token, ':')`.
pub after_colon : List ℕ → Option (List ℕ)
after_colon [] = none
after_colon (c ∷ cs) = let later = after_colon cs in if c == colon then some cs else later

-- From the decoded text on. `rx_key` is an array on the stack, of which the decoder may fill only a
-- part.
pub use_key : Srtp → List ℕ → List ℕ → Option (List ℕ)
use_key srtp stack text = elim (srtp.base64_decode text key_bytes) [
  | none ↦ none
  | some bytes ↦ let key = splice stack 0 bytes in if srtp.allocates key then some key else none
]

pub read_key : Srtp → List ℕ → List ℕ → Option (List ℕ)
unfolding use_key after_colon
read_key srtp stack token = elim (after_colon token) [
  | none ↦ none
  | some text ↦ use_key srtp stack text
]

-- The loop over the tokens, from the number `i` on: the key of the context that it makes.
pub read_tokens : Srtp → List ℕ → ℕ → List (List ℕ) → Option (List ℕ)
unfolding read_key
read_tokens srtp stack i [] = none
read_tokens srtp stack i (token ∷ tokens) =
    let later = read_tokens srtp stack (i + 1) tokens in
    if i == 0
    then later
    else if i == 1
    then (if bytes_eq token srtp.suite_name then later else none)
    else if i == 2
    then read_key srtp stack token
    else later

-- The handler's result, and the key of the receiving context after it.
pub accept_key : Option (List ℕ) → Bool × Option (List ℕ)
accept_key none = (false, none)
accept_key (some key) = (true, some key)

-- `rawr_Call_CryptoAttribHandler`, of the line, or NULL, and the key of the receiving context, where
-- there is one.
pub crypto_handler : Srtp → List ℕ → Option (List ℕ) → Option (List ℕ) → Bool × Option (List ℕ)
unfolding read_tokens words accept_key
crypto_handler srtp stack none context = (false, context)
crypto_handler srtp stack (some line) (some key) = (false, some key)
crypto_handler srtp stack (some line) none = accept_key (read_tokens srtp stack 0 (words line))
