-- ===== src/Call/Crypto/Line.antt =====
-- What one side's crypto line tells the other.
use rawr.Common.{ℕ, ◌+◌, ◌≡◌, ◌<◌, ◌≤◌, refl, sym, ap, ◌∙◌, arith, true, Bool, Bool-cases}
use rawr.Common.{List, [], ◌∷◌, ◌++◌, Option, none, some, inl, inr, length, take_of_length_le}
use rawr.Common.{length-append, Option-cases}
use rawr.Common.Memory.{splice, splice-whole}
use rawr.Endpoint.{bytes_eq}
use rawr.Endpoint.Equality.{bytes_eq_refl, bytes_eq→eq}
use rawr.Call.Crypto.{
  Srtp, key_bytes, space, inline_text, crypto_line, words, after_colon, use_key, read_key,
  read_tokens, accept_key, crypto_handler,
}
use rawr.Call.Crypto.Words.{NoSpace, words-append, words-space, words-word}

-- The line's three tokens.
words-crypto_line :
    (srtp : Srtp) (key : List ℕ)
    → 0 < length srtp.suite_name
    → NoSpace srtp.suite_name
    → NoSpace (srtp.base64_encode key)
    → length srtp.suite_name + length (srtp.base64_encode key) ≤ 4084
    → words (crypto_line srtp key)
      ≡ (49 ∷ []) ∷ srtp.suite_name ∷ (inline_text ++ srtp.base64_encode key) ∷ []
unfolding crypto_line
words-crypto_line srtp key named suite_word key_word fits =
    let token = inline_text ++ srtp.base64_encode key in
    let rest = srtp.suite_name ++ (space ∷ token) in
    ap words (
      take_of_length_le 4094 (49 ∷ space ∷ rest) (
        omega (
          arith,
          fits,
          length-append srtp.suite_name (space ∷ token),
          length-append inline_text (srtp.base64_encode key),
        )))
    ∙ words-append (49 ∷ []) (space ∷ rest) (omega arith) (refl, _) refl
    ∙ ap (λ ws. (49 ∷ []) ∷ ws)
        (words-space rest
          ∙ words-append srtp.suite_name (space ∷ token) named suite_word refl
          ∙ ap (λ ws. srtp.suite_name ∷ ws)
              (words-space token
                ∙ words-word token (omega arith)
                    (refl, (refl, (refl, (refl, (refl, (refl, (refl, key_word)))))))))

-- Where the name of the cipher suite and the base64 of a key are texts without a space, which fit into
-- the line, base64 decodes what it encodes, and a context can be made with the key, the crypto line
-- that a call sends for its key of 30 bytes gives the other side, if it has no key yet, that very
-- key.
pub crypto_handler-crypto_line :
    (srtp : Srtp) (stack key : List ℕ)
    → 0 < length srtp.suite_name
    → NoSpace srtp.suite_name
    → NoSpace (srtp.base64_encode key)
    → length srtp.suite_name + length (srtp.base64_encode key) ≤ 4084
    → srtp.base64_decode (srtp.base64_encode key) key_bytes ≡ some key
    → srtp.allocates key ≡ true
    → length key ≡ key_bytes
    → length stack ≡ key_bytes
    → crypto_handler srtp stack (some (crypto_line srtp key)) none ≡ (true, some key)
unfolding crypto_handler read_tokens read_key after_colon use_key accept_key
crypto_handler-crypto_line srtp stack key named suite_word key_word fits decodes makes len_key
      len_stack =
    ap (λ tokens. accept_key (read_tokens srtp stack 0 tokens))
      (words-crypto_line srtp key named suite_word key_word fits)
    ∙ rw
        (
          bytes_eq_refl srtp.suite_name,
          use_key,
          decodes,
          splice-whole stack key (len_key ∙ sym len_stack),
          makes,
        )
        refl

-- What a line that gives a key holds.
pub record Accepted (srtp : Srtp) (stack line key : List ℕ) : Type 0 where
  pub tag : List ℕ
  pub token : List ℕ
  pub rest : List (List ℕ)
  pub tokens : words line ≡ tag ∷ srtp.suite_name ∷ token ∷ rest
  pub text : List ℕ
  pub behind : after_colon token ≡ some text
  pub bytes : List ℕ
  pub decoded : srtp.base64_decode text key_bytes ≡ some bytes
  pub key_eq : key ≡ splice stack 0 bytes
  pub made : srtp.allocates key ≡ true

read_tokens-tokens :
    (srtp : Srtp) (stack : List ℕ) (tokens : List (List ℕ)) {key : List ℕ}
    → read_tokens srtp stack 0 tokens ≡ some key
    → (tag token : List ℕ) × (rest : List (List ℕ)) × (tokens
        ≡ tag ∷ srtp.suite_name ∷ token ∷ rest)
      × (read_key srtp stack token ≡ some key)
unfolding read_tokens
read_tokens-tokens srtp stack [] e = absurd (ground (arith, e))
read_tokens-tokens srtp stack (tag ∷ []) e = absurd (ground (arith, e))
read_tokens-tokens srtp stack (tag ∷ suite ∷ []) e = absurd (ground (arith, e))
read_tokens-tokens srtp stack (tag ∷ suite ∷ token ∷ rest) {key} e =
    elim (Bool-cases (bytes_eq suite srtp.suite_name)) [
      | inl same ↦ (
        tag,
        token,
        rest,
        ap (λ s. tag ∷ s ∷ token ∷ rest) (bytes_eq→eq suite srtp.suite_name same),
        ground (arith, e, same),
      )
      | inr other ↦ absurd (ground (arith, e, other))
    ]

accept_key-some :
    (result : Option (List ℕ)) {key : List ℕ}
    → accept_key result ≡ (true, some key)
    → result ≡ some key
unfolding accept_key
accept_key-some none e = absurd (ground (arith, e))
accept_key-some (some k) e = ap (λ (r : Bool × Option (List ℕ)). r.1) e

-- From the token on.
read_key-some :
    (srtp : Srtp) (stack token key : List ℕ)
    → read_key srtp stack token ≡ some key
    → (text bytes : List ℕ) × (after_colon token ≡ some text)
      × (srtp.base64_decode text key_bytes ≡ some bytes)
      × (key ≡ splice stack 0 bytes)
      × (srtp.allocates key ≡ true)
unfolding read_key use_key
read_key-some srtp stack token key e = elim (Option-cases (after_colon token)) [
  | inl missing ↦ absurd (ground (arith, e, missing))
  | inr (text, behind) ↦ elim (Option-cases (srtp.base64_decode text key_bytes)) [
    | inl refused ↦ absurd (ground (arith, e, behind, refused))
    | inr (bytes, decoded) ↦ elim (Bool-cases (srtp.allocates (splice stack 0 bytes))) [
      | inr fails ↦ absurd (ground (arith, e, behind, decoded, fails))
      | inl made ↦
          let is : splice stack 0 bytes ≡ key = ground (arith, e, behind, decoded, made) in
          (text, bytes, behind, decoded, sym is, ap srtp.allocates (sym is) ∙ made)
    ]
  ]
]

-- A line makes a receiving context only where its second token is the name of the call's own cipher
-- suite and its third has a colon, behind which base64 decodes. The context's key begins with the
-- bytes decoded; where those are fewer than 30, what was on the stack makes up the rest.
pub crypto_handler-Accepted :
    (srtp : Srtp) (stack line key : List ℕ)
    → crypto_handler srtp stack (some line) none ≡ (true, some key)
    → Accepted srtp stack line key
unfolding crypto_handler
crypto_handler-Accepted srtp stack line key e =
    let (tag, token, rest, tokens, reads) =
      read_tokens-tokens srtp stack (words line)
        (accept_key-some (read_tokens srtp stack 0 (words line)) e) in
    let (text, bytes, behind, decoded, key_eq, made) = read_key-some srtp stack token key reads in
    record {
      tag = tag;
      token = token;
      rest = rest;
      tokens = tokens;
      text = text;
      behind = behind;
      bytes = bytes;
      decoded = decoded;
      key_eq = key_eq;
      made = made;
    }
