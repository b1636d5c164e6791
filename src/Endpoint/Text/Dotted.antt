-- ===== src/Endpoint/Text/Dotted.antt =====
-- The text of an IPv4 endpoint reads back as its bytes, and what it needs of the caller's array.
use rawr.Common.{ℕ, zero, suc, ◌+◌, ◌-◌, ◌*◌, ◌/◌, ◌%◌, ◌≤◌, ◌<◌, ◌≡◌, refl, sym, ap, ◌∙◌, arith}
use rawr.Common.{false, ◌⊎◌, inl, inr, List, [], ◌∷◌, ◌++◌, none, some, length}
use rawr.Common.{
  append-nil, append_assoc, take_of_length_le, length-append, drop, ◌==◌, if◌then◌else◌, returns,
  aborts, success,
}
use rawr.Common.Memory.{memcpy, memcpy-some}
use rawr.Endpoint.{Endpoint, is4, is6, ipv4}
use rawr.Endpoint.Text.{decimal, dot, dotted, zeros, print_to, print_text, string_of, byte_of}
use native.Mathlib.Decide.{dec_lt}

-- The numbers of a text, which dots separate; `n` is what was read of the first.
pub read_numbers : ℕ → List ℕ → List ℕ
read_numbers n [] = n ∷ []
read_numbers n (c ∷ cs) =
    let next = read_numbers (n * 10 + (c - 48)) cs in
    let rest = n ∷ read_numbers 0 cs in if c == dot then rest else next

read_digit :
    (n d : ℕ) (rest : List ℕ)
    → d < 10
    → read_numbers n ((48 + d) ∷ rest) ≡ read_numbers (n * 10 + d) rest
unfolding read_numbers
read_digit n d rest h =
    let other : (48 + d == dot) ≡ false = ground arith in
    rw other (ap (λ k. read_numbers k rest) (omega arith))

read_end : (n : ℕ) → read_numbers n [] ≡ n ∷ []
unfolding read_numbers
read_end n = refl

read_dot : (n : ℕ) (rest : List ℕ) → read_numbers n (dot ∷ rest) ≡ n ∷ read_numbers 0 rest
unfolding read_numbers
read_dot n rest = refl

-- A byte's digits.
read_numbers-decimal :
    (n : ℕ) (rest : List ℕ) → n < 256 → read_numbers 0 (decimal n ++ rest) ≡ read_numbers n rest
unfolding decimal
read_numbers-decimal n rest byte = elim (dec_lt n 10) [
  | yes one ↦
      let shape : decimal n ≡ (48 + n) ∷ [] = ground (arith, one) in
      ap (λ t. read_numbers 0 (t ++ rest)) shape
      ∙ read_digit 0 n rest one
      ∙ ap (λ k. read_numbers k rest) (omega arith)
  | no more ↦ elim (dec_lt n 100) [
    | yes two ↦
        let shape : decimal n ≡ (48 + n / 10) ∷ (48 + n % 10) ∷ [] = ground (arith, more, two) in
        ap (λ t. read_numbers 0 (t ++ rest)) shape
        ∙ read_digit 0 (n / 10) ((48 + n % 10) ∷ rest) (omega (arith, two))
        ∙ read_digit (0 * 10 + n / 10) (n % 10) rest (omega arith)
        ∙ ap (λ k. read_numbers k rest) (omega arith)
    | no three ↦
        let shape : decimal n ≡ (48 + n / 100) ∷ (48 + n / 10 % 10) ∷ (48 + n % 10) ∷ [] =
          ground (arith, more, three) in
        ap (λ t. read_numbers 0 (t ++ rest)) shape
        ∙ read_digit 0 (n / 100) _ (omega (arith, byte))
        ∙ read_digit (0 * 10 + n / 100) (n / 10 % 10) ((48 + n % 10) ∷ rest) (omega arith)
        ∙ read_digit ((0 * 10 + n / 100) * 10 + n / 10 % 10) (n % 10) rest (omega arith)
        ∙ ap (λ k. read_numbers k rest) (omega arith)
  ]
]

length-decimal : (n : ℕ) → length (decimal n) ≤ 3
unfolding decimal
length-decimal n = ground arith

-- The four numbers, and at most 15 characters.
read_numbers-dotted :
    (b0 b1 b2 b3 : ℕ)
    → b0 < 256
    → b1 < 256
    → b2 < 256
    → b3 < 256
    → (read_numbers 0 (dotted b0 b1 b2 b3) ≡ b0 ∷ b1 ∷ b2 ∷ b3 ∷ [])
      × (length (dotted b0 b1 b2 b3) ≤ 15)
unfolding dotted
read_numbers-dotted b0 b1 b2 b3 h0 h1 h2 h3 =
    let t3 = decimal b3 in
    let t2 = decimal b2 ++ (dot ∷ t3) in
    let t1 = decimal b1 ++ (dot ∷ t2) in
    let last : read_numbers 0 (decimal b3) ≡ b3 ∷ [] =
      ap (read_numbers 0) (sym (append-nil (decimal b3)))
      ∙ read_numbers-decimal b3 [] h3
      ∙ read_end b3 in
    (
      read_numbers-decimal b0 (dot ∷ t1) h0
          ∙ read_dot b0 t1
          ∙ ap (λ ns. b0 ∷ ns)
              (read_numbers-decimal b1 (dot ∷ t2) h1
                ∙ read_dot b1 t2
                ∙ ap (λ ns. b1 ∷ ns)
                    (read_numbers-decimal b2 (dot ∷ t3) h2
                      ∙ read_dot b2 t3
                      ∙ ap (λ ns. b2 ∷ ns) last)),
      omega (
        arith,
        length-append (decimal b0) (dot ∷ t1),
        length-append (decimal b1) (dot ∷ t2),
        length-append (decimal b2) (dot ∷ t3),
        length-decimal b0,
        length-decimal b1,
        length-decimal b2,
        length-decimal b3,
      ),
    )

length-zeros : (n : ℕ) → length (zeros n) ≡ n
length-zeros zero = refl
length-zeros (suc n) = ap suc (length-zeros n)

-- What an array holds after a text that fits, with its final 0.
abbrev pub printed : List ℕ → ℕ → List ℕ
printed text buf_len = text ++ (0 ∷ drop (length text + 1) (zeros buf_len))

print_to-fits :
    (text : List ℕ) (buf_len : ℕ)
    → length text < buf_len
    → print_to (zeros buf_len) text ≡ some (printed text buf_len)
unfolding print_to
print_to-fits text buf_len fits =
    let whole : length (text ++ (0 ∷ [])) ≡ length text + 1 = length-append text (0 ∷ []) in
    let counted : 0 + length (text ++ (0 ∷ [])) ≡ length text + 1 = omega (arith, whole) in
    memcpy-some (zeros buf_len) 0 (text ++ (0 ∷ [])) 0 (length text + 1)
      (omega (arith, fits, length-zeros buf_len)) (omega (arith, whole))
    ∙ ap (λ new. some (new ++ drop (0 + length new) (zeros buf_len)))
        (take_of_length_le (length text + 1) (text ++ (0 ∷ [])) (omega (arith, whole)))
    ∙ ap (λ n. some ((text ++ (0 ∷ [])) ++ drop n (zeros buf_len))) counted
    ∙ ap some (append_assoc text (0 ∷ []) (drop (length text + 1) (zeros buf_len)))

print_to-short :
    (text : List ℕ) (buf_len : ℕ) → buf_len ≤ length text → print_to (zeros buf_len) text ≡ none
unfolding print_to memcpy
print_to-short text buf_len short = ground (arith, short, length-zeros buf_len)

-- A text is printed where the array has room for it and for the final 0, and nowhere else.
print_text-fits :
    (text : List ℕ) (port buf_len : ℕ)
    → ((length text < buf_len)
        × (print_text text port buf_len ≡ returns (success, port, printed text buf_len)))
      ⊎ ((buf_len ≤ length text) × (print_text text port buf_len ≡ aborts))
unfolding print_text
print_text-fits text port buf_len = elim (dec_lt (length text) buf_len) [
  | yes fits ↦ inl (fits, (rw (print_text, print_to-fits text buf_len fits) refl))
  | no short ↦
      let shorter : buf_len ≤ length text = omega (arith, short) in
      inr (shorter, (rw (print_text, print_to-short text buf_len shorter) refl))
]

pub record IsQuad (endpoint : Endpoint) (b0 b1 b2 b3 : ℕ) : Type 0 where
  pub family : endpoint.af ≡ ipv4
  pub stored : endpoint.addr ≡ b0 ∷ b1 ∷ b2 ∷ b3 ∷ []
  pub low0 : b0 < 256
  pub low1 : b1 < 256
  pub low2 : b2 < 256
  pub low3 : b3 < 256

-- The text of an IPv4 endpoint whose address holds four bytes has the decimal numbers of these, in
-- order, with dots between them and nothing else, so that it reads back as the bytes. It has 15
-- characters or fewer. Where the caller's array has room for it and a final 0, `string_of` returns
-- success, the port in the host's order, and the text at the start of the zeroed array; where it
-- has not, the text is written past the array's end, whatever `buf_len` says.
pub string_of-dotted :
    (ntohs : ℕ → ℕ) (inet_ntop : List ℕ → List ℕ) (endpoint : Endpoint) (b0 b1 b2 b3 buf_len : ℕ)
    → IsQuad endpoint b0 b1 b2 b3
    → (read_numbers 0 (dotted b0 b1 b2 b3) ≡ b0 ∷ b1 ∷ b2 ∷ b3 ∷ [])
      × (length (dotted b0 b1 b2 b3) ≤ 15)
      × (((length (dotted b0 b1 b2 b3) < buf_len)
            × (string_of ntohs inet_ntop endpoint buf_len
                ≡ returns (success, ntohs endpoint.port, printed (dotted b0 b1 b2 b3) buf_len)))
          ⊎ ((buf_len ≤ length (dotted b0 b1 b2 b3))
              × (string_of ntohs inet_ntop endpoint buf_len ≡ aborts)))
unfolding string_of is4 is6 byte_of
string_of-dotted ntohs inet_ntop endpoint b0 b1 b2 b3 buf_len quad =
    let reads = read_numbers-dotted b0 b1 b2 b3 quad.low0 quad.low1 quad.low2 quad.low3 in
    rw quad.family (
      rw quad.stored
        (reads.0, reads.1, print_text-fits (dotted b0 b1 b2 b3) (ntohs endpoint.port) buf_len))
