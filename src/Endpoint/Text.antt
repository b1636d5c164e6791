-- ===== src/Endpoint/Text.antt =====
-- `rawr_Endpoint_String` of src/Endpoint.c and the getters that it uses. A text is the list of its
-- character codes. `inet_ntop` and `ntohs` are arguments.
pub mod Dotted
use rawr.Common.{
  ℕ, zero, suc, ◌+◌, ◌*◌, ◌/◌, ◌%◌, ◌-◌, Bool, List, [], ◌∷◌, ◌++◌, Option, none, some,
}
use rawr.Common.{length, get_or, ltb, if◌then◌else◌, Outcome, returns, aborts}
use rawr.Common.{ErrorCode, success, failure, ℤ, pos, negsuc}
use rawr.Common.Memory.{memcpy}
use rawr.Endpoint.{Endpoint, is4, is6, bytes}

-- `rawr_Endpoint_B0` to `rawr_Endpoint_B3`
pub byte_of : Endpoint → ℕ → ℕ
byte_of endpoint i = get_or endpoint.addr i 0

-- "%u" of a byte.
pub decimal : ℕ → List ℕ
decimal n =
    if ltb n 10
    then (48 + n) ∷ []
    else if ltb n 100
    then (48 + n / 10) ∷ (48 + n % 10) ∷ []
    else (48 + n / 100) ∷ (48 + n / 10 % 10) ∷ (48 + n % 10) ∷ []

abbrev pub dot : ℕ
dot = 46

-- "%u.%u.%u.%u"
pub dotted : ℕ → ℕ → ℕ → ℕ → List ℕ
unfolding decimal
dotted b0 b1 b2 b3 =
    decimal b0 ++ (dot ∷ (decimal b1 ++ (dot ∷ (decimal b2 ++ (dot ∷ decimal b3)))))

-- The caller's array after `memset`.
abbrev pub zeros : ℕ → List ℕ
zeros zero = []
zeros (suc n) = 0 ∷ zeros n

-- `sprintf(buf, "%s", text)`, which writes the final 0 too, whatever the size of the array is;
-- `none` is a write outside it.
pub print_to : List ℕ → List ℕ → Option (List ℕ)
print_to buf text = memcpy buf 0 (text ++ (0 ∷ [])) 0 (length text + 1)

-- From the text on.
pub print_text : List ℕ → ℕ → ℕ → Outcome (ErrorCode × ℕ × List ℕ)
unfolding print_to
print_text text port buf_len = elim (print_to (zeros buf_len) text) [
  | none ↦ aborts
  | some buf ↦ returns (success, port, buf)
]

-- `rawr_Endpoint_String`, with what it stores through `port` and `buf`. `inet_ntop` is given the bytes of
-- the endpoint from its start on.
pub string_of : (ℕ → ℕ) → (List ℕ → List ℕ) → Endpoint → ℕ → Outcome (ErrorCode × ℕ × List ℕ)
unfolding is4 is6 byte_of dotted print_text
string_of ntohs inet_ntop endpoint buf_len =
    if is6 endpoint
    then print_text (inet_ntop (bytes endpoint)) (ntohs endpoint.port) buf_len
    else if is4 endpoint
    then print_text
        (dotted (byte_of endpoint 0) (byte_of endpoint 1) (byte_of endpoint 2) (byte_of endpoint 3))
        (ntohs endpoint.port) buf_len
    else returns (failure, 0, zeros buf_len)
