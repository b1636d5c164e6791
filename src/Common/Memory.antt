-- ===== src/Common/Memory.antt =====
-- Byte arrays: `memcpy` from one array into another, and the ring of bytes that an array of `size`
-- bytes makes when positions go round.
use Prim.Native.Nat.{ℕ, ◌+◌, ◌-◌, ◌≤◌, ◌<◌}
use mathlib.Core.Path.{◌≡◌, refl, sym, ap, ap₂, ◌∙◌}
use mathlib.Core.Logic.{◌⊎◌}
use mathlib.Core.Bool.{◌&&◌}
use mathlib.Core.Option.{Option, none, some}
use mathlib.Core.List.{List, ◌++◌, append_assoc}
use native.Mathlib.Omega.{arith}
use rawr.Common.Tests.{leb, if◌then◌else◌}
use rawr.Common.Lists.{length, get_or, take, drop, take-append_left, take_of_length_le, drop-drop}
use rawr.Common.Lists.{drop-append_length, drop_of_length_le}
use mathlib.Core.List.{append-nil}
use rawr.Common.Lists.{
  length-append, length-take, length-drop, get_or-append, get_or-take, get_or-drop,
}

-- `n` bytes from offset `at`.
abbrev pub slice : List ℕ → ℕ → ℕ → List ℕ
slice bytes at n = take n (drop at bytes)

-- The array with the bytes from offset `at` on replaced.
abbrev pub splice : List ℕ → ℕ → List ℕ → List ℕ
splice bytes at new = take at bytes ++ (new ++ drop (at + length new) bytes)

-- `memcpy(dst + to, src + from, n)`; `none` is an access outside either array.
unfoldable pub memcpy : List ℕ → ℕ → List ℕ → ℕ → ℕ → Option (List ℕ)
memcpy dst to src from n =
    if leb (to + n) (length dst) && leb (from + n) (length src)
    then some (splice dst to (slice src from n))
    else none

pub memcpy-some :
    (dst : List ℕ) (to : ℕ) (src : List ℕ) (from n : ℕ)
    → to + n ≤ length dst
    → from + n ≤ length src
    → memcpy dst to src from n ≡ some (splice dst to (slice src from n))
unfolding memcpy
memcpy-some dst to src from n h k = ground arith

pub length-slice :
    (bytes : List ℕ) (at n : ℕ) → at + n ≤ length bytes → length (slice bytes at n) ≡ n
length-slice bytes at n h = omega (arith, length-take n (drop at bytes), length-drop at bytes)

pub length-splice :
    (bytes : List ℕ) (at : ℕ) (new : List ℕ)
    → at + length new ≤ length bytes
    → length (splice bytes at new) ≡ length bytes
length-splice bytes at new h = omega (
  arith,
  length-append (take at bytes) (new ++ drop (at + length new) bytes),
  length-append new (drop (at + length new) bytes),
  length-take at bytes,
  length-drop (at + length new) bytes,
)

pub get_or-slice :
    (bytes : List ℕ) (at n i : ℕ) → i < n → get_or (slice bytes at n) i 0 ≡ get_or bytes (at + i) 0
get_or-slice bytes at n i h = get_or-take n (drop at bytes) i 0 h ∙ get_or-drop at bytes i 0

-- A spliced array inside the new bytes, and outside them.
pub get_or-splice_in :
    (bytes : List ℕ) (at : ℕ) (new : List ℕ) (i : ℕ)
    → at + length new ≤ length bytes
    → i < length new
    → get_or (splice bytes at new) (at + i) 0 ≡ get_or new i 0
get_or-splice_in bytes at new i h k = ground (
  arith,
  length-take at bytes,
  get_or-append (take at bytes) (new ++ drop (at + length new) bytes) (at + i) 0,
  get_or-append new (drop (at + length new) bytes) i 0,
)

pub get_or-splice_out :
    (bytes : List ℕ) (at : ℕ) (new : List ℕ) (i : ℕ)
    → at + length new ≤ length bytes
    → (i < at) ⊎ (at + length new ≤ i)
    → get_or (splice bytes at new) i 0 ≡ get_or bytes i 0
get_or-splice_out bytes at new i h k = ground (
  arith,
  length-take at bytes,
  get_or-take at bytes i 0,
  get_or-append (take at bytes) (new ++ drop (at + length new) bytes) i 0,
  get_or-append new (drop (at + length new) bytes) (i - at) 0,
  get_or-drop (at + length new) bytes (i - at - length new) 0,
)

-- Bytes put in behind those put in at the start are put in together.
pub splice-splice :
    (bytes xs ys : List ℕ) → splice (splice bytes 0 xs) (length xs) ys ≡ splice bytes 0 (xs ++ ys)
splice-splice bytes xs ys =
    ap₂ (λ front back. front ++ (ys ++ back)) front_eq back_eq
    ∙ sym (append_assoc xs ys (drop (0 + length (xs ++ ys)) bytes))
  where
    rest : List ℕ
    rest = drop (0 + length xs) bytes

    front_eq : take (length xs) (xs ++ rest) ≡ xs
    front_eq =
        take-append_left (length xs) xs rest (omega arith)
        ∙ take_of_length_le (length xs) xs (omega arith)

    total : 0 + length xs + length ys ≡ 0 + length (xs ++ ys)
    total = omega (arith, length-append xs ys)

    back_eq : drop (length xs + length ys) (xs ++ rest) ≡ drop (0 + length (xs ++ ys)) bytes
    back_eq =
        sym (drop-drop (length ys) (length xs) (xs ++ rest))
        ∙ ap (drop (length ys)) (drop-append_length xs rest (length xs) refl)
        ∙ drop-drop (length ys) (0 + length xs) bytes
        ∙ ap (λ k. drop k bytes) total

-- A whole array replaced.
pub splice-whole : (bytes new : List ℕ) → length new ≡ length bytes → splice bytes 0 new ≡ new
splice-whole bytes new e =
    ap (λ r. new ++ r) (drop_of_length_le (0 + length new) bytes (omega (arith, e)))
    ∙ append-nil new
