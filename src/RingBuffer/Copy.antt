-- ===== src/RingBuffer/Copy.antt =====
-- Bytes stored round the end of an array, and the window that shows them.
use rawr.Common.{ℕ, ◌+◌, ◌-◌, ◌*◌, ◌%◌, ◌≤◌, ◌<◌, ◌≡◌, sym, ap, ap₂, ◌∙◌, arith}
use rawr.Common.{List, ◌++◌, length, get_or, get_or_ext, inl, inr}
use rawr.Common.Memory.{slice, splice, length-slice, length-splice}
use rawr.Common.Memory.{get_or-slice, get_or-splice_in, get_or-splice_out}
use rawr.RingBuffer.Window.{
  window, length-window, window-append, window_ext, window-mod, get_or-window,
}
use rawr.RingBuffer.Window.{window-slice}
use native.Mathlib.Nat.{mod-eq_of_lt, mod-eq-sub-mod, add-mul-mod_self_right}
use native.Mathlib.Decide.{dec_lt}

-- `after` is `before` with `new` stored from position `start` on, going round at `size`.
pub record IsStored (size start : ℕ) (new before after : List ℕ) : Type 0 where
  pub same_length : length after ≡ length before
  pub inside : (i : ℕ) → i < length new → get_or after ((start + i) % size) 0 ≡ get_or new i 0
  pub outside :
      (i : ℕ)
      → length new ≤ i
      → i < size
      → get_or after ((start + i) % size) 0 ≡ get_or before ((start + i) % size) 0

-- A position less than one turn past the end.
mod-once : (size i : ℕ) → size ≤ i → i < 2 * size → i % size ≡ i - size
mod-once size i h k =
    mod-eq-sub-mod {n = i} {m = size} h ∙ mod-eq_of_lt {n = i - size} (omega arith)

module _ (size start : ℕ) (bytes new : List ℕ) (in_size : start < size)
    (storage : size ≤ length bytes) where
  -- One block, when it does not reach the end.
  pub splice-IsStored :
      start + length new ≤ size → IsStored size start new bytes (splice bytes start new)
  splice-IsStored h = record {
    same_length = length-splice bytes start new (omega arith);
    inside = λ i p.
        ap (λ k. get_or (splice bytes start new) k 0) (mod-eq_of_lt {n = start + i} (omega arith))
        ∙ get_or-splice_in bytes start new i (omega arith) p;
    outside = λ i p q. elim (dec_lt (start + i) size) [
      | yes below ↦
          get_or-splice_out bytes start new ((start + i) % size) (omega arith)
            (inr (omega (arith, mod-eq_of_lt below)))
      | no round ↦
          get_or-splice_out bytes start new ((start + i) % size) (omega arith)
            (inl (omega (arith, mod-once size (start + i) (omega arith) (omega arith))))
    ];
  }

  -- Two blocks: up to the end, and the rest from offset 0.
  pub splice_twice-IsStored :
      (n1 n2 : ℕ)
      → start + n1 ≡ size
      → length new ≡ n1 + n2
      → n2 ≤ start
      → IsStored size start new bytes
          (splice (splice bytes start (slice new 0 n1)) 0 (slice new n1 n2))
  splice_twice-IsStored n1 n2 e l h = record {
    same_length = length-splice mid 0 second (omega (arith, len1, len2, len_mid)) ∙ len_mid;
    inside = λ i p. elim (dec_lt i n1) [
      | yes below ↦ ground (
        arith,
        len1,
        len2,
        len_mid,
        mod-eq_of_lt {n = start + i} {m = size},
        get_or-splice_out mid 0 second (start + i),
        get_or-splice_in bytes start first i,
        get_or-slice new 0 n1 i,
      )
      | no past ↦ ground (
        arith,
        len2,
        len_mid,
        mod-once size (start + i),
        get_or-splice_in mid 0 second (i - n1),
        get_or-slice new n1 n2 (i - n1),
      )
    ];
    outside = λ i p q. ground (
      arith,
      len1,
      len2,
      len_mid,
      mod-once size (start + i),
      get_or-splice_out mid 0 second ((start + i) % size),
      get_or-splice_out bytes start first ((start + i) % size),
    );
  }
    where
      first : List ℕ
      first = slice new 0 n1

      second : List ℕ
      second = slice new n1 n2

      mid : List ℕ
      mid = splice bytes start first

      len1 : length first ≡ n1
      len1 = length-slice new 0 n1 (omega arith)

      len2 : length second ≡ n2
      len2 = length-slice new n1 n2 (omega arith)

      len_mid : length mid ≡ length bytes
      len_mid = length-splice bytes start first (omega (arith, len1))

module _ (size start used from turns : ℕ) (new before after : List ℕ)
    (stored : IsStored size start new before after) (in_size : start < size)
    (fits : used + length new ≤ size) (ends : start + turns * size ≡ from + used) where
  -- A position before the stored bytes, counted from their start.
  same_place : (i : ℕ) → i < used → (start + (size - used + i)) % size ≡ (from + i) % size
  same_place i h =
      sym (add-mul-mod_self_right (start + (size - used + i)) turns size)
      ∙ ap (λ k. k % size) {x = start + (size - used + i) + turns * size} {y = from + i + 1 * size}
          (omega arith)
      ∙ add-mul-mod_self_right (from + i) 1 size

  -- Bytes stored behind a window leave it as it was.
  pub before_kept : window after size from used ≡ window before size from used
  before_kept = window_ext after before size from from used λ i h.
      ap (λ k. get_or after k 0) (sym (same_place i h))
      ∙ stored.outside (size - used + i) (omega arith) (omega arith)
      ∙ ap (λ k. get_or before k 0) (same_place i h)

  new_shown : window after size (from + used) (length new) ≡ new
  new_shown =
      window-mod after size (from + used) start (length new)
        (ap (λ k. k % size) (sym ends) ∙ add-mul-mod_self_right start turns size)
      ∙ get_or_ext 0 (window after size start (length new)) new
          (length-window after size start (length new))
          λ i p.
            let q : i < length new = omega (arith, length-window after size start (length new)) in
            get_or-window after size start (length new) i q ∙ stored.inside i q

  -- Bytes stored behind a window extend it.
  pub window-stored :
      window after size from (used + length new) ≡ window before size from used ++ new
  window-stored = window-append after size from used (length new) ∙ ap₂ ◌++◌ before_kept new_shown

-- A window that goes round the end once is two slices.
pub window-two_slices :
    (xs : List ℕ) (size start n1 n2 : ℕ)
    → start + n1 ≡ size
    → n2 ≤ size
    → size ≤ length xs
    → window xs size start (n1 + n2) ≡ slice xs start n1 ++ slice xs 0 n2
window-two_slices xs size start n1 n2 e h k =
    window-append xs size start n1 n2
    ∙ ap₂ ◌++◌ (window-slice xs size start n1 (omega arith) k) (
        window-mod xs size (start + n1) 0 n2 whole_turn ∙ window-slice xs size 0 n2 (omega arith) k)
  where
    whole_turn : (start + n1) % size ≡ 0 % size
    whole_turn =
        ap (λ j. j % size) {x = start + n1} {y = 0 + 1 * size} (omega arith)
        ∙ add-mul-mod_self_right 0 1 size
