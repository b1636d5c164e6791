-- ===== src/RingBuffer/Window.antt =====
-- The bytes that stand from a position on, when positions go round an array of `size` bytes: the
-- abstract content of a stretch of the ring.
use rawr.Common.{ℕ, zero, suc, ◌+◌, ◌%◌, ◌≤◌, ◌<◌, ◌≡◌, refl, sym, ap, ap₂, ◌∙◌, arith}
use rawr.Common.{List, [], ◌∷◌, ◌++◌, length, get_or, get_or_ext, take, drop, ◌-◌}
use rawr.Common.Memory.{slice, length-slice, get_or-slice}
use native.Mathlib.Nat.{mod-eq_of_lt, mod-add-mod, zero-add, suc-add}

module _ (bytes : List ℕ) (size : ℕ) where
  abbrev pub window : ℕ → ℕ → List ℕ
  window start zero = []
  window start (suc n) = get_or bytes (start % size) 0 ∷ window (start + 1) n

  pub length-window : (start n : ℕ) → length (window start n) ≡ n
  length-window start zero = refl
  length-window start (suc n) = ap suc (length-window (start + 1) n)

  pub get_or-window :
      (start n i : ℕ) → i < n → get_or (window start n) i 0 ≡ get_or bytes ((start + i) % size) 0
  get_or-window start zero i h = absurd (omega arith)
  get_or-window start (suc n) zero h = ap (λ k. get_or bytes (k % size) 0) {x = start} (omega arith)
  get_or-window start (suc n) (suc i) h =
      get_or-window (start + 1) n i (omega arith)
      ∙ ap (λ k. get_or bytes (k % size) 0) {x = start + 1 + i} (omega arith)

  pub window-append :
      (start m n : ℕ) → window start (m + n) ≡ window start m ++ window (start + m) n
  window-append start zero n = ap₂ window start_zero (zero-add n)
    where
      start_zero : start ≡ start + 0
      start_zero = omega arith
  window-append start (suc m) n =
      ap (window start) (suc-add m n)
      ∙ ap (λ l. get_or bytes (start % size) 0 ∷ l)
          (window-append (start + 1) m n ∙ ap (λ k. window (start + 1) m ++ window k n) next)
    where
      next : start + 1 + m ≡ start + suc m
      next = omega arith

  -- The first bytes of a window, and the others.
  pub take-window : (start m n : ℕ) → m ≤ n → take m (window start n) ≡ window start m
  take-window start zero n h = refl
  take-window start (suc m) zero h = absurd (omega arith)
  take-window start (suc m) (suc n) h =
      ap (λ l. get_or bytes (start % size) 0 ∷ l) (take-window (start + 1) m n (omega arith))

  pub drop-window : (start m n : ℕ) → m ≤ n → drop m (window start n) ≡ window (start + m) (n - m)
  drop-window start zero n h = ap₂ window start_zero n_zero
    where
      start_zero : start ≡ start + 0
      start_zero = omega arith

      n_zero : n ≡ n - 0
      n_zero = omega arith
  drop-window start (suc m) zero h = absurd (omega arith)
  drop-window start (suc m) (suc n) h =
      drop-window (start + 1) m n (omega arith) ∙ ap₂ window start_suc n_suc
    where
      start_suc : start + 1 + m ≡ start + suc m
      start_suc = omega arith

      n_suc : n - m ≡ suc n - suc m
      n_suc = omega arith

-- Windows that show the same bytes are equal.
pub window_ext :
    (xs ys : List ℕ) (size s t n : ℕ)
    → ((i : ℕ) → i < n → get_or xs ((s + i) % size) 0 ≡ get_or ys ((t + i) % size) 0)
    → window xs size s n ≡ window ys size t n
window_ext xs ys size s t n h =
    get_or_ext 0 (window xs size s n) (window ys size t n)
      (length-window xs size s n ∙ sym (length-window ys size t n))
      λ i p.
        let q : i < n = omega (arith, length-window xs size s n) in
        get_or-window xs size s n i q ∙ h i q ∙ sym (get_or-window ys size t n i q)

-- A position counts only by its remainder.
pub window-mod :
    (xs : List ℕ) (size s t n : ℕ) → s % size ≡ t % size → window xs size s n ≡ window xs size t n
window-mod xs size s t n e = window_ext xs xs size s t n λ i _.
    ap (λ k. get_or xs k 0)
      (sym (mod-add-mod s size i) ∙ ap (λ k. (k + i) % size) e ∙ mod-add-mod t size i)

-- A window that does not go round is a slice of the array.
pub window-slice :
    (xs : List ℕ) (size s n : ℕ)
    → s + n ≤ size
    → size ≤ length xs
    → window xs size s n ≡ slice xs s n
window-slice xs size s n h k =
    get_or_ext 0 (window xs size s n) (slice xs s n)
      (length-window xs size s n ∙ sym (length-slice xs s n (omega arith)))
      λ i p.
        let q : i < n = omega (arith, length-window xs size s n) in
        get_or-window xs size s n i q
        ∙ ap (λ k. get_or xs k 0) (mod-eq_of_lt {n = s + i} (omega arith))
        ∙ sym (get_or-slice xs s n i q)
