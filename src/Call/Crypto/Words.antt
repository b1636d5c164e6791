-- ===== src/Call/Crypto/Words.antt =====
-- The tokens of a text whose parts are separated by spaces.
use rawr.Common.{
  ℕ, ◌≡◌, ◌<◌, length, refl, sym, ap, ◌∙◌, false, true, not, List, [], ◌∷◌, ◌++◌, ◌==◌,
}
use rawr.Common.{append-nil, arith}
use rawr.Call.Crypto.{space, begins_word, put_before, words}

-- No character is a space.
abbrev pub NoSpace : List ℕ → Type 0
NoSpace [] = Unit
NoSpace (c ∷ cs) = ((c == space) ≡ false) × NoSpace cs

-- A character in front of a word.
words-next :
    (c : ℕ) (cs : List ℕ)
    → (c == space) ≡ false
    → begins_word cs ≡ true
    → words (c ∷ cs) ≡ put_before c (words cs)
unfolding words
words-next c cs other begins = rw (other, begins) refl

-- A word in front of the end or of a space.
pub words-append :
    (word rest : List ℕ)
    → 0 < length word
    → NoSpace word
    → begins_word rest ≡ false
    → words (word ++ rest) ≡ word ∷ words rest
unfolding words
words-append [] rest some_text none ends = absurd (omega arith)
words-append (c ∷ []) rest some_text none ends = rw (none.0, ends) refl
words-append (c ∷ d ∷ ds) rest some_text none ends =
    words-next c (d ∷ (ds ++ rest)) none.0 (ap not none.1.0)
    ∙ ap (put_before c) (words-append (d ∷ ds) rest (omega arith) none.1 ends)

pub words-space : (rest : List ℕ) → words (space ∷ rest) ≡ words rest
unfolding words
words-space rest = refl

-- A word alone.
pub words-word : (word : List ℕ) → 0 < length word → NoSpace word → words word ≡ word ∷ []
unfolding words
words-word word some_text none =
    ap words (sym (append-nil word)) ∙ words-append word [] some_text none refl
