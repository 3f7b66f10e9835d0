-- ===== src/Process/Parse.antt =====
-- argument_parse in src/userprog/process.c.
use csed.Common.{ℕ, ◌-◌, ◌≢◌, List, [], ◌∷◌, ◌++◌, replicate}

-- A word: characters that are no spaces, and at least one.
pub data AreNoSpaces : List ℕ → Type 0 where
  end : AreNoSpaces []
  next : {c : ℕ} {s : List ℕ} → c ≢ 32 → AreNoSpaces s → AreNoSpaces (c ∷ s)

-- Words, each with a number of spaces before it.
pub data AreWords : List (ℕ × List ℕ) → Type 0 where
  end : AreWords []
  next :
      {n c : ℕ} {s : List ℕ} {words : List (ℕ × List ℕ)}
      → AreNoSpaces (c ∷ s)
      → AreWords words
      → AreWords ((n, c ∷ s) ∷ words)

-- The line behind a word: the other words with one space more, and spaces at the end.
abbrev pub line_rest : List (ℕ × List ℕ) → ℕ → List ℕ
line_rest [] last = replicate last 32
line_rest ((n, word) ∷ words) last = 32 ∷ replicate n 32 ++ (word ++ line_rest words last)

-- The line of these words: any number of spaces at both ends, and at least one between two words.
abbrev pub line_of : List (ℕ × List ℕ) → ℕ → List ℕ
line_of [] last = replicate last 32
line_of ((n, word) ∷ words) last = replicate n 32 ++ (word ++ line_rest words last)

-- How many spaces strtok_r leaves at the end of the line.
abbrev left : List (ℕ × List ℕ) → ℕ → ℕ
left [] last = last - 1
left (w ∷ words) last = last

abbrev pub words_of : List (ℕ × List ℕ) → List (List ℕ)
words_of [] = []
words_of ((n, word) ∷ words) = word ∷ words_of words
