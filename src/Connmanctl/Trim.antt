-- ===== src/Connmanctl/Trim.antt =====
-- What the trimming of a line does to its words (examples/connmanctl.cpp).
use text.Mathlib.TextBridge.{of_list}
use mathlib.Core.List.{reverse, reverse-append, reverse-reverse, reverse-cons}
use libcppconnman.Prelude.{
  ℕ, zero, suc, ◌≡◌, ◌≢◌, refl, sym, subst, ◌∙◌, ap, String, Bool-cases, true, false, List, [], ◌∷◌,
  ◌++◌, map, inl, inr, arith, All, length,
}
use libcppconnman.Connmanctl.Words.{Text, is_space, skip_space, trim, take_word, next_word}

-- The first `n` words that `>>` reads.
abbrev pub read_words : ℕ → Text → List String
read_words zero s = []
read_words (suc n) s = (next_word s).0 ∷ read_words n (next_word s).1

abbrev pub Spaces : Text → Type 0
Spaces = All (λ c. is_space c ≡ true)

Spaces-append : (s t : Text) → Spaces s → Spaces t → Spaces (s ++ t)
Spaces-append [] t a b = b
Spaces-append (c ∷ s) t a b = (a.0, Spaces-append s t a.1 b)

Spaces-reverse : (s : Text) → Spaces s → Spaces (reverse s)
Spaces-reverse [] a = tt
Spaces-reverse (c ∷ s) a =
    subst Spaces (sym (reverse-cons c s))
      (Spaces-append (reverse s) (c ∷ []) (Spaces-reverse s a.1) (a.0, tt))

skip_space-Spaces : (s : Text) → Spaces s → skip_space s ≡ []
unfolding skip_space
skip_space-Spaces [] a = refl
skip_space-Spaces (c ∷ s) a = ground (arith, a.0, skip_space-Spaces s a.1)

-- What is skipped is spaces.
skip_space-split : (s : Text) → (front : Text) × Spaces front × (s ≡ front ++ skip_space s)
unfolding skip_space
skip_space-split [] = ([], tt, refl)
skip_space-split (c ∷ s) = elim (Bool-cases (is_space c)) [
  | inl e ↦
      let (front, spaces, same) = skip_space-split s in
      (c ∷ front, (e, spaces), rw e (ap (λ r. c ∷ r) same))
  | inr e ↦ ([], tt, rw e refl)
]

skip_space-skip_space : (s : Text) → skip_space (skip_space s) ≡ skip_space s
unfolding skip_space
skip_space-skip_space [] = refl
skip_space-skip_space (c ∷ s) = ground (arith, skip_space-skip_space s)

take_word-append :
    (t tail : Text)
    → Spaces tail
    → take_word (t ++ tail) ≡ ((take_word t).0, (take_word t).1 ++ tail)
unfolding take_word
take_word-append [] [] a = refl
take_word-append [] (c ∷ tail) a = ground (arith, a.0)
take_word-append (c ∷ t) tail a = ground (arith, take_word-append t tail a)

-- Spaces behind a text are behind what is left of it, or skipped.
skip_space-append :
    (t tail : Text)
    → Spaces tail
    → (x : Text) × Spaces x × (skip_space (t ++ tail) ≡ skip_space t ++ x)
unfolding skip_space
skip_space-append [] tail a = ([], tt, skip_space-Spaces tail a)
skip_space-append (c ∷ t) tail a = elim (Bool-cases (is_space c)) [
  | inl e ↦ let (x, b, q) = skip_space-append t tail a in (x, b, rw e q)
  | inr e ↦ (tail, a, rw e refl)
]

next_word-append :
    (t tail : Text)
    → Spaces tail
    → (x : Text) × Spaces x × (next_word (t ++ tail) ≡ ((next_word t).0, (next_word t).1 ++ x))
unfolding next_word
next_word-append t tail a =
    let (x, b, q) = skip_space-append t tail a in
    (x, b, rw (q, take_word-append (skip_space t) x b) refl)

read_words-append :
    (n : ℕ) (t tail : Text) → Spaces tail → read_words n (t ++ tail) ≡ read_words n t
read_words-append zero t tail a = refl
read_words-append (suc n) t tail a =
    let (x, b, q) = next_word-append t tail a in
    rw (q, read_words-append n (next_word t).1 x b) refl

read_words-skip_space : (n : ℕ) (s : Text) → read_words n (skip_space s) ≡ read_words n s
unfolding next_word
read_words-skip_space zero s = refl
read_words-skip_space (suc n) s = rw (skip_space-skip_space s) refl

-- Trimming erases spaces only.
trim-split : (s : Text) → (tail : Text) × Spaces tail × (skip_space s ≡ trim s ++ tail)
unfolding trim
trim-split s =
    let u = skip_space s in
    let (front, spaces, same) = skip_space-split (reverse u) in
    (
      reverse front,
      Spaces-reverse front spaces,
      sym (reverse-reverse u) ∙ ap reverse same ∙ reverse-append front (skip_space (reverse u)),
    )

-- Trimming a line changes none of the words that `>>` reads from it, however many are read.
read_words-trim : (n : ℕ) (s : Text) → read_words n (trim s) ≡ read_words n s
read_words-trim n s =
    let (tail, spaces, same) = trim-split s in
    sym (read_words-append n (trim s) tail spaces)
    ∙ ap (read_words n) (sym same)
    ∙ read_words-skip_space n s

-- Words, each behind its gap.
abbrev pub spell : List (Text × Text) → Text
spell [] = []
spell ((gap, word) ∷ ws) = gap ++ (word ++ spell ws)

abbrev pub IsWord : Text → Type 0
IsWord word = (word ≢ []) × All (λ c. is_space c ≡ false) word

-- A gap follows, or nothing.
abbrev pub Ends : List (Text × Text) → Type 0
Ends [] = Unit {0}
Ends ((gap, word) ∷ ws) = gap ≢ []

-- Words without spaces, and gaps of spaces, of which only the first may be empty.
abbrev pub Laid : List (Text × Text) → Type 0
Laid [] = Unit {0}
Laid ((gap, word) ∷ ws) = Spaces gap × IsWord word × Ends ws × Laid ws

take_word-spell :
    (ws : List (Text × Text)) → Ends ws → Laid ws → take_word (spell ws) ≡ ([], spell ws)
unfolding take_word
take_word-spell [] e l = refl
take_word-spell (([], word) ∷ ws) e l = absurd (e refl)
take_word-spell ((c ∷ gap, word) ∷ ws) e l = ground (arith, l.0.0)

take_word-word :
    (word rest : Text)
    → All (λ c. is_space c ≡ false) word
    → take_word rest ≡ ([], rest)
    → take_word (word ++ rest) ≡ (word, rest)
unfolding take_word
take_word-word [] rest a h = h
take_word-word (c ∷ word) rest a h = ground (arith, a.0, take_word-word word rest a.1 h)

skip_space-gap :
    (gap word rest : Text)
    → Spaces gap
    → IsWord word
    → skip_space (gap ++ (word ++ rest)) ≡ word ++ rest
unfolding skip_space
skip_space-gap [] [] rest a w = absurd (w.0 refl)
skip_space-gap [] (c ∷ word) rest a w = ground (arith, w.1.0)
skip_space-gap (c ∷ gap) word rest a w = ground (arith, a.0, skip_space-gap gap word rest a.1 w)

read_words-spell_exact :
    (ws : List (Text × Text))
    → Laid ws
    → read_words (length ws) (spell ws) ≡ map (λ p. of_list p.1) ws
unfolding next_word
read_words-spell_exact [] l = refl
read_words-spell_exact ((gap, word) ∷ ws) l =
    let (spaces, is_word, ends, laid) = l in
    rw
      (
        skip_space-gap gap word (spell ws) spaces is_word,
        take_word-word word (spell ws) is_word.1 (take_word-spell ws ends laid),
        read_words-spell_exact ws laid,
      )
      refl

-- The words of a line that is laid out with any spaces before, between and behind them are read back
-- from it after it was trimmed.
pub read_words-spell :
    (ws : List (Text × Text)) (tail : Text)
    → Laid ws
    → Spaces tail
    → read_words (length ws) (trim (spell ws ++ tail)) ≡ map (λ p. of_list p.1) ws
read_words-spell ws tail laid spaces =
    read_words-trim (length ws) (spell ws ++ tail)
    ∙ read_words-append (length ws) (spell ws) tail spaces
    ∙ read_words-spell_exact ws laid
