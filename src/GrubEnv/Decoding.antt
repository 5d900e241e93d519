-- ===== src/GrubEnv/Decoding.antt =====
-- How the parts of an environment block are read back.
use rugix.Common.{
  ℕ, ◌==◌, Bool-cases, ◌||◌, Bool, true, false, some, [], ◌∷◌, ◌++◌, ◌≡◌, inl, inr, refl, ap, ◌∙◌,
  arith,
}
use rugix.Common.Text.{Text, text_eq, split_once, cons_first}
use rugix.Common.Result.{ok, err}
use rugix.GrubEnv.{
  invalid_escaped, newline, backslash, Env, insert, push_to, unescape, split, escape_char, escape,
  contains,
}

unescape_plain :
    (c : ℕ) (s : Text)
    → (c == backslash) ≡ false
    → unescape false (c ∷ s) ≡ push_to c (unescape false s)
unfolding unescape
unescape_plain c s h = rw h refl

-- What a character becomes by way of the block.
unescape_char :
    (c : ℕ) (s : Text)
    → (c == newline) ≡ false
    → unescape false (escape_char c ++ s) ≡ push_to c (unescape false s)
unescape_char c s plain = elim (Bool-cases (c == backslash)) [
  | inl y ↦ let e : c ≡ backslash = ground arith in rw e (unfold unescape in refl)
  | inr n ↦
      let char : escape_char c ≡ c ∷ [] = ground arith in
      ap (λ t. unescape false (t ++ s)) char ∙ unescape_plain c s n
]

unescape-newline : (s : Text) → unescape false (escape_char newline ++ s) ≡ err invalid_escaped
unfolding unescape
unescape-newline s = refl

-- A value without a newline is read back.
pub unescape-escape : (s : Text) → contains newline s ≡ false → unescape false (escape s) ≡ ok s
unfolding escape contains
unescape-escape [] h = unfold unescape in refl
unescape-escape (c ∷ s) h =
    let plain : (c == newline) ≡ false = ground arith in
    let rest : contains newline s ≡ false = ground arith in
    unescape_char c (escape s) plain ∙ ap (push_to c) (unescape-escape s rest)

-- A value with one is refused.
pub unescape-escape-newline :
    (s : Text) → contains newline s ≡ true → unescape false (escape s) ≡ err invalid_escaped
unfolding escape contains
unescape-escape-newline [] h = cc
unescape-escape-newline (c ∷ s) h = elim (Bool-cases (c == newline)) [
  | inl y ↦ let e : c ≡ newline = ground arith in rw e (unescape-newline (escape s))
  | inr n ↦
      let rest : contains newline s ≡ true = ground arith in
      unescape_char c (escape s) n ∙ ap (push_to c) (unescape-escape-newline s rest)
]

pub contains-append : (c : ℕ) (s t : Text) → contains c (s ++ t) ≡ (contains c s || contains c t)
unfolding contains
contains-append c [] t = refl
contains-append c (d ∷ s) t = let ih = contains-append c s t in ground arith

pub contains-escape : (s : Text) → contains newline (escape s) ≡ false
unfolding escape contains
contains-escape [] = refl
contains-escape (c ∷ s) =
    let ih = contains-escape s in
    let char : contains newline (escape_char c) ≡ false = ground arith in
    rw (contains-append newline (escape_char c) (escape s), char) ih

-- The lines of a block.
pub split-line :
    (c : ℕ) (s t : Text) → contains c s ≡ false → split c (s ++ (c ∷ t)) ≡ s ∷ split c t
unfolding split contains
split-line c [] t h = let e : (c == c) ≡ true = ground arith in rw e refl
split-line c (d ∷ s) t h =
    let plain : (d == c) ≡ false = ground arith in
    let rest : contains c s ≡ false = ground arith in rw plain (rw (split-line c s t rest) refl)

pub split-last : (c : ℕ) (s : Text) → contains c s ≡ false → split c s ≡ s ∷ []
unfolding split contains
split-last c [] h = refl
split-last c (d ∷ s) h =
    let plain : (d == c) ≡ false = ground arith in
    let rest : contains c s ≡ false = ground arith in rw plain (rw (split-last c s rest) refl)

pub split_once-append :
    (c : ℕ) (s t : Text) → contains c s ≡ false → split_once c (s ++ (c ∷ t)) ≡ some (s, t)
unfolding split_once contains
split_once-append c [] t h = let e : (c == c) ≡ true = ground arith in rw e refl
split_once-append c (d ∷ s) t h =
    let plain : (d == c) ≡ false = ground arith in
    let rest : contains c s ≡ false = ground arith in
    rw plain (ap (cons_first d) (split_once-append c s t rest))

-- Names that an environment has.
unfoldable pub has : Text → Env → Bool
has name [] = false
has name ((n, v) ∷ env) = text_eq n name || has name env

pub insert-fresh :
    (name value : Text) (env : Env)
    → has name env ≡ false
    → insert name value env ≡ env ++ ((name, value) ∷ [])
unfolding insert has
insert-fresh name value [] h = refl
insert-fresh name value ((n, v) ∷ env) h =
    let other : text_eq n name ≡ false = ground arith in
    let rest : has name env ≡ false = ground arith in
    rw other (ap (λ (e : Env). (n, v) ∷ e) (insert-fresh name value env rest))

pub has-append :
    (name : Text) (env : Env) (n v : Text)
    → has name (env ++ ((n, v) ∷ [])) ≡ (has name env || text_eq n name)
unfolding has
has-append name [] n v = ground arith
has-append name ((m, u) ∷ env) n v = let ih = has-append name env n v in ground arith
