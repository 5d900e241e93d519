-- ===== src/GrubEnv/Roundtrip.antt =====
-- What is read back of an environment that is written.
use rugix.Common.{
  ℕ, zero, suc, ◌+◌, ◌-◌, ◌≤◌, ◌<◌, ◌==◌, Bool-cases, leb, ◌||◌, Bool, true, false, [], ◌∷◌, ◌++◌,
  append_assoc, append-nil, All, length, length-append, replicate, ◌≡◌, inl, inr, refl, ap, ◌∙◌,
  arith,
}
use rugix.Common.Text.{Text, text_eq}
use rugix.Common.Result.{ok, err, ◌>>=◌}
use rugix.GrubEnv.{
  invalid_escaped, newline, hash, equals, envblk_size, Env, insert, unescape, split, starts_with,
  decode_line, decode_lines, grub_envblk_decode, signature, warning, escape, contains, entry_line,
  encode_entries, grub_envblk_encode,
}
use rugix.GrubEnv.Decoding.{
  unescape-escape, unescape-escape-newline, contains-append, contains-escape, split-line,
  split-last, split_once-append, has, insert-fresh, has-append,
}

-- A name that no line or comment can be mistaken for.
abbrev pub IsName : Text → Type 0
IsName name =
    (contains newline name ≡ false)
    × (contains equals name ≡ false)
    × (starts_with hash name ≡ false)

abbrev pub Named : Env → Type 0
Named env = All (λ e. IsName e.0) env

abbrev pub OneLine : Env → Type 0
OneLine env = All (λ e. contains newline e.1 ≡ false) env

-- Some value has several lines.
unfoldable pub multiline : Env → Bool
multiline [] = false
multiline ((name, value) ∷ env) = contains newline value || multiline env

-- Names are different.
abbrev pub Distinct : Env → Type 0
Distinct [] = Unit {0}
Distinct ((name, value) ∷ env) = All (λ e. text_eq name e.0 ≡ false) env × Distinct env

-- The lines of the entries.
unfoldable pub lines_of : Env → Text
lines_of [] = []
lines_of ((name, value) ∷ env) = entry_line name value ++ (newline ∷ lines_of env)

encode_entries-Named : (env : Env) → Named env → encode_entries env ≡ ok (lines_of env)
unfolding encode_entries lines_of
encode_entries-Named [] h = refl
encode_entries-Named ((name, value) ∷ env) ((line, eq, start), h) =
    rw (line, encode_entries-Named env h) refl

entry_line-plain :
    (name value : Text) → IsName name → contains newline (entry_line name value) ≡ false
unfolding entry_line
entry_line-plain name value (line, eq, start) =
    rw (contains-append newline name (equals ∷ escape value), line)
      (unfold contains in contains-escape value)

starts_with-append :
    (name s : Text)
    → starts_with hash name ≡ false
    → starts_with hash (name ++ (equals ∷ s)) ≡ false
starts_with-append [] s h = refl
starts_with-append (c ∷ name) s h = h

decode_line-entry :
    (name value : Text) (acc : Env)
    → IsName name
    → decode_line (entry_line name value) acc
      ≡ (unescape false (escape value) >>= λ unescaped. ok (insert name unescaped acc))
unfolding decode_line entry_line
decode_line-entry name value acc (line, eq, start) =
    rw
      (
        starts_with-append name (escape value) start,
        split_once-append equals name (escape value) eq,
      )
      refl

-- No entry has a name that is there already.
abbrev pub Fresh : Env → Env → Type 0
Fresh acc env = All (λ e. has e.0 acc ≡ false) env

pub Fresh-insert :
    (acc env : Env) (n v : Text)
    → Fresh acc env
    → All (λ e. text_eq n e.0 ≡ false) env
    → Fresh (acc ++ ((n, v) ∷ [])) env
Fresh-insert acc [] n v h k = tt
Fresh-insert acc ((m, u) ∷ env) n v (p, h) (q, k) =
    (rw (has-append m acc n v, p) q, Fresh-insert acc env n v h k)

pub Fresh-nil : (env : Env) → Fresh [] env
unfolding has
Fresh-nil [] = tt
Fresh-nil (e ∷ env) = (refl, Fresh-nil env)

module _ (padding : Text) (no_line : contains newline padding ≡ false)
    (comment : starts_with hash padding ≡ true) where
  decode_padding : (acc : Env) → decode_lines (split newline padding) acc ≡ ok acc
  unfolding decode_lines decode_line
  decode_padding acc = rw (split-last newline padding no_line, comment) refl

  -- The first line of the entries, and what follows.
  decode_first :
      (name value : Text) (env acc : Env)
      → IsName name
      → decode_lines
          (split newline ((entry_line name value ++ (newline ∷ lines_of env)) ++ padding))
          acc
        ≡ (decode_line (entry_line name value) acc >>= λ acc'.
            decode_lines (split newline (lines_of env ++ padding)) acc')
  unfolding decode_lines
  decode_first name value env acc is_name =
      rw (append_assoc (entry_line name value) (newline ∷ lines_of env) padding) (
        rw
          (split-line newline (entry_line name value) (lines_of env ++ padding)
            (entry_line-plain name value is_name))
          refl)

  decode_entries :
      (env acc : Env)
      → Named env
      → OneLine env
      → Distinct env
      → Fresh acc env
      → decode_lines (split newline (lines_of env ++ padding)) acc ≡ ok (acc ++ env)
  unfolding lines_of
  decode_entries [] acc n o d f = rw (append-nil acc) (decode_padding acc)
  decode_entries ((name, value) ∷ env) acc (is_name, n) (one, o) (other, d) (fresh, f) =
      rw (decode_first name value env acc is_name) (
        rw (decode_line-entry name value acc is_name) (
          rw (unescape-escape value one) (
            rw (insert-fresh name value acc fresh) (
              rw⁻¹ (append_assoc acc ((name, value) ∷ []) env) (
                decode_entries env (acc ++ ((name, value) ∷ [])) n o d
                  (Fresh-insert acc env name value f other))))))

  decode_multiline :
      (env acc : Env)
      → Named env
      → multiline env ≡ true
      → decode_lines (split newline (lines_of env ++ padding)) acc ≡ err invalid_escaped
  unfolding lines_of multiline
  decode_multiline [] acc n o = cc
  decode_multiline ((name, value) ∷ env) acc (is_name, n) o =
      rw (decode_first name value env acc is_name) (
        rw (decode_line-entry name value acc is_name) (elim (Bool-cases (contains newline value)) [
          | inl y ↦ rw (unescape-escape-newline value y) refl
          | inr one ↦ rw (unescape-escape value one) (
              (let rest : multiline env ≡ true = ground arith in
                decode_multiline env (insert name value acc) n rest))
        ]))

-- The padding.
padding_plain : (n : ℕ) → contains newline (replicate n hash) ≡ false
unfolding contains
padding_plain zero = refl
padding_plain (suc n) = padding_plain n

length-replicate : (n : ℕ) (c : ℕ) → length (replicate n c) ≡ n
length-replicate zero c = refl
length-replicate (suc n) c = let ih = length-replicate n c in omega arith

-- The block before it is padded.
unfoldable pub block_of : Env → Text
block_of env = signature ++ (newline ∷ warning ++ (newline ∷ lines_of env))

header_skipped :
    (body padding : Text) (acc : Env)
    → decode_lines
        (split newline ((signature ++ (newline ∷ warning ++ (newline ∷ body))) ++ padding))
        acc
      ≡ decode_lines (split newline (body ++ padding)) acc
header_skipped body padding acc =
    rw
      (
        append_assoc signature (newline ∷ warning ++ (newline ∷ body)) padding,
        append_assoc warning (newline ∷ body) padding,
      )
      (rw
        (split-line newline signature (warning ++ (newline ∷ body ++ padding))
          (unfold contains in refl))
        (rw (split-line newline warning (body ++ padding) (unfold contains in refl))
          (unfold decode_lines decode_line in refl)))

encode_fits :
    (env : Env)
    → Named env
    → length (block_of env) ≤ envblk_size
    → grub_envblk_encode env
      ≡ ok (block_of env ++ replicate (envblk_size - length (block_of env)) hash)
unfolding grub_envblk_encode block_of
encode_fits env n fits =
    let small : leb (length (signature ++ (newline ∷ warning ++ (newline ∷ lines_of env))))
          envblk_size
        ≡ true =
      ground arith in
    rw (encode_entries-Named env n) (rw small refl)

decode_padded :
    (env : Env) (padding : Text)
    → length (block_of env ++ padding) ≡ envblk_size
    → grub_envblk_decode (block_of env ++ padding)
      ≡ decode_lines (split newline (lines_of env ++ padding)) []
unfolding grub_envblk_decode block_of
decode_padded env padding full =
    let right : (length ((signature ++ (newline ∷ warning ++ (newline ∷ lines_of env))) ++ padding)
          == envblk_size)
        ≡ true =
      ground arith in
    rw right (header_skipped (lines_of env) padding [])

padded_length :
    (s : Text)
    → length s ≤ envblk_size
    → length (s ++ replicate (envblk_size - length s) hash) ≡ envblk_size
padded_length s fits =
    length-append s (replicate (envblk_size - length s) hash)
    ∙ ap (λ n. length s + n) (length-replicate (envblk_size - length s) hash)
    ∙ omega arith

padding_comment : (k : ℕ) → 0 < k → starts_with hash (replicate k hash) ≡ true
padding_comment zero h = absurd (omega arith)
padding_comment (suc k) h = refl

-- An environment that leaves room for padding, with different names without newlines, equals signs
-- and a leading hash, and values of one line, is written to a block from which it is read back.
pub grub_envblk_decode-grub_envblk_encode :
    (env : Env)
    → Named env
    → OneLine env
    → Distinct env
    → length (block_of env) < envblk_size
    → (blk : Text) × (grub_envblk_encode env ≡ ok blk) × (grub_envblk_decode blk ≡ ok env)
grub_envblk_decode-grub_envblk_encode env n o d fits =
    let k = envblk_size - length (block_of env) in
    let padding = replicate k hash in
    (
      block_of env ++ padding,
      encode_fits env n (omega arith),
      decode_padded env padding (padded_length (block_of env) (omega arith))
          ∙ decode_entries padding (padding_plain k) (padding_comment k (omega arith)) env [] n o d
              (Fresh-nil env),
    )

-- An environment with such names, and a value of several lines, is written to a block that is refused.
pub grub_envblk_decode-multiline :
    (env : Env)
    → Named env
    → multiline env ≡ true
    → length (block_of env) < envblk_size
    → (blk : Text) × (grub_envblk_encode env ≡ ok blk)
      × (grub_envblk_decode blk ≡ err invalid_escaped)
grub_envblk_decode-multiline env n o fits =
    let k = envblk_size - length (block_of env) in
    let padding = replicate k hash in
    (
      block_of env ++ padding,
      encode_fits env n (omega arith),
      decode_padded env padding (padded_length (block_of env) (omega arith))
          ∙ decode_multiline padding (padding_plain k) (padding_comment k (omega arith)) env [] n o,
    )
