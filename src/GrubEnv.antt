-- ===== src/GrubEnv.antt =====
-- crates/libs/rugix-common/src/boot/grub.rs: Grub environment blocks.
-- A string is the list of its bytes in UTF-8, in which the characters that the code tests for are
-- single bytes; an environment is the list of its entries, in the order of the iterator.
pub mod Decoding
pub mod Roundtrip
mod Tests
use rugix.Common.{
  ℕ, ◌+◌, ◌-◌, ◌==◌, leb, ◌||◌, not, Bool, true, false, Option, none, some, List, [], ◌∷◌, ◌++◌,
  length, replicate, if◌then◌else◌,
}
use rugix.Common.Text.{Text, text, text_eq, split_once}
use rugix.Common.Result.{Result, ok, err, panic, assert, guard, ◌>>=◌, ◌>>◌}

pub data InvalidEnvblk : Type 0 where
  invalid_length : InvalidEnvblk
  invalid_signature : InvalidEnvblk
  invalid_entry : InvalidEnvblk
  invalid_escaped : InvalidEnvblk

abbrev pub newline : ℕ
newline = 10

abbrev pub hash : ℕ
hash = 35

abbrev pub equals : ℕ
equals = 61

abbrev pub backslash : ℕ
backslash = 92

abbrev pub envblk_size : ℕ
envblk_size = 1024

abbrev pub Env : Type 0
Env = List (Text × Text)

-- `HashMap::insert`
unfoldable pub insert : Text → Text → Env → Env
insert name value [] = (name, value) ∷ []
insert name value ((n, v) ∷ env) =
    let rest = insert name value env in
    if text_eq n name then (name, value) ∷ env else (n, v) ∷ rest

abbrev pub push_to : ℕ → Result InvalidEnvblk Text → Result InvalidEnvblk Text
push_to c r = do s ← r; ok (c ∷ s)

-- The loop over the characters of a value, behind a backslash or not.
unfoldable pub unescape : Bool → Text → Result InvalidEnvblk Text
unescape false [] = ok []
unescape true [] = err invalid_escaped
unescape false (c ∷ s) =
    let rest = unescape (c == backslash) s in if c == backslash then rest else push_to c rest
unescape true (c ∷ s) =
    let rest = unescape false s in
    if c == backslash || c == newline then push_to c rest else err invalid_escaped

-- `split('\n')`
abbrev pub cons_line : ℕ → List Text → List Text
cons_line c [] = (c ∷ []) ∷ []
cons_line c (line ∷ lines) = (c ∷ line) ∷ lines

unfoldable pub split : ℕ → Text → List Text
split separator [] = [] ∷ []
split separator (c ∷ s) =
    let rest = split separator s in if c == separator then [] ∷ rest else cons_line c rest

abbrev pub starts_with : ℕ → Text → Bool
starts_with c [] = false
starts_with c (d ∷ s) = d == c

abbrev pub decode_entry : Option (Text × Text) → Env → Result InvalidEnvblk Env
decode_entry none env = err invalid_entry
decode_entry (some (name, value)) env = do
  unescaped ← unescape false value
  ok (insert name unescaped env)

unfoldable pub decode_line : Text → Env → Result InvalidEnvblk Env
decode_line line env =
    if starts_with hash line then ok env else decode_entry (split_once equals line) env

unfoldable pub decode_lines : List Text → Env → Result InvalidEnvblk Env
decode_lines [] env = ok env
decode_lines (line ∷ lines) env = decode_line line env >>= λ env'. decode_lines lines env'

unfoldable pub grub_envblk_decode : Text → Result InvalidEnvblk Env
grub_envblk_decode blk = do
  guard (length blk == envblk_size) invalid_length
  decode_lines (split newline blk) []

abbrev pub signature : Text
signature = text "# GRUB Environment Block"

abbrev pub warning : Text
warning = text "# WARNING: Do not edit this file by tools other than grub-editenv!!!"

abbrev pub escape_char : ℕ → Text
escape_char c =
    if c == backslash
    then backslash ∷ backslash ∷ []
    else (if c == newline then backslash ∷ 110 ∷ [] else c ∷ [])

unfoldable pub escape : Text → Text
escape [] = []
escape (c ∷ s) = escape_char c ++ escape s

unfoldable pub contains : ℕ → Text → Bool
contains c [] = false
contains c (d ∷ s) = d == c || contains c s

-- A line of the block, with what follows it.
unfoldable pub entry_line : Text → Text → Text
entry_line name value = name ++ (equals ∷ escape value)

unfoldable pub encode_entries : Env → Result InvalidEnvblk Text
encode_entries [] = ok []
encode_entries ((name, value) ∷ env) = do
  assert (not (contains newline name))
  rest ← encode_entries env
  ok (entry_line name value ++ (newline ∷ rest))

unfoldable pub grub_envblk_encode : Env → Result InvalidEnvblk Text
grub_envblk_encode env = do
  body ← encode_entries env
  let encoded = signature ++ (newline ∷ warning ++ (newline ∷ body))
  guard (leb (length encoded) envblk_size) invalid_length
  ok (encoded ++ replicate (envblk_size - length encoded) hash)
