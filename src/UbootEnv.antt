-- ===== src/UbootEnv.antt =====
-- crates/libs/rugix-common/src/boot/uboot.rs: environments of U-Boot as files. A string is the list
-- of its bytes in UTF-8, an environment the list of its entries, in the order of the iterator. The
-- checksum is that of the crate crc32fast.
pub mod Roundtrip
pub mod Tests
use rugix.Common.{
  ℕ, ◌+◌, ◌≤◌, ◌<◌, ◌≡◌, refl, ap, ◌∙◌, Bool, true, false, not, Option, none, some, List, [], ◌∷◌,
  ◌++◌, append_assoc, append-nil, All, length, length-append, take, drop, take-length_append,
  drop-length_append, ltb, ◌==◌, if◌then◌else◌, arith,
}
use rugix.Common.Text.{Text, text, text_eq, split_once}
use rugix.Common.Result.{Result, ok, err, guard, ok_or, ◌>>=◌, ◌>>◌}
use rugix.GrubEnv.{Env, insert, split, contains, equals}

-- `UBootEnvLoadError`
pub data UbootEnvLoadError : Type 0 where
  invalid_size : UbootEnvLoadError
  invalid_checksum : UbootEnvLoadError
  invalid_utf8 : UbootEnvLoadError
  invalid_entry : UbootEnvLoadError

-- The checksum has four bytes. `from_utf8` accepts what strings are made of, ASCII among it.
pub record Encoding : Type 0 where
  pub crc32 : Text → Text
  pub from_utf8 : Text → Bool
  pub length-crc32 : (bytes : Text) → length (crc32 bytes) ≡ 4
  pub from_utf8-ascii : (bytes : Text) → All (λ b. b < 128) bytes → from_utf8 bytes ≡ true

abbrev pub entry_bytes : Text → Text → Text
entry_bytes key value = key ++ equals ∷ value

-- The loop of `to_bytes`.
unfoldable pub encode_environ : Env → Text
encode_environ [] = []
encode_environ ((key, value) ∷ []) = entry_bytes key value
encode_environ ((key, value) ∷ entry ∷ env) =
    entry_bytes key value ++ 0 ∷ encode_environ (entry ∷ env)

module _ (e : Encoding) where
  unfoldable pub to_bytes : Env → Text
  to_bytes env = let body = encode_environ env ++ 0 ∷ [] in e.crc32 body ++ body

  unfoldable pub decode_environ_entry : Text → Env → Result UbootEnvLoadError Env
  decode_environ_entry entry env = do
    guard (e.from_utf8 entry) invalid_utf8
    (key, value) ← ok_or (split_once equals entry) invalid_entry
    ok (insert key value env)

  unfoldable pub decode_environ : List Text → Env → Result UbootEnvLoadError Env
  decode_environ [] env = ok env
  decode_environ ([] ∷ entries) env = decode_environ entries env
  decode_environ ((c ∷ entry) ∷ entries) env =
      decode_environ_entry (c ∷ entry) env >>= λ env'. decode_environ entries env'

  unfoldable pub from_bytes : Text → Result UbootEnvLoadError Env
  from_bytes bytes = do
    guard (not (ltb (length bytes) 5)) invalid_size
    guard (text_eq (take 4 bytes) (e.crc32 (drop 4 bytes))) invalid_checksum
    decode_environ (split 0 (drop 4 bytes)) []
