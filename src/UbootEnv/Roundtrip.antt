-- ===== src/UbootEnv/Roundtrip.antt =====
-- What is read back of an environment that is written.
use rugix.Common.{
  ℕ, ◌≡◌, refl, sym, ap, ◌∙◌, true, false, List, [], ◌∷◌, ◌++◌, append_assoc, append-nil, All,
  length, length-append, take, drop, take-length_append, drop-length_append, ltb, arith,
}
use rugix.Common.Text.{Text, text_eq}
use rugix.Common.Result.{ok, ◌>>=◌}
use rugix.GrubEnv.{Env, insert, split, contains, equals}
use rugix.GrubEnv.Decoding.{split-line, split_once-append, insert-fresh, contains-append}
use rugix.GrubEnv.Roundtrip.{Distinct, Fresh, Fresh-insert, Fresh-nil}
use rugix.UbootEnv.{
  Encoding, entry_bytes, encode_environ, to_bytes, decode_environ_entry, decode_environ, from_bytes,
}

module _ (e : Encoding) where
  -- Entries whose keys have no equals sign, and that have no zero bytes.
  abbrev pub Writable : Env → Type 0
  Writable env =
      All
        (λ entry.
          (contains equals entry.0 ≡ false)
          × (contains 0 entry.0 ≡ false)
          × (contains 0 entry.1 ≡ false)
          × (e.from_utf8 (entry_bytes entry.0 entry.1) ≡ true))
        env

  no_zero :
      (key value : Text)
      → contains 0 key ≡ false
      → contains 0 value ≡ false
      → contains 0 (entry_bytes key value) ≡ false
  no_zero key value k v = rw (contains-append 0 key (equals ∷ value), k) (unfold contains in v)

  decode_environ_entry-bytes :
      (key value : Text) (acc : Env)
      → contains equals key ≡ false
      → e.from_utf8 (entry_bytes key value) ≡ true
      → decode_environ_entry e (entry_bytes key value) acc ≡ ok (insert key value acc)
  unfolding decode_environ_entry
  decode_environ_entry-bytes key value acc plain valid =
      rw (valid, split_once-append equals key value plain) refl

  -- An entry is not empty.
  decode_environ-bytes :
      (key value : Text) (entries : List Text) (acc : Env)
      → decode_environ e (entry_bytes key value ∷ entries) acc ≡ (
          decode_environ_entry e (entry_bytes key value) acc >>= λ acc'.
          decode_environ e entries acc')
  unfolding decode_environ
  decode_environ-bytes [] value entries acc = refl
  decode_environ-bytes (c ∷ key) value entries acc = refl

  entries-read :
      (env acc : Env)
      → Writable env
      → Distinct env
      → Fresh acc env
      → decode_environ e (split 0 (encode_environ env ++ 0 ∷ [])) acc ≡ ok (acc ++ env)
  unfolding encode_environ
  entries-read [] acc w d f = unfold split decode_environ in rw append-nil refl
  entries-read ((key, value) ∷ []) acc ((plain, zero_key, zero_value, valid), w) d (fresh, f) =
      rw
        (
          split-line 0 (entry_bytes key value) [] (no_zero key value zero_key zero_value),
          decode_environ-bytes key value _ acc,
          decode_environ_entry-bytes key value acc plain valid,
          insert-fresh key value acc fresh,
        )
        (unfold split decode_environ in refl)
  entries-read ((key, value) ∷ next ∷ env) acc ((plain, zero_key, zero_value, valid), w) (other, d)
        (fresh, f) =
      let ih =
        entries-read (next ∷ env) (acc ++ (key, value) ∷ []) w d
          (Fresh-insert acc (next ∷ env) key value f other) in
      rw
        (
          append_assoc (entry_bytes key value) (0 ∷ encode_environ (next ∷ env)) (0 ∷ []),
          split-line 0 (entry_bytes key value) (encode_environ (next ∷ env) ++ 0 ∷ [])
              (no_zero key value zero_key zero_value),
          decode_environ-bytes key value _ acc,
          decode_environ_entry-bytes key value acc plain valid,
          insert-fresh key value acc fresh,
        )
        (ih ∙ ap ok (append_assoc acc ((key, value) ∷ []) (next ∷ env)))

  text_eq_refl : (s : Text) → text_eq s s ≡ true
  text_eq_refl [] = refl
  text_eq_refl (c ∷ s) = let ih = text_eq_refl s in ground arith

  -- An environment with different keys, none of them with an equals sign, no zero bytes, and
  -- entries that are valid UTF-8, is read back from what it is written to: the checksum is
  -- accepted, and the entries are the same.
  pub from_bytes-to_bytes :
      (env : Env) → Writable env → Distinct env → from_bytes e (to_bytes e env) ≡ ok env
  unfolding from_bytes to_bytes
  from_bytes-to_bytes env w d =
      let body = encode_environ env ++ 0 ∷ [] in
      let four = e.length-crc32 body in
      let front : take 4 (e.crc32 body ++ body) ≡ e.crc32 body =
        ap (λ (n : ℕ). take n (e.crc32 body ++ body)) (sym four)
        ∙ take-length_append (e.crc32 body) body in
      let back : drop 4 (e.crc32 body ++ body) ≡ body =
        ap (λ (n : ℕ). drop n (e.crc32 body ++ body)) (sym four)
        ∙ drop-length_append (e.crc32 body) body in
      let long : ltb (length (e.crc32 body ++ body)) 5 ≡ false = ground (
        arith,
        four,
        length-append (e.crc32 body) body,
        length-append (encode_environ env) (0 ∷ []),
      ) in
      rw (long, front, back, text_eq_refl (e.crc32 body)) (entries-read env [] w d (Fresh-nil env))
