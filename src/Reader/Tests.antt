-- ===== src/Reader/Tests.antt =====
-- A short stream: a value with an optional tag, and a segment behind it.
use rugix.Common.{ℕ, suc, ◌≡◌, ◌≢◌, inl, refl, List, [], ◌∷◌, ◌++◌, length, arith, if◌then◌else◌}
use rugix.Common.Result.{ok, err, out_of_fuel}
use rugix.Stlv.{Tag, start, unexpected_required_tag, write_atom_head, write_value, write_tag}
use rugix.Stlv.Skip.{Forest, done, leaf, segment, write_forest}
use rugix.Reader.{starts, skip_until, expect_atom_head, read_into_vec}
use rugix.Reader.Copy.{read_into_vec-write_forest}
use rugix.Reader.Passing.{skip_until-write_forest}
use rugix.Reader.Ends.{reader-ends}

abbrev optional : Tag
optional = record { b0 = 200; b1 = 1; b2 = 1; b3 = 1 }

abbrev required : Tag
required = record { b0 = 9; b1 = 8; b2 = 7; b3 = 6 }

abbrev contents : Forest
contents = leaf required (5 ∷ 6 ∷ []) (segment optional done done)

abbrev whole : List ℕ
whole =
    9 ∷ 8 ∷ 7 ∷ 6 ∷ 64 ∷ 9 ∷ 8 ∷ 7 ∷ 6 ∷ 130 ∷ 5 ∷ 6 ∷ 200 ∷ 1 ∷ 1 ∷ 1 ∷ 64 ∷ 200 ∷ 1 ∷ 1 ∷ 1 ∷ 0
    ∷ 9 ∷ 8 ∷ 7 ∷ 6 ∷ 0 ∷ []

read_into_vec-write_forest_example :
    (body : List ℕ) × (expect_atom_head (whole ++ 1 ∷ []) ≡ ok (start required, body ++ 1 ∷ []))
    × (read_into_vec [] (start required) 27 (body ++ 1 ∷ []) ≡ ok (whole, 1 ∷ []))
read_into_vec-write_forest_example =
    read_into_vec-write_forest required contents whole 27 (1 ∷ []) (omega arith, (tt, tt))
      (unfold write_forest write_value write_atom_head write_tag in refl) (omega arith)

skip_until-write_forest_example :
    (before hb : List ℕ) × (write_forest (leaf optional (5 ∷ []) (segment optional contents done))
      ≡ ok before)
    × (write_atom_head (start required) ≡ ok hb)
    × (skip_until
          (starts required)
          (suc (length (before ++ (hb ++ 3 ∷ []))))
          (before ++ (hb ++ 3 ∷ []))
        ≡ (if starts required (start required)
            then ok (start required, 3 ∷ [])
            else err unexpected_required_tag))
skip_until-write_forest_example =
    skip_until-write_forest (starts required)
      (leaf optional (5 ∷ []) (segment optional contents done)) (start required) (3 ∷ [])
      (omega arith, ((omega arith, (tt, tt)), tt)) (refl, refl, (refl, refl, tt)) tt (inl refl)

reader-ends_example :
    (skip_until (starts required) (suc 2) (7 ∷ 7 ∷ []) ≢ out_of_fuel)
    × (read_into_vec [] (start required) 100 (7 ∷ 7 ∷ []) ≢ out_of_fuel)
reader-ends_example = reader-ends (starts required) (start required) [] 100 (7 ∷ 7 ∷ [])
