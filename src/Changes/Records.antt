-- ===== src/Changes/Records.antt =====
-- The records that `git diff --name-status -z` prints, by git's documentation: every field ends in
-- a NUL, and only renames and copies have two paths.
use agentx_platform.Prelude.{length, Text, Without, ◌<◌, ◌≡◌, true, false, List, [], ◌∷◌, ◌++◌}
use agentx_platform.Changes.{ChangedFile, is_two_path, lead_of, moved_file, plain_file}

pub data DiffRecord : Type 0 where
  plain : Text → Text → DiffRecord
  moved : Text → Text → Text → DiffRecord

abbrev pub IsField : Text → Type 0
IsField s = (0 < length s) × Without 0 s

abbrev pub IsRecord : DiffRecord → Type 0
IsRecord (plain code path) = IsField code × IsField path × (is_two_path (lead_of code) ≡ false)
IsRecord (moved code old new) =
    IsField code × IsField old × IsField new × (is_two_path (lead_of code) ≡ true)

abbrev pub fields : List DiffRecord → List Text
fields [] = []
fields (plain code path ∷ rs) = code ∷ path ∷ fields rs
fields (moved code old new ∷ rs) = code ∷ old ∷ new ∷ fields rs

abbrev pub print_fields : List Text → Text
print_fields [] = []
print_fields (s ∷ ss) = s ++ 0 ∷ print_fields ss

-- What git writes to its output.
abbrev pub print_records : List DiffRecord → Text
print_records rs = print_fields (fields rs)

abbrev pub file_of : (Text → Text) → Text → DiffRecord → ChangedFile
file_of to_lower repo (plain code path) = plain_file to_lower repo code path
file_of to_lower repo (moved code old new) = moved_file to_lower repo code old new
