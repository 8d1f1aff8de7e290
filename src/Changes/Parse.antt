-- ===== src/Changes/Parse.antt =====
-- Reading back what git prints (packages/harness-core/src/changed-files.ts).
use agentx_platform.Prelude.{
  ltb, lt→ltb, length, keep, All, Text, split, split-append, ◌≡◌, refl, ap, true, false, List, [],
  ◌∷◌, map,
}
use agentx_platform.Changes.{
  is_two_path, lead_of, moved_file, plain_file, parse_tokens, parse_git_diff_name_status,
}
use agentx_platform.Changes.Records.{
  DiffRecord, plain, moved, IsField, IsRecord, fields, print_fields, print_records, file_of,
}

fields-IsField : (rs : List DiffRecord) → All IsRecord rs → All IsField (fields rs)
fields-IsField [] h = tt
fields-IsField (plain code path ∷ rs) h = (h.0.0, (h.0.1, fields-IsField rs h.1))
fields-IsField (moved code old new ∷ rs) h = (h.0.0, (h.0.1, (h.0.2, fields-IsField rs h.1)))

-- The empty token behind the last NUL is dropped, and nothing else.
tokens-print_fields :
    (ss : List Text)
    → All IsField ss
    → keep (λ t. ltb 0 (length t)) (split 0 (print_fields ss)) ≡ ss
tokens-print_fields [] h = unfold split in refl
tokens-print_fields (s ∷ ss) h =
    rw (split-append 0 s (print_fields ss) h.0.1)
      (rw (lt→ltb 0 (length s) h.0.0) (ap (λ l. s ∷ l) (tokens-print_fields ss h.1)))

module _ (to_lower : Text → Text) (repo : Text) where
  parse_tokens-plain :
      (code path : Text) (rest : List Text)
      → is_two_path (lead_of code) ≡ false
      → parse_tokens to_lower repo (code ∷ path ∷ rest)
        ≡ plain_file to_lower repo code path ∷ parse_tokens to_lower repo rest
  parse_tokens-plain code path [] h = unfold parse_tokens in rw h refl
  parse_tokens-plain code path (b ∷ rest) h = unfold parse_tokens in rw h refl

  parse_tokens-moved :
      (code old new : Text) (rest : List Text)
      → is_two_path (lead_of code) ≡ true
      → parse_tokens to_lower repo (code ∷ old ∷ new ∷ rest)
        ≡ moved_file to_lower repo code old new ∷ parse_tokens to_lower repo rest
  parse_tokens-moved code old new rest h = unfold parse_tokens in rw h refl

  parse_tokens-fields :
      (rs : List DiffRecord)
      → All IsRecord rs
      → parse_tokens to_lower repo (fields rs) ≡ map (file_of to_lower repo) rs
  parse_tokens-fields [] h = unfold parse_tokens in refl
  parse_tokens-fields (plain code path ∷ rs) h =
      rw (parse_tokens-plain code path (fields rs) h.0.2)
        (ap (λ l. plain_file to_lower repo code path ∷ l) (parse_tokens-fields rs h.1))
  parse_tokens-fields (moved code old new ∷ rs) h =
      rw (parse_tokens-moved code old new (fields rs) h.0.3)
        (ap (λ l. moved_file to_lower repo code old new ∷ l) (parse_tokens-fields rs h.1))

  -- What git prints is read back record by record, whatever the paths hold but the NUL: the fields
  -- are not empty, and the status code tells renames and copies from the rest.
  pub parse-print_records :
      (rs : List DiffRecord)
      → All IsRecord rs
      → parse_git_diff_name_status to_lower repo (print_records rs) ≡ map (file_of to_lower repo) rs
  parse-print_records rs h =
      unfold parse_git_diff_name_status in
      rw (tokens-print_fields (fields rs) (fields-IsField rs h)) (parse_tokens-fields rs h)
