-- ===== src/Changes/Tests.antt =====
-- Outputs of git read by packages/harness-core/src/changed-files.ts.
use agentx_platform.Prelude.{All, Text, codes, same, lookup, ◌≡◌, refl, List, [], ◌∷◌, map, arith}
use agentx_platform.Changes.{
  modified, renamed, mime_from_path, is_two_path, lead_of, moved_file, plain_file,
  parse_git_diff_name_status,
}
use agentx_platform.Changes.Records.{DiffRecord, plain, moved, IsRecord, print_records, file_of}
use agentx_platform.Changes.Parse.{parse-print_records}

abbrev keep_case : Text → Text
keep_case s = s

abbrev sample : List DiffRecord
sample =
    plain (codes "M") (codes "src/a.ts") ∷ moved (codes "R100") (codes "b.md") (codes "c.md") ∷ []

sample-IsRecord : All IsRecord sample
unfolding is_two_path lead_of
sample-IsRecord = (
  (
    (omega arith, (refl, tt)),
    (omega arith, (refl, (refl, (refl, (refl, (refl, (refl, (refl, (refl, tt))))))))),
    refl,
  ),
  (
    (
      (omega arith, (refl, (refl, (refl, (refl, tt))))),
      (omega arith, (refl, (refl, (refl, (refl, tt))))),
      (omega arith, (refl, (refl, (refl, (refl, tt))))),
      refl,
    ),
    tt,
  ),
)

parse-print_records_example :
    parse_git_diff_name_status keep_case (codes "app") (print_records sample)
    ≡ map (file_of keep_case (codes "app")) sample
parse-print_records_example = parse-print_records keep_case (codes "app") sample sample-IsRecord

sample_kinds :
    map (λ f. f.change_kind) (map (file_of keep_case (codes "app")) sample)
    ≡ modified ∷ renamed ∷ []
unfolding plain_file moved_file
sample_kinds = refl

sample_names :
    map (λ f. f.filename) (map (file_of keep_case (codes "app")) sample)
    ≡ codes "a.ts" ∷ codes "c.md" ∷ []
unfolding plain_file moved_file
sample_names = refl

sample_type : mime_from_path keep_case (codes "src/a.test.ts") ≡ codes "application/typescript"
unfolding mime_from_path lookup same
sample_type = refl
