-- ===== src/Changes.antt =====
-- packages/harness-core/src/changed-files.ts: staged changes read from the output of git. The run
-- of git and the engine's `toLowerCase` are arguments.
pub mod Parse
pub mod Records
mod Tests
use agentx_platform.Prelude.{
  ltb, ◌==◌, if◌then◌else◌, or_default, length, keep, Text, codes, split, lookup, Result, ok,
  throws, ℕ, Bool, ◌||◌, Option, none, some, List, [], ◌∷◌, ◌++◌,
}

pub data ChangeKind : Type 0 where
  added modified deleted renamed copied type_changed : ChangeKind

pub record ChangedFile : Type 0 where
  pub id : Text
  pub repo : Text
  pub path : Text
  pub filename : Text
  pub change_kind : ChangeKind
  pub status_code : Text
  pub previous_path : Option Text
  pub mime_type : Text

-- What stands behind the last `c`, if there is one: `lastIndexOf` and `slice`.
unfoldable pub after_last : ℕ → Text → Option Text
after_last c [] = none
after_last c (x ∷ s) = elim (after_last c s) [
  | some t ↦ some t
  | none ↦ if x == c then some s else none
]

unfoldable pub basename : Text → Text
unfolding after_last
basename p = or_default (after_last b'/' p) p

abbrev pub octet_stream : Text
octet_stream = codes "application/octet-stream"

-- The `switch` of `mimeFromPath`.
mime_types : List (Text × Text)
mime_types =
    (codes "ts", codes "application/typescript")
    ∷ (codes "tsx", codes "application/typescript")
    ∷ (codes "js", codes "application/typescript")
    ∷ (codes "jsx", codes "application/typescript")
    ∷ (codes "mjs", codes "application/typescript")
    ∷ (codes "cjs", codes "application/typescript")
    ∷ (codes "py", codes "text/x-python")
    ∷ (codes "rs", codes "text/x-rust")
    ∷ (codes "go", codes "text/x-go")
    ∷ (codes "java", codes "text/x-java")
    ∷ (codes "rb", codes "text/x-ruby")
    ∷ (codes "sh", codes "application/x-shellscript")
    ∷ (codes "bash", codes "application/x-shellscript")
    ∷ (codes "md", codes "text/markdown")
    ∷ (codes "markdown", codes "text/markdown")
    ∷ (codes "json", codes "application/json")
    ∷ (codes "yml", codes "application/yaml")
    ∷ (codes "yaml", codes "application/yaml")
    ∷ (codes "toml", codes "application/toml")
    ∷ (codes "xml", codes "application/xml")
    ∷ (codes "html", codes "text/html")
    ∷ (codes "htm", codes "text/html")
    ∷ (codes "css", codes "text/css")
    ∷ (codes "txt", codes "text/plain")
    ∷ (codes "log", codes "text/plain")
    ∷ (codes "csv", codes "text/csv")
    ∷ (codes "sql", codes "application/sql")
    ∷ (codes "png", codes "image/png")
    ∷ (codes "jpg", codes "image/jpeg")
    ∷ (codes "jpeg", codes "image/jpeg")
    ∷ (codes "gif", codes "image/gif")
    ∷ (codes "webp", codes "image/webp")
    ∷ (codes "svg", codes "image/svg+xml")
    ∷ (codes "ico", codes "image/x-icon")
    ∷ (codes "pdf", codes "application/pdf")
    ∷ (codes "doc", codes "application/msword")
    ∷ (codes "docx", codes "application/msword")
    ∷ (codes "zip", codes "application/zip")
    ∷ (codes "tar", codes "application/x-tar")
    ∷ (codes "gz", codes "application/gzip")
    ∷ []

unfoldable pub mime_from_path : (Text → Text) → Text → Text
unfolding after_last mime_types
mime_from_path to_lower path = elim (after_last b'.' path) [
  | none ↦ octet_stream
  | some ext ↦ or_default (lookup (to_lower ext) mime_types) octet_stream
]

unfoldable pub code_to_kind : ℕ → ChangeKind
code_to_kind c =
    if c == b'A'
    then added
    else if c == b'M'
    then modified
    else if c == b'D'
    then deleted
    else if c == b'T'
    then type_changed
    else modified

unfoldable pub is_two_path : ℕ → Bool
is_two_path lead = (lead == b'R') || (lead == b'C')

-- `code.charAt(0)`; a token is never empty.
unfoldable pub lead_of : Text → ℕ
lead_of [] = 0
lead_of (c ∷ s) = c

module _ (to_lower : Text → Text) (repo : Text) where
  unfoldable pub moved_file : Text → Text → Text → ChangedFile
  unfolding basename mime_from_path lead_of
  moved_file code old new = record {
    id = repo ++ (codes "::" ++ new);
    repo = repo;
    path = new;
    filename = basename new;
    change_kind = if lead_of code == b'R' then renamed else copied;
    status_code = code;
    previous_path = some old;
    mime_type = mime_from_path to_lower new;
  }

  unfoldable pub plain_file : Text → Text → ChangedFile
  unfolding basename mime_from_path lead_of code_to_kind
  plain_file code path = record {
    id = repo ++ (codes "::" ++ path);
    repo = repo;
    path = path;
    filename = basename path;
    change_kind = code_to_kind (lead_of code);
    status_code = code;
    previous_path = none;
    mime_type = mime_from_path to_lower path;
  }

  -- The loop over the tokens; a record with missing fields is skipped token by token.
  unfoldable pub parse_tokens : List Text → List ChangedFile
  unfolding moved_file plain_file is_two_path lead_of
  parse_tokens [] = []
  parse_tokens (code ∷ []) = []
  parse_tokens (code ∷ a ∷ []) =
      if is_two_path (lead_of code) then parse_tokens (a ∷ []) else plain_file code a ∷ []
  parse_tokens (code ∷ a ∷ b ∷ rest) =
      let two = moved_file code a b ∷ parse_tokens rest in
      let one = plain_file code a ∷ parse_tokens (b ∷ rest) in
      if is_two_path (lead_of code) then two else one

  unfoldable pub parse_git_diff_name_status : Text → List ChangedFile
  unfolding parse_tokens split
  parse_git_diff_name_status stdout = parse_tokens (keep (λ t. ltb 0 (length t)) (split 0 stdout))

-- `git` runs the diff in the repository of the given name, and fails by throwing.
unfoldable pub discover_changed_files :
    (Text → Text) → (Text → Result Text) → List Text → List ChangedFile
unfolding parse_git_diff_name_status
discover_changed_files to_lower git [] = []
discover_changed_files to_lower git (repo ∷ repos) =
    let rest = discover_changed_files to_lower git repos in
    elim (git repo) [
      | ok stdout ↦ parse_git_diff_name_status to_lower repo stdout ++ rest
      | throws e ↦ rest
    ]
