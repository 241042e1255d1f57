-- ===== src/Release/Version.antt =====
-- `release_version` of scripts/release.py: the version, the tag and the changelog section.
pub mod ThreePart
pub mod Notes
pub mod Sections
use wu_kong_easy_sdk_csharp.Common.{
  ℕ, zero, suc, Bool, true, false, not, ◌&&◌, ◌||◌, Option, none, some, List, [], ◌∷◌, ◌++◌, ◌==◌,
  length, any, codes, if◌then◌else◌, ◌≡◌, refl,
}
use wu_kong_easy_sdk_csharp.Python.Result.{value_error, Result, ok, err, ◌>>=◌, ◌>>◌, raise_if}
use wu_kong_easy_sdk_csharp.Python.Text.{Unicode, is_digit, strip}
use wu_kong_easy_sdk_csharp.Python.Text.Search.{Text, text_eq, starts_with, lines}

-- "## [" + version + "]"
abbrev pub header : Text → Text
header version = codes "## [" ++ (version ++ codes "]")

-- The lookahead `^## ` of the section pattern.
abbrev pub starts_section : Text → Bool
starts_section line = starts_with line (codes "## ")

-- `(.*?)` up to a line that starts a section or the end, over the lines of the text that follows.
unfoldable pub body : List Text → Text
body [] = []
body (l ∷ []) = if starts_section l then [] else l
body (l ∷ m ∷ ls) = if starts_section l then [] else l ++ (b'\n' ∷ body (m ∷ ls))

-- `re.findall` of the section pattern: the text behind each header line that a newline ends. The lines
-- of a body start no section, so the search may go on at the next line.
unfoldable pub sections : Text → List Text → List Text
sections version [] = []
sections version (l ∷ []) = []
sections version (l ∷ m ∷ ls) =
    let rest = sections version (m ∷ ls) in
    if starts_with l (header version) then body (m ∷ ls) ∷ rest else rest

module _ (u : Unicode) where
  -- `\d+` dots `\.\d+`: `dots` are left, and `seen` says that a digit stands behind the last one.
  unfoldable pub matches_dotted : ℕ → Bool → Text → Bool
  matches_dotted dots seen [] = seen && (dots == 0)
  matches_dotted zero seen (c ∷ cs) = elim (is_digit u c) [
    | true ↦ matches_dotted zero true cs
    | false ↦ false
  ]
  matches_dotted (suc dots) seen (c ∷ cs) = elim (is_digit u c) [
    | true ↦ matches_dotted (suc dots) true cs
    | false ↦ elim (seen && (c == b'.')) [ true ↦ matches_dotted dots false cs | false ↦ false ]
  ]

  -- re.fullmatch(r"\d+\.\d+\.\d+", version)
  unfoldable pub is_three_part : Text → Bool
  is_three_part = matches_dotted 2 false

  -- a line that `^- \S` finds
  unfoldable pub is_bullet : Text → Bool
  is_bullet (a ∷ b ∷ c ∷ cs) = (a == b'-') && (b == b' ') && not (u.is_space c)
  is_bullet _ = false

  -- The text of the first section, if it is the only one and has a bullet.
  unfoldable pub only_section : List Text → Result Text
  only_section (s ∷ []) =
      if any is_bullet (lines s)
      then ok s
      else err (value_error "Release requires exactly one nonempty changelog section")
  only_section _ = err (value_error "Release requires exactly one nonempty changelog section")

  abbrev pub or_empty : Option Text → Text
  or_empty none = []
  or_empty (some v) = v

  -- `found` is `project.findtext("PropertyGroup/Version")`, `ref` the value of GITHUB_REF, or "".
  unfoldable pub release_version : Option Text → Text → Text → Result (Text × Text)
  release_version found ref notes = do
    let version = or_empty found
    raise_if (text_eq version [] || not (is_three_part version))
        (value_error "Release requires an exact stable three-part version")
    raise_if
        (starts_with ref (codes "refs/tags/") && not (text_eq ref (codes "refs/tags/v" ++ version)))
        (value_error "Tag does not match the package version")
    section ← only_section (sections version (lines notes))
    ok (version, strip u section)
