-- ===== src/Release/Publish.antt =====
-- `main` of scripts/release.py. What it writes, prints and installs is the value that it returns.
pub mod Guards
use wu_kong_easy_sdk_csharp.Common.{
  ℕ, Bool, true, false, not, ◌&&◌, ◌||◌, Option, none, some, List, [], ◌∷◌, ◌++◌, ◌==◌, length, all,
  codes, leb,
}
use wu_kong_easy_sdk_csharp.Python.Result.{
  value_error, system_exit, Result, ok, err, ◌>>=◌, ◌>>◌, raise_if,
}
use wu_kong_easy_sdk_csharp.Python.Text.{Unicode}
use wu_kong_easy_sdk_csharp.Python.Text.Search.{Text, text_eq}
use wu_kong_easy_sdk_csharp.Release.Version.{release_version}
use wu_kong_easy_sdk_csharp.Release.Package.{Bytes, Archive, Metadata, read, package_files}

pub data Mode : Type 0 where
  metadata local public : Mode

-- What the script did: the notes written, or the version installed from the registry or the folder.
pub data Effect : Type 0 where
  wrote_notes : (version notes : Text) → Effect
  installed : (version : Text) → (from_registry : Bool) → Effect

-- [0-9a-f]
abbrev pub is_hex : ℕ → Bool
is_hex c = (leb b'0' c && leb c b'9') || (leb b'a' c && leb c b'f')

-- re.fullmatch(r"[0-9a-f]{40}", commit)
abbrev pub is_sha : Text → Bool
is_sha commit = (length commit == 40) && all is_hex commit

-- `not args.commit or not re.fullmatch(…)`
unfoldable pub full_commit : Option Text → Result Text
full_commit none = err (system_exit "--commit must be the full source SHA")
full_commit (some c) = elim (is_sha c) [
  | true ↦ ok c
  | false ↦ err (system_exit "--commit must be the full source SHA")
]

abbrev same_bytes : Result Bytes → Bytes → Bool
same_bytes (ok c) b = text_eq c b
same_bytes (err e) b = false

-- Each entry of the first dict is in the second, with the same bytes.
unfoldable pub included : Archive → Archive → Bool
included [] other = true
included ((n, b) ∷ es) other = same_bytes (read other n) b && included es other

-- expected == actual, for dicts
unfoldable pub same_files : Archive → Archive → Bool
same_files expected actual = (length expected == length actual) && included expected actual

abbrev pub is_public : Mode → Bool
is_public public = true
is_public _ = false

-- `found`, `ref` and `notes` are the inputs of `release_version`; `local_package` holds the bytes of the
-- tested artifact as an archive, `fetch` is `public_package`, `install` runs the consumer project.
module _ (u : Unicode) (read_manifest : Bytes → Result (Option Metadata))
    (local_package : Text → Result Archive) (fetch : Text → Result Archive)
    (install : Text → Bool → Result (Unit {0})) where
  -- the comparison of the published package, in the mode `public`
  unfoldable pub check_published : Mode → Archive → Text → Text → Result (Unit {0})
  check_published public expected version commit = do
    published ← fetch version
    actual ← package_files read_manifest published version commit
    raise_if (not (same_files expected actual))
        (value_error "Published package contents differ from the tested artifact")
    ok tt
  check_published _ expected version commit = ok tt

  -- the part of `main` behind the mode `metadata`
  unfoldable pub verify_and_install : Mode → Option Text → Text → Result Effect
  verify_and_install mode given version = do
    commit ← full_commit given
    tested ← local_package version
    expected ← package_files read_manifest tested version commit
    check_published mode expected version commit
    install version (is_public mode)
    ok (installed version (is_public mode))

  unfoldable pub main : Mode → Option Text → Option Text → Text → Text → Result Effect
  main metadata commit found ref notes = do
    released ← release_version u found ref notes
    ok (wrote_notes released.0 released.1)
  main mode commit found ref notes = do
    released ← release_version u found ref notes
    verify_and_install mode commit released.0
