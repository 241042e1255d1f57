-- ===== src/Release/Package.antt =====
-- `package_files` of scripts/release.py: what a package must hold, and the files that are compared.
pub mod Laws
pub mod Verified
use wu_kong_easy_sdk_csharp.Common.{
  ℕ, Bool, true, false, not, ◌&&◌, ◌||◌, Option, none, some, List, [], ◌∷◌, ◌++◌, ◌==◌, length, all,
  any, keep_if, map, codes, if◌then◌else◌, ltb,
}
use wu_kong_easy_sdk_csharp.Python.Result.{
  value_error, key_error, Result, ok, err, ◌>>=◌, ◌>>◌, raise_if,
}
use wu_kong_easy_sdk_csharp.Python.Text.Search.{Text, text_eq, ends_with}

abbrev pub Bytes : Type 0
Bytes = List ℕ

-- The entries of a zip archive, in the order of `namelist()`.
abbrev pub Archive : Type 0
Archive = List (Text × Bytes)

-- The attributes of the element {*}repository.
pub record Repository : Type 0 where
  pub commit : Option Text
  pub url : Option Text

-- The element {*}metadata of a manifest, with the number of its {*}dependency elements.
pub record Metadata : Type 0 where
  pub id : Option Text
  pub version : Option Text
  pub repository : Option Repository
  pub dependencies : ℕ

abbrev pub name_of : Text × Bytes → Text
name_of (n, b) = n

abbrev pub namelist : Archive → List Text
namelist = map name_of

abbrev pub member : Text → List Text → Bool
member n = any (λ m. text_eq m n)

-- len(names) == len(set(names))
unfoldable pub distinct : List Text → Bool
distinct [] = true
distinct (n ∷ ns) = not (member n ns) && distinct ns

-- archive.read(name), where the names are distinct
unfoldable pub read : Archive → Text → Result Bytes
read [] n = err key_error
read ((m, b) ∷ es) n = if text_eq m n then ok b else read es n

-- v == text, where a missing v is None
abbrev pub is_text : Option Text → Text → Bool
is_text none t = false
is_text (some v) t = text_eq v t

abbrev pub signature : Text
signature = codes ".signature.p7s"

abbrev pub is_spec : Text → Bool
is_spec n = ends_with n (codes ".nuspec")

abbrev pub required : List Text
required =
    codes "lib/net8.0/WuKongEasySDK.dll"
    ∷ codes "lib/net8.0/WuKongEasySDK.xml"
    ∷ codes "README.md"
    ∷ []

-- The checks of the manifest: identity, version, source revision, repository, no dependency.
unfoldable pub check_repository : Repository → Text → Result (Unit {0})
check_repository r commit = do
  raise_if (not (is_text r.commit commit)) (value_error "Package source commit mismatch")
  raise_if (not (is_text r.url (codes "https://github.com/WuKongIM/WuKongEasySDK-CSharp")))
      (value_error "Wrong source repository")
  ok tt

unfoldable pub check_metadata : Option Metadata → Text → Text → Result (Unit {0})
check_metadata none version commit = err (value_error "Wrong package ID")
check_metadata (some m) version commit = do
  raise_if (not (is_text m.id (codes "WuKongEasySDK"))) (value_error "Wrong package ID")
  raise_if (not (is_text m.version version)) (value_error "Wrong package version")
  elim m.repository [
    | none ↦ err (value_error "Package source commit mismatch")
    | some r ↦ check_repository r commit
  ]
  raise_if (ltb 0 m.dependencies) (value_error "The SDK must have no runtime package dependencies")
  ok tt

-- `specs[0]`, if it is the only one
abbrev pub only_spec : List Text → Result Text
only_spec (s ∷ []) = ok s
only_spec _ = err (value_error "Package must contain one manifest")

abbrev pub unsigned_entry : Text × Bytes → Bool
unsigned_entry (n, b) = not (text_eq n signature)

-- {name: package.read(name) for name in names if name != ".signature.p7s"}
unfoldable pub unsigned : Archive → Archive
unsigned = keep_if unsigned_entry

-- The parser of `xml.etree.ElementTree`, which is not the program's.
module _ (read_manifest : Bytes → Result (Option Metadata)) where
  unfoldable pub package_files : Archive → Text → Text → Result Archive
  package_files archive version commit = do
    let names = namelist archive
    raise_if (not (distinct names)) (value_error "Package contains duplicate entries")
    spec ← only_spec (keep_if is_spec names)
    manifest ← read archive spec
    metadata ← read_manifest manifest
    check_metadata metadata version commit
    raise_if (not (all (λ n. member n names) required))
        (value_error "Package is missing its library, XML docs, or README")
    ok (unsigned archive)
