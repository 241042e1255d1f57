-- ===== src/Release/Package/Verified.antt =====
-- Which archives `package_files` accepts, and what it returns of them.
use wu_kong_easy_sdk_csharp.Common.{
  true, Option, none, some, List, [], ◌∷◌, all, keep_if, codes, ◌≡◌, refl, ◌↔◌, arith,
}
use wu_kong_easy_sdk_csharp.Python.Result.{Result, ok, err, ◌>>=◌, value_error}
use wu_kong_easy_sdk_csharp.Python.Text.Search.{Text, text_eq_iff, text_eq_self}
use wu_kong_easy_sdk_csharp.Release.Package.{
  Bytes, Archive, Metadata, Repository, namelist, member, distinct, read, is_spec, is_text,
  required, check_metadata, check_repository, only_spec, unsigned, package_files,
}

abbrev pub sdk_id : Text
sdk_id = codes "WuKongEasySDK"

abbrev pub sdk_url : Text
sdk_url = codes "https://github.com/WuKongIM/WuKongEasySDK-CSharp"

-- A manifest of this SDK at this version and revision, with no dependency.
pub record RightMetadata (m : Metadata) (version commit : Text) : Type 0 where
  pub right_id : m.id ≡ some sdk_id
  pub right_version : m.version ≡ some version
  pub repository : Repository
  pub has_repository : m.repository ≡ some repository
  pub right_commit : repository.commit ≡ some commit
  pub right_url : repository.url ≡ some sdk_url
  pub no_dependencies : m.dependencies ≡ 0

is_text_sound : (v : Option Text) (t : Text) → is_text v t ≡ true → v ≡ some t
is_text_sound none t h = absurd (cc)
is_text_sound (some v) t h = ground (arith, text_eq_iff v t)

is_text_self : (t : Text) → is_text (some t) t ≡ true
is_text_self t = text_eq_self t

check_repository_sound :
    (r : Repository) (commit : Text)
    → check_repository r commit ≡ ok tt
    → (r.commit ≡ some commit) × (r.url ≡ some sdk_url)
unfolding check_repository
check_repository_sound r commit h =
    (is_text_sound r.commit commit (ground arith), is_text_sound r.url sdk_url (ground arith))

check_metadata_sound :
    (m : Metadata) (r : Option Repository) (version commit : Text)
    → m.repository ≡ r
    → check_metadata (some m) version commit ≡ ok tt
    → RightMetadata m version commit
unfolding check_metadata
check_metadata_sound m none version commit e h = absurd (ground arith)
check_metadata_sound m (some r) version commit e h =
    let (c, u) = check_repository_sound r commit (ground arith) in
    record {
      right_id = is_text_sound m.id sdk_id (ground arith);
      right_version = is_text_sound m.version version (ground arith);
      repository = r;
      has_repository = e;
      right_commit = c;
      right_url = u;
      no_dependencies = ground arith;
    }

check_metadata_complete :
    (m : Metadata) (version commit : Text)
    → RightMetadata m version commit
    → check_metadata (some m) version commit ≡ ok tt
unfolding check_metadata check_repository
check_metadata_complete m version commit r = rw (
  r.right_id,
  text_eq_self sdk_id,
  r.right_version,
  text_eq_self version,
  r.has_repository,
  r.right_commit,
  text_eq_self commit,
  r.right_url,
  text_eq_self sdk_url,
  r.no_dependencies,
)

no_metadata :
    (version commit : Text)
    → check_metadata none version commit ≡ err (value_error "Wrong package ID")
unfolding check_metadata
no_metadata version commit = refl

module _ (read_manifest : Bytes → Result (Option Metadata)) where
  pub record Verified (archive : Archive) (version commit : Text) (files : Archive) : Type 0 where
    pub distinct_names : distinct (namelist archive) ≡ true
    pub spec : Text
    pub one_manifest : keep_if is_spec (namelist archive) ≡ spec ∷ []
    pub manifest : Bytes
    pub manifest_read : read archive spec ≡ ok manifest
    pub metadata : Metadata
    pub parsed : read_manifest manifest ≡ ok (some metadata)
    pub right : RightMetadata metadata version commit
    pub complete : all (λ n. member n (namelist archive)) required ≡ true
    pub contents : files ≡ unsigned archive

  only_spec_sound : (ss : List Text) (s : Text) → only_spec ss ≡ ok s → ss ≡ s ∷ []
  only_spec_sound (t ∷ []) s h = ground arith
  only_spec_sound _ s h = absurd (cc)

  module _ (archive files : Archive) (version commit : Text)
      (h : package_files read_manifest archive version commit ≡ ok files) where
    verified :
        (a : Result Text) (b : Result Bytes) (c : Result (Option Metadata))
        → only_spec (keep_if is_spec (namelist archive)) ≡ a
        → (a >>= λ s. read archive s) ≡ b
        → (b >>= read_manifest) ≡ c
        → Verified archive version commit files
    unfolding package_files
    verified (ok s) (ok x) (ok (some m)) ea eb ec = record {
      distinct_names = ground arith;
      spec = s;
      one_manifest = only_spec_sound _ s ea;
      manifest = x;
      manifest_read = eb;
      metadata = m;
      parsed = ec;
      right = check_metadata_sound m m.repository version commit refl (ground arith);
      complete = ground arith;
      contents = ground arith;
    }
    verified (ok s) (ok x) (ok none) ea eb ec = absurd (ground (arith, no_metadata version commit))
    verified _ _ _ ea eb ec = absurd (ground arith)

  accepted :
      (archive files : Archive) (version commit : Text)
      → Verified archive version commit files
      → package_files read_manifest archive version commit ≡ ok files
  unfolding package_files
  accepted archive files version commit v = rw (
    v.distinct_names,
    v.one_manifest,
    v.manifest_read,
    v.parsed,
    check_metadata_complete v.metadata version commit v.right,
    v.complete,
    v.contents,
  )

  -- `package_files` returns files exactly for an archive with distinct names and one manifest, which
  -- names this SDK, the version, the revision and the repository and no dependency, with the library,
  -- its documentation and the README among the entries; the files are the entries but the signature.
  pub package_files_iff :
      (archive files : Archive) (version commit : Text)
      → (package_files read_manifest archive version commit ≡ ok files)
        ↔ Verified archive version commit files
  package_files_iff archive files version commit = (
    λ h. verified archive files version commit h _ _ _ refl refl refl,
    accepted archive files version commit,
  )
