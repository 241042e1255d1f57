-- ===== src/Release/Publish/Guards.antt =====
-- What has been checked when `main` of scripts/release.py succeeds.
use wu_kong_easy_sdk_csharp.Common.{
  Bool, true, false, not, Option, none, some, [], ◌∷◌, length, ◌≡◌, refl, arith, Bool-cases, inl,
  inr, sym, ap, not-eq-false,
}
use wu_kong_easy_sdk_csharp.Python.Result.{Result, ok, err, >>=-eq-ok, raise_if-eq-ok, ok_injective}
use wu_kong_easy_sdk_csharp.Python.Text.{Unicode}
use wu_kong_easy_sdk_csharp.Python.Text.Search.{Text, text_eq, text_eq_iff}
use wu_kong_easy_sdk_csharp.Release.Version.{release_version, or_empty}
use wu_kong_easy_sdk_csharp.Release.Version.Sections.{Releasable, release_version_iff}
use wu_kong_easy_sdk_csharp.Release.Package.{Bytes, Archive, Metadata, read, package_files}
use wu_kong_easy_sdk_csharp.Release.Package.Verified.{Verified, package_files_iff}
use wu_kong_easy_sdk_csharp.Release.Publish.{
  public, Effect, installed, is_sha, full_commit, included, same_files, check_published,
  verify_and_install, main,
}

-- Two file sets that the comparison takes for equal.
pub record SameFiles (expected actual : Archive) : Type 0 where
  pub same_size : length expected ≡ length actual
  pub same_bytes : (n : Text) (b : Bytes) → read expected n ≡ ok b → read actual n ≡ ok b

included_head :
    (m : Text) (c : Bytes) (es other : Archive) (r : Result Bytes)
    → read other m ≡ r
    → included ((m, c) ∷ es) other ≡ true
    → (read other m ≡ ok c) × (included es other ≡ true)
unfolding included
included_head m c es other (ok d) e i = ground (arith, text_eq_iff d c)
included_head m c es other (err x) e i = absurd (ground arith)

included_sound :
    (es other : Archive) (n : Text) (b : Bytes)
    → included es other ≡ true
    → read es n ≡ ok b
    → read other n ≡ ok b
unfolding read
included_sound [] other n b i r = absurd (cc)
included_sound ((m, c) ∷ es) other n b i r =
    let (here, later) = included_head m c es other (read other m) refl i in
    elim (Bool-cases (text_eq m n)) [
      | inl e ↦
          let same : m ≡ n = (text_eq_iff m n).0 e in
          let c-is-b : ok c ≡ ok b = ground (arith, e) in rw (← same, here) c-is-b
      | inr e ↦ included_sound es other n b later (ground arith)
    ]

same_files_sound : (a b : Archive) → same_files a b ≡ true → SameFiles a b
unfolding same_files
same_files_sound a b h = record {
  same_size = ground arith;
  same_bytes = λ n x. included_sound a b n x (ground arith);
}

full_commit_sound :
    (given : Option Text) (c : Text)
    → full_commit given ≡ ok c
    → (given ≡ some c) × (is_sha c ≡ true)
unfolding full_commit
full_commit_sound none c h = absurd (cc)
full_commit_sound (some d) c h = elim (Bool-cases (is_sha d)) [
  | inl e ↦ let same : d ≡ c = ground arith in (ap some same, rw same at e)
  | inr e ↦ absurd (ground arith)
]

module _ (u : Unicode) (read_manifest : Bytes → Result (Option Metadata))
    (local_package : Text → Result Archive) (fetch : Text → Result Archive)
    (install : Text → Bool → Result (Unit {0})) where
  -- A publication that was checked.
  pub record Published (given found : Option Text) (ref notes : Text) (e : Effect) : Type 0 where
    pub version : Text
    pub release_notes : Text
    pub commit : Text
    pub project_version : or_empty u found ≡ version
    pub releasable : Releasable u version ref notes release_notes
    pub exact_commit : given ≡ some commit
    pub full_sha : is_sha commit ≡ true
    pub tested : Archive
    pub tested_package : local_package version ≡ ok tested
    pub tested_files : Archive
    pub tested_verified : Verified read_manifest tested version commit tested_files
    pub published : Archive
    pub published_package : fetch version ≡ ok published
    pub published_files : Archive
    pub published_verified : Verified read_manifest published version commit published_files
    pub same : SameFiles tested_files published_files
    pub consumer_ran : install version true ≡ ok tt
    pub effect : e ≡ installed version true

  -- What the comparison with the published package has found.
  record Compared (expected : Archive) (version commit : Text) : Type 0 where
    package_found : Archive
    fetched : fetch version ≡ ok package_found
    files : Archive
    verified : Verified read_manifest package_found version commit files
    same : SameFiles expected files

  check_published_sound :
      (expected : Archive) (version commit : Text)
      → check_published u read_manifest local_package fetch install public expected version commit
        ≡ ok tt
      → Compared expected version commit
  unfolding check_published
  check_published_sound expected version commit h =
      let (published, g, k1) = >>=-eq-ok (fetch version) _ h in
      let (actual, i, k2) = >>=-eq-ok (package_files read_manifest published version commit) _ k1 in
      let same : not (same_files expected actual) ≡ false =
        (raise_if-eq-ok (not (same_files expected actual)) _ (ok tt) k2).0 in
      record {
        package_found = published;
        fetched = g;
        files = actual;
        verified = (package_files_iff read_manifest published actual version commit).0 i;
        same = same_files_sound expected actual (not-eq-false (same_files expected actual) same);
      }

  -- If `main` succeeds in the mode `public`, the version, the tag and the notes are releasable, the
  -- commit is a full SHA, the tested and the published package were both verified at that version and
  -- commit, as many files are in both and those tested have the same bytes in both, and the consumer
  -- ran on the public version.
  pub main_public :
      (given found : Option Text) (ref notes : Text) (e : Effect)
      → main u read_manifest local_package fetch install public given found ref notes ≡ ok e
      → Published given found ref notes e
  unfolding main verify_and_install
  main_public given found ref notes e h =
      let (released, a, h1) = >>=-eq-ok (release_version u found ref notes) _ h in
      let (commit, b, h2) = >>=-eq-ok (full_commit given) _ h1 in
      let (tested, c, h3) = >>=-eq-ok (local_package released.0) _ h2 in
      let (expected, d, h4) =
        >>=-eq-ok (package_files read_manifest tested released.0 commit) _ h3 in
      let (checked, f, h5) =
        >>=-eq-ok
          (check_published u read_manifest local_package fetch install public expected released.0
            commit)
          _ h4 in
      let (ran, j, h6) = >>=-eq-ok (install released.0 true) _ h5 in
      let rel = (release_version_iff u found ref notes released.0 released.1).0 a in
      let sha = full_commit_sound given commit b in
      let compared = check_published_sound expected released.0 commit f in
      record {
        version = released.0;
        release_notes = released.1;
        commit = commit;
        project_version = rel.0;
        releasable = rel.1;
        exact_commit = sha.0;
        full_sha = sha.1;
        tested = tested;
        tested_package = c;
        tested_files = expected;
        tested_verified = (package_files_iff read_manifest tested expected released.0 commit).0 d;
        published = compared.package_found;
        published_package = compared.fetched;
        published_files = compared.files;
        published_verified = compared.verified;
        same = compared.same;
        consumer_ran = j;
        effect = sym (ok_injective h6);
      }
