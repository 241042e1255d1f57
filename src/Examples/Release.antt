-- ===== src/Examples/Release.antt =====
-- A small release: its version and notes, its package, the wait for the registry, and the whole of `main`.
use wu_kong_easy_sdk_csharp.Common.{
  ℕ, ◌+◌, ◌*◌, true, Option, some, List, [], ◌∷◌, ◌++◌, ◌≡◌, refl, ◌↔◌, codes, arith,
}
use wu_kong_easy_sdk_csharp.Python.Result.{Result, ok, err, key_error}
use wu_kong_easy_sdk_csharp.Python.Text.Search.{Text, text_eq, starts_with, ends_with, lines}
use wu_kong_easy_sdk_csharp.Python.Text.{strip, lstrip, rstrip}
use wu_kong_easy_sdk_csharp.Release.Version.{
  is_three_part, sections, body, release_version, matches_dotted, only_section, is_bullet,
}
use wu_kong_easy_sdk_csharp.Release.Version.ThreePart.{ThreePart, is_three_part_iff}
use wu_kong_easy_sdk_csharp.Release.Version.Sections.{Releasable, release_version_iff}
use wu_kong_easy_sdk_csharp.Release.Package.{
  Bytes, Archive, Metadata, package_files, signature, distinct, read, check_metadata,
  check_repository, unsigned,
}
use wu_kong_easy_sdk_csharp.Release.Package.Laws.{signed_with, package_files-signature}
use wu_kong_easy_sdk_csharp.Release.Package.Verified.{Verified, package_files_iff}
use wu_kong_easy_sdk_csharp.Release.Registry.{World, second, public_package, status}
use wu_kong_easy_sdk_csharp.Release.Registry.Bounded.{Ended, public_package_ends}
use wu_kong_easy_sdk_csharp.Release.Publish.{
  main, installed, verify_and_install, full_commit, check_published, included, same_files,
}
use wu_kong_easy_sdk_csharp.Release.Publish.Guards.{Published, main_public}
use wu_kong_easy_sdk_csharp.Examples.Ascii.{ascii}

abbrev version : Text
version = codes "1.0.1"

abbrev tag : Text
tag = codes "refs/tags/v1.0.1"

abbrev notes : Text
notes = codes "## [1.0.1]\n- Fixed\n## [1.0.0]\n- First\n"

abbrev published_notes : Text
published_notes = codes "- Fixed"

abbrev commit : Text
commit = codes "0123456789abcdef0123456789abcdef01234567"

is_three_part_iff_example : (is_three_part ascii version ≡ true) ↔ ThreePart ascii version
is_three_part_iff_example = is_three_part_iff ascii version

release_version_iff_example :
    (release_version ascii (some version) tag notes ≡ ok (version, published_notes))
    ↔ ((version ≡ version) × Releasable ascii version tag notes published_notes)
release_version_iff_example =
    release_version_iff ascii (some version) tag notes version published_notes

-- ---------------------------------------------------------------- a package

abbrev manifest : Metadata
manifest = record {
  id = some (codes "WuKongEasySDK");
  version = some version;
  repository = some (record {
    commit = some commit;
    url = some (codes "https://github.com/WuKongIM/WuKongEasySDK-CSharp");
  });
  dependencies = 0;
}

abbrev read_manifest : Bytes → Result (Option Metadata)
read_manifest (b ∷ bs) = ok (some manifest)
read_manifest [] = err key_error

abbrev local_package : Archive
local_package =
    (codes "WuKongEasySDK.nuspec", 1 ∷ [])
    ∷ (codes "lib/net8.0/WuKongEasySDK.dll", 2 ∷ 3 ∷ [])
    ∷ (codes "lib/net8.0/WuKongEasySDK.xml", 4 ∷ [])
    ∷ (codes "README.md", 5 ∷ [])
    ∷ []

package_files_iff_example :
    (package_files read_manifest local_package version commit ≡ ok local_package)
    ↔ Verified read_manifest local_package version commit local_package
package_files_iff_example =
    package_files_iff read_manifest local_package local_package version commit

package_files-signature_example :
    package_files read_manifest (signed_with local_package (9 ∷ []) []) version commit
    ≡ package_files read_manifest (local_package ++ []) version commit
unfolding text_eq
package_files-signature_example =
    package_files-signature read_manifest local_package [] (9 ∷ []) version commit refl

-- ---------------------------------------------------------------- the registry

-- A registry that never has the package; the state is the clock.
abbrev no_package : World
no_package = record {
  State = ℕ;
  fetch = λ s. (status 404, s);
  monotonic = λ s. (s, s);
  sleep = λ n s. s + n;
  now = λ s. s;
  fetch_now = λ s. omega arith;
  reads_now = λ s. omega arith;
  monotonic_now = λ s. omega arith;
  sleep_now = λ n s. omega arith;
}

public_package_ends_example :
    (r : Result (List ℕ)) × (s' : ℕ) × (public_package no_package 45 5 ≡ some (r, s'))
    × Ended no_package (5 + 45 * second) r s'
public_package_ends_example = public_package_ends no_package 45 5

-- ---------------------------------------------------------------- the script

abbrev registry : Text → Result Archive
registry v = ok ((signature, 9 ∷ []) ∷ local_package)

main_public_example :
    Published ascii read_manifest
      (λ v. ok local_package)
      registry
      (λ v p. ok tt)
      (some commit)
      (some version)
      tag
      notes
      (installed version true)
unfolding main release_version text_eq is_three_part matches_dotted starts_with ends_with
    only_section sections lines body is_bullet verify_and_install full_commit package_files distinct
    read check_metadata check_repository unsigned check_published included same_files strip lstrip
    rstrip
main_public_example =
    main_public ascii read_manifest (λ v. ok local_package) registry (λ v p. ok tt) (some commit)
      (some version) tag notes (installed version true) refl
