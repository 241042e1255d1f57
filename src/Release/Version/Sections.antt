-- ===== src/Release/Version/Sections.antt =====
-- What the section pattern finds, and when `release_version` returns.
use wu_kong_easy_sdk_csharp.Common.{
  ℕ, ◌+◌, true, false, not, ◌&&◌, Option, List, [], ◌∷◌, ◌++◌, length, any, codes, if◌then◌else◌,
  ◌≡◌, refl, sym, ap, ◌∙◌, ◌↔◌, arith, Bool-cases, inl, inr,
}
use wu_kong_easy_sdk_csharp.Python.Result.{Result, ok, err}
use wu_kong_easy_sdk_csharp.Python.Text.{Unicode, strip}
use wu_kong_easy_sdk_csharp.Python.Text.Search.{Text, text_eq, text_eq_iff, starts_with, lines}
use wu_kong_easy_sdk_csharp.Release.Version.{
  header, sections, matches_dotted, is_three_part, is_bullet, only_section, or_empty,
  release_version,
}
use mathlib.Core.List.{Memᴰ}
use wu_kong_easy_sdk_csharp.Release.Version.Notes.{SectionOf, sections_sound, sections_complete}
use wu_kong_easy_sdk_csharp.Release.Version.ThreePart.{ThreePart, is_three_part_iff}

-- The header lines of a version that a newline ends: all but the last line of the text.
abbrev pub headers : Text → List Text → ℕ
headers version [] = 0
headers version (l ∷ []) = 0
headers version (l ∷ m ∷ ls) =
    (if starts_with l (header version) then 1 else 0) + headers version (m ∷ ls)

-- A section is found for each header line and for nothing else.
pub length-sections :
    (version : Text) (ls : List Text) → length (sections version ls) ≡ headers version ls
unfolding sections
length-sections version [] = refl
length-sections version (l ∷ []) = refl
length-sections version (l ∷ m ∷ ls) = ground (arith, length-sections version (m ∷ ls))

singleton : (xs : List Text) (x : Text) → length xs ≡ 1 → Memᴰ x xs → xs ≡ x ∷ []
singleton (y ∷ []) x h (Memᴰ.head e) = ap (λ z. z ∷ []) (sym e)
singleton (y ∷ z ∷ zs) x h m = absurd (omega (arith, h))
singleton (y ∷ []) x h (Memᴰ.tail m) = elim m [ ]
singleton [] x h m = elim m [ ]

-- With one header line the section is all that is found.
one_found :
    (version : Text) (ls : List Text) (section : Text)
    → headers version ls ≡ 1
    → SectionOf version ls section
    → sections version ls ≡ section ∷ []
one_found version ls section h s =
    singleton (sections version ls) section (length-sections version ls ∙ h)
      (sections_complete version ls section s)

module _ (u : Unicode) where
  -- A release with these notes may go out.
  pub record Releasable (version ref notes published : Text) : Type 0 where
    pub three_part : ThreePart u version
    pub tag : starts_with ref (codes "refs/tags/") ≡ true → ref ≡ codes "refs/tags/v" ++ version
    pub one_header : headers version (lines notes) ≡ 1
    pub section : Text
    pub is_section : SectionOf version (lines notes) section
    pub bullet : any (is_bullet u) (lines section) ≡ true
    pub stripped : published ≡ strip u section

  only_section_sound :
      (ss : List Text) (s : Text)
      → only_section u ss ≡ ok s
      → (ss ≡ s ∷ []) × (any (is_bullet u) (lines s) ≡ true)
  unfolding only_section
  only_section_sound (t ∷ []) s h = ground arith
  only_section_sound _ s h = absurd (cc)

  empty_not_three_part : is_three_part u [] ≡ false
  unfolding is_three_part matches_dotted
  empty_not_three_part = refl

  -- The three tests passed, and the section that the last one found.
  record Passed (version ref notes published : Text) : Type 0 where
    three_part : is_three_part u version ≡ true
    tag_test :
        (starts_with ref (codes "refs/tags/") && not (text_eq ref (codes "refs/tags/v" ++ version)))
        ≡ false
    section : Text
    chosen : only_section u (sections version (lines notes)) ≡ ok section
    stripped : published ≡ strip u section

  passed :
      (found : Option Text) (ref notes version published : Text) (r : Result Text)
      → only_section u (sections (or_empty u found) (lines notes)) ≡ r
      → release_version u found ref notes ≡ ok (version, published)
      → (or_empty u found ≡ version) × Passed (or_empty u found) ref notes published
  unfolding release_version
  passed found ref notes version published (ok s) e h = (
    ground arith,
    record {
      three_part = ground arith;
      tag_test = ground arith;
      section = s;
      chosen = e;
      stripped = ground arith;
    },
  )
  passed found ref notes version published (err x) e h = absurd (ground arith)

  releasable :
      (version ref notes published : Text)
      → Passed version ref notes published
      → Releasable version ref notes published
  releasable version ref notes published p =
      let (found, bullet) =
        only_section_sound (sections version (lines notes)) p.section p.chosen in
      record {
        three_part = (is_three_part_iff u version).0 p.three_part;
        tag = λ h. ground (arith, p.tag_test, text_eq_iff ref (codes "refs/tags/v" ++ version));
        one_header = ground (arith, length-sections version (lines notes), found);
        section = p.section;
        is_section = sections_sound version (lines notes) p.section (rw found (Memᴰ.head refl));
        bullet = bullet;
        stripped = p.stripped;
      }

  three_part_not_empty : (v : Text) → is_three_part u v ≡ true → text_eq v [] ≡ false
  unfolding text_eq
  three_part_not_empty [] h = absurd (ground (arith, empty_not_three_part))
  three_part_not_empty (c ∷ cs) h = refl

  tag_passes :
      (version ref : Text)
      → (starts_with ref (codes "refs/tags/") ≡ true → ref ≡ codes "refs/tags/v" ++ version)
      → (starts_with ref (codes "refs/tags/") && not (text_eq ref (codes "refs/tags/v" ++ version)))
        ≡ false
  tag_passes version ref h = elim (Bool-cases (starts_with ref (codes "refs/tags/"))) [
    | inl t ↦ ground (arith, t, (text_eq_iff ref (codes "refs/tags/v" ++ version)).1 (h t))
    | inr n ↦ rw n
  ]

  one_section : (s : Text) → any (is_bullet u) (lines s) ≡ true → only_section u (s ∷ []) ≡ ok s
  unfolding only_section
  one_section s h = rw h

  released :
      (found : Option Text) (ref notes published : Text)
      → Releasable (or_empty u found) ref notes published
      → release_version u found ref notes ≡ ok (or_empty u found, published)
  unfolding release_version
  released found ref notes published r =
      let v = or_empty u found in
      let three = (is_three_part_iff u v).1 r.three_part in
      rw (
        three,
        three_part_not_empty v three,
        tag_passes v ref r.tag,
        one_found v (lines notes) r.section r.one_header r.is_section,
        one_section r.section r.bullet,
        r.stripped,
      )

  -- `release_version` returns a version and notes exactly when the project has that version, in three
  -- parts, a tag in GITHUB_REF names it, and the changelog has one header line of it; the lines behind
  -- that, up to the next line that starts a section or to the end, have a bullet, and their text,
  -- stripped, is the notes.
  pub release_version_iff :
      (found : Option Text) (ref notes version published : Text)
      → (release_version u found ref notes ≡ ok (version, published))
        ↔ ((or_empty u found ≡ version) × Releasable version ref notes published)
  release_version_iff found ref notes version published = (
    λ h.
        let (e, p) = passed found ref notes version published _ refl h in
        (e, rw e at (releasable (or_empty u found) ref notes published p)),
    λ h. let (e, r) = h in rw (← e) (released found ref notes published (rw (← e) at r)),
  )
