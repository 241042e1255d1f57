-- ===== src/Release/Version/Notes.antt =====
-- The section of a version in a changelog, described by the lines of the changelog, and that the section
-- pattern of `release_version` finds it.
use mathlib.Core.List.{Memᴰ}
use mathlib.Core.Path.{subst}
use wu_kong_easy_sdk_csharp.Common.{
  true, false, List, [], ◌∷◌, ◌++◌, ◌≡◌, ◌≢◌, refl, sym, ap, ◌∙◌, All, Bool-cases, inl, inr,
}
use wu_kong_easy_sdk_csharp.Python.Text.Search.{Text, starts_with}
use wu_kong_easy_sdk_csharp.Release.Version.{header, starts_section, body, sections}

-- Lines with newlines between them, and lines that each end in one.
abbrev pub joined : List Text → Text
joined [] = []
joined (l ∷ []) = l
joined (l ∷ m ∷ ls) = l ++ (b'\n' ∷ joined (m ∷ ls))

abbrev pub ended : List Text → Text
ended [] = []
ended (l ∷ ls) = l ++ (b'\n' ∷ ended ls)

-- The text of a section's lines: it goes to the end of the changelog or to the next section.
pub data TextOf (content rest : List Text) (text : Text) : Type 0 where
  to_end : rest ≡ [] → content ≢ [] → text ≡ joined content → TextOf content rest text
  to_next :
      (next : Text) (more : List Text)
      → rest ≡ next ∷ more
      → starts_section next ≡ true
      → text ≡ ended content
      → TextOf content rest text

-- The lines `ls` go on with `content`, of which no line starts a section, and this is its text.
pub record Content (ls : List Text) (text : Text) : Type 0 where
  pub content : List Text
  pub rest : List Text
  pub split : ls ≡ content ++ rest
  pub inside : All (λ l. starts_section l ≡ false) content
  pub is_text : TextOf content rest text

-- A header line of the version, and behind it a text.
pub record SectionOf (version : Text) (ls : List Text) (text : Text) : Type 0 where
  pub before : List Text
  pub first : Text
  pub after : List Text
  pub split : ls ≡ before ++ (first ∷ after)
  pub is_header : starts_with first (header version) ≡ true
  pub text_after : Content after text

-- ---------------------------------------------------------------- the end of a section

cons_not_nil : (l : Text) (ls : List Text) → l ∷ ls ≢ []
cons_not_nil l ls h = cc

no_lines :
    (content rest : List Text) (text : Text) → [] ≡ content ++ rest → ¬ TextOf content rest text
no_lines [] rest text e (to_end r c t) = c refl
no_lines [] rest text e (to_next next more r s t) = cons_not_nil next more (sym (e ∙ r))
no_lines (l ∷ content) rest text e t = cons_not_nil l (content ++ rest) (sym e)

body_starts : (l : Text) (ls : List Text) → starts_section l ≡ true → body (l ∷ ls) ≡ []
unfolding body
body_starts l [] h = rw h refl
body_starts l (m ∷ ls) h = rw h refl

body_ends : (l : Text) → starts_section l ≡ false → body (l ∷ []) ≡ l
unfolding body
body_ends l h = rw h refl

body_goes_on :
    (l m : Text) (ls : List Text)
    → starts_section l ≡ false
    → body (l ∷ m ∷ ls) ≡ l ++ (b'\n' ∷ body (m ∷ ls))
unfolding body
body_goes_on l m ls h = rw h refl

Content-empty :
    (l : Text) (ls : List Text) → starts_section l ≡ true → Content (l ∷ ls) (body (l ∷ ls))
Content-empty l ls h = record {
  content = [];
  rest = l ∷ ls;
  split = refl;
  inside = tt;
  is_text = to_next l ls refl h (body_starts l ls h);
}

TextOf-more :
    (l : Text) (content rest : List Text) (text : Text)
    → content ++ rest ≢ []
    → TextOf content rest text
    → TextOf (l ∷ content) rest (l ++ (b'\n' ∷ text))
TextOf-more l [] rest text n (to_end r c e) = absurd (c refl)
TextOf-more l (m ∷ ms) rest text n (to_end r c e) =
    to_end r (cons_not_nil l (m ∷ ms)) (ap (λ t. l ++ (b'\n' ∷ t)) e)
TextOf-more l content rest text n (to_next next more r s e) =
    to_next next more r s (ap (λ t. l ++ (b'\n' ∷ t)) e)

Content-more :
    (l m : Text) (ls : List Text)
    → starts_section l ≡ false
    → Content (m ∷ ls) (body (m ∷ ls))
    → Content (l ∷ m ∷ ls) (body (l ∷ m ∷ ls))
Content-more l m ls h c = record {
  content = l ∷ c.content;
  rest = c.rest;
  split = ap (λ xs. l ∷ xs) c.split;
  inside = (h, c.inside);
  is_text = subst (TextOf (l ∷ c.content) c.rest) (sym (body_goes_on l m ls h)) (
      TextOf-more l c.content c.rest (body (m ∷ ls)) (λ e. cons_not_nil m ls (c.split ∙ e))
        c.is_text);
}

pub body_sound : (l : Text) (ls : List Text) → Content (l ∷ ls) (body (l ∷ ls))
body_sound l [] = elim (Bool-cases (starts_section l)) [
  | inl s ↦ Content-empty l [] s
  | inr n ↦ record {
    content = l ∷ [];
    rest = [];
    split = refl;
    inside = (n, tt);
    is_text = to_end refl (cons_not_nil l []) (body_ends l n);
  }
]
body_sound l (m ∷ ls) = elim (Bool-cases (starts_section l)) [
  | inl s ↦ Content-empty l (m ∷ ls) s
  | inr n ↦ Content-more l m ls n (body_sound m ls)
]

-- ---------------------------------------------------------------- the other way

-- Behind lines that start no section comes what is behind the first of them.
body_content :
    (content rest : List Text) (text : Text)
    → All (λ l. starts_section l ≡ false) content
    → TextOf content rest text
    → body (content ++ rest) ≡ text
body_content [] rest text inside (to_end r c e) = absurd (c refl)
body_content (l ∷ []) rest text (h, t) (to_end r c e) =
    ap (λ xs. body (l ∷ xs)) r ∙ body_ends l h ∙ sym e
body_content (l ∷ m ∷ ms) rest text (h, t) (to_end r c e) =
    body_goes_on l m (ms ++ rest) h
    ∙ ap (λ t. l ++ (b'\n' ∷ t))
        (body_content (m ∷ ms) rest (joined (m ∷ ms)) t (to_end r (cons_not_nil m ms) refl))
    ∙ sym e
body_content [] rest text inside (to_next next more r s e) =
    ap body r ∙ body_starts next more s ∙ sym e
body_content (l ∷ []) rest text (h, t) (to_next next more r s e) =
    ap (λ xs. body (l ∷ xs)) r
    ∙ body_goes_on l next more h
    ∙ ap (λ t. l ++ (b'\n' ∷ t)) (body_starts next more s)
    ∙ sym e
body_content (l ∷ m ∷ ms) rest text (h, t) (to_next next more r s e) =
    body_goes_on l m (ms ++ rest) h
    ∙ ap (λ t. l ++ (b'\n' ∷ t))
        (body_content (m ∷ ms) rest (ended (m ∷ ms)) t (to_next next more r s refl))
    ∙ sym e

Content-body : (ls : List Text) (text : Text) → Content ls text → body ls ≡ text
Content-body ls text c = ap body c.split ∙ body_content c.content c.rest text c.inside c.is_text

-- A text behind a header has a line, if an empty one.
Content-lines : (text : Text) → ¬ Content [] text
Content-lines text c = no_lines c.content c.rest text c.split c.is_text

-- ---------------------------------------------------------------- what is found

sections_more :
    (version l : Text) (ls : List Text) (text : Text)
    → Memᴰ text (sections version ls)
    → Memᴰ text (sections version (l ∷ ls))
unfolding sections
sections_more version l [] text m = m
sections_more version l (k ∷ ls) text m = elim (Bool-cases (starts_with l (header version))) [
  | inl e ↦ rw e (Memᴰ.tail m)
  | inr e ↦ rw e m
]

sections_first :
    (version first m : Text) (ls : List Text)
    → starts_with first (header version) ≡ true
    → Memᴰ (body (m ∷ ls)) (sections version (first ∷ m ∷ ls))
unfolding sections
sections_first version first m ls h = rw h (Memᴰ.head refl)

found_behind :
    (version : Text) (before : List Text) (first : Text) (after : List Text) (text : Text)
    → starts_with first (header version) ≡ true
    → Content after text
    → Memᴰ text (sections version (before ++ (first ∷ after)))
found_behind version [] first [] text h c = absurd (Content-lines text c)
found_behind version [] first (m ∷ ls) text h c =
    subst (λ t. Memᴰ t (sections version (first ∷ m ∷ ls))) (Content-body (m ∷ ls) text c)
      (sections_first version first m ls h)
found_behind version (b ∷ before) first after text h c =
    sections_more version b (before ++ (first ∷ after)) text
      (found_behind version before first after text h c)

-- Each section of the description is found.
pub sections_complete :
    (version : Text) (ls : List Text) (text : Text)
    → SectionOf version ls text
    → Memᴰ text (sections version ls)
sections_complete version ls text s =
    subst (λ k. Memᴰ text (sections version k)) (sym s.split)
      (found_behind version s.before s.first s.after text s.is_header s.text_after)

SectionOf-more :
    (version l : Text) (ls : List Text) (text : Text)
    → SectionOf version ls text
    → SectionOf version (l ∷ ls) text
SectionOf-more version l ls text s = record {
  before = l ∷ s.before;
  first = s.first;
  after = s.after;
  split = ap (λ xs. l ∷ xs) s.split;
  is_header = s.is_header;
  text_after = s.text_after;
}

-- Each text that is found is a section of the description.
pub sections_sound :
    (version : Text) (ls : List Text)
    → (text : Text) → Memᴰ text (sections version ls)
    → SectionOf version ls text
unfolding sections
sections_sound version [] text k = elim k [ ]
sections_sound version (l ∷ []) text k = elim k [ ]
sections_sound version (l ∷ m ∷ ls) text k = elim (Bool-cases (starts_with l (header version))) [
  | inl e ↦ elim (rw e at k) [
    | Memᴰ.head same ↦ record {
      before = [];
      first = l;
      after = m ∷ ls;
      split = refl;
      is_header = e;
      text_after = subst (Content (m ∷ ls)) (sym same) (body_sound m ls);
    }
    | Memᴰ.tail later ↦
        SectionOf-more version l (m ∷ ls) text (sections_sound version (m ∷ ls) text later)
  ]
  | inr e ↦
      SectionOf-more version l (m ∷ ls) text (sections_sound version (m ∷ ls) text (rw e at k))
]
