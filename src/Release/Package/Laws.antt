-- ===== src/Release/Package/Laws.antt =====
-- The registry's signature is ignored, and nothing else is.
use wu_kong_easy_sdk_csharp.Common.{
  Bool, true, false, not, ◌&&◌, ◌||◌, Option, List, [], ◌∷◌, ◌++◌, all, keep_if, codes, ◌≡◌, refl,
  ap, arith, Bool-cases, inl, inr, false≢true, sym, ◌∙◌,
}
use wu_kong_easy_sdk_csharp.Python.Result.{value_error, Result, ◌>>=◌, ◌>>◌, raise_if}
use wu_kong_easy_sdk_csharp.Python.Text.Search.{Text, text_eq, ends_with, text_eq_iff}
use wu_kong_easy_sdk_csharp.Release.Package.{
  Bytes, Archive, Metadata, namelist, member, distinct, read, signature, is_spec, required,
  only_spec, unsigned, package_files,
}

abbrev pub signed_with : Archive → Bytes → Archive → Archive
signed_with xs b ys = xs ++ ((signature, b) ∷ ys)

-- A test of names that the signature fails has the same answer with it and without it.
member_skips :
    (n : Text) (xs ys : Archive) (b : Bytes)
    → text_eq signature n ≡ false
    → member n (namelist (signed_with xs b ys)) ≡ member n (namelist (xs ++ ys))
member_skips n [] ys b h = rw h
member_skips n ((m, c) ∷ xs) ys b h = ap (λ t. text_eq m n || t) (member_skips n xs ys b h)

specs_skip :
    (xs ys : Archive) (b : Bytes)
    → keep_if is_spec (namelist (signed_with xs b ys)) ≡ keep_if is_spec (namelist (xs ++ ys))
unfolding ends_with text_eq
specs_skip [] ys b = refl
specs_skip ((m, c) ∷ xs) ys b = ground (arith, specs_skip xs ys b)

unsigned_skips :
    (xs ys : Archive) (b : Bytes) → unsigned (signed_with xs b ys) ≡ unsigned (xs ++ ys)
unfolding unsigned text_eq
unsigned_skips [] ys b = refl
unsigned_skips ((m, c) ∷ xs) ys b = ground (arith, unsigned_skips xs ys b)

read_skips :
    (n : Text) (xs ys : Archive) (b : Bytes)
    → text_eq signature n ≡ false
    → read (signed_with xs b ys) n ≡ read (xs ++ ys) n
unfolding read
read_skips n [] ys b h = rw h
read_skips n ((m, c) ∷ xs) ys b h = ground (arith, read_skips n xs ys b h)

other_way : (m : Text) → text_eq m signature ≡ false → text_eq signature m ≡ false
other_way m h = elim (Bool-cases (text_eq signature m)) [
  | inl e ↦
      let p : text_eq m signature ≡ true =
        (text_eq_iff m signature).1 (sym ((text_eq_iff signature m).0 e)) in
      absurd (false≢true (sym h ∙ p))
  | inr e ↦ e
]

or_left : (a b : Bool) → (a || b) ≡ false → a ≡ false
or_left a b h = ground arith

or_right : (a b : Bool) → (a || b) ≡ false → b ≡ false
or_right a b h = ground arith

distinct_skips :
    (xs ys : Archive) (b : Bytes)
    → member signature (namelist (xs ++ ys)) ≡ false
    → distinct (namelist (signed_with xs b ys)) ≡ distinct (namelist (xs ++ ys))
unfolding distinct
distinct_skips [] ys b h = rw h
distinct_skips ((m, c) ∷ xs) ys b h =
    rw (member_skips m xs ys b (other_way m (or_left _ _ h))) (
      ap (λ t. not (member m (namelist (xs ++ ys))) && t) (distinct_skips xs ys b (or_right _ _ h)))

-- The manifest is not the signature.
spec_of : (ns : List Text) (s : Text) → keep_if is_spec ns ≡ s ∷ [] → is_spec s ≡ true
spec_of [] s h = absurd (cc)
spec_of (n ∷ ns) s h = ground (arith, spec_of ns s)

signature_no_spec : is_spec signature ≡ false
unfolding ends_with text_eq
signature_no_spec = refl

spec-ne-signature : (s : Text) → is_spec s ≡ true → text_eq signature s ≡ false
spec-ne-signature s h = elim (Bool-cases (text_eq signature s)) [
  | inl e ↦
      let p : is_spec signature ≡ true = rw ((text_eq_iff signature s).0 e) h in
      absurd (false≢true (sym signature_no_spec ∙ p))
  | inr e ↦ e
]

required_skip :
    (xs ys : Archive) (b : Bytes)
    → all (λ n. member n (namelist (signed_with xs b ys))) required
      ≡ all (λ n. member n (namelist (xs ++ ys))) required
unfolding text_eq
required_skip xs ys b = rw (
  member_skips (codes "lib/net8.0/WuKongEasySDK.dll") xs ys b refl,
  member_skips (codes "lib/net8.0/WuKongEasySDK.xml") xs ys b refl,
  member_skips (codes "README.md") xs ys b refl,
)

only_spec_cong :
    (ss : List Text) (f g : Text → Result Archive)
    → ((s : Text) → ss ≡ s ∷ [] → f s ≡ g s)
    → (only_spec ss >>= f) ≡ (only_spec ss >>= g)
only_spec_cong [] f g h = refl
only_spec_cong (s ∷ []) f g h = h s refl
only_spec_cong (s ∷ t ∷ ss) f g h = refl

module _ (read_manifest : Bytes → Result (Option Metadata)) where
  -- A package to which the registry has added its signature, anywhere, is accepted or refused as it was
  -- before, with the same error or the same files.
  pub package_files-signature :
      (xs ys : Archive) (b : Bytes) (version commit : Text)
      → member signature (namelist (xs ++ ys)) ≡ false
      → package_files read_manifest (signed_with xs b ys) version commit
        ≡ package_files read_manifest (xs ++ ys) version commit
  unfolding package_files
  package_files-signature xs ys b version commit h =
      rw
        (
          distinct_skips xs ys b h,
          specs_skip xs ys b,
          required_skip xs ys b,
          unsigned_skips xs ys b,
        )
        (ap
          (λ (k : Result Archive).
            raise_if (not (distinct (namelist (xs ++ ys))))
              (value_error "Package contains duplicate entries")
            >> k)
          (only_spec_cong (keep_if is_spec (namelist (xs ++ ys))) _ _ (λ s e.
            rw (read_skips s xs ys b (spec-ne-signature s (spec_of (namelist (xs ++ ys)) s e))))))
