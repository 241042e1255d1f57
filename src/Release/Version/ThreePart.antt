-- ===== src/Release/Version/ThreePart.antt =====
-- `is_three_part` is the pattern `\d+\.\d+\.\d+`, and what a release asks of its version and tag.
use wu_kong_easy_sdk_csharp.Common.{
  ℕ, suc, Bool, true, false, ◌||◌, [], ◌∷◌, ◌++◌, all, ◌≡◌, refl, ◌↔◌, ap, arith, Bool-cases, inl,
  inr,
}
use wu_kong_easy_sdk_csharp.Python.Text.{Unicode, is_digit}
use wu_kong_easy_sdk_csharp.Python.Text.Search.{Text}
use wu_kong_easy_sdk_csharp.Release.Version.{matches_dotted, is_three_part}

abbrev pub has_some : Text → Bool
has_some [] = false
has_some (c ∷ cs) = true

module _ (u : Unicode) where
  dot_no_digit : is_digit u b'.' ≡ false
  dot_no_digit = ground (arith, u.dot_not_decimal)

  -- A nonempty run of decimal digits.
  abbrev pub IsNumber : Text → Type 0
  IsNumber s = (has_some s ≡ true) × (all (is_digit u) s ≡ true)

  pub record ThreePart (version : Text) : Type 0 where
    pub major : Text
    pub minor : Text
    pub patch : Text
    pub major_number : IsNumber major
    pub minor_number : IsNumber minor
    pub patch_number : IsNumber patch
    pub spelled : version ≡ major ++ (b'.' ∷ (minor ++ (b'.' ∷ patch)))

  last_sound :
      (seen : Bool) (cs : Text)
      → matches_dotted u 0 seen cs ≡ true
      → ((seen || has_some cs) ≡ true) × (all (is_digit u) cs ≡ true)
  unfolding matches_dotted
  last_sound seen [] h = ground arith
  last_sound seen (c ∷ cs) h = ground (arith, last_sound true cs)

  last_complete :
      (seen : Bool) (cs : Text)
      → (seen || has_some cs) ≡ true
      → all (is_digit u) cs ≡ true
      → matches_dotted u 0 seen cs ≡ true
  unfolding matches_dotted
  last_complete seen [] s h = ground arith
  last_complete seen (c ∷ cs) s h = ground (arith, last_complete true cs)

  -- The part up to the next dot, and what stands behind it.
  record Split (dots : ℕ) (seen : Bool) (cs : Text) : Type 0 where
    part : Text
    rest : Text
    nonempty : (seen || has_some part) ≡ true
    digits : all (is_digit u) part ≡ true
    spelled : cs ≡ part ++ (b'.' ∷ rest)
    matched : matches_dotted u dots false rest ≡ true

  Split-digit :
      (dots : ℕ) (seen : Bool) (c : ℕ) (cs : Text)
      → is_digit u c ≡ true
      → Split dots true cs
      → Split dots seen (c ∷ cs)
  Split-digit dots seen c cs d s = record {
    part = c ∷ s.part;
    rest = s.rest;
    nonempty = ground arith;
    digits = ground (arith, d, s.digits);
    spelled = ap (λ t. c ∷ t) s.spelled;
    matched = s.matched;
  }

  Split-sound :
      (dots : ℕ) (seen : Bool) (cs : Text)
      → matches_dotted u (suc dots) seen cs ≡ true
      → Split dots seen cs
  unfolding matches_dotted
  Split-sound dots seen [] h = absurd (ground arith)
  Split-sound dots seen (c ∷ cs) h = elim (Bool-cases (is_digit u c)) [
    | inl d ↦ Split-digit dots seen c cs d (Split-sound dots true cs (ground arith))
    | inr n ↦ record {
      part = [];
      rest = cs;
      nonempty = ground arith;
      digits = refl;
      spelled = ground arith;
      matched = ground arith;
    }
  ]

  split_complete :
      (dots : ℕ) (seen : Bool) (part rest : Text)
      → (seen || has_some part) ≡ true
      → all (is_digit u) part ≡ true
      → matches_dotted u dots false rest ≡ true
      → matches_dotted u (suc dots) seen (part ++ (b'.' ∷ rest)) ≡ true
  unfolding matches_dotted
  split_complete dots seen [] rest s d m = ground (arith, dot_no_digit)
  split_complete dots seen (c ∷ part) rest s d m =
      ground (arith, split_complete dots true part rest)

  -- `re.fullmatch` accepts exactly three nonempty runs of decimal digits with a dot between them.
  pub is_three_part_iff : (version : Text) → (is_three_part u version ≡ true) ↔ ThreePart version
  unfolding is_three_part
  is_three_part_iff version = (sound, complete)
    where
      sound : is_three_part u version ≡ true → ThreePart version
      sound h =
          let a = Split-sound 1 false version h in
          let b = Split-sound 0 false a.rest a.matched in
          let (nonempty, digits) = last_sound false b.rest b.matched in
          record {
            major = a.part;
            minor = b.part;
            patch = b.rest;
            major_number = (a.nonempty, a.digits);
            minor_number = (b.nonempty, b.digits);
            patch_number = (nonempty, digits);
            spelled = rw (← b.spelled) a.spelled;
          }

      complete : ThreePart version → is_three_part u version ≡ true
      complete t = rw t.spelled (
          split_complete 1 false t.major _ t.major_number.0 t.major_number.1 (
            split_complete 0 false t.minor t.patch t.minor_number.0 t.minor_number.1
              (last_complete false t.patch t.patch_number.0 t.patch_number.1)))
