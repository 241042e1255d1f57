-- ===== src/Interop/Fixture/Pinned.antt =====
-- What a run of `main` that has passed stands for.
use wu_kong_easy_sdk_csharp.Common.{
  Bool, true, false, none, some, List, ◌++◌, codes, ◌≡◌, ◌≢◌, Option, refl, sym, ap, ◌∙◌, arith,
  inl, inr,
}
use wu_kong_easy_sdk_csharp.Python.Result.{Exc, Result, ok, err, ◌>>◌, >>=-eq-ok, Result-cases}
use wu_kong_easy_sdk_csharp.Python.Text.Search.{Text, text_eq_iff}
use wu_kong_easy_sdk_csharp.Python.Text.Replace.{occurs}
use wu_kong_easy_sdk_csharp.Interop.Fixture.{
  Arguments, Pins, Findings, Library, is_native, empty, check_arguments, server_commit_of,
  check_binary, check_javascript, check_source, resolved, expected_type, check_csharp,
  run_scenarios, accept, Report, failure_of, in_directory, report_of, main, check_trust,
}

-- The first library of the SDK is the pinned one, or in the mode `candidate` any version of it, of the
-- source that the mode asks for.
pub record RightLibrary (candidate : Bool) (p : Pins) (libraries : List Library) : Type 0 where
  pub key : Text
  pub type : Text
  pub found : resolved libraries ≡ ok (key, type)
  pub pinned : candidate ≡ false → key ≡ codes "WuKongEasySDK/" ++ p.nuget
  pub source : type ≡ expected_type candidate

pub record PinnedRun (a : Arguments) (p : Pins) (f : Findings) : Type 0 where
  pub cluster_is_native :
      a.three_node ≡ true → (is_native a.transport ≡ true) × (a.javascript_source ≡ false)
  pub pinned_server :
      occurs f.binary_metadata (codes "vcs.revision=" ++ server_commit_of a p) ≡ true
  pub clean_server : occurs f.binary_metadata (codes "vcs.modified=false") ≡ true
  pub pinned_package : f.installed_version ≡ p.javascript
  pub pinned_source : a.javascript_source ≡ true → f.source_revision ≡ p.javascript_source
  pub clean_source : a.javascript_source ≡ true → empty f.source_status ≡ true
  pub library : RightLibrary a.candidate p f.libraries
  pub scenarios_passed : f.scenarios ≡ ok tt
  pub cleaned_up :
      a.three_node ≡ true → (f.owned_nodes_stopped ≡ true) × (f.owned_clients_stopped ≡ true)

arguments_sound :
    (a : Arguments)
    → check_arguments a ≡ ok tt
    → a.three_node ≡ true
    → (is_native a.transport ≡ true) × (a.javascript_source ≡ false)
unfolding check_arguments
arguments_sound a h t = ground arith

binary_sound :
    (a : Arguments) (p : Pins) (f : Findings)
    → check_binary a p f ≡ ok tt
    → (occurs f.binary_metadata (codes "vcs.revision=" ++ server_commit_of a p) ≡ true)
      × (occurs f.binary_metadata (codes "vcs.modified=false") ≡ true)
unfolding check_binary
binary_sound a p f h = ground arith

javascript_sound :
    (p : Pins) (f : Findings) → check_javascript p f ≡ ok tt → f.installed_version ≡ p.javascript
unfolding check_javascript
javascript_sound p f h =
    let (u, i, h1) = >>=-eq-ok f.npm_install _ h in
    (text_eq_iff f.installed_version p.javascript).0 (ground arith)

source_sound :
    (given : Bool) (p : Pins) (f : Findings)
    → check_source given p f ≡ ok tt
    → given ≡ true
    → (f.source_revision ≡ p.javascript_source) × (empty f.source_status ≡ true)
unfolding check_source
source_sound false p f h g = absurd (cc)
source_sound true p f h g =
    ((text_eq_iff f.source_revision p.javascript_source).0 (ground arith), ground arith)

csharp_sound :
    (candidate : Bool) (p : Pins) (f : Findings)
    → check_csharp candidate p f ≡ ok tt
    → RightLibrary candidate p f.libraries
unfolding check_csharp
csharp_sound candidate p f h =
    let (u, b, h1) = >>=-eq-ok f.csharp_build _ h in
    let ((key, type), r, h2) = >>=-eq-ok (resolved f.libraries) _ h1 in
    record {
      key = key;
      type = type;
      found = r;
      pinned = λ c. (text_eq_iff key (codes "WuKongEasySDK/" ++ p.nuget)).0 (ground arith);
      source = (text_eq_iff type (expected_type candidate)).0 (ground arith);
    }

scenarios_sound :
    (three : Bool) (f : Findings)
    → run_scenarios three f ≡ ok tt
    → (f.scenarios ≡ ok tt)
      × (three ≡ true → (f.owned_nodes_stopped ≡ true) × (f.owned_clients_stopped ≡ true))
unfolding run_scenarios
scenarios_sound three f h = let (u, s, h1) = >>=-eq-ok f.scenarios _ h in (s, λ t. ground arith)

-- ---------------------------------------------------------------- the run

accept_sound :
    (a : Arguments) (p : Pins) (f : Findings)
    → check_arguments a ≡ ok tt
    → check_binary a p f ≡ ok tt
    → accept a p f ≡ ok tt
    → PinnedRun a p f
unfolding accept
accept_sound a p f arguments binary h =
    let (u, js, h1) = >>=-eq-ok (check_javascript p f) _ h in
    let (v, source, h2) = >>=-eq-ok (check_source a.javascript_source p f) _ h1 in
    let (t, trust, h3) = >>=-eq-ok (check_trust a.transport f) _ h2 in
    let (w, csharp, scenarios) = >>=-eq-ok (check_csharp a.candidate p f) _ h3 in
    record {
      cluster_is_native = arguments_sound a arguments;
      pinned_server = (binary_sound a p f binary).0;
      clean_server = (binary_sound a p f binary).1;
      pinned_package = javascript_sound p f js;
      pinned_source = λ g. (source_sound a.javascript_source p f source g).0;
      clean_source = λ g. (source_sound a.javascript_source p f source g).1;
      library = csharp_sound a.candidate p f csharp;
      scenarios_passed = (scenarios_sound a.three_node f scenarios).0;
      cleaned_up = (scenarios_sound a.three_node f scenarios).1;
    }

-- What a report that says "passed" comes from, and how the run then ends.
report_of-passed :
    (make body remove write : Result (Unit {0})) (r : Report)
    → (report_of write (in_directory make body remove)).0 ≡ some r
    → r.passed ≡ true
    → (body ≡ ok tt)
      × (r.failure ≡ failure_of remove)
      × ((report_of write (in_directory make body remove)).1 ≡ remove)
unfolding report_of in_directory
report_of-passed make body remove (err e) r h t = absurd (cc)
report_of-passed (err e) body remove (ok w) r h t = absurd (ground arith)
report_of-passed (ok u) (err e) (ok v) (ok w) r h t = absurd (ground arith)
report_of-passed (ok u) (err e) (err x) (ok w) r h t = absurd (ground arith)
report_of-passed (ok u) (ok b) (ok v) (ok w) r h t = (refl, ground arith, refl)
report_of-passed (ok u) (ok b) (err x) (ok w) r h t = (refl, ground arith, refl)

-- A run that returns leaves a report that says "passed", of no failure.
report_of-ok :
    (make body remove write : Result (Unit {0}))
    → (report_of write (in_directory make body remove)).1 ≡ ok tt
    → (body ≡ ok tt)
      × ((report_of write (in_directory make body remove)).0
          ≡ some (record { passed = true; failure = none }))
unfolding report_of in_directory
report_of-ok make body remove (err e) h = absurd (cc)
report_of-ok (err e) body remove (ok w) h = absurd (cc)
report_of-ok (ok u) (err e) (ok v) (ok w) h = absurd (cc)
report_of-ok (ok u) (err e) (err x) (ok w) h = absurd (cc)
report_of-ok (ok u) (ok b) (ok v) (ok w) h = (refl, refl)
report_of-ok (ok u) (ok b) (err x) (ok w) h = absurd (cc)

none_lem : (r : Report) → none ≢ some r
none_lem r h = cc

err_lem : (e : Exc) → err e ≢ ok (tt {0})
err_lem e h = cc

-- The run after its first checks.
after_checks : Arguments → Pins → Findings → Option Report × Result (Unit {0})
after_checks a p f =
    report_of f.write_report (in_directory f.make_directory (accept a p f) f.remove_directory)

main-refused :
    (a : Arguments) (p : Pins) (f : Findings) (e : Exc)
    → check_arguments a >> check_binary a p f ≡ err e
    → main a p f ≡ (none, err e)
unfolding main
main-refused a p f e r = rw (main, r) refl

main-started :
    (a : Arguments) (p : Pins) (f : Findings)
    → check_arguments a >> check_binary a p f ≡ ok tt
    → main a p f ≡ after_checks a p f
unfolding after_checks main report_of
main-started a p f r = rw (main, r) refl

started :
    (a : Arguments) (p : Pins) (f : Findings)
    → check_arguments a >> check_binary a p f ≡ ok tt
    → accept a p f ≡ ok tt
    → PinnedRun a p f
started a p f r accepted =
    let (v, arguments, binary) = >>=-eq-ok (check_arguments a) _ r in
    accept_sound a p f arguments binary accepted

-- If a run leaves a report that says "passed", the server was the pinned clean one, the clients were
-- those of the pins or of the mode asked for, and the scenarios passed, with three nodes over the
-- native transport and with every owned process stopped; the script then ends as the removal of its
-- temporary directory does, whose failure is in the report too.
pub main-passed :
    (a : Arguments) (p : Pins) (f : Findings) (report : Report)
    → (main a p f).0 ≡ some report
    → report.passed ≡ true
    → PinnedRun a p f
      × (report.failure ≡ failure_of f.remove_directory)
      × ((main a p f).1 ≡ f.remove_directory)
unfolding after_checks
main-passed a p f report h t = elim (Result-cases (check_arguments a >> check_binary a p f)) [
  | inl (e, r) ↦ absurd (none_lem report (ap (λ end. end.0) (sym (main-refused a p f e r)) ∙ h))
  | inr (u, r) ↦
      let k = main-started a p f r in
      let (accepted, failure, outcome) =
        report_of-passed f.make_directory (accept a p f) f.remove_directory f.write_report report
          (ap (λ end. end.0) (sym k) ∙ h) t in
      (started a p f r accepted, failure, ap (λ end. end.1) k ∙ outcome)
]

-- If the script returns, its run was pinned and has passed in the same sense (the server, the clients,
-- the scenarios and the cleanup), and it leaves a report that says "passed" and tells of no failure.
pub main-returned :
    (a : Arguments) (p : Pins) (f : Findings)
    → (main a p f).1 ≡ ok tt
    → PinnedRun a p f × ((main a p f).0 ≡ some (record { passed = true; failure = none }))
unfolding after_checks
main-returned a p f h = elim (Result-cases (check_arguments a >> check_binary a p f)) [
  | inl (e, r) ↦ absurd (err_lem e (ap (λ end. end.1) (sym (main-refused a p f e r)) ∙ h))
  | inr (u, r) ↦
      let k = main-started a p f r in
      let (accepted, report) =
        report_of-ok f.make_directory (accept a p f) f.remove_directory f.write_report
          (ap (λ end. end.1) (sym k) ∙ h) in
      (started a p f r accepted, ap (λ end. end.0) k ∙ report)
]
