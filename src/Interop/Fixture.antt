-- ===== src/Interop/Fixture.antt =====
-- `main` of scripts/interop.py: what has to be pinned before the scenarios run, and the report that the
-- run leaves.
pub mod Pinned
use wu_kong_easy_sdk_csharp.Common.{
  ℕ, Bool, true, false, not, ◌&&◌, ◌||◌, Option, none, some, List, [], ◌∷◌, ◌++◌, codes,
  if◌then◌else◌, str_eq,
}
use wu_kong_easy_sdk_csharp.Python.Result.{
  Exc, assertion_error, runtime_error, key_error, system_exit, raised, Result, ok, err, ◌>>=◌, ◌>>◌,
  raise_if,
}
use wu_kong_easy_sdk_csharp.Python.Text.Search.{Text, text_eq, starts_with}
use wu_kong_easy_sdk_csharp.Python.Text.Replace.{occurs}

pub data Transport : Type 0 where
  ws native browser_wss : Transport

pub record Arguments : Type 0 where
  pub candidate : Bool
  pub transport : Transport
  pub three_node : Bool
  pub javascript_source : Bool

-- The entries of tests/interop/pins.json that `main` reads.
pub record Pins : Type 0 where
  pub cluster_server_commit : Text
  pub server_commit : Text
  pub javascript : Text
  pub javascript_source : Text
  pub nuget : Text

-- A library of obj/project.assets.json: its key and its type.
abbrev pub Library : Type 0
Library = Text × Text

-- What `main` finds: the output of `go version -m`, the version of the installed package, the revision
-- and the status of the JavaScript checkout, the libraries that the C# build resolved, and how the
-- commands and the scenarios end, with the making and the removal of the temporary directory and the
-- writing of the report. The report's flags are set by the cluster's scenarios. The commands
-- whose output only goes into the report are left out.
pub record Findings : Type 0 where
  pub binary_metadata : Text
  pub npm_install : Result (Unit {0})
  pub installed_version : Text
  pub source_revision : Text
  pub source_status : Text
  pub source_build : Result (Unit {0})
  pub trust_store : Result (Unit {0})
  pub csharp_build : Result (Unit {0})
  pub libraries : List Library
  pub scenarios : Result (Unit {0})
  pub owned_nodes_stopped : Bool
  pub owned_clients_stopped : Bool
  pub make_directory : Result (Unit {0})
  pub remove_directory : Result (Unit {0})
  pub write_report : Result (Unit {0})

abbrev pub is_native : Transport → Bool
is_native native = true
is_native _ = false

abbrev pub empty : Text → Bool
empty [] = true
empty (c ∷ cs) = false

-- parser.error
unfoldable pub check_arguments : Arguments → Result (Unit {0})
check_arguments a = do
  raise_if (a.three_node && (not (is_native a.transport) || a.javascript_source))
      (system_exit "Three-node acceptance uses the public npm package and native Node transport")
  ok tt

abbrev pub server_commit_of : Arguments → Pins → Text
server_commit_of a p = if a.three_node then p.cluster_server_commit else p.server_commit

unfoldable pub check_binary : Arguments → Pins → Findings → Result (Unit {0})
check_binary a p f = do
  raise_if
      (not (occurs f.binary_metadata (codes "vcs.revision=" ++ server_commit_of a p))
        || not (occurs f.binary_metadata (codes "vcs.modified=false")))
      (runtime_error "Build the pinned clean WuKongIM server commit before running this fixture")
  ok tt

unfoldable pub check_javascript : Pins → Findings → Result (Unit {0})
check_javascript p f = do
  f.npm_install
  raise_if (not (text_eq f.installed_version p.javascript))
      (assertion_error "Unexpected installed JS version")
  ok tt

-- if args.javascript_source:
unfoldable pub check_source : Bool → Pins → Findings → Result (Unit {0})
check_source false p f = ok tt
check_source true p f = do
  raise_if (not (text_eq f.source_revision p.javascript_source) || not (empty f.source_status))
      (assertion_error "JS source must be the reviewed clean commit")
  f.source_build

-- Trust(base) if args.transport == 'browser-wss'
unfoldable pub check_trust : Transport → Findings → Result (Unit {0})
check_trust browser_wss f = f.trust_store
check_trust _ f = ok tt

-- next(key for key in libraries if key.startswith("WuKongEasySDK/")), with its type
unfoldable pub resolved : List Library → Result Library
resolved [] = err (raised "StopIteration")
resolved ((key, type) ∷ libraries) =
    if starts_with key (codes "WuKongEasySDK/") then ok (key, type) else resolved libraries

abbrev pub expected_type : Bool → Text
expected_type candidate = if candidate then codes "project" else codes "package"

unfoldable pub check_csharp : Bool → Pins → Findings → Result (Unit {0})
check_csharp candidate p f = do
  f.csharp_build
  library ← resolved f.libraries
  raise_if (not candidate && not (text_eq library.0 (codes "WuKongEasySDK/" ++ p.nuget)))
      (assertion_error "Unexpected installed NuGet version")
  raise_if (not (text_eq library.1 (expected_type candidate)))
      (assertion_error "Unexpected C# dependency source")
  ok tt

-- the scenarios, and the cleanup that is checked after those of the cluster
unfoldable pub run_scenarios : Bool → Findings → Result (Unit {0})
run_scenarios three_node f = do
  f.scenarios
  raise_if (three_node && not (f.owned_nodes_stopped && f.owned_clients_stopped))
      (assertion_error "Owned cluster process cleanup incomplete")
  ok tt

-- the body of the `with`
unfoldable pub accept : Arguments → Pins → Findings → Result (Unit {0})
accept a p f = do
  check_javascript p f
  check_source a.javascript_source p f
  check_trust a.transport f
  check_csharp a.candidate p f
  run_scenarios a.three_node f

-- The report's "status" and "failure".
pub record Report : Type 0 where
  pub passed : Bool
  pub failure : Option Exc

abbrev pub is_ok : Result (Unit {0}) → Bool
is_ok (ok u) = true
is_ok (err e) = false

-- `except Exception` does not catch a cancellation or an exit.
abbrev pub failure_of : Result (Unit {0}) → Option Exc
failure_of (ok u) = none
failure_of (err (system_exit message)) = none
failure_of (err (raised name)) =
    if str_eq name "CancelledError" || str_eq name "KeyboardInterrupt"
    then none
    else some (raised name)
failure_of (err e) = some e

-- with tempfile.TemporaryDirectory(): the making, the body, whose last line sets the status, and the
-- removal, where an exception replaces that of the body. Whether the status is "passed", and the end.
unfoldable pub in_directory : (make body remove : Result (Unit {0})) → Bool × Result (Unit {0})
in_directory (err e) body remove = (false, err e)
in_directory (ok u) body (ok v) = (is_ok body, body)
in_directory (ok u) body (err e) = (is_ok body, err e)

-- The `except` and the `finally`: the report, if it can be written, and how the run ends.
unfoldable pub report_of :
    (write : Result (Unit {0})) → Bool × Result (Unit {0}) → Option Report × Result (Unit {0})
report_of (err e) end = (none, err e)
report_of (ok u) (passed, outcome) =
    (some (record { passed = passed; failure = failure_of outcome }), outcome)

-- What a run leaves: no report, if it ends before the `try` or cannot write one, or a report; and how it
-- ends.
unfoldable pub main : Arguments → Pins → Findings → Option Report × Result (Unit {0})
main a p f = elim (check_arguments a >> check_binary a p f) [
  | err e ↦ (none, err e)
  | ok u ↦
      report_of f.write_report (in_directory f.make_directory (accept a p f) f.remove_directory)
]
