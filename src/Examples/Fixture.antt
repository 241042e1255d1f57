-- ===== src/Examples/Fixture.antt =====
-- A run of the cluster fixture whose findings all match the pins.
use wu_kong_easy_sdk_csharp.Common.{none, some, true, false, [], ◌∷◌, codes, ◌≡◌, refl}
use wu_kong_easy_sdk_csharp.Python.Result.{ok, err, key_error, raised}
use wu_kong_easy_sdk_csharp.Python.Text.Search.{text_eq, starts_with}
use wu_kong_easy_sdk_csharp.Python.Text.Replace.{occurs}
use wu_kong_easy_sdk_csharp.Interop.Fixture.{
  Arguments, Pins, Findings, native, main, check_arguments, check_binary, check_javascript,
  check_source, check_trust, resolved, check_csharp, run_scenarios, accept, in_directory, report_of,
  failure_of,
}
use wu_kong_easy_sdk_csharp.Interop.Fixture.Pinned.{PinnedRun, main-passed, main-returned}

abbrev arguments : Arguments
arguments = record {
  candidate = false;
  transport = native;
  three_node = true;
  javascript_source = false;
}

abbrev pins : Pins
pins = record {
  cluster_server_commit = codes "c1";
  server_commit = codes "s1";
  javascript = codes "1.2.0";
  javascript_source = codes "j1";
  nuget = codes "1.0.1";
}

abbrev findings : Findings
findings = record {
  binary_metadata = codes "go1.23 vcs.revision=c1 vcs.modified=false";
  npm_install = ok tt;
  installed_version = codes "1.2.0";
  source_revision = [];
  source_status = [];
  source_build = err key_error;
  trust_store = err key_error;
  csharp_build = ok tt;
  libraries =
      (codes "Other/1", codes "package") ∷ (codes "WuKongEasySDK/1.0.1", codes "package") ∷ [];
  scenarios = ok tt;
  owned_nodes_stopped = true;
  owned_clients_stopped = true;
  make_directory = ok tt;
  remove_directory = ok tt;
  write_report = ok tt;
}

main-returned_example :
    PinnedRun arguments pins findings
    × ((main arguments pins findings).0 ≡ some (record { passed = true; failure = none }))
unfolding main check_arguments check_binary check_javascript check_source check_trust resolved
    check_csharp run_scenarios accept in_directory report_of occurs starts_with text_eq
main-returned_example = main-returned arguments pins findings refl

-- The directory cannot be removed: the report says "passed", and the script raises.
abbrev stuck : Findings
stuck = record findings { remove_directory = err (raised "OSError") }

main-passed_example :
    PinnedRun arguments pins stuck
    × (some (raised "OSError") ≡ failure_of stuck.remove_directory)
    × ((main arguments pins stuck).1 ≡ stuck.remove_directory)
unfolding main check_arguments check_binary check_javascript check_source check_trust resolved
    check_csharp run_scenarios accept in_directory report_of occurs starts_with text_eq
main-passed_example =
    main-passed arguments pins stuck (record { passed = true; failure = some (raised "OSError") })
      refl refl
