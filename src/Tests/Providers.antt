-- ===== src/Tests/Providers.antt =====
-- Manifests, discovery and launching.
use bb_auth.Prelude.{String, ◌≡◌, ◌+◌, ◌<◌, suc, refl, arith, [], ◌∷◌, true, false, length}
use bb_auth.Json.{value}
use bb_auth.Prelude.Hash.{find}
use bb_auth.Providers.Manifest.{
  success, parse_provider_manifest, is_valid_id, has_slash, parse_string_array, parse_env_map,
}
use bb_auth.Providers.Manifest.Validity.{IsManifestOf, parse-IsManifestOf}
use bb_auth.Providers.Discovery.{discover}
use bb_auth.Providers.Discovery.Selection.{
  find_id, readable, all_files, HasDistinctIds, discover-first,
}
use bb_auth.Providers.Launcher.{
  candidate, launch_candidate, can_attempt, first_launchable, sort, autostarting,
}
use bb_auth.Providers.Launcher.Choice.{IsChoice, first_launchable-IsChoice}
use bb_auth.Providers.Launcher.Backoff.{least_backoff, failures_of, failed_launch_throttles}
use bb_auth.Tests.Fixtures.{machine, manifest, manifest_json, panel}

manifest_parses :
    parse_provider_manifest (λ s. true) (λ s. s) manifest_json "/d/a.json" ≡ success manifest
unfolding parse_provider_manifest value is_valid_id has_slash parse_string_array parse_env_map
manifest_parses = refl

parse-IsManifestOf_example : IsManifestOf (λ s. true) (λ s. s) manifest_json "/d/a.json" manifest
parse-IsManifestOf_example =
    parse-IsManifestOf (λ s. true) (λ s. s) manifest_json "/d/a.json" manifest manifest_parses

discover-first_example :
    ((id : String)
      → find_id id (discover (machine 0) ("/d" ∷ [])).manifests
        ≡ find_id id (readable (machine 0) (all_files (machine 0) ("/d" ∷ []))))
    × HasDistinctIds (discover (machine 0) ("/d" ∷ [])).manifests
    × (length (discover (machine 0) ("/d" ∷ [])).manifests
          + length (discover (machine 0) ("/d" ∷ [])).warnings
        ≡ length (all_files (machine 0) ("/d" ∷ [])))
discover-first_example = discover-first (machine 0) ("/d" ∷ [])

first_launchable-IsChoice_example :
    IsChoice
      (machine 0)
      (manifest ∷ [])
      (first_launchable (machine 0) (sort (autostarting (manifest ∷ []))))
first_launchable-IsChoice_example = first_launchable-IsChoice (machine 0) (manifest ∷ [])

launch_fails :
    ((launch_candidate (machine 1000) [] "r" (candidate panel)).0.attempted ≡ true)
    × ((launch_candidate (machine 1000) [] "r" (candidate panel)).0.launched ≡ false)
unfolding launch_candidate can_attempt find
launch_fails = (refl, refl)

first_wait : 1499 < 1000 + least_backoff (suc (failures_of [] "a1"))
unfolding find
first_wait = omega arith

failed_launch_throttles_example :
    let after = (launch_candidate (machine 1000) [] "r" (candidate panel)).1 in
    ((launch_candidate (machine 1499) after "s" (candidate panel)).0.attempted ≡ false)
    × ((launch_candidate (machine 1499) after "s" (candidate panel)).1 ≡ after)
failed_launch_throttles_example =
    failed_launch_throttles (machine 1000) (machine 1499) "r" "s" [] panel panel launch_fails.0
      launch_fails.1 refl first_wait
