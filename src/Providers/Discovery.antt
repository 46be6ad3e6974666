-- ===== src/Providers/Discovery.antt =====
-- src/core/providers/ProviderDiscovery.{hpp,cpp}: reading the manifests of the search directories,
-- and ProviderManifest.cpp's reading of a file's bytes.
pub mod Selection
use Prim.Native.String
use bb_auth.Prelude.{
  Bool, true, false, Option, none, some, String, List, [], ◌∷◌, ◌++◌, ◌||◌, ◌&&◌, not,
  if◌then◌else◌, ◌==◌, string_eq,
}
use bb_auth.Providers.Host.{Host, Document, invalid, other, object}
use bb_auth.Providers.Manifest.{ProviderManifest, Parsed, success, failure, parse_provider_manifest}

infixr 65 ◌<>◌
abbrev pub ◌<>◌ : String → String → String
◌<>◌ = String.◌++◌

abbrev pub mem : String → List String → Bool
mem x [] = false
mem x (y ∷ ys) = y == x || mem x ys

abbrev push_new : String → List String → List String
push_new dir dirs = if not (dir == "") && not (mem dir dirs) then dirs ++ dir ∷ [] else dirs

-- What is found so far: `result` and `seenIds`.
pub record Discovery : Type 0 where
  pub manifests : List ProviderManifest
  pub warnings : List String
  pub seen_ids : List String

abbrev pub nothing : Discovery
nothing = record { manifests = []; warnings = []; seen_ids = [] }

abbrev pub warn : Discovery → String → Discovery
warn d text = record d { warnings = d.warnings ++ text ∷ [] }

module _ (h : Host) where
  parse_document : Document → String → Parsed ProviderManifest
  parse_document (invalid e) path = failure ("invalid JSON: " <> e)
  parse_document other path = failure "manifest root must be an object"
  parse_document (object o) path = parse_provider_manifest h.is_absolute_path h.trimmed o path

  unfoldable pub parse_bytes : String → String → Parsed ProviderManifest
  unfolding parse_document
  parse_bytes bytes path = parse_document (h.from_json bytes) path

  normalize_dir : String → String
  normalize_dir dir = if dir == "" then "" else h.clean_path dir

  -- The directories named by the environment, by QStandardPaths and by the build.
  unfoldable pub default_search_dirs : String → String → String → String → List String
  unfolding normalize_dir
  default_search_dirs explicit_dir config_location data_location system_dir =
      let explicit = normalize_dir explicit_dir in
      let config = normalize_dir (config_location <> "/bb-auth/providers.d") in
      let shared = normalize_dir (data_location <> "/bb-auth/providers.d") in
      let system = normalize_dir system_dir in
      let dirs = if not (explicit == "") then explicit ∷ [] else [] in
      push_new system (push_new shared (push_new config dirs))

  add_manifest : Discovery → String → Parsed ProviderManifest → Discovery
  add_manifest d path (failure e) = warn d ("Skipping manifest " <> path <> ": " <> e)
  add_manifest d path (success m) =
      if mem m.id d.seen_ids
      then warn d (
          "Skipping manifest " <> path <> ": duplicate id '" <> m.id
          <> "' already selected from higher precedence directory")
      else record {
        manifests = d.manifests ++ m ∷ [];
        warnings = d.warnings;
        seen_ids = m.id ∷ d.seen_ids;
      }

  add_file : Discovery → String → Option String → Discovery
  unfolding add_manifest
  add_file d path none = warn d ("Skipping manifest " <> path <> ": cannot read file")
  add_file d path (some bytes) = add_manifest d path (parse_bytes bytes path)

  add_files : Discovery → List (String × Option String) → Discovery
  unfolding add_file
  add_files d [] = d
  add_files d ((path, bytes) ∷ files) = add_files (add_file d path bytes) files

  -- The files of one directory, none for an empty name or a missing directory.
  files_of : String → List (String × Option String)
  unfolding normalize_dir
  files_of raw_dir =
      let dir = normalize_dir raw_dir in
      if dir == "" then [] else if not (h.dir_exists dir) then [] else h.entries dir

  discover_from : Discovery → List String → Discovery
  unfolding add_files files_of
  discover_from d [] = d
  discover_from d (dir ∷ dirs) = discover_from (add_files d (files_of dir)) dirs

  unfoldable pub discover : List String → Discovery
  unfolding discover_from
  discover dirs = discover_from nothing dirs
