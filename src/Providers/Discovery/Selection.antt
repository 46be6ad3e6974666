-- ===== src/Providers/Discovery/Selection.antt =====
-- Which manifests a discovery selects.
use mathlib.Core.List.{append-nil, append_assoc}
use native.Mathlib.Nat.{zero-add}
use bb_auth.Prelude.{
  ℕ, suc, ◌+◌, ◌≡◌, refl, sym, ◌∙◌, true, false, Option, none, some, String, arith, if◌then◌else◌,
  inl, inr, ◌==◌, string_eq, eq_iff, List, [], ◌∷◌, ◌++◌, Bool-cases, is_some, length,
  length-append,
}
use bb_auth.Providers.Host.{Host}
use bb_auth.Providers.Manifest.{ProviderManifest, Parsed, success, failure}
use bb_auth.Providers.Discovery.{
  Discovery, nothing, warn, mem, parse_bytes, add_manifest, add_file, add_files, files_of,
  discover_from, discover,
}

pub find_id : String → List ProviderManifest → Option ProviderManifest
find_id id [] = none
find_id id (m ∷ ms) = if m.id == id then some m else find_id id ms

-- No two manifests have one id.
abbrev pub HasDistinctIds : List ProviderManifest → Type 0
HasDistinctIds [] = Unit {0}
HasDistinctIds (m ∷ ms) = (find_id m.id ms ≡ none) × HasDistinctIds ms

abbrev or_else : Option ProviderManifest → Option ProviderManifest → Option ProviderManifest
or_else none b = b
or_else (some a) b = some a

find_id-append :
    (id : String) (ms ns : List ProviderManifest)
    → find_id id (ms ++ ns) ≡ or_else (find_id id ms) (find_id id ns)
unfolding find_id
find_id-append id [] ns = refl
find_id-append id (m ∷ ms) ns = ground (arith, find_id-append id ms ns)

append-HasDistinctIds :
    (ms : List ProviderManifest) (m : ProviderManifest)
    → HasDistinctIds ms
    → find_id m.id ms ≡ none
    → HasDistinctIds (ms ++ m ∷ [])
unfolding find_id
append-HasDistinctIds [] m h k = (refl, tt)
append-HasDistinctIds (n ∷ ms) m h k = (
  ground (arith, find_id-append n.id ms (m ∷ []), eq_iff m.id n.id, eq_iff n.id m.id),
  append-HasDistinctIds ms m h.1 (ground (arith, eq_iff m.id n.id, eq_iff n.id m.id)),
)

parsed_list : Parsed ProviderManifest → List ProviderManifest
parsed_list (success m) = m ∷ []
parsed_list (failure e) = []

shift : (a b : ℕ) → suc a + b ≡ a + suc b
shift a b = omega arith

module _ (h : Host) where
  file_manifest : String → Option String → List ProviderManifest
  file_manifest path none = []
  file_manifest path (some bytes) = parsed_list (parse_bytes h bytes path)

  -- All manifests that can be read from the files, in order.
  pub readable : List (String × Option String) → List ProviderManifest
  readable [] = []
  readable ((path, bytes) ∷ files) = file_manifest path bytes ++ readable files

  pub all_files : List String → List (String × Option String)
  all_files [] = []
  all_files (dir ∷ dirs) = files_of h dir ++ all_files dirs

  record Selects (seen : List ProviderManifest) (n : ℕ) (d : Discovery) : Type 0 where
    first : (id : String) → find_id id d.manifests ≡ find_id id seen
    known : (id : String) → mem id d.seen_ids ≡ is_some (find_id id d.manifests)
    distinct : HasDistinctIds d.manifests
    counted : length d.manifests + length d.warnings ≡ n

  warn-Selects :
      (seen : List ProviderManifest) (n : ℕ) (d : Discovery) (text : String)
      → Selects seen n d
      → Selects seen (suc n) (warn d text)
  warn-Selects seen n d text s = record {
    first = s.first;
    known = s.known;
    distinct = s.distinct;
    counted = omega (arith, length-append d.warnings (text ∷ []), s.counted);
  }

  widen-Selects :
      (seen : List ProviderManifest) (m : ProviderManifest) (n : ℕ) (d : Discovery)
      → mem m.id d.seen_ids ≡ true
      → Selects seen n d
      → Selects (seen ++ m ∷ []) n d
  unfolding find_id
  widen-Selects seen m n d k s = record {
    first = λ id.
        ground (arith, s.first id, s.known m.id, find_id-append id seen (m ∷ []), eq_iff m.id id);
    known = s.known;
    distinct = s.distinct;
    counted = s.counted;
  }

  add-Selects :
      (seen : List ProviderManifest) (m : ProviderManifest) (n : ℕ) (d : Discovery)
      → mem m.id d.seen_ids ≡ false
      → Selects seen n d
      → Selects (seen ++ m ∷ []) (suc n) (record {
        manifests = d.manifests ++ m ∷ [];
        warnings = d.warnings;
        seen_ids = m.id ∷ d.seen_ids;
      })
  unfolding find_id
  add-Selects seen m n d k s = record {
    first = λ id. ground (
      arith,
      s.first id,
      find_id-append id seen (m ∷ []),
      find_id-append id d.manifests (m ∷ []),
    );
    known = λ id. ground (arith, s.known id, find_id-append id d.manifests (m ∷ []));
    distinct = append-HasDistinctIds d.manifests m s.distinct (ground (arith, s.known m.id));
    counted = omega (arith, length-append d.manifests (m ∷ []), s.counted);
  }

  add_manifest-Selects :
      (seen : List ProviderManifest) (n : ℕ) (d : Discovery) (path : String)
      (p : Parsed ProviderManifest)
      → Selects seen n d
      → Selects (seen ++ parsed_list p) (suc n) (add_manifest h d path p)
  unfolding add_manifest parsed_list
  add_manifest-Selects seen n d path (failure e) s = rw append-nil (warn-Selects seen n d _ s)
  add_manifest-Selects seen n d path (success m) s = elim (Bool-cases (mem m.id d.seen_ids)) [
    | inl old ↦ rw old (widen-Selects seen m (suc n) _ old (warn-Selects seen n d _ s))
    | inr new ↦ rw new (add-Selects seen m n d new s)
  ]

  nothing-Selects : Selects [] 0 nothing
  unfolding find_id
  nothing-Selects = record { first = λ id. refl; known = λ id. refl; distinct = tt; counted = refl }

  add_file-Selects :
      (seen : List ProviderManifest) (n : ℕ) (d : Discovery) (path : String) (bytes : Option String)
      → Selects seen n d
      → Selects (seen ++ file_manifest path bytes) (suc n) (add_file h d path bytes)
  unfolding add_file file_manifest
  add_file-Selects seen n d path none s = rw append-nil (warn-Selects seen n d _ s)
  add_file-Selects seen n d path (some bytes) s =
      add_manifest-Selects seen n d path (parse_bytes h bytes path) s

  add_files-Selects :
      (seen : List ProviderManifest) (n : ℕ) (d : Discovery) (files : List (String × Option String))
      → Selects seen n d
      → Selects (seen ++ readable files) (length files + n) (add_files h d files)
  unfolding add_files readable
  add_files-Selects seen n d [] s = rw (append-nil, zero-add) s
  add_files-Selects seen n d ((path, bytes) ∷ files) s =
      let rest =
        add_files-Selects (seen ++ file_manifest path bytes) (suc n) (add_file h d path bytes) files
          (add_file-Selects seen n d path bytes s) in
      rw (← append_assoc seen (file_manifest path bytes) (readable files))
        (rw (shift (length files) n) rest)

  add_files-append :
      (d : Discovery) (xs ys : List (String × Option String))
      → add_files h d (xs ++ ys) ≡ add_files h (add_files h d xs) ys
  unfolding add_files
  add_files-append d [] ys = refl
  add_files-append d ((path, bytes) ∷ xs) ys = add_files-append (add_file h d path bytes) xs ys

  discover_from-all_files :
      (d : Discovery) (dirs : List String) → discover_from h d dirs ≡ add_files h d (all_files dirs)
  unfolding discover_from all_files add_files
  discover_from-all_files d [] = refl
  discover_from-all_files d (dir ∷ dirs) =
      discover_from-all_files (add_files h d (files_of h dir)) dirs
      ∙ sym (add_files-append d (files_of h dir) (all_files dirs))

  -- A discovery selects, for every id, the first readable and valid manifest with that id in the
  -- order of the search directories and of the file names, and no id twice. Every file is
  -- accounted for: it is selected, or there is one warning for it.
  pub discover-first :
      (dirs : List String)
      → ((id : String)
          → find_id id (discover h dirs).manifests ≡ find_id id (readable (all_files dirs)))
        × HasDistinctIds (discover h dirs).manifests
        × (length (discover h dirs).manifests + length (discover h dirs).warnings
            ≡ length (all_files dirs))
  unfolding discover
  discover-first dirs =
      let s = add_files-Selects [] 0 nothing (all_files dirs) nothing-Selects in
      rw (discover_from-all_files nothing dirs) (s.first, s.distinct, omega (arith, s.counted))
