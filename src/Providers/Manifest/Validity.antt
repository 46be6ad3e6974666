-- ===== src/Providers/Manifest/Validity.antt =====
-- What a parsed manifest is worth.
use bb_auth.Prelude.{
  ◌≡◌, ◌↔◌, refl, ◌∙◌, ◌⊎◌, Bool, true, false, Option, none, some, String, arith, if◌then◌else◌,
  inl, inr, ◌==◌, string_eq, ◌&&◌, not, List, [], ◌∷◌, Option-cases, Bool-cases, is_some,
}
use bb_auth.Json.{
  Json, Items, Object, null, bool, str, arr, obj, nil, cons, end, field, value, value-put, put,
  to_string, to_bool, to_int,
}
use bb_auth.Providers.Manifest.{
  ProviderManifest, Parsed, success, failure, is_valid, check_manifest, parse_provider_manifest,
  parse_string_array, strings_of, parse_env_map, env_from, refuse_if, ◌>>=◌, is_double, is_bool,
}

-- The array of some texts.
abbrev pub items_of : List String → Items
items_of [] = nil
items_of (s ∷ ss) = cons (str s) (items_of ss)

-- A member that is missing, null, or an array of exactly these texts.
abbrev pub HasTexts : Option Json → List String → Type 0
HasTexts none ss = ss ≡ []
HasTexts (some null) ss = ss ≡ []
HasTexts (some j) ss = j ≡ arr (items_of ss)

abbrev pub IsText : Json → Type 0
IsText (str s) = Unit {0}
IsText _ = ⊥

-- Every member of the object is a text.
abbrev pub HasOnlyTexts : Object → Type 0
HasOnlyTexts end = Unit {0}
HasOnlyTexts (field k j o) = IsText j × HasOnlyTexts o

-- The last member of that name; a QJsonObject has at most one.
abbrev pub last_value : String → Object → Option Json
last_value k end = none
last_value k (field j v o) = elim (last_value k o) [
  | none ↦ if j == k then some v else none
  | some w ↦ some w
]

-- A member that is missing or null, or an object of texts with exactly these members.
abbrev pub HasEnv : Option Json → Object → Type 0
HasEnv none e = e ≡ end
HasEnv (some null) e = e ≡ end
HasEnv (some (obj o)) e = HasOnlyTexts o × ((k : String) → value k e ≡ last_value k o)
HasEnv (some _) e = ⊥

strings_of-items : (js : Items) (ss : List String) → strings_of js ≡ some ss → js ≡ items_of ss
unfolding strings_of
strings_of-items nil ss h = ground arith
strings_of-items (cons (str s) js) ss h = elim (Option-cases (strings_of js)) [
  | inl e ↦ ground (arith, e)
  | inr (ts, e) ↦ ground (arith, strings_of-items js ts e)
]
strings_of-items (cons _ js) ss h = cc

parse_string_array-HasTexts :
    (j : Option Json) (name : String) (ss : List String)
    → parse_string_array j name ≡ success ss
    → HasTexts j ss
unfolding parse_string_array
parse_string_array-HasTexts none name ss h = ground arith
parse_string_array-HasTexts (some null) name ss h = ground arith
parse_string_array-HasTexts (some (arr js)) name ss h = elim (Option-cases (strings_of js)) [
  | inl e ↦ ground arith
  | inr (ts, e) ↦ ground (arith, strings_of-items js ts e)
]
parse_string_array-HasTexts (some _) name ss h = cc

put-HasOnlyTexts : (k s : String) (o : Object) → HasOnlyTexts o → HasOnlyTexts (put k (str s) o)
unfolding put
put-HasOnlyTexts k s end h = (tt, tt)
put-HasOnlyTexts k s (field j w o) h = elim (Bool-cases (j == k)) [
  | inl e ↦ rw e (tt, h.1)
  | inr e ↦ rw e (h.0, put-HasOnlyTexts k s o h.1)
]

success-HasOnlyTexts : (a b : Object) → HasOnlyTexts a → success a ≡ success b → HasOnlyTexts b
success-HasOnlyTexts a b h p = let q : a ≡ b = cc in rw q at h

env_from-HasOnlyTexts :
    (out o e : Object) → HasOnlyTexts out → env_from out o ≡ success e → HasOnlyTexts e
unfolding env_from
env_from-HasOnlyTexts out end e h p = success-HasOnlyTexts out e h p
env_from-HasOnlyTexts out (field k (str s) o) e h p =
    env_from-HasOnlyTexts (put k (str s) out) o e (put-HasOnlyTexts k s out h) p
env_from-HasOnlyTexts out (field k _ o) e h p = cc

abbrev or_else : Option Json → Option Json → Option Json
or_else none b = b
or_else (some a) b = some a

env_from-values :
    (out o e : Object)
    → env_from out o ≡ success e
    → HasOnlyTexts o × ((k : String) → value k e ≡ or_else (last_value k o) (value k out))
unfolding env_from
env_from-values out end e p = let q : out ≡ e = cc in (tt, λ k. rw q refl)
env_from-values out (field j (str s) o) e p =
    let (texts, values) = env_from-values (put j (str s) out) o e p in
    ((tt, texts), λ k. ground (arith, values k, value-put j k (str s) out))
env_from-values out (field j _ o) e p = cc

or_else-none : (a : Option Json) → or_else a none ≡ a
or_else-none none = refl
or_else-none (some a) = refl

parse_env_map-HasEnv : (j : Option Json) (e : Object) → parse_env_map j ≡ success e → HasEnv j e
unfolding parse_env_map value
parse_env_map-HasEnv none e h = cc
parse_env_map-HasEnv (some null) e h = cc
parse_env_map-HasEnv (some (obj o)) e h =
    let (texts, values) = env_from-values end o e h in
    (texts, λ k. values k ∙ or_else-none (last_value k o))
parse_env_map-HasEnv (some _) e h = cc

parse_env_map-HasOnlyTexts :
    (j : Option Json) (e : Object) → parse_env_map j ≡ success e → HasOnlyTexts e
unfolding parse_env_map
parse_env_map-HasOnlyTexts none e h = success-HasOnlyTexts end e tt h
parse_env_map-HasOnlyTexts (some null) e h = success-HasOnlyTexts end e tt h
parse_env_map-HasOnlyTexts (some (obj o)) e h = env_from-HasOnlyTexts end o e tt h
parse_env_map-HasOnlyTexts (some _) e h = cc

>>=-eq-success {ℓ κ} :
    {A : Type ℓ} {B : Type κ} (m : Parsed A) (f : A → Parsed B) {b : B}
    → (m >>= f) ≡ success b
    → (a : A) × (m ≡ success a) × (f a ≡ success b)
>>=-eq-success (success a) f h = (a, refl, h)
>>=-eq-success (failure e) f h = cc

refuse_if-eq-success :
    (b : Bool) (e : String) (u : Unit {0}) → refuse_if b e ≡ success u → b ≡ false
refuse_if-eq-success true e u h = cc
refuse_if-eq-success false e u h = refl

module _ (is_absolute_path : String → Bool) where
  check_manifest_iff :
      (m n : ProviderManifest)
      → (check_manifest is_absolute_path m ≡ success n)
        ↔ ((m ≡ n) × (is_valid is_absolute_path m ≡ true))
  unfolding check_manifest is_valid
  check_manifest_iff m n = ground arith

  -- What a reader may rely on in a manifest that was parsed from `json`.
  pub record IsManifestOf (trimmed : String → String) (json : Object) (path : String)
      (m : ProviderManifest) : Type 0 where
    pub valid : is_valid is_absolute_path m ≡ true
    pub id : m.id ≡ trimmed (to_string (value "id" json))
    pub name : m.name ≡ trimmed (to_string (value "name" json))
    pub kind : m.kind ≡ trimmed (to_string (value "kind" json))
    pub exec : m.exec ≡ trimmed (to_string (value "exec" json))
    pub priority : m.priority ≡ to_int (value "priority" json)
    pub numeric : (value "priority" json ≡ none) ⊎ (is_double (value "priority" json) ≡ true)
    pub autostart :
        (value "autostart" json ≡ some (bool m.autostart))
        ⊎ ((value "autostart" json ≡ none) × (m.autostart ≡ true))
    pub args : HasTexts (value "args" json) m.args
    pub capabilities : HasTexts (value "capabilities" json) m.capabilities
    pub env : HasEnv (value "env" json) m.env
    pub env_texts : HasOnlyTexts m.env
    pub source_path : m.source_path ≡ path

  autostart_read :
      (j : Option Json)
      → (is_some j && not (is_bool j)) ≡ false
      → (j ≡ some (bool (if is_some j then to_bool j else true)))
        ⊎ ((j ≡ none) × ((if is_some j then to_bool j else true) ≡ true))
  autostart_read none h = inr (refl, refl)
  autostart_read (some (bool b)) h = inl refl
  autostart_read (some _) h = cc

  numeric_read :
      (j : Option Json)
      → (is_some j && not (is_double j)) ≡ false
      → (j ≡ none) ⊎ (is_double j ≡ true)
  numeric_read j h = ground arith

  -- A manifest that parses is valid in the sense of `ProviderManifest::isValid`, and its fields are
  -- those of the JSON object: the trimmed texts, a numeric or missing priority, a Boolean or missing
  -- `autostart` (missing reads as true), lists of exactly the array's texts, and an environment with
  -- exactly the members of the object `env`, which are texts (none if it is missing or null).
  pub parse-IsManifestOf :
      (trimmed : String → String) (json : Object) (path : String) (m : ProviderManifest)
      → parse_provider_manifest is_absolute_path trimmed json path ≡ success m
      → IsManifestOf trimmed json path m
  unfolding parse_provider_manifest
  parse-IsManifestOf trimmed json path m h =
      let (_, p1, h1) = >>=-eq-success _ _ h in
      let (_, p2, h2) = >>=-eq-success _ _ h1 in
      let (args, p3, h3) = >>=-eq-success _ _ h2 in
      let (env, p4, h4) = >>=-eq-success _ _ h3 in
      let (caps, p5, h5) = >>=-eq-success _ _ h4 in
      let (same, valid) = (check_manifest_iff _ m).0 h5 in
      let auto = autostart_read (value "autostart" json) (refuse_if-eq-success _ _ _ p2) in
      let num = numeric_read (value "priority" json) (refuse_if-eq-success _ _ _ p1) in
      rw (← same) (record {
        valid = valid;
        id = refl;
        name = refl;
        kind = refl;
        exec = refl;
        priority = refl;
        numeric = num;
        autostart = auto;
        args = parse_string_array-HasTexts _ _ _ p3;
        capabilities = parse_string_array-HasTexts _ _ _ p5;
        env = parse_env_map-HasEnv _ _ p4;
        env_texts = parse_env_map-HasOnlyTexts _ _ p4;
        source_path = refl;
      })
