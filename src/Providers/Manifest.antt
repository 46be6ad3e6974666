-- ===== src/Providers/Manifest.antt =====
-- src/core/providers/ProviderManifest.{hpp,cpp}. QString::trimmed and QDir::isAbsolutePath are
-- parameters; the id's pattern ^[a-z0-9][a-z0-9._-]*$ is a function over the characters, and as in
-- PCRE its end may stand before one last newline.
pub mod Validity
use Prim.Native.Char.{Char, code}
use bb_auth.Prelude.{
  ℕ, Bool, true, false, Option, none, some, String, List, [], ◌∷◌, ◌++◌, ◌&&◌, ◌||◌, not, leb,
  if◌then◌else◌, ◌==◌, nat_eq, string_eq,
}
use Prim.Native.String
use bb_auth.Prelude.Int.{ℤ, pos, negsuc, ltb_ℤ}
use bb_auth.Json.{
  Json, Items, Object, null, bool, int, fraction, str, arr, obj, nil, cons, end, field, value, put,
  has_key, to_string, to_bool, to_int,
}

pub record ProviderManifest : Type 0 where
  pub id : String
  pub name : String
  pub kind : String
  pub priority : ℤ
  pub exec : String
  pub args : List String
  pub env : Object
  pub autostart : Bool
  pub capabilities : List String
  pub source_path : String

pub data Parsed {ℓ} (A : Type ℓ) : Type ℓ where
  success : A → Parsed A
  failure : String → Parsed A

infixl 5 ◌>>=◌ ◌>>◌
abbrev pub ◌>>=◌ {ℓ κ} : {A : Type ℓ} {B : Type κ} → Parsed A → (A → Parsed B) → Parsed B
success a >>= f = f a
failure e >>= f = failure e

abbrev pub ◌>>◌ {ℓ} : {B : Type ℓ} → Parsed (Unit {0}) → Parsed B → Parsed B
m >> k = m >>= λ _. k

-- `if (wrong) return failure(error);`
abbrev pub refuse_if : Bool → String → Parsed (Unit {0})
refuse_if true e = failure e
refuse_if false e = success tt

abbrev pub priority_min : ℤ
priority_min = negsuc 999

abbrev pub priority_max : ℤ
priority_max = pos 1000

abbrev id_first : ℕ → Bool
id_first c = leb b'a' c && leb c b'z' || leb b'0' c && leb c b'9'

abbrev id_rest : ℕ → Bool
id_rest c = id_first c || (c == b'.' || (c == b'_' || c == b'-'))

id_tail : String → Bool
id_tail String.[] = true
id_tail (String.◌∷◌ c String.[]) = id_rest (code c) || code c == 10
id_tail (String.◌∷◌ c (String.◌∷◌ d s)) = id_rest (code c) && id_tail (String.◌∷◌ d s)

unfoldable pub is_valid_id : String → Bool
unfolding id_tail
is_valid_id String.[] = false
is_valid_id (String.◌∷◌ c s) = id_first (code c) && id_tail s

unfoldable pub has_slash : String → Bool
has_slash String.[] = false
has_slash (String.◌∷◌ c s) = code c == b'/' || has_slash s

abbrev pub is_valid_exec : (String → Bool) → String → Bool
is_valid_exec is_absolute_path exec =
    if exec == "" then false else if has_slash exec then is_absolute_path exec else true

strings_of : Items → Option (List String)
strings_of nil = some []
strings_of (cons (str s) js) = elim (strings_of js) [ none ↦ none | some ss ↦ some (s ∷ ss) ]
strings_of (cons _ _) = none

all_strings : String → Option (List String) → Parsed (List String)
all_strings name none = failure (String.◌++◌ name " must contain only strings")
all_strings name (some ss) = success ss

unfoldable pub parse_string_array : Option Json → String → Parsed (List String)
unfolding strings_of all_strings
parse_string_array none name = success []
parse_string_array (some null) name = success []
parse_string_array (some (arr js)) name = all_strings name (strings_of js)
parse_string_array (some _) name = failure (String.◌++◌ name " must be an array")

-- The loop over the members: `envObj` so far, and the members left.
env_from : Object → Object → Parsed Object
env_from out end = success out
env_from out (field k (str s) o) = env_from (put k (str s) out) o
env_from out (field k _ o) = failure "env values must be strings"

unfoldable pub parse_env_map : Option Json → Parsed Object
unfolding env_from
parse_env_map none = success end
parse_env_map (some null) = success end
parse_env_map (some (obj o)) = env_from end o
parse_env_map (some _) = failure "env must be an object of string values"

abbrev pub is_double : Option Json → Bool
is_double (some (int n)) = true
is_double (some (fraction t)) = true
is_double _ = false

abbrev pub is_bool : Option Json → Bool
is_bool (some (bool b)) = true
is_bool _ = false

abbrev pub out_of_range : ℤ → Bool
out_of_range p = ltb_ℤ p priority_min || ltb_ℤ priority_max p

module _ (is_absolute_path : String → Bool) where
  unfoldable pub is_valid : ProviderManifest → Bool
  is_valid m =
      not (m.id == "")
      && (is_valid_id m.id
          && (not (m.name == "")
              && (not (m.kind == "")
                  && (not (ltb_ℤ m.priority priority_min)
                      && (not (ltb_ℤ priority_max m.priority)
                          && is_valid_exec is_absolute_path m.exec)))))

  -- The checks of the finished manifest, in the source's order.
  unfoldable pub check_manifest : ProviderManifest → Parsed ProviderManifest
  check_manifest m = do
    refuse_if (m.id == "") "id is required"
    refuse_if (not (is_valid_id m.id)) "id must match [a-z0-9][a-z0-9._-]*"
    refuse_if (m.name == "") "name is required"
    refuse_if (m.kind == "") "kind is required"
    refuse_if (out_of_range m.priority) "priority must be within [-1000, 1000]"
    refuse_if (m.exec == "") "exec is required"
    refuse_if (not (is_valid_exec is_absolute_path m.exec)) "exec must be absolute path or basename"
    success m

  unfoldable pub parse_provider_manifest :
      (String → String) → Object → String → Parsed ProviderManifest
  unfolding check_manifest
  parse_provider_manifest trimmed json source_path = do
    refuse_if (has_key "priority" json && not (is_double (value "priority" json)))
        "priority must be an integer"
    refuse_if (has_key "autostart" json && not (is_bool (value "autostart" json)))
        "autostart must be a boolean"
    args ← parse_string_array (value "args" json) "args"
    env ← parse_env_map (value "env" json)
    capabilities ← parse_string_array (value "capabilities" json) "capabilities"
    check_manifest (record {
      id = trimmed (to_string (value "id" json));
      name = trimmed (to_string (value "name" json));
      kind = trimmed (to_string (value "kind" json));
      priority = to_int (value "priority" json);
      exec = trimmed (to_string (value "exec" json));
      args = args;
      env = env;
      autostart = if has_key "autostart" json then to_bool (value "autostart" json) else true;
      capabilities = capabilities;
      source_path = source_path;
    })
