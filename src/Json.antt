-- ===== src/Json.antt =====
-- JSON values as the daemon reads and writes them with QJsonObject: an object is a list of members,
-- `none` stands for QJsonValue::Undefined, and the conversions have Qt's defaults.
use bb_auth.Prelude.{
  ◌≡◌, refl, Bool, true, false, Option, none, some, String, arith, eq_iff, leb, if◌then◌else◌, ◌==◌,
  string_eq, is_some,
}
use bb_auth.Prelude.Int.{ℤ, pos, negsuc}

mutual
  pub data Json : Type 0 where
    null : Json
    bool : Bool → Json
    -- a number with an integral value, and any other number by its text
    int : ℤ → Json
    fraction : String → Json
    str : String → Json
    arr : Items → Json
    obj : Object → Json

  pub data Items : Type 0 where
    nil : Items
    cons : Json → Items → Items

  pub data Object : Type 0 where
    end : Object
    field : String → Json → Object → Object

-- `object.value(key)`
unfoldable pub value : String → Object → Option Json
value k end = none
value k (field j v o) = if j == k then some v else value k o

-- `object[key] = v`
unfoldable pub put : String → Json → Object → Object
put k v end = field k v end
put k v (field j w o) = if j == k then field j v o else field j w (put k v o)

abbrev pub has_key : String → Object → Bool
has_key k o = is_some (value k o)

abbrev pub is_empty_object : Object → Bool
is_empty_object end = true
is_empty_object (field _ _ _) = false

abbrev pub to_string : Option Json → String
to_string (some (str s)) = s
to_string _ = ""

abbrev pub to_bool : Option Json → Bool
to_bool (some (bool b)) = b
to_bool _ = false

abbrev pub to_object : Option Json → Object
to_object (some (obj o)) = o
to_object _ = end

abbrev pub to_integer : Option Json → ℤ
to_integer (some (int n)) = n
to_integer _ = pos 0

-- `toInt()` has 0 for what is no number in the range of an `int`.
abbrev pub in_int_range : ℤ → Bool
in_int_range (pos n) = leb n 2147483647
in_int_range (negsuc n) = leb n 2147483647

abbrev pub to_int : Option Json → ℤ
to_int (some (int n)) = if in_int_range n then n else pos 0
to_int _ = pos 0

pub value-put :
    (k j : String) (v : Json) (o : Object)
    → value j (put k v o) ≡ (if k == j then some v else value j o)
unfolding value put
value-put k j v end = refl
value-put k j v (field i w o) =
    ground (arith, eq_iff k j, eq_iff i k, eq_iff i j, value-put k j v o)
