-- ===== src/Field/Text.antt =====
-- ext/endpoint_security/field.c, the calls of string.h on a field's type and referenced_schema_name.
use Prim.Native.Char.{code}
use Prim.Native.String.{String}
use endpoint_security.Base.{
  ℕ, ◌+◌, ◌-◌, Bool, true, false, ◌&&◌, ◌||◌, Option, none, some, [], ◌∷◌, leb, ◌==◌, if◌then◌else◌,
}
use endpoint_security.Base.Lists.{length, take}
use endpoint_security.Field.{CString}

-- The bytes of a literal
abbrev pub text : String → CString
text String.[] = []
text (String.◌∷◌ c s) = code c ∷ text s

-- strncmp(s, prefix, strlen(prefix)) == 0
unfoldable pub starts_with : CString → CString → Bool
starts_with s [] = true
starts_with [] (p ∷ prefix) = false
starts_with (c ∷ s) (p ∷ prefix) = (c == p) && starts_with s prefix

-- strstr: what is left of `s` from the first place of `part` on, or none for NULL
unfoldable pub find_part : CString → CString → Option CString
unfolding starts_with
find_part [] part = if starts_with [] part then some [] else none
find_part (c ∷ s) part =
    let later = find_part s part in if starts_with (c ∷ s) part then some (c ∷ s) else later

-- strstr(s, part) != NULL
unfoldable pub has_part : CString → CString → Bool
unfolding find_part
has_part s part = elim (find_part s part) [ none ↦ false | some _ ↦ true ]

-- strchr(s, c) != NULL
unfoldable pub has_char : CString → ℕ → Bool
has_char [] c = false
has_char (x ∷ s) c = (x == c) || has_char s c

-- referenced_schema_name: `start` runs from the first "es_", `end` from the first "_t" in it; the
-- name is what it writes into a buffer of `capacity` bytes, before the 0.
unfoldable pub name_between : Option CString → ℕ → CString
unfolding find_part
name_between none capacity = []
name_between (some start) capacity = elim (find_part start (text "_t")) [
  | none ↦ []
  | some end ↦
      let size = length start - length end + 2 in if leb capacity size then [] else take size start
]

unfoldable pub referenced_schema_name : CString → ℕ → CString
unfolding starts_with find_part name_between
referenced_schema_name type capacity =
    if starts_with type (text "union ") || starts_with type (text "struct ")
    then []
    else name_between (find_part type (text "es_")) capacity
