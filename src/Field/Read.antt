-- ===== src/Field/Read.antt =====
-- ext/endpoint_security/field.c, read_field: what a field of an event is for Ruby, and exec_values.
use endpoint_security.Base.{
  ℕ, ◌+◌, ◌*◌, Bool, true, false, not, ◌&&◌, ◌||◌, Option, none, some, List, [], ◌∷◌, ◌==◌,
  if◌then◌else◌,
}
use endpoint_security.Ruby.{Result, raised, returned}
use endpoint_security.Field.{
  CString, same_string, Field, Schema, Objects, View, find_schema, get_view, no_field, unavailable,
  address, access,
}
use endpoint_security.Field.Text.{text, starts_with, has_part, has_char, referenced_schema_name}
use endpoint_security.Field.Choose.{choose}
use endpoint_security.Field.Value.{
  ℤ, pos, negsuc, Encoding, ascii8bit, FieldValue, nil, boolean, number, string, time, enumeration,
  array, hash, each, no_entries, entry, Token, Sdk,
}
use endpoint_security.Field.Convert.{
  unsigned_of, signed_of, nested, string_token_value, token_value, acl_value, audit_token_value,
  stat_value, statfs_value, attrlist_value,
}
use endpoint_security.Field.Union.{read_union, read_array}

-- `time->tv_usec * 1000L`
abbrev pub thousand : ℤ → ℤ
thousand (pos n) = pos (n * 1000)
thousand (negsuc n) = negsuc (n * 1000 + 999)

abbrev pub or_else : Option FieldValue → FieldValue → FieldValue
or_else none value = value
or_else (some x) value = x

module _ (schemas : List Schema) (sdk : Sdk) (encoding : Encoding) where
  abbrev pub unsigned_at : ℕ → ℕ → ℕ
  unsigned_at width place = unsigned_of (sdk.bytes place width)

  abbrev pub signed_at : ℕ → ℕ → ℤ
  signed_at width place = signed_of width (unsigned_at width place)

  abbrev pub pointer_at : ℕ → ℕ
  pointer_at place = unsigned_at 8 place

  -- What a pointer in memory leads to, or nil
  abbrev pub if_not_null : ℕ → (ℕ → FieldValue) → FieldValue
  if_not_null place f = if pointer_at place == 0 then nil else f (pointer_at place)

  -- read_field from the last resort on: the integers
  unfoldable pub read_number : CString → ℕ → FieldValue
  unfolding same_string unsigned_of
  read_number type place =
      choose
        ((
          same_string type (text "unsigned long long") || same_string type (text "uint64_t"),
          number (pos (unsigned_at 8 place)),
        )
          ∷ (
            same_string type (text "long long") || same_string type (text "int64_t"),
            number (signed_at 8 place),
          )
          ∷ (same_string type (text "unsigned long"), number (pos (unsigned_at 8 place)))
          ∷ (same_string type (text "long"), number (signed_at 8 place))
          ∷ (
            same_string type (text "unsigned int") || same_string type (text "uint32_t"),
            number (pos (unsigned_at 4 place)),
          )
          ∷ (
            same_string type (text "int") || same_string type (text "int32_t"),
            number (signed_at 4 place),
          )
          ∷ (
            same_string type (text "unsigned short") || same_string type (text "uint16_t"),
            number (pos (unsigned_at 2 place)),
          )
          ∷ (
            same_string type (text "short") || same_string type (text "int16_t"),
            number (signed_at 2 place),
          )
          ∷ (
            same_string type (text "unsigned char") || same_string type (text "uint8_t"),
            number (pos (unsigned_at 1 place)),
          )
          ∷ (
            same_string type (text "signed char")
                || same_string type (text "int8_t")
                || same_string type (text "char"),
            number (signed_at 1 place),
          )
          ∷ [])
        nil

  -- find_schema(name) != NULL
  unfoldable pub is_schema : CString → Bool
  unfolding find_schema
  is_schema name = elim (find_schema schemas name) [ none ↦ false | some _ ↦ true ]

  -- read_field from the call of referenced_schema_name on
  unfoldable pub read_reference : View → CString → ℕ → FieldValue
  unfolding referenced_schema_name is_schema same_string has_char nested starts_with read_number
  read_reference v type place =
      let name = referenced_schema_name type 128 in
      let pointer = has_char type 42 in
      choose
        ((
          not (same_string name []) && is_schema name,
          nested schemas v (if pointer then pointer_at place else place) name,
        )
          ∷ (pointer, nil)
          ∷ (starts_with type (text "es_"), enumeration type (signed_at 4 place))
          ∷ [])
        (read_number type place)

  abbrev pub pipe_value : View → FieldValue
  pipe_value v =
      if sdk.is_pipe v.pointer
      then hash (entry (text "pipe_id") (number (pos (sdk.pipe_id v.pointer))) no_entries)
      else nil

  -- read_field from the strings to the pipe of a descriptor
  unfoldable pub read_struct : View → Field → ℕ → FieldValue
  unfolding same_string has_part string_token_value token_value audit_token_value stat_value
      statfs_value attrlist_value acl_value read_reference
  read_struct v f place =
      let type = f.type in
      choose
        ((
          same_string type (text "es_string_token_t"),
          string_token_value sdk encoding (sdk.token place),
        )
          ∷ (
            same_string type (text "es_string_token_t *"),
            if_not_null place (λ token. string_token_value sdk encoding (sdk.token token)),
          )
          ∷ (same_string type (text "es_token_t"), token_value sdk encoding (sdk.token place))
          ∷ (same_string type (text "audit_token_t"), audit_token_value sdk encoding place)
          ∷ (
            same_string type (text "audit_token_t *"),
            if_not_null place (audit_token_value sdk encoding),
          )
          ∷ (same_string type (text "struct stat"), stat_value sdk encoding place)
          ∷ (
            same_string type (text "struct statfs *"),
            if_not_null place (statfs_value sdk encoding),
          )
          ∷ (same_string type (text "struct attrlist"), attrlist_value sdk encoding place)
          ∷ (
            same_string type (text "struct timespec"),
            time (sdk.timespec place).0 (sdk.timespec place).1,
          )
          ∷ (
            same_string type (text "struct timeval"),
            time (sdk.timeval place).0 (thousand (sdk.timeval place).1),
          )
          ∷ (
            same_string type (text "bool") || same_string type (text "_Bool"),
            boolean (not (unsigned_at 1 place == 0)),
          )
          ∷ (has_part type (text "[20]"), string ascii8bit (sdk.bytes place 20))
          ∷ (
            same_string type (text "es_sha256_t *"),
            if_not_null place (λ sha256. string ascii8bit (sdk.bytes sha256 32)),
          )
          ∷ (same_string type (text "struct _acl *"), acl_value sdk encoding (pointer_at place))
          ∷ (
            same_string v.schema.name (text "es_fd_t") && same_string f.name (text "pipe"),
            pipe_value v,
          )
          ∷ [])
        (read_reference v type place)

  -- read_field once it has the address
  unfoldable pub field_value : View → Field → ℕ → FieldValue
  unfolding starts_with has_char read_union read_array read_struct
  field_value v f place =
      if starts_with f.type (text "union ")
      then or_else (read_union schemas sdk encoding v f) nil
      else if has_char f.type 42
      then or_else (read_array schemas sdk encoding v f) (read_struct v f place)
      else read_struct v f place

  -- read_field; none is Qundef.
  unfoldable pub read_field : Objects → View → CString → Result (Option FieldValue)
  unfolding access field_value
  read_field objects v name = elim (access objects v name) [
    | raised e ↦ raised e
    | returned no_field ↦ returned none
    | returned unavailable ↦ returned (some nil)
    | returned (address f place) ↦ returned (some (field_value v f place))
  ]

  -- exec_values
  unfoldable pub exec_values : Objects → View → CString → Result FieldValue
  unfolding get_view same_string each string_token_value nested
  exec_values objects v kind =
      let strings : ℕ × (ℕ → Token) → FieldValue = λ tokens.
        array (each tokens.0 0 (λ index. string_token_value sdk encoding (tokens.1 index))) in
      let fds = sdk.exec_fds v.pointer in
      let value =
        if not (same_string v.schema.name (text "es_event_exec_t"))
        then nil
        else if same_string kind (text "args")
        then strings (sdk.exec_args v.pointer)
        else if same_string kind (text "env")
        then strings (sdk.exec_env v.pointer)
        else if same_string kind (text "fds")
        then array (each fds.0 0 (λ index. nested schemas v (fds.1 index) (text "es_fd_t")))
        else nil in
      elim (get_view objects v) [ raised e ↦ raised e | returned w ↦ returned value ]
