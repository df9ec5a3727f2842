-- ===== src/Field/Convert.antt =====
-- ext/endpoint_security/field.c: the conversions of one struct of the framework, and of a counted array.
use endpoint_security.Base.{
  ℕ, ◌+◌, ◌-◌, ◌*◌, ◌^◌, Option, none, some, List, [], ◌∷◌, ltb, ◌==◌, if◌then◌else◌, u32_max,
}
use endpoint_security.Base.Lists.{take}
use endpoint_security.Field.{CString, same_string, Schema, View, view_wrap}
use endpoint_security.Field.Text.{text, starts_with}
use endpoint_security.Field.Value.{
  ℤ, pos, negsuc, Encoding, ascii8bit, ViewClass, process_class, file_class, thread_class,
  event_class, native_view_class, FieldValue, nil, number, string, time, view, tagged, array,
  object, Items, no_items, item, each, Token, OptionalUid, Counted, Sdk,
}

-- An integer in memory, the lowest byte first, and the same in two's complement
unfoldable pub unsigned_of : List ℕ → ℕ
unsigned_of [] = 0
unsigned_of (b ∷ bytes) = b + 256 * unsigned_of bytes

abbrev pub signed_of : ℕ → ℕ → ℤ
signed_of width n = if ltb n (2 ^ (8 * width - 1)) then pos n else negsuc (2 ^ (8 * width) - n - 1)

-- class_for_schema
unfoldable pub class_for_schema : CString → ViewClass
unfolding same_string starts_with
class_for_schema schema =
    if same_string schema (text "es_process_t")
    then process_class
    else if same_string schema (text "es_file_t")
    then file_class
    else if same_string schema (text "es_thread_t")
    then thread_class
    else if starts_with schema (text "es_event_")
    then event_class
    else native_view_class

-- What esrb_view_wrap gives Ruby
unfoldable pub wrapped : CString → Option View → FieldValue
unfolding class_for_schema
wrapped schema none = nil
wrapped schema (some v) = view (class_for_schema schema) v

-- esrb_view_wrap for the owner and the version of another view
unfoldable pub nested : List Schema → View → ℕ → CString → FieldValue
unfolding wrapped view_wrap
nested schemas v pointer schema =
    wrapped schema (view_wrap schemas v.owner pointer schema v.message_version v.strict_version)

abbrev pub long_max : ℕ
long_max = 2 ^ 63 - 1

-- The bytes up to the first 0: strnlen and rb_str_new
unfoldable pub until_nul : List ℕ → List ℕ
until_nul [] = []
until_nul (b ∷ bytes) = let rest = until_nul bytes in if b == 0 then [] else b ∷ rest

unfoldable pub items_of : List ℤ → Items → Items
items_of [] rest = rest
items_of (n ∷ numbers) rest = item (number n) (items_of numbers rest)

unfoldable pub times_of : List (ℤ × ℤ) → Items
times_of [] = no_items
times_of ((seconds, nanoseconds) ∷ times) = item (time seconds nanoseconds) (times_of times)

module _ (sdk : Sdk) (encoding : Encoding) where
  abbrev pub token_bytes : Token → List ℕ
  token_bytes token =
      if token.data_pointer == 0 then [] else sdk.bytes token.data_pointer token.length

  -- esrb_string_token_value; `encoding` is EndpointSecurity.string_encoding.
  unfoldable pub string_token_value : Token → FieldValue
  string_token_value token =
      if ltb long_max token.length then nil else string encoding (token_bytes token)

  -- read_field on an es_token_t
  unfoldable pub token_value : Token → FieldValue
  token_value token =
      if ltb long_max token.length then nil else string ascii8bit (token_bytes token)

  -- acl_value
  unfoldable pub acl_value : ℕ → FieldValue
  acl_value acl =
      let value : FieldValue = elim (sdk.acl_copy_ext acl).0 [
        | pos copied ↦ string ascii8bit (take copied (sdk.acl_copy_ext acl).1)
        | negsuc _ ↦ nil
      ] in
      let sized : FieldValue = elim (sdk.acl_size acl) [
        | pos size ↦ if size == 0 then nil else value
        | negsuc _ ↦ nil
      ] in
      if acl == 0 then nil else sized

  -- uid_union
  unfoldable pub uid_union : OptionalUid → FieldValue
  uid_union u =
      if u.available
      then tagged (text "uid") (number (pos u.uid))
      else tagged (text "unavailable") nil

  -- string_array
  unfoldable pub string_array : Counted → FieldValue
  unfolding each string_token_value
  string_array tokens =
      if tokens.first == 0
      then array no_items
      else if ltb u32_max tokens.count
      then array no_items
      else array (
          each tokens.count 0
            (λ index. string_token_value (sdk.token (tokens.first + index * sdk.token_size))))

  -- audit_token_value, stat_value, statfs_value, attrlist_value
  unfoldable pub audit_token_value : ℕ → FieldValue
  unfolding items_of
  audit_token_value address =
      object (text "AuditToken") (items_of (sdk.audit_token address) no_items)

  unfoldable pub stat_value : ℕ → FieldValue
  unfolding items_of times_of
  stat_value address =
      let stat = sdk.stat address in
      object (text "Stat") (items_of stat.numbers (times_of stat.times))

  unfoldable pub statfs_value : ℕ → FieldValue
  unfolding items_of until_nul
  statfs_value address =
      let statfs = sdk.statfs address in
      let (first, second) = statfs.fsid in
      object (text "Statfs") (
        items_of statfs.before_fsid (
          item (array (item (number first) (item (number second) no_items))) (
            items_of statfs.after_fsid (
              item (string ascii8bit (until_nul statfs.fstypename)) (
                item (string ascii8bit (until_nul statfs.mntonname)) (
                  item (string ascii8bit (until_nul statfs.mntfromname))
                    (item (number statfs.flags_ext) no_items)))))))

  unfoldable pub attrlist_value : ℕ → FieldValue
  unfolding items_of
  attrlist_value address = object (text "Attrlist") (items_of (sdk.attrlist address) no_items)
