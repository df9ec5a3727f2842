-- ===== src/Field/Inherit.antt =====
-- ext/endpoint_security/field.c, read_field: the views inside of the values of one struct.
use endpoint_security.Base.{
  ℕ, zero, suc, ◌+◌, ◌*◌, ◌≡◌, ◌≢◌, refl, Option, none, some, List, [], ◌∷◌, arith,
}
use endpoint_security.Field.{CString, Schema, View, view_wrap}
use endpoint_security.Field.Value.{
  ℤ, Encoding, FieldValue, nil, boolean, number, string, time, view, tagged, enumeration, array,
  hash, object, Items, no_items, item, Entries, no_entries, entry, each, Token, Counted,
  OptionalUid, Sdk,
}
use endpoint_security.Field.Convert.{
  wrapped, nested, items_of, times_of, string_token_value, token_value, acl_value, uid_union,
  string_array, audit_token_value, stat_value, statfs_value, attrlist_value,
}

-- A view into the same message under the same rules, at an address that is not NULL
abbrev pub Same : View → View → Type 0
Same v w =
    (w.owner ≡ v.owner)
    × (w.message_version ≡ v.message_version)
    × (w.strict_version ≡ v.strict_version)
    × (w.pointer ≢ 0)

-- Every view in a value is one into the message of `v`.
abbrev mutual
  pub Inherits : View → FieldValue → Type 0
  Inherits v (view class w) = Same v w
  Inherits v (tagged kind x) = Inherits v x
  Inherits v (array xs) = InheritsAll v xs
  Inherits v (hash es) = InheritsEntries v es
  Inherits v (object class xs) = InheritsAll v xs
  Inherits v nil = Unit
  Inherits v (boolean b) = Unit
  Inherits v (number n) = Unit
  Inherits v (string e s) = Unit
  Inherits v (time s n) = Unit
  Inherits v (enumeration t n) = Unit

  pub InheritsAll : View → Items → Type 0
  InheritsAll v no_items = Unit
  InheritsAll v (item x xs) = Inherits v x × InheritsAll v xs

  pub InheritsEntries : View → Entries → Type 0
  InheritsEntries v no_entries = Unit
  InheritsEntries v (entry name x es) = Inherits v x × InheritsEntries v es

pub each-Inherits :
    (v : View) (left index : ℕ) (f : ℕ → FieldValue)
    → ((i : ℕ) → Inherits v (f i))
    → InheritsAll v (each left index f)
unfolding each
each-Inherits v zero index f h = tt
each-Inherits v (suc left) index f h = (h index, each-Inherits v left (suc index) f h)

view_wrap-Same :
    (schemas : List Schema) (v : View) (pointer : ℕ) (schema : CString) (w : View)
    → view_wrap schemas v.owner pointer schema v.message_version v.strict_version ≡ some w
    → Same v w
unfolding view_wrap
view_wrap-Same schemas v pointer schema w e = ground arith

wrapped-Inherits :
    (v : View) (schema : CString) (r : Option View)
    → ((w : View) → r ≡ some w → Same v w)
    → Inherits v (wrapped schema r)
unfolding wrapped
wrapped-Inherits v schema none h = tt
wrapped-Inherits v schema (some w) h = h w refl

pub nested-Inherits :
    (schemas : List Schema) (v : View) (pointer : ℕ) (schema : CString)
    → Inherits v (nested schemas v pointer schema)
unfolding nested
nested-Inherits schemas v pointer schema =
    wrapped-Inherits v schema
      (view_wrap schemas v.owner pointer schema v.message_version v.strict_version)
      (view_wrap-Same schemas v pointer schema)

items_of-Inherits :
    (v : View) (numbers : List ℤ) (rest : Items)
    → InheritsAll v rest
    → InheritsAll v (items_of numbers rest)
unfolding items_of
items_of-Inherits v [] rest h = h
items_of-Inherits v (n ∷ numbers) rest h = (tt, items_of-Inherits v numbers rest h)

times_of-Inherits : (v : View) (times : List (ℤ × ℤ)) → InheritsAll v (times_of times)
unfolding times_of
times_of-Inherits v [] = tt
times_of-Inherits v ((s, n) ∷ times) = (tt, times_of-Inherits v times)

module _ (sdk : Sdk) (encoding : Encoding) (v : View) where
  pub string_token_value-Inherits :
      (token : Token) → Inherits v (string_token_value sdk encoding token)
  unfolding string_token_value
  string_token_value-Inherits token = ground arith

  pub token_value-Inherits : (token : Token) → Inherits v (token_value sdk encoding token)
  unfolding token_value
  token_value-Inherits token = ground arith

  pub uid_union-Inherits : (u : OptionalUid) → Inherits v (uid_union sdk encoding u)
  unfolding uid_union
  uid_union-Inherits u = ground arith

  pub string_array-Inherits : (tokens : Counted) → Inherits v (string_array sdk encoding tokens)
  unfolding string_array
  string_array-Inherits tokens =
      let all =
        each-Inherits v tokens.count 0
          (λ index.
            string_token_value sdk encoding (sdk.token (tokens.first + index * sdk.token_size)))
          (λ index.
            string_token_value-Inherits (sdk.token (tokens.first + index * sdk.token_size))) in
      ground (arith, all)

  pub audit_token_value-Inherits :
      (address : ℕ) → Inherits v (audit_token_value sdk encoding address)
  unfolding audit_token_value
  audit_token_value-Inherits address = items_of-Inherits v (sdk.audit_token address) no_items tt

  pub attrlist_value-Inherits : (address : ℕ) → Inherits v (attrlist_value sdk encoding address)
  unfolding attrlist_value
  attrlist_value-Inherits address = items_of-Inherits v (sdk.attrlist address) no_items tt

  pub stat_value-Inherits : (address : ℕ) → Inherits v (stat_value sdk encoding address)
  unfolding stat_value
  stat_value-Inherits address =
      items_of-Inherits v (sdk.stat address).numbers (times_of (sdk.stat address).times)
        (times_of-Inherits v (sdk.stat address).times)

  pub statfs_value-Inherits : (address : ℕ) → Inherits v (statfs_value sdk encoding address)
  unfolding statfs_value
  statfs_value-Inherits address = items_of-Inherits v (sdk.statfs address).before_fsid _ (
    (tt, (tt, tt)),
    items_of-Inherits v (sdk.statfs address).after_fsid _ (tt, (tt, (tt, (tt, tt)))),
  )

  pub acl_value-Inherits : (acl : ℕ) → Inherits v (acl_value sdk encoding acl)
  unfolding acl_value
  acl_value-Inherits acl = ground arith
