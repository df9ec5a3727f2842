-- ===== src/Field/Value.antt =====
-- ext/endpoint_security/field.c: the Ruby values that the fields of an event become, and what the
-- framework's structs hold.
use endpoint_security.Base.{ℕ, zero, suc, Bool, List}
use endpoint_security.Field.{CString, View}

-- An integer over the native numbers; `negsuc n` is -(n + 1).
pub data ℤ : Type 0 where
  pos negsuc : ℕ → ℤ

pub data Encoding : Type 0 where
  utf8 ascii8bit : Encoding

-- The classes of views
pub data ViewClass : Type 0 where
  process_class file_class thread_class event_class native_view_class : ViewClass

mutual
  pub data FieldValue : Type 0 where
    nil : FieldValue
    boolean : Bool → FieldValue
    number : ℤ → FieldValue
    string : Encoding → List ℕ → FieldValue
    time : ℤ → ℤ → FieldValue
    view : ViewClass → View → FieldValue
    tagged : CString → FieldValue → FieldValue
    enumeration : CString → ℤ → FieldValue
    array : Items → FieldValue
    hash : Entries → FieldValue
    object : CString → Items → FieldValue

  pub data Items : Type 0 where
    no_items : Items
    item : FieldValue → Items → Items

  pub data Entries : Type 0 where
    no_entries : Entries
    entry : CString → FieldValue → Entries → Entries

-- A loop that pushes a value for every index
unfoldable pub each : ℕ → ℕ → (ℕ → FieldValue) → Items
each zero index f = no_items
each (suc left) index f = item (f index) (each left (suc index) f)

-- es_string_token_t, es_token_t
pub record Token : Type 0 where
  pub length : ℕ
  pub data_pointer : ℕ

-- What the SDK's structs have in the members that the C code reads, by the address of the struct;
-- the layout of a struct is the compiler's. The functions of the SDK that it calls on an event or
-- an ACL follow.
pub data DestinationType : Type 0 where
  existing_file new_path other_destination : DestinationType

pub record Destination : Type 0 where
  pub type : DestinationType
  pub existing : ℕ
  pub dir : ℕ
  pub filename : Token
  pub mode : ℕ

pub record OptionalUid : Type 0 where
  pub available : Bool
  pub uid : ℕ

pub data AuthenticationType : Type 0 where
  by_od by_touchid by_token by_auto_unlock other_authentication : AuthenticationType

pub record Authentication : Type 0 where
  pub type : AuthenticationType
  pub data_pointer : ℕ

pub data MemberType : Type 0 where
  user_name user_uuid group_uuid other_member : MemberType

pub record Member : Type 0 where
  pub type : MemberType
  pub name : Token
  pub uuid : ℕ

pub record Members : Type 0 where
  pub type : MemberType
  pub count : ℕ
  pub names : ℕ
  pub uuids : ℕ

pub data OverrideFileType : Type 0 where
  override_path override_file other_override : OverrideFileType

pub record OverrideFile : Type 0 where
  pub type : OverrideFileType
  pub path : Token
  pub file : ℕ

pub data SetOrClear : Type 0 where
  acl_set acl_clear other_acl : SetOrClear

pub record SetAcl : Type 0 where
  pub set_or_clear : SetOrClear
  pub acl : ℕ

-- A pointer and the number of elements that it points at
pub record Counted : Type 0 where
  pub first : ℕ
  pub count : ℕ

-- The members of an audit token, struct stat, struct statfs and struct attrlist, in the order in
-- which they are handed to Ruby
pub record Stat : Type 0 where
  pub numbers : List ℤ
  pub times : List (ℤ × ℤ)

pub record Statfs : Type 0 where
  pub before_fsid : List ℤ
  pub fsid : ℤ × ℤ
  pub after_fsid : List ℤ
  pub fstypename : List ℕ
  pub mntonname : List ℕ
  pub mntfromname : List ℕ
  pub flags_ext : ℤ

pub record Sdk : Type 0 where
  pub bytes : ℕ → ℕ → List ℕ
  pub token : ℕ → Token
  pub token_size : ℕ
  pub destination_of_create : ℕ → Destination
  pub destination_of_rename : ℕ → Destination
  pub uid_of_touchid : ℕ → OptionalUid
  pub uid_of_openssh_login : ℕ → OptionalUid
  pub uid_of_login_login : ℕ → OptionalUid
  pub to_uid_of_su : ℕ → OptionalUid
  pub from_uid_of_sudo : ℕ → OptionalUid
  pub to_uid_of_sudo : ℕ → OptionalUid
  pub authentication : ℕ → Authentication
  pub member : ℕ → Member
  pub members : ℕ → Members
  pub override_of_gatekeeper : ℕ → OverrideFile
  pub setacl : ℕ → SetAcl
  pub argv_of_su : ℕ → Counted
  pub env_of_su : ℕ → Counted
  pub rights_of_petition : ℕ → Counted
  pub values_of_attribute_set : ℕ → Counted
  pub results_of_judgement : ℕ → Counted
  pub result_size : ℕ
  pub audit_token : ℕ → List ℤ
  pub stat : ℕ → Stat
  pub statfs : ℕ → Statfs
  pub attrlist : ℕ → List ℤ
  pub timespec : ℕ → ℤ × ℤ
  pub timeval : ℕ → ℤ × ℤ
  pub is_pipe : ℕ → Bool
  pub pipe_id : ℕ → ℕ
  pub acl_size : ℕ → ℤ
  pub acl_copy_ext : ℕ → ℤ × List ℕ
  pub exec_args : ℕ → ℕ × (ℕ → Token)
  pub exec_env : ℕ → ℕ × (ℕ → Token)
  pub exec_fds : ℕ → ℕ × (ℕ → ℕ)
