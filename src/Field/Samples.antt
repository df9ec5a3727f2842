-- ===== src/Field/Samples.antt =====
-- A memory for the tests: what the SDK's structs hold.
use endpoint_security.Base.{ℕ, false, List, [], ◌∷◌}
use endpoint_security.Field.Value.{
  pos, Sdk, Token, existing_file, other_authentication, user_name, override_path, acl_clear,
}

-- Every struct holds zeros, but `bytes` gives the address 5 wherever it reads.
abbrev no_token : Token
no_token = record { length = 0; data_pointer = 0 }

abbrev pub sdk_of : (ℕ → ℕ → List ℕ) → Sdk
sdk_of bytes = record {
  bytes = bytes;
  token = λ p. no_token;
  token_size = 16;
  destination_of_create =
      λ p. record { type = existing_file; existing = 7; dir = 0; filename = no_token; mode = 0 };
  destination_of_rename =
      λ p. record { type = existing_file; existing = 7; dir = 0; filename = no_token; mode = 0 };
  uid_of_touchid = λ p. record { available = false; uid = 0 };
  uid_of_openssh_login = λ p. record { available = false; uid = 0 };
  uid_of_login_login = λ p. record { available = false; uid = 0 };
  to_uid_of_su = λ p. record { available = false; uid = 0 };
  from_uid_of_sudo = λ p. record { available = false; uid = 0 };
  to_uid_of_sudo = λ p. record { available = false; uid = 0 };
  authentication = λ p. record { type = other_authentication; data_pointer = 0 };
  member = λ p. record { type = user_name; name = no_token; uuid = 0 };
  members = λ p. record { type = user_name; count = 0; names = 0; uuids = 0 };
  override_of_gatekeeper = λ p. record { type = override_path; path = no_token; file = 0 };
  setacl = λ p. record { set_or_clear = acl_clear; acl = 0 };
  argv_of_su = λ p. record { first = 0; count = 0 };
  env_of_su = λ p. record { first = 0; count = 0 };
  rights_of_petition = λ p. record { first = 0; count = 0 };
  values_of_attribute_set = λ p. record { first = 0; count = 0 };
  results_of_judgement = λ p. record { first = 0; count = 0 };
  result_size = 40;
  audit_token = λ p. [];
  stat = λ p. record { numbers = []; times = [] };
  statfs = λ p. record {
    before_fsid = [];
    fsid = (pos 0, pos 0);
    after_fsid = [];
    fstypename = [];
    mntonname = [];
    mntfromname = [];
    flags_ext = pos 0;
  };
  attrlist = λ p. [];
  timespec = λ p. (pos 0, pos 0);
  timeval = λ p. (pos 0, pos 0);
  is_pipe = λ p. false;
  pipe_id = λ p. 0;
  acl_size = λ p. pos 0;
  acl_copy_ext = λ p. (pos 0, []);
  exec_args = λ p. (0, λ i. no_token);
  exec_env = λ p. (0, λ i. no_token);
  exec_fds = λ p. (0, λ i. 0);
}

abbrev pub sdk : Sdk
sdk = sdk_of (λ place n. 5 ∷ [])
