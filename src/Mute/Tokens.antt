-- ===== src/Mute/Tokens.antt =====
-- ext/endpoint_security/mute.c: audit tokens between Ruby and C. The accessors of libbsm are a
-- parameter.
use endpoint_security.Base.{ℕ, ◌<◌, ◌≡◌, ltb, if◌then◌else◌, u32_mod}
use endpoint_security.Ruby.{range_error, Result, raised, returned}

-- audit_token_t: `val[0]` to `val[7]`
pub record Token : Type 0 where
  pub val0 : ℕ
  pub val1 : ℕ
  pub val2 : ℕ
  pub val3 : ℕ
  pub val4 : ℕ
  pub val5 : ℕ
  pub val6 : ℕ
  pub val7 : ℕ

-- EndpointSecurity::AuditToken of the Ruby library
pub record AuditToken : Type 0 where
  pub pid : ℕ
  pub pidversion : ℕ
  pub ruid : ℕ
  pub euid : ℕ
  pub rgid : ℕ
  pub egid : ℕ
  pub asid : ℕ
  pub auid : ℕ

-- audit_token_to_pid and the others of libbsm
pub record Bsm : Type 0 where
  pub to_pid : Token → ℕ
  pub to_pidversion : Token → ℕ
  pub to_ruid : Token → ℕ
  pub to_euid : Token → ℕ
  pub to_rgid : Token → ℕ
  pub to_egid : Token → ℕ
  pub to_asid : Token → ℕ
  pub to_auid : Token → ℕ

-- Where libbsm finds them
pub record ReadsToken (bsm : Bsm) : Type 0 where
  pub auid_first : (t : Token) → bsm.to_auid t ≡ t.val0
  pub euid_second : (t : Token) → bsm.to_euid t ≡ t.val1
  pub egid_third : (t : Token) → bsm.to_egid t ≡ t.val2
  pub ruid_fourth : (t : Token) → bsm.to_ruid t ≡ t.val3
  pub rgid_fifth : (t : Token) → bsm.to_rgid t ≡ t.val4
  pub pid_sixth : (t : Token) → bsm.to_pid t ≡ t.val5
  pub asid_seventh : (t : Token) → bsm.to_asid t ≡ t.val6
  pub pidversion_eighth : (t : Token) → bsm.to_pidversion t ≡ t.val7

-- NUM2UINT of a Ruby integer
unfoldable pub num2uint : ℕ → Result ℕ
num2uint n = if ltb n u32_mod then returned n else raised range_error

-- A NUM2UINT, and what is done with its number
unfoldable pub with_uint : ℕ → (ℕ → Result Token) → Result Token
unfolding num2uint
with_uint n next = elim (num2uint n) [ raised e ↦ raised e | returned word ↦ next word ]

unfoldable pub audit_token_from_value : AuditToken → Result Token
unfolding with_uint
audit_token_from_value value = with_uint value.auid (λ val0. with_uint value.euid (λ val1.
    with_uint value.egid (λ val2. with_uint value.ruid (λ val3. with_uint value.rgid (λ val4.
      with_uint value.pid (λ val5. with_uint value.asid (λ val6. with_uint value.pidversion (λ val7.
        returned (record {
          val0 = val0;
          val1 = val1;
          val2 = val2;
          val3 = val3;
          val4 = val4;
          val5 = val5;
          val6 = val6;
          val7 = val7;
        })))))))))

unfoldable pub audit_token_value : Bsm → Token → AuditToken
audit_token_value bsm token = record {
  pid = bsm.to_pid token;
  pidversion = bsm.to_pidversion token;
  ruid = bsm.to_ruid token;
  euid = bsm.to_euid token;
  rgid = bsm.to_rgid token;
  egid = bsm.to_egid token;
  asid = bsm.to_asid token;
  auid = bsm.to_auid token;
}

-- Every number is one of 32 bits.
pub record IsWords (t : Token) : Type 0 where
  pub small0 : t.val0 < u32_mod
  pub small1 : t.val1 < u32_mod
  pub small2 : t.val2 < u32_mod
  pub small3 : t.val3 < u32_mod
  pub small4 : t.val4 < u32_mod
  pub small5 : t.val5 < u32_mod
  pub small6 : t.val6 < u32_mod
  pub small7 : t.val7 < u32_mod

-- The numbers of a token that was converted, in its order
abbrev in_order : AuditToken → Token
in_order value = record {
  val0 = value.auid;
  val1 = value.euid;
  val2 = value.egid;
  val3 = value.ruid;
  val4 = value.rgid;
  val5 = value.pid;
  val6 = value.asid;
  val7 = value.pidversion;
}
