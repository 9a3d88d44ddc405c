-- ===== src/Wire/Flags.antt =====
-- The flag bits above the suite id, in src/wire_payload.rs.
pub mod Laws
use construct_core.Prelude.{ℕ, ◌-◌, bit_and, bit_or, ◌==◌, if◌then◌else◌, Bool, not}

abbrev pub pqxdh_v2_flag : ℕ
pqxdh_v2_flag = 0x0100

abbrev pub kem_identity_flag : ℕ
kem_identity_flag = 0x0200

abbrev pub identity_proof_flag : ℕ
identity_proof_flag = 0x0400

abbrev pub ad_v4_flag : ℕ
ad_v4_flag = 0x0800

abbrev pub wire_flags : ℕ
wire_flags = bit_or (bit_or (bit_or pqxdh_v2_flag kem_identity_flag) identity_proof_flag) ad_v4_flag

-- `suite_id & !WIRE_FLAGS`, on a `u16`.
abbrev pub strip_flags : ℕ → ℕ
strip_flags w = bit_and w (0xffff - wire_flags)

-- `if present { w |= flag }` and `w & flag != 0`.
abbrev pub set_flag : Bool → ℕ → ℕ → ℕ
set_flag present flag w = if present then bit_or w flag else w

abbrev pub has_flag : ℕ → ℕ → Bool
has_flag w flag = not (bit_and w flag == 0)

-- The wire's suite id, from the stripped suite and what is present, in the order of the code.
pub wire_suite : (suite : ℕ) (ad_v4 pqxdh identity proof : Bool) → ℕ
wire_suite suite ad_v4 pqxdh identity proof = set_flag proof identity_proof_flag (
    set_flag identity kem_identity_flag
      (set_flag pqxdh pqxdh_v2_flag (set_flag ad_v4 ad_v4_flag suite)))
