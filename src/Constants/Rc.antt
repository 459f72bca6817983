-- ===== src/Constants/Rc.antt =====
-- The response codes, `mod rc` of src/tpm/constants.rs.
use swtrust.Base.{ℕ}

abbrev pub success : ℕ
success = 0

-- format-zero codes: RC_VER1 + n
abbrev pub failure : ℕ
failure = 0x101

abbrev pub nv_range : ℕ
nv_range = 0x146

abbrev pub nv_uninitialized : ℕ
nv_uninitialized = 0x14a

abbrev pub nv_space : ℕ
nv_space = 0x14b

abbrev pub nv_defined : ℕ
nv_defined = 0x14c

abbrev pub no_result : ℕ
no_result = 0x154

abbrev pub policy_code : ℕ
policy_code = 0x126

abbrev pub pcr_changed : ℕ
pcr_changed = 0x128

abbrev pub too_many_contexts : ℕ
too_many_contexts = 0x12e

abbrev pub cphash : ℕ
cphash = 0x151

-- format-one codes: RC_FMT1 + n
abbrev pub rc_fmt1 : ℕ
rc_fmt1 = 0x80

abbrev pub attributes : ℕ
attributes = 0x82

abbrev pub hash : ℕ
hash = 0x83

abbrev pub value : ℕ
value = 0x84

abbrev pub mode : ℕ
mode = 0x89

abbrev pub handle : ℕ
handle = 0x8b

abbrev pub range : ℕ
range = 0x8d

abbrev pub size : ℕ
size = 0x95

abbrev pub symmetric : ℕ
symmetric = 0x96

abbrev pub selector : ℕ
selector = 0x98

abbrev pub insufficient : ℕ
insufficient = 0x9a

abbrev pub reserved_bits : ℕ
reserved_bits = 0xa1

abbrev pub svn_limited : ℕ
svn_limited = 0xa9

-- warnings: RC_WARN + n
abbrev pub context_gap : ℕ
context_gap = 0x901

abbrev pub session_memory : ℕ
session_memory = 0x903

abbrev pub session_handles : ℕ
session_handles = 0x905

abbrev pub locality : ℕ
locality = 0x907

-- position qualifiers
abbrev pub h : ℕ
h = 0x000

abbrev pub p : ℕ
p = 0x040

abbrev pub s : ℕ
s = 0x800

abbrev pub lockout : ℕ
lockout = 0x921
