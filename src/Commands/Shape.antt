-- ===== src/Commands/Shape.antt =====
-- What every row of the command table keeps. src/tpm/commands/table.rs.
use swtrust.Base.{
  ℕ, ◌%◌, ◌^◌, ◌≤◌, ◌≡◌, refl, Bool, true, false, not, ◌&&◌, some, List, [], ◌∷◌, ◌==◌, leb, arith,
  leb→le, ==→eq, ap, ◌∙◌,
}
use swtrust.Structures.Attributes.{has}
use swtrust.Commands.Table.{
  CommandInfo, commands, find_code, lookup, attributes, command_index, handles_of,
}

abbrev same : Bool → Bool → Bool
same true b = b
same false b = not b

-- A row as a test: its handle counts, and its attribute word read back.
checks : CommandInfo → Bool
checks c =
    leb c.auth_handles c.handles
    && leb c.handles 3
    && command_index (attributes c) == c.code % 2 ^ 16
    && handles_of (attributes c) == c.handles
    && same (has (attributes c) 22) c.nv
    && same (has (attributes c) 23) c.extensive
    && same (has (attributes c) 24) c.flushed
    && same (has (attributes c) 28) c.response_handle

all_check : List CommandInfo → Bool
all_check [] = true
all_check (c ∷ cs) = checks c && all_check cs

table_checks : all_check commands ≡ true
unfolding all_check checks commands attributes command_index handles_of has
table_checks = refl

found_checks :
    (code : ℕ) (cs : List CommandInfo) (info : CommandInfo)
    → all_check cs ≡ true
    → find_code code cs ≡ some info
    → (info.code ≡ code) × (checks info ≡ true)
unfolding all_check
found_checks code [] info h e = cc
found_checks code (c ∷ cs) info h e = ground (arith, found_checks code cs info)

same_eq : (a b : Bool) → same a b ≡ true → a ≡ b
same_eq true b h = ground arith
same_eq false b h = ground arith

all_true :
    (a b c d e f g h : Bool)
    → (a && b && c && d && e && f && g && h) ≡ true
    → (a ≡ true)
      × (b ≡ true)
      × (c ≡ true)
      × (d ≡ true)
      × (e ≡ true)
      × (f ≡ true)
      × (g ≡ true)
      × (h ≡ true)
all_true a b c d e f g h p = ground arith

-- A command that is looked up is the one with the code asked for. It has at most three handles, and no
-- more of them carry an authorization than there are; and the attribute word that is reported for it
-- gives back the lower sixteen bits of its code, its number of handles and its four flags.
pub lookup_shape :
    (code : ℕ) (info : CommandInfo)
    → lookup code ≡ some info
    → (info.code ≡ code)
      × (info.auth_handles ≤ info.handles)
      × (info.handles ≤ 3)
      × (command_index (attributes info) ≡ code % 2 ^ 16)
      × (handles_of (attributes info) ≡ info.handles)
      × (has (attributes info) 22 ≡ info.nv)
      × (has (attributes info) 23 ≡ info.extensive)
      × (has (attributes info) 24 ≡ info.flushed)
      × (has (attributes info) 28 ≡ info.response_handle)
unfolding lookup checks
lookup_shape code info e =
    let (right, tests) = found_checks code commands info table_checks e in
    let word = attributes info in
    let (few, three, index, count, nv, extensive, flushed, response) =
      all_true (leb info.auth_handles info.handles) (leb info.handles 3)
        (command_index word == info.code % 2 ^ 16) (handles_of word == info.handles)
        (same (has word 22) info.nv) (same (has word 23) info.extensive)
        (same (has word 24) info.flushed) (same (has word 28) info.response_handle) tests in
    (
      right,
      leb→le _ _ few,
      leb→le _ _ three,
      ==→eq _ _ index ∙ ap (λ (c : ℕ). c % 2 ^ 16) right,
      ==→eq _ _ count,
      same_eq _ _ nv,
      same_eq _ _ extensive,
      same_eq _ _ flushed,
      same_eq _ _ response,
    )
