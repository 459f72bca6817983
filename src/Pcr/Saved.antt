-- ===== src/Pcr/Saved.antt =====
-- How the registers go into the state file and come back, src/tpm/core/pcr.rs.
use swtrust.Base.{
  ℕ, zero, suc, ◌+◌, ◌%◌, ◌^◌, Option, none, some, List, [], ◌∷◌, ◌==◌, if◌then◌else◌, length,
  get_elem?, set,
}
use swtrust.Base.Maps.{Map, lookup, insert}
use swtrust.Error.{TpmResult, ok, err}
use swtrust.Marshal.Read.{Read, Reader, ◌>>=◌, pure, read, read_u16, read_u32}
use swtrust.Marshal.Write.{Writer, sized16, write_u16, write_u32}
use swtrust.Pcr.Banks.{PcrBanks}

abbrev marshal_registers : List (List ℕ) → Writer → Writer
marshal_registers [] w = w
marshal_registers (v ∷ vs) w = marshal_registers vs (sized16 v w)

abbrev marshal_banks : Map (List (List ℕ)) → Writer → Writer
marshal_banks [] w = w
marshal_banks ((a, bank) ∷ m) w =
    marshal_banks m (marshal_registers bank (write_u32 (length bank % 2 ^ 32) (write_u16 a w)))

unfoldable pub marshal_values : PcrBanks → Writer → Writer
marshal_values b w = marshal_banks b.banks (write_u32 (length b.banks % 2 ^ 32) w)

-- A value goes into a register that is there and has its size, and is discarded if none does.
abbrev put_slot : ℕ → ℕ → List ℕ → List (List ℕ) → PcrBanks → Option (List ℕ) → PcrBanks
put_slot a index value bank b none = b
put_slot a index value bank b (some slot) =
    if length slot == length value
    then record b { banks = insert a (set bank index value) b.banks }
    else b

abbrev put_bank : ℕ → ℕ → List ℕ → PcrBanks → Option (List (List ℕ)) → PcrBanks
put_bank a index value b none = b
put_bank a index value b (some bank) = put_slot a index value bank b (get_elem? bank index)

unfoldable pub restore_value : ℕ → ℕ → List ℕ → PcrBanks → PcrBanks
restore_value a index value b = put_bank a index value b (lookup a b.banks)

-- The loops, `left` rounds of each. What was restored before an error stays, so that the banks are
-- returned beside the result: the last component of the answer.
abbrev pub Restored : Type 0
Restored = (TpmResult (Unit {0}) × Reader) × PcrBanks

-- One register: its size, and its octets.
abbrev read_value : Read (List ℕ)
read_value = do size ← read_u16; read size

abbrev next_register :
    (List ℕ → Reader → Restored) → PcrBanks → TpmResult (List ℕ) × Reader → Restored
next_register more b (err e, r) = ((err e, r), b)
next_register more b (ok value, r) = more value r

unfoldable pub unmarshal_registers : ℕ → ℕ → ℕ → Reader → PcrBanks → Restored
unmarshal_registers a index zero r b = ((ok tt, r), b)
unmarshal_registers a index (suc left) r b =
    let more = λ (value : List ℕ) (r' : Reader).
      unmarshal_registers a (index + 1) left r' (restore_value a index value b) in
    next_register more b (read_value r)

-- The head of a bank: its algorithm, and the number of its registers.
abbrev read_head : Read (ℕ × ℕ)
read_head = do hash_alg ← read_u16; count ← read_u32; pure (hash_alg, count)

abbrev next_bank : (ℕ → ℕ → Reader → Restored) → PcrBanks → TpmResult (ℕ × ℕ) × Reader → Restored
next_bank more b (err e, r) = ((err e, r), b)
next_bank more b (ok (a, count), r) = more a count r

abbrev and_then : (Reader → PcrBanks → Restored) → Restored → Restored
and_then more ((err e, r), b) = ((err e, r), b)
and_then more ((ok u, r), b) = more r b

unfoldable pub unmarshal_banks : ℕ → Reader → PcrBanks → Restored
unmarshal_banks zero r b = ((ok tt, r), b)
unmarshal_banks (suc left) r b =
    let more = λ (a count : ℕ) (r' : Reader).
      and_then (λ (r2 : Reader) (b2 : PcrBanks). unmarshal_banks left r2 b2)
        (unmarshal_registers a 0 count r' b) in
    next_bank more b (read_head r)

abbrev from_count : PcrBanks → TpmResult ℕ × Reader → Restored
from_count b (err e, r) = ((err e, r), b)
from_count b (ok count, r) = unmarshal_banks count r b

unfoldable pub unmarshal_values : Reader → PcrBanks → Restored
unmarshal_values r b = from_count b (read_u32 r)
