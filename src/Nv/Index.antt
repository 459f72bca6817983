-- ===== src/Nv/Index.antt =====
-- `NvIndex` of src/tpm/core/nv.rs. A method of `&mut NvIndex` returns its result and the Index that
-- it leaves, also where it fails.
use swtrust.Base.{
  ℕ, ◌+◌, ◌-◌, ◌%◌, ◌^◌, Bool, not, ◌&&◌, ◌||◌, Option, none, some, List, [], ◌∷◌, ◌==◌, ltb,
  if◌then◌else◌, length, take, drop, replicate, min, bit_or,
}
use swtrust.Constants.Rc
use swtrust.Error.{TpmResult, ok, err, ◌>>=◌}
use swtrust.Crypto.Hash.{Crypto, digest_parts}
use swtrust.Marshal.Bytes.{to_be_bytes, from_be_bytes}
use swtrust.Marshal.Read.{from_bytes}
use swtrust.Marshal.Write.{to_bytes, copy_from_slice}
use swtrust.Structures.Attributes
use swtrust.Structures.Attributes.{has, with_bit, set_bit}
use swtrust.Structures.Base.{digest_size}
use swtrust.Structures.Nv.{
  NvPublic, nv_public_marshal, NvPinCounterParameters, pin_marshal, pin_unmarshal,
}

pub record NvIndex : Type 0 where
  pub public : NvPublic
  pub auth : List ℕ
  pub octets : List ℕ  -- `data`
  pub read_locked : Bool
  pub write_locked : Bool

abbrev pub Changed : Type 0 → Type 0
Changed A = TpmResult A × NvIndex

abbrev pub with_attributes : ℕ → NvIndex → NvIndex
with_attributes attrs i = record i { public = record (i.public) { attributes = attrs } }

unfoldable pub index_type : NvIndex → ℕ
index_type i = Attributes.index_type i.public.attributes

unfoldable pub written : NvIndex → Bool
written i = has i.public.attributes Attributes.written

unfoldable pub set_written : NvIndex → NvIndex
set_written i = with_attributes (with_bit i.public.attributes Attributes.written) i

unfoldable pub set_read_lock : Bool → NvIndex → NvIndex
set_read_lock locked i =
    with_attributes (set_bit i.public.attributes Attributes.readlocked locked)
      (record i { read_locked = locked })

unfoldable pub set_write_lock : Bool → NvIndex → NvIndex
set_write_lock locked i =
    with_attributes (set_bit i.public.attributes Attributes.writelocked locked)
      (record i { write_locked = locked })

unfoldable pub counter_value : NvIndex → TpmResult ℕ
counter_value i =
    if not (length i.octets == 8) then err Rc.nv_uninitialized else ok (from_be_bytes i.octets)

-- The octets that a write goes into: those of the Index, or zeros where it has none of its size.
abbrev pub sized_data : NvIndex → List ℕ
sized_data i =
    if not (length i.octets == i.public.data_size) then replicate i.public.data_size 0 else i.octets

abbrev pub with_data : List ℕ → NvIndex → NvIndex
with_data d i = record i { octets = d }

-- An offset of 16 bits and a length in memory do not overflow a `usize`.
unfoldable pub write : ℕ → List ℕ → NvIndex → Changed (Unit {0})
write offset value i =
    let size = i.public.data_size in
    if ltb size (offset + length value)
    then (err Rc.nv_range, i)
    else if has i.public.attributes Attributes.writeall && not (length value == size)
    then (err Rc.nv_range, i)
    else (ok tt, set_written (with_data (copy_from_slice (sized_data i) offset value) i))

unfoldable pub read : ℕ → ℕ → NvIndex → TpmResult (List ℕ)
read offset size i =
    if not (written i)
    then err Rc.nv_uninitialized
    else if ltb i.public.data_size (offset + size)
    then err Rc.nv_range
    else if ltb (length i.octets) (offset + size)
    then err Rc.nv_uninitialized
    else ok (take size (drop offset i.octets))

-- The Index with the next value of a counter or bit field.
abbrev pub store_value : NvIndex → TpmResult ℕ → Changed ℕ
store_value i (err e) = (err e, i)
store_value i (ok next) = (ok next, set_written (with_data (to_be_bytes 8 next) i))

-- `wrapping_add(1)` on a written counter, `floor.saturating_add(1)` on one that is not.
unfoldable pub next_value : ℕ → NvIndex → TpmResult ℕ
next_value floor i =
    if written i
    then (do v ← counter_value i; ok ((v + 1) % 2 ^ 64))
    else ok (min (floor + 1) (2 ^ 64 - 1))

unfoldable pub increment : ℕ → NvIndex → Changed ℕ
increment floor i =
    if not (index_type i == Attributes.counter)
    then (err Rc.attributes, i)
    else store_value i (next_value floor i)

unfoldable pub set_bits : ℕ → NvIndex → Changed ℕ
set_bits bits i =
    if not (index_type i == Attributes.bits)
    then (err Rc.attributes, i)
    else store_value i
        (do current ← if written i then counter_value i else ok 0; ok (bit_or current bits))

abbrev pub store_digest : NvIndex → TpmResult (List ℕ) → Changed (List ℕ)
store_digest i (err e) = (err e, i)
store_digest i (ok next) = (ok next, set_written (with_data next i))

abbrev pub extended_from : ℕ → NvIndex → List ℕ
extended_from size i = if written i && (length i.octets == size) then i.octets else replicate size 0

abbrev pub extend_with : Crypto → List ℕ → NvIndex → Option ℕ → Changed (List ℕ)
extend_with c value i none = (err Rc.hash, i)
extend_with c value i (some size) =
    store_digest i (digest_parts c i.public.name_alg (extended_from size i ∷ value ∷ []))

unfoldable pub extend : Crypto → List ℕ → NvIndex → Changed (List ℕ)
extend c value i =
    if not (index_type i == Attributes.extend)
    then (err Rc.attributes, i)
    else extend_with c value i (digest_size c.strict i.public.name_alg)

abbrev pub is_pin : NvIndex → Bool
is_pin i = (index_type i == Attributes.pin_fail) || (index_type i == Attributes.pin_pass)

-- `map_err(|_| NV_UNINITIALIZED)`
abbrev pub or_uninitialized : {A : Type 0} → TpmResult A → TpmResult A
or_uninitialized (ok a) = ok a
or_uninitialized (err e) = err Rc.nv_uninitialized

unfoldable pub pin_counters : NvIndex → TpmResult NvPinCounterParameters
pin_counters i =
    if not (is_pin i)
    then err Rc.attributes
    else if not (written i)
    then ok (record { pin_count = 0; pin_limit = 0 })
    else or_uninitialized (from_bytes pin_unmarshal i.octets)

unfoldable pub set_pin_counters : NvPinCounterParameters → NvIndex → Changed (Unit {0})
set_pin_counters p i =
    if not (is_pin i)
    then (err Rc.attributes, i)
    else (ok tt, set_written (with_data (to_bytes (pin_marshal p)) i))

unfoldable pub footprint : NvIndex → ℕ
footprint i = length (to_bytes (nv_public_marshal i.public)) + length i.auth + i.public.data_size
