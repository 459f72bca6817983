-- ===== src/Tests/Storage.antt =====
-- NV Indices.
use swtrust.Base.{ℕ, ◌≡◌, refl, true, false, List, [], ◌∷◌, arith, subst}
use swtrust.Base.Maps.{lookup, insert, remove, contains_key}
use swtrust.Constants.Alg
use swtrust.Error.{ok}
use swtrust.Marshal.Bytes.{to_be_bytes, from_be_bytes}
use swtrust.Marshal.Write.{to_bytes, new, write_u16, write_u32, sized16, bytes, copy_from_slice}
use swtrust.Structures.Attributes.{has, with_bit, attributes_marshal}
use swtrust.Structures.Attributes
use swtrust.Structures.Base.{tpm2b_marshal}
use swtrust.Structures.Nv.{nv_public_marshal}
use swtrust.Nv.Index.{
  NvIndex, written, set_written, write, read, next_value, counter_value, footprint,
}
use swtrust.Nv.Index
use swtrust.Nv.Access.{write-read}
use swtrust.Nv.Store
use swtrust.Nv.Store.{
  NvStore, define, undefine, increment, is_nv_handle, available, used, keep_mark,
}
use swtrust.Nv.Counter.{Reach, empty, defined, undefined, counted, Rises, counter-Rises}

abbrev handle : ℕ
handle = 0x0100_0001

abbrev index : ℕ → ℕ → NvIndex
index attributes size = record {
  public = record {
    nv_index = handle;
    name_alg = Alg.sha256;
    attributes = attributes;
    auth_policy = [];
    data_size = size;
  };
  auth = 112 ∷ 105 ∷ 110 ∷ [];
  octets = [];
  read_locked = false;
  write_locked = false;
}

abbrev ordinary : NvIndex
ordinary = index 0x4 16

abbrev after_write : NvIndex
unfolding write
after_write = (write 4 (97 ∷ 98 ∷ []) ordinary).1

write_ok : write 4 (97 ∷ 98 ∷ []) ordinary ≡ (ok tt, after_write)
unfolding write has set_written with_bit copy_from_slice
write_ok = refl

write-read_example : (read 4 2 after_write ≡ ok (97 ∷ 98 ∷ [])) × (written after_write ≡ true)
write-read_example = write-read 4 (97 ∷ 98 ∷ []) ordinary after_write write_ok

abbrev counter : NvIndex
counter = index 0x14 8

-- The counter at one.
abbrev at_one : NvIndex
at_one = record counter {
  public = record (counter.public) { attributes = 0x2000_0014 };
  octets = 0 ∷ 0 ∷ 0 ∷ 0 ∷ 0 ∷ 0 ∷ 0 ∷ 1 ∷ [];
}

abbrev at_two : NvIndex
at_two = record at_one { octets = 0 ∷ 0 ∷ 0 ∷ 0 ∷ 0 ∷ 0 ∷ 0 ∷ 2 ∷ [] }

abbrev store : List (ℕ × NvIndex) → ℕ → NvStore
store m mark = record { indices = m; highest_counter = mark }

abbrev first : NvStore
first = store ((handle, counter) ∷ []) 0

abbrev second : NvStore
second = store ((handle, at_one) ∷ []) 1

abbrev third : NvStore
third = store ((handle, counter) ∷ []) 1

abbrev fourth : NvStore
fourth = store ((handle, at_two) ∷ []) 2

unwritten : written counter ≡ false
unfolding written has
unwritten = refl

defined_first : (define counter Store.new).1 ≡ first
unfolding define undefine increment is_nv_handle contains_key lookup keep_mark Index.index_type
    Attributes.index_type written has Store.new available used footprint to_bytes nv_public_marshal
    write_u16 tpm2b_marshal insert remove from_be_bytes to_be_bytes bytes new sized16 write_u32
    counter_value Index.increment next_value set_written attributes_marshal with_bit
defined_first = refl

once : increment handle first ≡ (ok 1, second)
unfolding define undefine increment is_nv_handle contains_key lookup keep_mark Index.index_type
    Attributes.index_type written has Store.new available used footprint to_bytes nv_public_marshal
    write_u16 tpm2b_marshal insert remove from_be_bytes to_be_bytes bytes new sized16 write_u32
    counter_value Index.increment next_value set_written attributes_marshal with_bit
once = refl

gone : (undefine handle second).1 ≡ store [] 1
unfolding define undefine increment is_nv_handle contains_key lookup keep_mark Index.index_type
    Attributes.index_type written has Store.new available used footprint to_bytes nv_public_marshal
    write_u16 tpm2b_marshal insert remove from_be_bytes to_be_bytes bytes new sized16 write_u32
    counter_value Index.increment next_value set_written attributes_marshal with_bit
gone = refl

defined_third : (define counter (store [] 1)).1 ≡ third
unfolding define undefine increment is_nv_handle contains_key lookup keep_mark Index.index_type
    Attributes.index_type written has Store.new available used footprint to_bytes nv_public_marshal
    write_u16 tpm2b_marshal insert remove from_be_bytes to_be_bytes bytes new sized16 write_u32
    counter_value Index.increment next_value set_written attributes_marshal with_bit
defined_third = refl

twice : increment handle third ≡ (ok 2, fourth)
unfolding define undefine increment is_nv_handle contains_key lookup keep_mark Index.index_type
    Attributes.index_type written has Store.new available used footprint to_bytes nv_public_marshal
    write_u16 tpm2b_marshal insert remove from_be_bytes to_be_bytes bytes new sized16 write_u32
    counter_value Index.increment next_value set_written attributes_marshal with_bit
twice = refl

first-Reach : Reach handle first []
first-Reach = subst (λ s. Reach handle s []) defined_first (defined counter empty unwritten)

second-Reach : Reach handle second (1 ∷ [])
second-Reach = counted 1 first-Reach (omega arith) once

gone-Reach : Reach handle (store [] 1) (1 ∷ [])
gone-Reach = subst (λ s. Reach handle s (1 ∷ [])) gone (undefined handle second-Reach)

third-Reach : Reach handle third (1 ∷ [])
third-Reach =
    subst (λ s. Reach handle s (1 ∷ [])) defined_third (defined counter gone-Reach unwritten)

counter-Rises_example : Rises (2 ∷ 1 ∷ [])
counter-Rises_example = counter-Rises (counted 2 third-Reach (omega arith) twice)
