-- ===== src/Nv/Store.antt =====
-- `NvStore` of src/tpm/core/nv.rs. A method of `&mut NvStore` returns its result and the store that
-- it leaves, also where it fails.
use swtrust.Base.{
  ℕ, ◌+◌, ◌-◌, Bool, true, false, not, ◌&&◌, Option, none, some, List, [], ◌∷◌, ◌==◌, ltb, leb,
  if◌then◌else◌, length, max, bit_or,
}
use swtrust.Base.Maps.{Map, lookup, insert, remove, keys, contains_key, map_values, retain}
use swtrust.Constants.Rc
use swtrust.Constants.Config
use swtrust.Constants.Alg
use swtrust.Error.{TpmResult, ok, err}
use swtrust.Marshal.Bytes.{to_be_bytes}
use swtrust.Marshal.Write.{to_bytes}
use swtrust.Structures.Attributes
use swtrust.Structures.Attributes.{has, without}
use swtrust.Structures.Nv.{NvPublic, nv_public_marshal}
use swtrust.Nv.Index.{
  NvIndex, Changed, index_type, written, counter_value, footprint, set_read_lock, set_write_lock,
  with_attributes, with_data,
}
use swtrust.Nv.Index

pub record NvStore : Type 0 where
  pub indices : Map NvIndex
  pub highest_counter : ℕ

abbrev pub Stored : Type 0 → Type 0
Stored A = TpmResult A × NvStore

unfoldable pub new : NvStore
new = record { indices = []; highest_counter = 0 }

unfoldable pub is_nv_handle : ℕ → Bool
is_nv_handle handle = leb 0x0100_0000 handle && leb handle 0x01ff_ffff

abbrev footprints : Map NvIndex → ℕ
footprints [] = 0
footprints ((h, i) ∷ m) = footprint i + footprints m

unfoldable pub used : NvStore → ℕ
used s = footprints s.indices

-- `saturating_sub`
unfoldable pub available : NvStore → ℕ
available s = Config.nv_memory_size - used s

abbrev smallest_counter : NvPublic
smallest_counter = record {
  nv_index = 0x0100_0000;
  name_alg = Alg.sha256;
  attributes = 0;
  auth_policy = [];
  data_size = 8;
}

unfoldable pub smallest_counter_footprint : ℕ
smallest_counter_footprint = length (to_bytes (nv_public_marshal smallest_counter)) + 8

abbrev counters : Map NvIndex → ℕ
counters [] = 0
counters ((h, i) ∷ m) = if index_type i == Attributes.counter then counters m + 1 else counters m

unfoldable pub counter_count : NvStore → ℕ
counter_count s = counters s.indices

abbrev pub raise_to : NvStore → TpmResult ℕ → NvStore
raise_to s (err e) = s
raise_to s (ok value) = record s { highest_counter = max s.highest_counter value }

-- The mark is raised to the value of a counter Index that has one.
unfoldable pub keep_mark : NvIndex → NvStore → NvStore
keep_mark i s =
    if (index_type i == Attributes.counter) && written i then raise_to s (counter_value i) else s

-- The mark is raised before the checks, so that a refused Index leaves it raised.
unfoldable pub define : NvIndex → NvStore → Stored (Unit {0})
define i s =
    let handle = i.public.nv_index in
    let marked = keep_mark i s in
    if not (is_nv_handle handle)
    then (err Rc.handle, marked)
    else if contains_key handle marked.indices
    then (err Rc.nv_defined, marked)
    else if ltb (available marked) (footprint i)
    then (err Rc.nv_space, marked)
    else (ok tt, record marked { indices = insert handle i marked.indices })

unfoldable pub set_counter_floor : ℕ → NvStore → NvStore
set_counter_floor floor s = record s { highest_counter = max s.highest_counter floor }

abbrev pub removed : ℕ → NvStore → Option NvIndex → Stored NvIndex
removed handle s none = (err Rc.handle, s)
removed handle s (some i) = (ok i, keep_mark i (record s { indices = remove handle s.indices }))

unfoldable pub undefine : ℕ → NvStore → Stored NvIndex
undefine handle s = removed handle s (lookup handle s.indices)

-- The end of `increment`, with what the Index answered and left.
abbrev pub incremented : ℕ → NvStore → Changed ℕ → Stored ℕ
incremented handle s (err e, i) = (err e, record s { indices = insert handle i s.indices })
incremented handle s (ok value, i) = (
  ok value,
  record { indices = insert handle i s.indices; highest_counter = max s.highest_counter value },
)

abbrev pub increment_at : ℕ → NvStore → Option NvIndex → Stored ℕ
increment_at handle s none = (err Rc.handle, s)
increment_at handle s (some i) = incremented handle s (Index.increment s.highest_counter i)

unfoldable pub increment : ℕ → NvStore → Stored ℕ
increment handle s = increment_at handle s (lookup handle s.indices)

unfoldable pub get : ℕ → NvStore → TpmResult NvIndex
get handle s = elim (lookup handle s.indices) [ none ↦ err Rc.handle | some i ↦ ok i ]

unfoldable pub contains : ℕ → NvStore → Bool
contains handle s = contains_key handle s.indices

unfoldable pub handles : NvStore → List ℕ
handles s = keys s.indices

abbrev pub lock_global : NvIndex → NvIndex
lock_global i = if has i.public.attributes Attributes.globallock then set_write_lock true i else i

unfoldable pub global_write_lock : NvStore → NvStore
global_write_lock s = record s { indices = map_values (λ h. lock_global) s.indices }

-- The steps of `on_startup_clear_with` on one Index, in their order.
abbrev pub drop_read_lock : NvIndex → NvIndex
drop_read_lock i =
    if has i.public.attributes Attributes.read_stclear then set_read_lock false i else i

abbrev pub drop_write_lock : NvIndex → NvIndex
drop_write_lock i =
    if has i.public.attributes Attributes.writedefine && written i
    then i
    else set_write_lock false i

abbrev pub unwrite : NvIndex → NvIndex
unwrite i = with_attributes (without i.public.attributes Attributes.written) (with_data [] i)

abbrev pub drop_orderly : Bool → NvIndex → NvIndex
drop_orderly restart i =
    if has i.public.attributes Attributes.orderly
      && not (index_type i == Attributes.counter)
      && not restart
    then unwrite i
    else i

abbrev pub drop_stclear : NvIndex → NvIndex
drop_stclear i = if has i.public.attributes Attributes.clear_stclear then unwrite i else i

abbrev pub raised : NvIndex → TpmResult ℕ → NvIndex
raised i (err e) = i
raised i (ok v) = with_data (to_be_bytes 8 (bit_or v Config.max_orderly_count)) i

abbrev pub raise_orderly : Bool → NvIndex → NvIndex
raise_orderly disorderly i =
    if disorderly
      && has i.public.attributes Attributes.orderly
      && (index_type i == Attributes.counter)
      && written i
    then raised i (counter_value i)
    else i

unfoldable pub startup_clear_index : Bool → Bool → NvIndex → NvIndex
startup_clear_index restart disorderly i =
    raise_orderly disorderly
      (drop_stclear (drop_orderly restart (drop_write_lock (drop_read_lock i))))

unfoldable pub on_startup_clear_with : Bool → Bool → NvStore → NvStore
on_startup_clear_with restart disorderly s = record s {
  indices = map_values (λ h. startup_clear_index restart disorderly) s.indices;
}

unfoldable pub on_startup_clear : NvStore → NvStore
on_startup_clear s = on_startup_clear_with false false s

unfoldable pub clear_owner_indices : NvStore → NvStore
clear_owner_indices s = record s {
  indices = retain (λ i. has i.public.attributes Attributes.platformcreate) s.indices;
}

unfoldable pub clear : NvStore → NvStore
clear s = record s { indices = [] }
