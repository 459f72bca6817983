-- ===== src/Marshal/RoundTrip.antt =====
-- Marshalling and unmarshalling undo one another, for a type and for a counted list of it.
use swtrust.Base.{ℕ, ◌≤◌, ◌<◌, ◌^◌, ◌≡◌, List, ◌++◌, length, arith}
use swtrust.Error.{ok}
use swtrust.Marshal.Bytes.{encode_items, to_be_bytes}
use swtrust.Marshal.Read.{Read, from_bytes, unmarshal_list}
use swtrust.Marshal.Read.Laws.{Reads, ReadsAll, from_bytes-Reads, Reads-unmarshal_list}
use swtrust.Marshal.Write.{Writer, to_bytes, marshal_list}
use swtrust.Marshal.Write.Laws.{Writes, to_bytes-Writes, Writes-marshal_list}

pub round_trip {ℓ} :
    {A : Type ℓ} (marshal : Writer → Writer) (unmarshal : Read A) (bs : List ℕ) (x : A)
    → Writes marshal bs
    → Reads unmarshal bs x
    → from_bytes unmarshal (to_bytes marshal) ≡ ok x
round_trip marshal unmarshal bs x w r =
    rw (to_bytes-Writes marshal bs w) (from_bytes-Reads unmarshal bs x r)

-- A list of at most `limit` items that is marshalled and read back with that limit is the list,
-- where every item is written as its octets and read from them.
pub list_round_trip {ℓ} :
    {A : Type ℓ} (marshal : A → Writer → Writer) (unmarshal : Read A) (encode : A → List ℕ)
    (limit : ℕ) (xs : List A)
    → ((x : A) → Writes (marshal x) (encode x))
    → ReadsAll unmarshal encode xs
    → length xs ≤ limit
    → limit < 2 ^ 32
    → from_bytes (unmarshal_list unmarshal limit) (to_bytes (marshal_list marshal xs)) ≡ ok xs
list_round_trip marshal unmarshal encode limit xs w r short word =
    round_trip (marshal_list marshal xs) (unmarshal_list unmarshal limit)
      (to_be_bytes 4 (length xs) ++ encode_items encode xs) xs
      (Writes-marshal_list marshal encode w xs (omega arith))
      (Reads-unmarshal_list unmarshal encode limit xs short word r)
