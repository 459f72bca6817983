-- ===== src/Tests/Octets.antt =====
-- Marshalling, response codes and attribute words.
use swtrust.Base.{ℕ, ◌≡◌, refl, true, List, [], ◌∷◌, leb, ◌&&◌, if◌then◌else◌, arith, some}
use swtrust.Constants.Alg
use swtrust.Constants.Rc
use swtrust.Error.{ok, with_handle, with_parameter, with_session}
use swtrust.Error.Qualify.{
  IsBase, handle, session, parameter, unqualified, position, number, qualified_reads_back,
}
use swtrust.Marshal.Bytes.{to_be_bytes, from_be_bytes}
use swtrust.Marshal.Read.{Reader, read, pure, from_bytes, read_u16, unmarshal_list}
use swtrust.Marshal.Read.Laws.{
  ReadsAll, Reads-read_u16, Stays, read-IsBounded, >>=-IsBounded, pure-IsBounded, IsBounded,
  unmarshal_list_bounded,
}
use swtrust.Marshal.Write.{write_u16, to_bytes, marshal_list}
use swtrust.Marshal.Write.Laws.{Writes-write_u16}
use swtrust.Marshal.RoundTrip.{list_round_trip}
use swtrust.Structures.Base.{PcrSelection, digest_size}

value-IsBase : IsBase Rc.value
value-IsBase = (omega arith, omega arith)

qualified_reads_back_example :
    (position (with_handle Rc.value 3) ≡ (if leb 1 3 && leb 3 7 then handle 3 else unqualified))
    × (position (with_session Rc.value 3) ≡ (if leb 1 3 && leb 3 7 then session 3 else unqualified))
    × (position (with_parameter Rc.value 3)
        ≡ (if leb 1 3 && leb 3 15 then parameter 3 else unqualified))
    × (number (with_handle Rc.value 3) ≡ number Rc.value)
    × (number (with_session Rc.value 3) ≡ number Rc.value)
    × (number (with_parameter Rc.value 3) ≡ number Rc.value)
qualified_reads_back_example = qualified_reads_back Rc.value 3 value-IsBase

abbrev words : List ℕ
words = 4 ∷ 11 ∷ []

words-ReadsAll : ReadsAll read_u16 (to_be_bytes 2) words
words-ReadsAll = (Reads-read_u16 4 (omega arith), (Reads-read_u16 11 (omega arith), tt))

list_round_trip_example :
    from_bytes (unmarshal_list read_u16 8) (to_bytes (marshal_list write_u16 words)) ≡ ok words
list_round_trip_example =
    list_round_trip write_u16 read_u16 (to_be_bytes 2) 8 words Writes-write_u16 words-ReadsAll
      (omega arith) (omega arith)

read_u16-IsBounded : IsBounded read_u16
unfolding read_u16
read_u16-IsBounded =
    >>=-IsBounded (read 2) (λ bs. pure (from_be_bytes bs)) (read-IsBounded 2)
      (λ bs. pure-IsBounded {A = ℕ} (from_be_bytes bs))

-- A list whose second item is cut off.
abbrev cut : Reader
cut = record { buf = 0 ∷ 0 ∷ 0 ∷ 2 ∷ 0 ∷ 4 ∷ 0 ∷ []; pos = 0 }

unmarshal_list_bounded_example : Stays cut (unmarshal_list read_u16 8 cut).1
unmarshal_list_bounded_example =
    unmarshal_list_bounded read_u16 8 cut read_u16-IsBounded (omega arith)

sha256-size : digest_size true Alg.sha256 ≡ some 32
unfolding digest_size
sha256-size = refl

abbrev selection : PcrSelection
selection = record { hash_alg = Alg.sha256; select = record { bits = 3 ∷ 0 ∷ 1 ∷ [] } }
