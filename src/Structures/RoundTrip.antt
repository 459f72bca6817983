-- ===== src/Structures/RoundTrip.antt =====
-- Marshalling the structures of src/tpm/structures/base.rs and reading them back.
use swtrust.Base.{
  ℕ, ◌^◌, ◌≤◌, ◌<◌, ◌≡◌, refl, sym, subst, Bool, true, false, not, some, List, [], ◌∷◌, ◌++◌, ◌==◌,
  ltb, leb, ◌&&◌, if◌then◌else◌, length, arith, append-nil, ◌⊎◌, inl, inr, ◌%◌,
}
use swtrust.Constants.Alg
use swtrust.Constants.Rc
use swtrust.Constants.Config
use swtrust.Error.{ok}
use swtrust.Marshal.Bytes.{to_be_bytes}
use swtrust.Marshal.Read.{Read, ◌>>=◌, ◌>>◌, pure, refuse_if, read, read_u8, read_u16, from_bytes}
use swtrust.Marshal.Read.Laws.{
  Reads, Reads->>=, Reads-pure, Reads-fmap, Reads-read, Reads-read_u8, Reads-read_u16,
}
use swtrust.Marshal.Write.{to_bytes, bytes, write_u8, write_u16, sized16}
use swtrust.Marshal.Write.Laws.{
  Writes, Writes_then, Writes-write_u8, Writes-write_u16, Writes-sized16,
}
use swtrust.Marshal.RoundTrip.{round_trip}
use swtrust.Structures.Base.{
  digest_size, tpm2b_marshal, tpm2b_unmarshal, TpmtHa, tpmt_ha_new, tpmt_ha_marshal,
  tpmt_ha_unmarshal, read_digest, PcrSelect, pcr_select_marshal, pcr_select_unmarshal, PcrSelection,
  pcr_selection_marshal, pcr_selection_unmarshal, is_none,
}

Writes-bytes : (bs : List ℕ) → Writes (bytes bs) bs
Writes-bytes bs w = refl

-- A guard that lets through consumes nothing.
Reads-guard {ℓ} :
    {B : Type ℓ} (bad : Bool) (e : ℕ) (k : Read B) (bs : List ℕ) (y : B)
    → bad ≡ false
    → Reads k bs y
    → Reads (refuse_if bad e >> k) bs y
Reads-guard bad e k bs y g h r tail q = rw g (h r tail q)

-- The octets are read as the value of a record.
Reads-last {ℓ} :
    {B : Type ℓ} (f : List ℕ → B) (bs : List ℕ)
    → Reads (read (length bs) >>= λ d. pure (f d)) bs (f bs)
Reads-last f bs =
    subst (λ cs. Reads (read (length bs) >>= λ d. pure (f d)) cs (f bs)) (append-nil bs)
      (Reads->>= (read (length bs)) (λ d. pure (f d)) bs [] bs (f bs) (Reads-read bs)
        (Reads-pure (f bs)))

-- A sized buffer within its bound is read back.
pub tpm2b_round_trip :
    (limit : ℕ) (buffer : List ℕ)
    → length buffer ≤ limit
    → limit < 2 ^ 16
    → from_bytes (tpm2b_unmarshal limit) (to_bytes (tpm2b_marshal buffer)) ≡ ok buffer
unfolding tpm2b_marshal tpm2b_unmarshal
tpm2b_round_trip limit buffer fits word =
    let within : ltb limit (length buffer) ≡ false = ground arith in
    round_trip (sized16 buffer) (tpm2b_unmarshal limit) (to_be_bytes 2 (length buffer) ++ buffer)
      buffer (Writes-sized16 buffer (omega arith))
      (Reads->>= read_u16 _ (to_be_bytes 2 (length buffer)) buffer (length buffer) buffer
        (Reads-read_u16 (length buffer) (omega arith))
        (Reads-guard (ltb limit (length buffer)) Rc.size (read (length buffer)) buffer buffer within
          (Reads-read buffer)))

-- What `new` accepts: the null algorithm with nothing, or a digest of its algorithm's size.
accepted :
    (strict : Bool) (a : ℕ) (d : List ℕ) (h : TpmtHa)
    → tpmt_ha_new strict a d ≡ ok h
    → (h ≡ record { hash_alg = a; digest = d })
      × (((a == Alg.null) ≡ true) × (length d ≡ 0)
          ⊎ ((a == Alg.null) ≡ false) × (digest_size strict a ≡ some (length d)))
unfolding tpmt_ha_new
accepted strict a d h e = ground arith

no_octets : (d : List ℕ) → length d ≡ 0 → [] ≡ d
no_octets [] h = refl
no_octets (x ∷ xs) h = absurd (omega arith)

Reads-digest :
    (strict : Bool) (a : ℕ) (d : List ℕ)
    → digest_size strict a ≡ some (length d)
    → Reads (read_digest strict a) d (record { hash_alg = a; digest = d })
unfolding read_digest
Reads-digest strict a d e r tail q =
    rw e (Reads-last (λ (x : List ℕ). record { hash_alg = a; digest = x }) d r tail q)

-- What is left to read once the algorithm is known.
Reads-body :
    (strict : Bool) (a : ℕ) (d : List ℕ)
    → ((a == Alg.null) ≡ true) × (length d ≡ 0)
      ⊎ ((a == Alg.null) ≡ false) × (digest_size strict a ≡ some (length d))
    → Reads
        (if a == Alg.null
          then pure {A = TpmtHa} (record { hash_alg = a; digest = [] })
          else read_digest strict a)
        d
        (record { hash_alg = a; digest = d })
Reads-body strict a d (inl (t, z)) r tail q =
    subst
      (λ x.
        Reads
          (if a == Alg.null
            then pure {A = TpmtHa} (record { hash_alg = a; digest = [] })
            else read_digest strict a)
          x (record { hash_alg = a; digest = x }))
      (no_octets d z)
      (λ s rest p. rw t (Reads-pure {A = TpmtHa} (record { hash_alg = a; digest = [] }) s rest p)) r
      tail q
Reads-body strict a d (inr (t, z)) r tail q = rw t (Reads-digest strict a d z r tail q)

Reads-tpmt_ha :
    (strict : Bool) (a : ℕ) (d : List ℕ)
    → a < 2 ^ 16
    → ((a == Alg.null) ≡ true) × (length d ≡ 0)
      ⊎ ((a == Alg.null) ≡ false) × (digest_size strict a ≡ some (length d))
    → Reads (tpmt_ha_unmarshal strict) (to_be_bytes 2 a ++ d) (record { hash_alg = a; digest = d })
unfolding tpmt_ha_unmarshal
Reads-tpmt_ha strict a d word k =
    Reads->>= read_u16 _ (to_be_bytes 2 a) d a _ (Reads-read_u16 a word) (Reads-body strict a d k)

Writes-tpmt_ha :
    (a : ℕ) (d : List ℕ)
    → Writes (tpmt_ha_marshal (record { hash_alg = a; digest = d })) (to_be_bytes 2 a ++ d)
unfolding tpmt_ha_marshal
Writes-tpmt_ha a d =
    Writes_then (write_u16 a) (bytes d) (to_be_bytes 2 a) d (Writes-write_u16 a) (Writes-bytes d)

-- Every TPMT_HA that `new` accepts is read back, under the same profile: the null algorithm with no
-- digest, and a digest of the size of an algorithm that the profile knows.
pub tpmt_ha_round_trip :
    (strict : Bool) (a : ℕ) (d : List ℕ) (h : TpmtHa)
    → a < 2 ^ 16
    → tpmt_ha_new strict a d ≡ ok h
    → from_bytes (tpmt_ha_unmarshal strict) (to_bytes (tpmt_ha_marshal h)) ≡ ok h
tpmt_ha_round_trip strict a d h word e =
    let (same, k) = accepted strict a d h e in
    subst (λ x. from_bytes (tpmt_ha_unmarshal strict) (to_bytes (tpmt_ha_marshal x)) ≡ ok x)
      (sym same)
      (round_trip (tpmt_ha_marshal (record { hash_alg = a; digest = d })) (tpmt_ha_unmarshal strict)
        (to_be_bytes 2 a ++ d) (record { hash_alg = a; digest = d }) (Writes-tpmt_ha a d)
        (Reads-tpmt_ha strict a d word k))

Reads-pcr_select :
    (bits : List ℕ)
    → length bits ≡ 3
    → Reads pcr_select_unmarshal (length bits ∷ bits) (record { bits = bits })
unfolding pcr_select_unmarshal
Reads-pcr_select bits n =
    let fits : not
          (leb Config.pcr_select_min (length bits) && leb (length bits) Config.pcr_select_max)
        ≡ false =
      ground (arith, n) in
    Reads->>= read_u8 _ (length bits ∷ []) bits (length bits) _ (Reads-read_u8 (length bits)) (
      Reads-guard
        (not (leb Config.pcr_select_min (length bits) && leb (length bits) Config.pcr_select_max))
        Rc.value (read (length bits) >>= λ x. pure (record { bits = x })) bits
        (record { bits = bits }) fits (Reads-last (λ (x : List ℕ). record { bits = x }) bits))

Writes-pcr_select :
    (bits : List ℕ)
    → length bits ≡ 3
    → Writes (pcr_select_marshal (record { bits = bits })) (length bits ∷ bits)
unfolding pcr_select_marshal
Writes-pcr_select bits n w =
    let low : length bits % 2 ^ 8 ≡ length bits = omega (arith, n) in
    rw low (
      Writes_then (write_u8 (length bits)) (bytes bits) (length bits ∷ []) bits
        (Writes-write_u8 (length bits)) (Writes-bytes bits) w)

-- A selection of three octets, of an algorithm that the profile knows, is read back.
pub pcr_selection_round_trip :
    (strict : Bool) (a size : ℕ) (bits : List ℕ)
    → a < 2 ^ 16
    → digest_size strict a ≡ some size
    → length bits ≡ 3
    → let s : PcrSelection = record { hash_alg = a; select = record { bits = bits } } in
      from_bytes (pcr_selection_unmarshal strict) (to_bytes (pcr_selection_marshal s)) ≡ ok s
unfolding pcr_selection_unmarshal pcr_selection_marshal
pcr_selection_round_trip strict a size bits word e n =
    let s : PcrSelection = record { hash_alg = a; select = record { bits = bits } } in
    round_trip (pcr_selection_marshal s) (pcr_selection_unmarshal strict)
      (to_be_bytes 2 a ++ (length bits ∷ bits)) s
      (Writes_then (write_u16 a) (pcr_select_marshal (record { bits = bits })) (to_be_bytes 2 a)
        (length bits ∷ bits) (Writes-write_u16 a) (Writes-pcr_select bits n))
      (Reads->>= read_u16 _ (to_be_bytes 2 a) (length bits ∷ bits) a s (Reads-read_u16 a word) (
        Reads-guard (is_none (digest_size strict a)) Rc.hash
          (pcr_select_unmarshal >>= λ (x : PcrSelect).
            pure {A = PcrSelection} (record { hash_alg = a; select = x }))
          (length bits ∷ bits) s (rw e)
          (Reads-fmap pcr_select_unmarshal (λ (x : PcrSelect). record { hash_alg = a; select = x })
            (length bits ∷ bits) (record { bits = bits }) (Reads-pcr_select bits n))))
