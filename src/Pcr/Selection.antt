-- ===== src/Pcr/Selection.antt =====
-- The methods of `PcrBanks` that read a selection of registers, src/tpm/core/pcr.rs.
use swtrust.Base.{
  ℕ, ◌&&◌, Option, none, some, List, [], ◌∷◌, ◌++◌, ltb, if◌then◌else◌, length, get_elem?,
  replicate, max,
}
use swtrust.Base.Maps.{lookup}
use swtrust.Constants.Config
use swtrust.Error.{TpmResult}
use swtrust.Crypto.Hash.{Crypto, digest_parts}
use swtrust.Structures.Base.{PcrSelect, PcrSelection, select, selected}
use swtrust.Pcr.Banks.{PcrBanks, has_pcr, has_bank}

-- The registers of one bank that a selection names, in its order.
abbrev pub pick : List (List ℕ) → List ℕ → List (List ℕ)
pick bank [] = []
pick bank (i ∷ is) =
    let others = pick bank is in
    if ltb i Config.implementation_pcr
    then elim (get_elem? bank i) [ none ↦ others | some v ↦ v ∷ others ]
    else others

abbrev pub pick_bank : Option (List (List ℕ)) → List ℕ → List (List ℕ)
pick_bank none is = []
pick_bank (some bank) is = pick bank is

unfoldable pub read_selection : PcrBanks → List PcrSelection → List (List ℕ)
read_selection b [] = []
read_selection b (s ∷ ss) =
    pick_bank (lookup s.hash_alg b.banks) (selected s.select) ++ read_selection b ss

-- The registers go into one hash, in the order of the selection.
unfoldable pub selection_digest : Crypto → ℕ → List PcrSelection → PcrBanks → TpmResult (List ℕ)
selection_digest c a selection b = digest_parts c a (read_selection b selection)

unfoldable pub filter_one : PcrBanks → ℕ → List ℕ → PcrSelect → PcrSelect
filter_one b a [] out = out
filter_one b a (i ∷ is) out =
    filter_one b a is
      (if ltb i Config.implementation_pcr && has_pcr b a i then select out i else out)

unfoldable pub filter_selection : PcrBanks → List PcrSelection → List PcrSelection
filter_selection b [] = []
filter_selection b (s ∷ ss) =
    let empty : PcrSelect = record {
      bits = replicate (max (length s.select.bits) Config.pcr_select_min) 0;
    } in
    let kept : PcrSelect =
      if has_bank b s.hash_alg then filter_one b s.hash_alg (selected s.select) empty else empty in
    record { hash_alg = s.hash_alg; select = kept } ∷ filter_selection b ss
