-- ===== src/Crypto/Kdf.antt =====
-- KDFe and MGF1, the derivations of src/tpm/crypto/hmac.rs that use a hash and no key.
use swtrust.Base.{
  ℕ, zero, suc, ◌+◌, ◌/◌, ◌%◌, ◌^◌, ◌≤◌, ◌<◌, ◌≡◌, ◌⊎◌, refl, ap, ◌∙◌, List, [], ◌∷◌, ◌++◌, ltb,
  if◌then◌else◌, length, take, get_or, arith, length-append, length-take, Bool-cases, inl, inr,
}
use swtrust.Constants.Rc
use swtrust.Error.{TpmResult, ok, ◌>>=◌, ◌>>◌, refuse_if, >>=-of-ok}
use swtrust.Marshal.Bytes.{to_be_bytes}
use swtrust.Crypto.Hash.{
  Crypto, Hasher, IsSupported, digest_size, new, update, update_all, finish, output_len,
  output_len_pos,
}
use swtrust.Crypto.Hmac.{max_kdf_bytes, out_len_of, mask_first}
use swtrust.Crypto.Hmac.Laws.{length-mask_first, whole_or_masked, out_len_ok}

-- The rounds of a derivation while the output is short, at most `rounds` of them: each hashes what
-- `parts` feeds in for its counter. A round adds a digest, 20 octets at least, so that `out_len`
-- rounds are enough.
unfoldable pub hash_rounds :
    Crypto → ℕ → (ℕ → List (List ℕ)) → ℕ → ℕ → ℕ → List ℕ → TpmResult (List ℕ)
hash_rounds c a parts out_len zero counter out = ok out
hash_rounds c a parts out_len (suc rounds) counter out =
    let more = do
      h ← new c a
      hash_rounds c a parts out_len rounds (counter + 1)
          (out ++ finish c (update_all h (parts counter)))
    in if ltb (length out) out_len then more else ok out

-- The counter is raised before it is hashed.
abbrev pub kdfe_parts : List ℕ → List ℕ → List ℕ → List ℕ → ℕ → List (List ℕ)
kdfe_parts z label party_u party_v counter =
    to_be_bytes 4 (counter + 1) ∷ z ∷ label ∷ (0 ∷ []) ∷ party_u ∷ party_v ∷ []

unfoldable pub kdfe : Crypto → ℕ → List ℕ → List ℕ → List ℕ → List ℕ → ℕ → TpmResult (List ℕ)
kdfe c a z label party_u party_v bits = do
  out_len ← out_len_of bits
  _ ← digest_size c a
  out ← hash_rounds c a (kdfe_parts z label party_u party_v) out_len out_len 0 []
  ok (mask_first bits (take out_len out))

-- The counter is hashed before it is raised.
abbrev pub mgf1_parts : List ℕ → ℕ → List (List ℕ)
mgf1_parts seed counter = seed ∷ to_be_bytes 4 counter ∷ []

unfoldable pub mgf1 : Crypto → ℕ → List ℕ → ℕ → TpmResult (List ℕ)
mgf1 c a seed out_len = do
  refuse_if (ltb max_kdf_bytes out_len) Rc.value
  _ ← digest_size c a
  out ← hash_rounds c a (mgf1_parts seed) out_len out_len 0 []
  ok (take out_len out)

update_all-alg : (h : Hasher) (ps : List (List ℕ)) → (update_all h ps).hash_alg ≡ h.hash_alg
unfolding update_all update
update_all-alg h [] = refl
update_all-alg h (p ∷ ps) = update_all-alg (update h p) ps

length-finish : (c : Crypto) (h : Hasher) → length (finish c h) ≡ output_len h.hash_alg
unfolding finish
length-finish c h = c.length-sha h.hash_alg h.absorbed

new_ok :
    (c : Crypto) (a : ℕ)
    → IsSupported c a
    → (h : Hasher) × (new c a ≡ ok h) × (20 ≤ output_len h.hash_alg)
unfolding new
new_ok c a s = (record { hash_alg = a; absorbed = [] }, >>=-of-ok _ s, output_len_pos a)

-- Enough rounds reach the length asked for.
hash_rounds_ok :
    (c : Crypto) (a : ℕ) (parts : ℕ → List (List ℕ)) (out_len rounds counter : ℕ) (out : List ℕ)
    → IsSupported c a
    → out_len ≤ length out + rounds
    → (d : List ℕ) × (hash_rounds c a parts out_len rounds counter out ≡ ok d)
      × (out_len ≤ length d)
unfolding hash_rounds
hash_rounds_ok c a parts out_len zero counter out s enough = (out, refl, omega arith)
hash_rounds_ok c a parts out_len (suc rounds) counter out s enough =
    elim (Bool-cases (ltb (length out) out_len)) [
      | inl short ↦
          let (h, eh, positive) = new_ok c a s in
          let block = finish c (update_all h (parts counter)) in
          let long : 20 ≤ length block = omega (
            arith,
            length-finish c (update_all h (parts counter)),
            ap output_len (update_all-alg h (parts counter)),
            positive,
          ) in
          let (d, ed, ld) =
            hash_rounds_ok c a parts out_len rounds (counter + 1) (out ++ block) s
              (omega (arith, length-append out block, long)) in
          (d, rw short (>>=-of-ok _ eh ∙ ed), ld)
      | inr enough_now ↦ (out, rw enough_now, ground arith)
    ]

-- KDFe with an implemented hash gives exactly the bits asked for, up to 8192 of them: as many
-- octets as hold them, and in the first no bit beyond them.
pub kdfe_total :
    (c : Crypto) (a : ℕ) (z label party_u party_v : List ℕ) (bits : ℕ)
    → IsSupported c a
    → bits ≤ 8192
    → (out : List ℕ) × (kdfe c a z label party_u party_v bits ≡ ok out)
      × (length out ≡ (bits + 7) / 8)
      × ((bits % 8 ≡ 0) ⊎ (get_or out 0 0 < 2 ^ (bits % 8)))
unfolding kdfe digest_size
kdfe_total c a z label party_u party_v bits h fits =
    let n = (bits + 7) / 8 in
    let (d, ed, ld) =
      hash_rounds_ok c a (kdfe_parts z label party_u party_v) n n 0 [] h (omega arith) in
    (
      mask_first bits (take n d),
      >>=-of-ok _ (out_len_ok bits fits) ∙ >>=-of-ok _ (>>=-of-ok _ h) ∙ >>=-of-ok _ ed,
      length-mask_first bits (take n d) ∙ length-take n d ∙ omega arith,
      whole_or_masked bits (take n d),
    )

allowed : (n : ℕ) → n ≤ 1024 → refuse_if (ltb max_kdf_bytes n) Rc.value ≡ ok tt
allowed n h = ground arith

-- MGF1 with an implemented hash gives exactly the octets asked for, up to 1024 of them.
pub mgf1_total :
    (c : Crypto) (a : ℕ) (seed : List ℕ) (out_len : ℕ)
    → IsSupported c a
    → out_len ≤ 1024
    → (out : List ℕ) × (mgf1 c a seed out_len ≡ ok out) × (length out ≡ out_len)
unfolding mgf1 digest_size
mgf1_total c a seed n h fits =
    let (d, ed, ld) = hash_rounds_ok c a (mgf1_parts seed) n n 0 [] h (omega arith) in
    (
      take n d,
      >>=-of-ok _ (allowed n fits) ∙ >>=-of-ok _ (>>=-of-ok _ h) ∙ >>=-of-ok _ ed,
      length-take n d ∙ omega arith,
    )
