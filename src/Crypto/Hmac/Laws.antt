-- ===== src/Crypto/Hmac/Laws.antt =====
-- HMAC over parts, and the length and totality of KDFa. src/tpm/crypto/hmac.rs.
use swtrust.Base.{
  ℕ, zero, suc, ◌+◌, ◌/◌, ◌%◌, ◌^◌, ◌≤◌, ◌<◌, ◌≡◌, refl, ap, ◌∙◌, sym, List, [], ◌∷◌, ◌++◌, ◌==◌,
  ltb, if◌then◌else◌, length, take, arith, append_assoc, append-nil, length-append, length-take,
  Bool-cases, inl, inr, ne→==, ==→eq, eq→==, ◌≢◌, ◌⊎◌, get_or,
}
use swtrust.Constants.Rc
use native.Mathlib.Nat.{one-le-pow, mod-lt}
use swtrust.Base.Bits.{bit_and_mask}
use swtrust.Error.{TpmResult, ok, err, ◌>>=◌, is_ok→ok, >>=-of-ok}
use swtrust.Marshal.Bytes.{to_be_bytes}
use swtrust.Crypto.Hash.{
  Crypto, IsSupported, algorithm, block_size, digest_size, digest, new, update, finish, output_len,
  output_len_pos,
}
use swtrust.Crypto.Hmac.{
  Hmac, keyed, pad_key, hmac_new, hmac_update, hmac_update_all, hmac_finish, hmac_parts, hmac, kdfa,
  kdfa_parts, kdfa_rounds, mask_first, out_len_of,
}

abbrev pub concat : List (List ℕ) → List ℕ
concat [] = []
concat (p ∷ ps) = p ++ concat ps

hmac_update-append :
    (m : Hmac) (b d : List ℕ) → hmac_update (hmac_update m b) d ≡ hmac_update m (b ++ d)
unfolding hmac_update update
hmac_update-append m b d = ground (arith, append_assoc m.inner.absorbed b d)

hmac_update-nil : (m : Hmac) → hmac_update m [] ≡ m
unfolding hmac_update update
hmac_update-nil m = ground (arith, append-nil m.inner.absorbed)

hmac_update_all-concat :
    (m : Hmac) (parts : List (List ℕ)) → hmac_update_all m parts ≡ hmac_update m (concat parts)
unfolding hmac_update_all
hmac_update_all-concat m [] = sym (hmac_update-nil m)
hmac_update_all-concat m (p ∷ ps) =
    hmac_update_all-concat (hmac_update m p) ps ∙ hmac_update-append m p (concat ps)

>>=-cong {ℓ κ} :
    {A : Type ℓ} {B : Type κ} (m : TpmResult A) (f g : A → TpmResult B)
    → ((a : A) → f a ≡ g a)
    → (m >>= f) ≡ (m >>= g)
>>=-cong (ok a) f g h = h a
>>=-cong (err e) f g h = refl

-- An HMAC taken over parts, in any cutting, is the HMAC of the whole message: the same octets for
-- every key and algorithm, and the same error where there is one.
pub hmac_parts-concat :
    (c : Crypto) (a : ℕ) (key : List ℕ) (parts : List (List ℕ))
    → hmac_parts c a key parts ≡ hmac c a key (concat parts)
unfolding hmac_parts hmac
hmac_parts-concat c a key parts = >>=-cong (hmac_new c a key) _ _ λ m.
    ap (λ n. ok (hmac_finish c n))
      (hmac_update_all-concat m parts
        ∙ ap (hmac_update m) (sym (append-nil (concat parts)))
        ∙ sym (hmac_update_all-concat m (concat parts ∷ [])))

block_size_ok : (c : Crypto) (a : ℕ) → IsSupported c a → (n : ℕ) × (block_size c a ≡ ok n)
unfolding algorithm block_size
block_size_ok c a h = is_ok→ok (block_size c a) (ground arith)

shortened_ok :
    (c : Crypto) (a block : ℕ) (key : List ℕ)
    → IsSupported c a
    → (k : List ℕ) × ((if ltb block (length key) then digest c a key else ok key) ≡ ok k)
unfolding digest
shortened_ok c a block key h = is_ok→ok _ (ground (arith, h))

hmac_new_ok :
    (c : Crypto) (a : ℕ) (key : List ℕ)
    → IsSupported c a
    → (m : Hmac) × (hmac_new c a key ≡ ok m) × (m.hash_alg ≡ a)
unfolding hmac_new new
hmac_new_ok c a key h =
    let (block, eb) = block_size_ok c a h in
    let (k, ek) = shortened_ok c a block key h in
    (
      keyed a (record { hash_alg = a; absorbed = [] }) (pad_key block k),
      >>=-of-ok _ eb ∙ >>=-of-ok _ ek ∙ >>=-of-ok _ (>>=-of-ok _ h),
      refl,
    )

pub hmac_parts_ok :
    (c : Crypto) (a : ℕ) (key : List ℕ) (parts : List (List ℕ))
    → IsSupported c a
    → (d : List ℕ) × (hmac_parts c a key parts ≡ ok d) × (length d ≡ output_len a)
unfolding hmac_parts hmac_finish finish hmac_update
hmac_parts_ok c a key parts h =
    let (m, em, alg) = hmac_new_ok c a key h in
    let n = hmac_update_all m parts in
    let kept : n.hash_alg ≡ a =
      ap (λ (k : Hmac). k.hash_alg) (hmac_update_all-concat m parts) ∙ alg in
    (hmac_finish c n, >>=-of-ok _ em, c.length-sha n.hash_alg _ ∙ ap output_len kept)

-- Enough rounds reach the length asked for.
kdfa_rounds_ok :
    (c : Crypto) (a : ℕ) (key : List ℕ) (parts : List (List ℕ)) (out_len rounds counter : ℕ)
    (out : List ℕ)
    → IsSupported c a
    → out_len ≤ length out + rounds
    → (d : List ℕ) × (kdfa_rounds c a key parts out_len rounds counter out ≡ ok d)
      × (out_len ≤ length d)
unfolding kdfa_rounds
kdfa_rounds_ok c a key parts out_len zero counter out h enough = (out, refl, omega arith)
kdfa_rounds_ok c a key parts out_len (suc rounds) counter out h enough =
    elim (Bool-cases (ltb (length out) out_len)) [
      | inl short ↦
          let (block, eb, lb) = hmac_parts_ok c a key (to_be_bytes 4 (counter + 1) ∷ parts) h in
          let (d, ed, ld) =
            kdfa_rounds_ok c a key parts out_len rounds (counter + 1) (out ++ block) h
              (omega (arith, length-append out block, lb, output_len_pos a)) in
          (d, rw (short, eb) ed, ld)
      | inr done ↦ (out, rw done, ground arith)
    ]

pub length-mask_first : (bits : ℕ) (bs : List ℕ) → length (mask_first bits bs) ≡ length bs
unfolding mask_first
length-mask_first bits [] = refl
length-mask_first bits (b ∷ bs) = ground arith

-- The first octet of a derivation that is no whole number of octets has no bit above its width.
mask_first-lt :
    (bits : ℕ) (bs : List ℕ) → bits % 8 ≢ 0 → get_or (mask_first bits bs) 0 0 < 2 ^ (bits % 8)
unfolding mask_first
mask_first-lt bits [] h = one-le-pow (bits % 8) 2 (omega arith)
mask_first-lt bits (b ∷ bs) h =
    rw (ne→== _ _ h, bit_and_mask (bits % 8) b) (mod-lt b (one-le-pow (bits % 8) 2 (omega arith)))

pub whole_or_masked :
    (bits : ℕ) (bs : List ℕ) → (bits % 8 ≡ 0) ⊎ (get_or (mask_first bits bs) 0 0 < 2 ^ (bits % 8))
whole_or_masked bits bs = elim (Bool-cases (bits % 8 == 0)) [
  | inl whole ↦ inl (==→eq _ _ whole)
  | inr part ↦ inr (mask_first-lt bits bs (λ e. cc (eq→== _ _ e)))
]

pub out_len_ok : (bits : ℕ) → bits ≤ 8192 → out_len_of bits ≡ ok ((bits + 7) / 8)
unfolding out_len_of
out_len_ok bits h = ground arith

-- KDFa with an implemented hash gives exactly the bits asked for, up to 8192 of them: as many
-- octets as hold them, and in the first no bit beyond them.
pub kdfa_total :
    (c : Crypto) (a : ℕ) (key label context_u context_v : List ℕ) (bits : ℕ)
    → IsSupported c a
    → bits ≤ 8192
    → (out : List ℕ) × (kdfa c a key label context_u context_v bits ≡ ok out)
      × (length out ≡ (bits + 7) / 8)
      × ((bits % 8 ≡ 0) ⊎ (get_or out 0 0 < 2 ^ (bits % 8)))
unfolding kdfa digest_size
kdfa_total c a key label context_u context_v bits h fits =
    let n = (bits + 7) / 8 in
    let (d, ed, ld) =
      kdfa_rounds_ok c a key (kdfa_parts label context_u context_v bits) n n 0 [] h (omega arith) in
    let out = mask_first bits (take n d) in
    (
      out,
      >>=-of-ok _ (out_len_ok bits fits) ∙ >>=-of-ok _ (>>=-of-ok _ h) ∙ >>=-of-ok _ ed,
      length-mask_first bits (take n d) ∙ length-take n d ∙ omega arith,
      whole_or_masked bits (take n d),
    )

-- More than 8192 bits are refused, whatever else is asked.
pub kdfa_refuses :
    (c : Crypto) (a : ℕ) (key label context_u context_v : List ℕ) (bits : ℕ)
    → 8192 < bits
    → kdfa c a key label context_u context_v bits ≡ err Rc.value
unfolding kdfa out_len_of
kdfa_refuses c a key label context_u context_v bits h = ground arith
