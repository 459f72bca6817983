-- ===== src/Pcr/Registers.antt =====
-- One digest that goes into one register, `PcrBanks::extend_digest` of src/tpm/core/pcr.rs, and
-- what is read of every register after it.
use swtrust.Base.{
  ℕ, ◌<◌, ◌≡◌, refl, ap, sym, ◌∙◌, subst, true, false, ◌&&◌, some, List, [], ◌∷◌, ◌++◌, ◌==◌,
  if◌then◌else◌, length, get_elem?, set, inl, inr, eq-cases, eq→==, ne→==, get_elem?-set_self,
  get_elem?-set_ne,
}
use swtrust.Base.Maps.{lookup}
use swtrust.Error.{ok}
use swtrust.Crypto.Hash.{
  Crypto, output_len, IsSupported, digest_parts, new, update, update_all, finish,
}
use swtrust.Pcr.Profile.{is_implemented}
use swtrust.Pcr.Banks.{PcrBanks, has_pcr, register, read, found}
use swtrust.Pcr.Update.{put_register, extend_digest, extend_register, store_digest}
use swtrust.Pcr.Valid.{digest_size-IsSupported, lookup-put_self, lookup-put_ne}

digest_parts_two :
    (c : Crypto) (a : ℕ) (x y : List ℕ)
    → IsSupported c a
    → digest_parts c a (x ∷ y ∷ []) ≡ ok (c.sha a (x ++ y))
unfolding digest_parts new update_all update finish
digest_parts_two c a x y s = rw s

pub extend_digest_skip :
    (c : Crypto) (a index : ℕ) (value : List ℕ) (b : PcrBanks)
    → has_pcr b a index ≡ false
    → extend_digest c a index value b ≡ (ok tt, b)
unfolding extend_digest
extend_digest_skip c a index value b h = rw h

extend_register-some :
    (c : Crypto) (a index : ℕ) (value v : List ℕ) (b : PcrBanks) (r : List (List ℕ))
    → IsSupported c a
    → extend_register c a index value b r (some v)
      ≡ (ok tt, put_register a index (c.sha a (v ++ value)) r b)
extend_register-some c a index value v b r s =
    ap (store_digest a index b r) (digest_parts_two c a v value s)

pub extend_digest_take :
    (c : Crypto) (a index : ℕ) (value : List ℕ) (b : PcrBanks) {r : List (List ℕ)} {v : List ℕ}
    → IsSupported c a
    → has_pcr b a index ≡ true
    → is_implemented index ≡ true
    → length value ≡ output_len a
    → lookup a b.banks ≡ some r
    → get_elem? r index ≡ some v
    → extend_digest c a index value b ≡ (ok tt, put_register a index (c.sha a (v ++ value)) r b)
unfolding extend_digest
extend_digest_take c a index value b {r} {v} s h i l q g =
    simp (h, i, digest_size-IsSupported c a s, eq→== (length value) (output_len a) l, q, g)
      (extend_register-some c a index value v b r s)

pub register-set :
    (r : List (List ℕ)) (index j : ℕ) (v : List ℕ)
    → index < length r
    → register (some (set r index v)) j ≡ (if index == j then ok v else register (some r) j)
register-set r index j v l = elim (eq-cases index j) [
  | inl k ↦
      subst
        (λ z.
          register (some (set r index v)) z ≡ (if index == z then ok v else register (some r) z))
        k
        (ap found (get_elem?-set_self r index v l)
          ∙ sym (ap (λ t. if t then ok v else register (some r) index) (eq→== index index refl)))
  | inr n ↦
      ap found (get_elem?-set_ne r index j v n)
      ∙ sym (ap (λ t. if t then ok v else register (some r) j) (ne→== index j n))
]

pub read-put_register :
    (a index x j : ℕ) (v : List ℕ) {r : List (List ℕ)} (b : PcrBanks)
    → lookup a b.banks ≡ some r
    → index < length r
    → read (put_register a index v r b) x j ≡ (if a == x && index == j then ok v else read b x j)
unfolding read
read-put_register a index x j v {r} b q l = elim (eq-cases a x) [
  | inl y ↦
      subst
        (λ z.
          read (put_register a index v r b) z j
          ≡ (if a == z && index == j then ok v else read b z j))
        y (rw (lookup-put_self a index v r b, q, eq→== a a refl) (register-set r index j v l))
  | inr n ↦ rw (lookup-put_ne a x index v r b n, ne→== a x n)
]
