-- ===== src/Sessions/Keys.antt =====
-- The keys and HMACs of a session: padding, omission and sizes. src/tpm/core/session.rs.
use swtrust.Base.{
  ℕ, zero, suc, ◌+◌, ◌*◌, ◌/◌, ◌%◌, ◌≤◌, ◌<◌, ◌≡◌, ◌⊎◌, ◌↔◌, inl, inr, refl, ap, ◌∙◌, Bool, true,
  List, [], ◌∷◌, ◌++◌, length, get_or, take, drop, replicate, arith, length-append,
  length-replicate, length-take, length-drop,
}
use swtrust.Error.{ok, >>=-of-ok}
use swtrust.Crypto.Hash.{Crypto, IsSupported}
use swtrust.Crypto.Hmac.Laws.{kdfa_total}
use swtrust.Protect.{constant_time_eq_iff}
use swtrust.Sessions.Session.{
  Session, trimmed_end, trim_auth, bind_id, is_bound_to, wants_auth, hmac_key, session_value,
  auth_hmac_accepted, derive_session_key, parameter_encryption_key, label_cfb,
}

get_or-append : (xs ys : List ℕ) (i : ℕ) → i < length xs → get_or (xs ++ ys) i 0 ≡ get_or xs i 0
get_or-append [] ys i h = absurd (omega arith)
get_or-append (x ∷ xs) ys zero h = refl
get_or-append (x ∷ xs) ys (suc i) h = get_or-append xs ys i (omega arith)

trimmed_end_front :
    (xs ys : List ℕ) (n : ℕ) → n ≤ length xs → trimmed_end (xs ++ ys) n ≡ trimmed_end xs n
unfolding trimmed_end
trimmed_end_front xs ys zero h = refl
trimmed_end_front xs ys (suc n) h =
    rw (get_or-append xs ys n (omega arith), trimmed_end_front xs ys n (omega arith))

trimmed_end-le : (xs : List ℕ) (n : ℕ) → trimmed_end xs n ≤ n
unfolding trimmed_end
trimmed_end-le xs zero = omega arith
trimmed_end-le xs (suc n) = ground (arith, trimmed_end-le xs n)

get_or_padding : (xs : List ℕ) (n i : ℕ) → length xs ≤ i → get_or (xs ++ replicate n 0) i 0 ≡ 0
get_or_padding [] zero i h = refl
get_or_padding [] (suc n) zero h = refl
get_or_padding [] (suc n) (suc i) h = get_or_padding [] n i (omega arith)
get_or_padding (x ∷ xs) n zero h = absurd (omega arith)
get_or_padding (x ∷ xs) n (suc i) h = get_or_padding xs n i (omega arith)

-- The zeros behind a value are passed over.
trimmed_end_padding :
    (xs : List ℕ) (n k : ℕ)
    → trimmed_end (xs ++ replicate n 0) (length xs + k) ≡ trimmed_end xs (length xs)
unfolding trimmed_end
trimmed_end_padding xs n zero =
    let e : length xs + 0 ≡ length xs = omega arith in
    rw e (trimmed_end_front xs (replicate n 0) (length xs) (omega arith))
trimmed_end_padding xs n (suc k) =
    let e : length xs + suc k ≡ suc (length xs + k) = omega arith in
    rw (e, get_or_padding xs n (length xs + k) (omega arith)) (trimmed_end_padding xs n k)

take_front {ℓ} :
    {A : Type ℓ} (n : ℕ) (xs ys : List A) → n ≤ length xs → take n (xs ++ ys) ≡ take n xs
take_front zero xs ys h = refl
take_front (suc n) [] ys h = absurd (omega arith)
take_front (suc n) (x ∷ xs) ys h = ap (◌∷◌ x) (take_front n xs ys (omega arith))

trim_auth_padding : (auth : List ℕ) (n : ℕ) → trim_auth (auth ++ replicate n 0) ≡ trim_auth auth
unfolding trim_auth
trim_auth_padding auth n = rw (
  length-append auth (replicate n 0),
  length-replicate {A = ℕ} n 0,
  trimmed_end_padding auth n n,
  take_front (trimmed_end auth (length auth)) auth (replicate n 0)
      (trimmed_end-le auth (length auth)),
)

-- An authorization value padded with zeros is the same value to the key that authorizes, to the
-- value that parameter encryption folds in and the key that it derives, to the identifier of a bound
-- entity, and to the session key that a bound session derives.
pub hmac_key_padding :
    (c : Crypto) (auth_hash : ℕ) (s : Session) (name auth : List ℕ) (n : ℕ) (plain : Bool)
    (salt session_key newer older : List ℕ) (key_bits iv_bytes : ℕ)
    → (hmac_key s name (auth ++ replicate n 0) ≡ hmac_key s name auth)
      × (session_value s (auth ++ replicate n 0) ≡ session_value s auth)
      × (bind_id name (auth ++ replicate n 0) ≡ bind_id name auth)
      × (derive_session_key c auth_hash plain (auth ++ replicate n 0) salt newer older
          ≡ derive_session_key c auth_hash plain auth salt newer older)
      × (parameter_encryption_key c auth_hash session_key
            (auth ++ replicate n 0)
            newer
            older
            key_bits
            iv_bytes
          ≡ parameter_encryption_key c auth_hash session_key auth newer older key_bits iv_bytes)
unfolding hmac_key wants_auth is_bound_to bind_id session_value derive_session_key
    parameter_encryption_key
hmac_key_padding c auth_hash s name auth n plain salt session_key newer older key_bits iv_bytes =
    let same = trim_auth_padding auth n in (rw same, rw same, rw same, rw same, rw same)

-- An authorization HMAC is accepted exactly where it is the expected one, or where neither a key nor
-- an HMAC was given.
pub auth_hmac_accepted_iff :
    (key expected supplied : List ℕ)
    → (auth_hmac_accepted key expected supplied ≡ true)
      ↔ ((key ≡ []) × (supplied ≡ []) ⊎ (expected ≡ supplied))
unfolding auth_hmac_accepted
auth_hmac_accepted_iff [] expected [] = (λ h. inl (refl, refl), λ h. refl)
auth_hmac_accepted_iff [] expected (x ∷ xs) =
    let (sound, complete) = constant_time_eq_iff expected (x ∷ xs) in
    (λ h. inr (sound h), λ h. elim h [ inl (p, q) ↦ cc | inr e ↦ complete e ])
auth_hmac_accepted_iff (k ∷ ks) expected supplied =
    let (sound, complete) = constant_time_eq_iff expected supplied in
    (λ h. inr (sound h), λ h. elim h [ inl (p, q) ↦ cc | inr e ↦ complete e ])

-- Parameter encryption gets a key and an IV of exactly the sizes it asks for, where the hash is
-- implemented, the key is a whole number of octets and no more than 8192 bits are asked for.
pub parameter_encryption_key_total :
    (c : Crypto) (auth_hash : ℕ) (session_key extra newer older : List ℕ) (key_bits iv_bytes : ℕ)
    → IsSupported c auth_hash
    → key_bits % 8 ≡ 0
    → key_bits + iv_bytes * 8 ≤ 8192
    → (key : List ℕ) × (iv : List ℕ) × (parameter_encryption_key c auth_hash session_key extra newer
          older key_bits iv_bytes
        ≡ ok (key, iv))
      × (length key ≡ key_bits / 8)
      × (length iv ≡ iv_bytes)
unfolding parameter_encryption_key
parameter_encryption_key_total c a session_key extra newer older key_bits iv_bytes h whole fits =
    let (out, e, size, _) =
      kdfa_total c a (session_key ++ trim_auth extra) label_cfb newer older
        (key_bits + iv_bytes * 8) h fits in
    (
      take (key_bits / 8) out,
      drop (key_bits / 8) out,
      >>=-of-ok _ e,
      length-take (key_bits / 8) out ∙ omega arith,
      length-drop (key_bits / 8) out ∙ omega arith,
    )
