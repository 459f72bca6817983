-- ===== src/Marshal/Read/Laws.antt =====
-- How reads compose: what a read consumes, and that no read leaves the buffer. src/tpm/marshal.rs.
use swtrust.Base.{
  ℕ, zero, suc, ◌+◌, ◌-◌, ◌^◌, ◌≤◌, ◌<◌, ◌≡◌, sym, ap, subst, ◌∙◌, Bool, false, List, [], ◌∷◌, ◌++◌,
  ltb, length, get_or, arith, length-append, length-drop, take-append, drop-append, drop-drop,
  append_assoc, append-nil, lt→ltb,
}
use swtrust.Constants.Rc
use swtrust.Error.{TpmResult, ok, err}
use swtrust.Marshal.Bytes.{
  encode_items, from_be_bytes, to_be_bytes, length-to_be_bytes, from_be_bytes-to_be_bytes,
}
use swtrust.Marshal.Read.{
  Reader, Read, continue, ◌>>=◌, ◌>>◌, pure, new, remaining, is_empty, rest, read, read_u8,
  read_u16, read_u32, read_u64, from_bytes, whole, unmarshal_items, unmarshal_list, refuse_if,
}

abbrev pub advance : ℕ → Reader → Reader
advance n r = record r { pos = r.pos + n }

-- `m` accepts exactly the octets `bs` at the front of what is left, and returns `x`.
abbrev pub Reads {ℓ} : {A : Type ℓ} → Read A → List ℕ → A → Type ℓ
Reads m bs x =
    (r : Reader) (tail : List ℕ) → rest r ≡ bs ++ tail → m r ≡ (ok x, advance (length bs) r)

pub rest-advance :
    (r : Reader) (bs tail : List ℕ) → rest r ≡ bs ++ tail → rest (advance (length bs) r) ≡ tail
unfolding rest
rest-advance r bs tail e = rw (drop-drop r.pos (length bs) r.buf, e) (drop-append bs tail)

advance-advance : (m n : ℕ) (r : Reader) → advance n (advance m r) ≡ advance (m + n) r
advance-advance m n r = ground arith

pub Reads-pure {ℓ} : {A : Type ℓ} (x : A) → Reads (pure x) [] x
Reads-pure x r tail e = ground arith

pub >>=-ok {ℓ κ} :
    {A : Type ℓ} {B : Type κ} (m : Read A) (f : A → Read B) {r r' : Reader} {x : A}
    → m r ≡ (ok x, r')
    → (m >>= f) r ≡ f x r'
>>=-ok m f e = ap (λ p. continue p f) e

pub Reads->>= {ℓ κ} :
    {A : Type ℓ} {B : Type κ} (m : Read A) (f : A → Read B) (bs cs : List ℕ) (x : A) (y : B)
    → Reads m bs x
    → Reads (f x) cs y
    → Reads (m >>= f) (bs ++ cs) y
Reads->>= m f bs cs x y first second r tail e =
    let front : rest r ≡ bs ++ (cs ++ tail) = e ∙ append_assoc bs cs tail in
    >>=-ok m f (first r (cs ++ tail) front)
    ∙ second (advance (length bs) r) tail (rest-advance r bs (cs ++ tail) front)
    ∙ rw (advance-advance (length bs) (length cs) r, length-append bs cs)

pub Reads-fmap {ℓ κ} :
    {A : Type ℓ} {B : Type κ} (m : Read A) (f : A → B) (bs : List ℕ) (x : A)
    → Reads m bs x
    → Reads (m >>= λ a. pure (f a)) bs (f x)
Reads-fmap m f bs x h r tail e = rw (>>=-ok m (λ a. pure (f a)) (h r tail e))

pub Reads-read : (bs : List ℕ) → Reads (read (length bs)) bs bs
unfolding read remaining rest
Reads-read bs r tail e =
    let fits : length bs ≤ length r.buf - r.pos =
      omega (arith, ap length e, length-append bs tail, length-drop r.pos r.buf) in
    ground (arith, fits, e, take-append bs tail)

pub Reads-read_u8 : (v : ℕ) → Reads read_u8 (v ∷ []) v
unfolding read_u8
Reads-read_u8 v = Reads-fmap (read 1) (λ bs. get_or bs 0 0) (v ∷ []) (v ∷ []) (Reads-read (v ∷ []))

be-Reads :
    (n v : ℕ) → v < 256 ^ n → Reads (read n >>= λ bs. pure (from_be_bytes bs)) (to_be_bytes n v) v
be-Reads n v h r tail e =
    let bs = to_be_bytes n v in
    let whole : read n r ≡ (ok bs, advance n r) =
      subst (λ k. read k r ≡ (ok bs, advance k r)) (length-to_be_bytes n v)
        (Reads-read bs r tail e) in
    rw (
      >>=-ok (read n) (λ bs. pure (from_be_bytes bs)) whole,
      from_be_bytes-to_be_bytes n v h,
      length-to_be_bytes n v,
    )

pub Reads-read_u16 : (v : ℕ) → v < 2 ^ 16 → Reads read_u16 (to_be_bytes 2 v) v
unfolding read_u16
Reads-read_u16 v h = be-Reads 2 v h

pub Reads-read_u32 : (v : ℕ) → v < 2 ^ 32 → Reads read_u32 (to_be_bytes 4 v) v
unfolding read_u32
Reads-read_u32 v h = be-Reads 4 v h

pub Reads-read_u64 : (v : ℕ) → v < 2 ^ 64 → Reads read_u64 (to_be_bytes 8 v) v
unfolding read_u64
Reads-read_u64 v h = be-Reads 8 v h

-- A request for more than is left fails, and consumes nothing.
pub read_short : (n : ℕ) (r : Reader) → remaining r < n → read n r ≡ (err Rc.insufficient, r)
unfolding read
read_short n r h = ground arith

-- A whole slice that `m` accepts exactly.
pub from_bytes-Reads {ℓ} :
    {A : Type ℓ} (m : Read A) (bs : List ℕ) (x : A) → Reads m bs x → from_bytes m bs ≡ ok x
unfolding from_bytes rest new remaining is_empty
from_bytes-Reads m bs x h = ap whole (h (new bs) [] (sym (append-nil bs))) ∙ ground arith

not_above : (limit n : ℕ) → n ≤ limit → ltb limit n ≡ false
not_above limit n h = ground arith

module _ {ℓ} {A : Type ℓ} (unmarshal : Read A) (encode : A → List ℕ) where
  abbrev pub ReadsAll : List A → Type ℓ
  ReadsAll [] = Unit {ℓ}
  ReadsAll (x ∷ xs) = Reads unmarshal (encode x) x × ReadsAll xs

  pub Reads-unmarshal_items :
      (xs : List A)
      → ReadsAll xs
      → Reads (unmarshal_items unmarshal (length xs)) (encode_items encode xs) xs
  unfolding unmarshal_items
  Reads-unmarshal_items [] h = Reads-pure []
  Reads-unmarshal_items (x ∷ xs) h =
      Reads->>= unmarshal _ (encode x) (encode_items encode xs) x (x ∷ xs) h.0 (
        Reads-fmap (unmarshal_items unmarshal (length xs)) (λ ys. x ∷ ys) (encode_items encode xs)
          xs (Reads-unmarshal_items xs h.1))

  pub Reads-unmarshal_list :
      (limit : ℕ) (xs : List A)
      → length xs ≤ limit
      → limit < 2 ^ 32
      → ReadsAll xs
      → Reads
          (unmarshal_list unmarshal limit)
          (to_be_bytes 4 (length xs) ++ encode_items encode xs)
          xs
  unfolding unmarshal_list
  Reads-unmarshal_list limit xs short word h =
      Reads->>= read_u32 _ (to_be_bytes 4 (length xs)) (encode_items encode xs) (length xs) xs
        (Reads-read_u32 (length xs) (omega arith))
        (λ r tail e. rw (not_above limit (length xs) short) (Reads-unmarshal_items xs h r tail e))

-- A count above the limit is refused before any item is read.
pub unmarshal_list_refuses {ℓ} :
    {A : Type ℓ} (unmarshal : Read A) (limit count : ℕ) (r : Reader) (tail : List ℕ)
    → rest r ≡ to_be_bytes 4 count ++ tail
    → count < 2 ^ 32
    → limit < count
    → unmarshal_list unmarshal limit r ≡ (err Rc.size, advance 4 r)
unfolding unmarshal_list
unmarshal_list_refuses unmarshal limit count r tail e word over =
    >>=-ok read_u32 _ (Reads-read_u32 count word r tail e)
    ∙ rw (lt→ltb limit count over, length-to_be_bytes 4 count)

-- A read that stays in its buffer: it keeps the buffer, does not go back, and stops at the end.
abbrev pub IsValid : Reader → Type 0
IsValid r = r.pos ≤ length r.buf

pub record Stays (r r' : Reader) : Type 0 where
  pub same : r'.buf ≡ r.buf
  pub forward : r.pos ≤ r'.pos
  pub within : r'.pos ≤ length r'.buf

abbrev pub IsBounded {ℓ} : {A : Type ℓ} → Read A → Type 0
IsBounded m = (r : Reader) → IsValid r → Stays r (m r).1

pub read-IsBounded : (n : ℕ) → IsBounded (read n)
unfolding read remaining
read-IsBounded n r v = ground arith

Stays-trans : (r s t : Reader) → Stays r s → Stays s t → Stays r t
Stays-trans r s t a b = ground arith

continue-Stays {ℓ κ} :
    {A : Type ℓ} {B : Type κ} (r : Reader) (p : TpmResult A × Reader) (f : A → Read B)
    → Stays r p.1
    → ((x : A) → IsBounded (f x))
    → Stays r (continue p f).1
continue-Stays r (ok x, s) f a h = Stays-trans r s _ a (h x s a.within)
continue-Stays r (err e, s) f a h = a

pub >>=-IsBounded {ℓ κ} :
    {A : Type ℓ} {B : Type κ} (m : Read A) (f : A → Read B)
    → IsBounded m
    → ((x : A) → IsBounded (f x))
    → IsBounded (m >>= f)
>>=-IsBounded m f h k r v = continue-Stays r (m r) f (h r v) k

pub pure-IsBounded {ℓ} : {A : Type ℓ} (x : A) → IsBounded (pure x)
pure-IsBounded x r v = ground arith

pub refuse_if-IsBounded : (b : Bool) (e : ℕ) → IsBounded (refuse_if b e)
refuse_if-IsBounded b e r v = ground arith

unmarshal_items-IsBounded {ℓ} :
    {A : Type ℓ} (unmarshal : Read A)
    → IsBounded unmarshal
    → (n : ℕ) → IsBounded (unmarshal_items unmarshal n)
unfolding unmarshal_items
unmarshal_items-IsBounded {A} unmarshal h zero = pure-IsBounded {A = List A} []
unmarshal_items-IsBounded {A} unmarshal h (suc n) = >>=-IsBounded unmarshal _ h λ x.
    >>=-IsBounded (unmarshal_items unmarshal n) _ (unmarshal_items-IsBounded unmarshal h n)
      λ xs. pure-IsBounded {A = List A} (x ∷ xs)

read_u32-IsBounded : IsBounded read_u32
unfolding read_u32
read_u32-IsBounded =
    >>=-IsBounded (read 4) (λ bs. pure (from_be_bytes bs)) (read-IsBounded 4)
      (λ bs. pure-IsBounded (from_be_bytes bs))

unmarshal_list-IsBounded {ℓ} :
    {A : Type ℓ} (unmarshal : Read A) (limit : ℕ)
    → IsBounded unmarshal
    → IsBounded (unmarshal_list unmarshal limit)
unfolding unmarshal_list
unmarshal_list-IsBounded unmarshal limit h =
    >>=-IsBounded read_u32
      (λ count. refuse_if (ltb limit count) Rc.size >> unmarshal_items unmarshal count)
      read_u32-IsBounded
      λ count.
        >>=-IsBounded (refuse_if (ltb limit count) Rc.size) (λ _. unmarshal_items unmarshal count)
          (refuse_if-IsBounded (ltb limit count) Rc.size)
          λ _. unmarshal_items-IsBounded unmarshal h count

-- Reading a counted list keeps the buffer, does not go back and does not pass its end, on success
-- and on every error, where reading an item does so.
pub unmarshal_list_bounded {ℓ} :
    {A : Type ℓ} (unmarshal : Read A) (limit : ℕ) (r : Reader)
    → IsBounded unmarshal
    → IsValid r
    → Stays r (unmarshal_list unmarshal limit r).1
unmarshal_list_bounded unmarshal limit r h v = unmarshal_list-IsBounded unmarshal limit h r v
