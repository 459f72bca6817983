-- ===== src/Commands/Request.antt =====
-- `Request` and `Response` of src/tpm/commands/dispatch.rs, as the handlers use them: the handles
-- and the parameter area of a command, and what a response holds.
use swtrust.Base.{ℕ, Option, none, some, List, get_elem?}
use swtrust.Constants.Rc
use swtrust.Error.{TpmResult, ok, err, ◌>>=◌, ◌>>◌, with_parameter}
use swtrust.Marshal.Read
use swtrust.Marshal.Read.{Reader, Read, expect_end}
use swtrust.Marshal.Write
use swtrust.Marshal.Write.{Writer, finish}

pub record Request : Type 0 where
  pub handles : List ℕ
  pub parameters : List ℕ

abbrev found : Option ℕ → TpmResult ℕ
found none = err Rc.value
found (some h) = ok h

unfoldable pub handle : Request → ℕ → TpmResult ℕ
handle r index = found (get_elem? r.handles index)

pub record Response : Type 0 where
  pub handle : Option ℕ
  pub parameters : List ℕ

-- `map_err(|e| e.with_parameter(index))`
abbrev renamed {ℓ} : {A : Type ℓ} → ℕ → TpmResult A × Reader → TpmResult A × Reader
renamed index (ok x, r) = (ok x, r)
renamed index (err e, r) = (err (with_parameter e index), r)

unfoldable pub parameter {ℓ} : {A : Type ℓ} → ℕ → Read A → Read A
parameter index m r = renamed index (m r)

abbrev to_the_end {ℓ} : {A : Type ℓ} → TpmResult A × Reader → TpmResult A
to_the_end (err e, r) = err e
to_the_end (ok x, r) = expect_end r >> ok x

-- The parameters are read from the start of the area, and nothing may be left.
unfoldable pub read_parameters {ℓ} : {A : Type ℓ} → Request → Read A → TpmResult A
unfolding Read.new
read_parameters request m = to_the_end (m (Read.new request.parameters))

-- `respond` with a body that only writes.
unfoldable pub respond : (Writer → Writer) → TpmResult Response
unfolding Write.new
respond body = do
  octets ← finish (body Write.new)
  ok (record { handle = none; parameters = octets })

unfoldable pub respond_empty : TpmResult Response
unfolding respond finish
respond_empty = respond (λ w. w)
