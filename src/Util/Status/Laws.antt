-- ===== src/Util/Status/Laws.antt =====
-- Facts about statuses.
use Prim.Native.String.{String}
use private_join_and_compute.Prelude.{◌≡◌, true, arith}
use private_join_and_compute.Util.Status.{Status, annotate, is_ok}

-- Annotating keeps the code, whatever the message, and leaves an OK status as it is.
pub annotate_code :
    (s : Status) (msg : String)
    → ((annotate s msg).code ≡ s.code) × (is_ok s ≡ true → annotate s msg ≡ s)
unfolding annotate
annotate_code s msg = (ground arith, λ h. ground arith)
