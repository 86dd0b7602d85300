-- ===== src/Bsd/Fresh.antt =====
-- A device of the BSDs, of Darwin or of Linux that was not closed.
use subpass.Base.{◌≡◌, false}
use subpass.Bsd.{TunDevice}

abbrev pub IsFresh : TunDevice → Type 0
IsFresh t = t.closed ≡ false
