-- ===== src/Desktop/Exports/Reports.antt =====
-- What the functions of cmd/skipicore-desktop report.
use skipi_core.Base.{◌≡◌, ◌⊎◌, false, none, some, [], Text, ℤ, pos, negsuc, ltz}
use skipi_core.Bridge
use skipi_core.Bridge.{Error}
use skipi_core.Tunnel.Session.{Session}
use skipi_core.Desktop.{
  Desktop, Fault, Result, value, fault, panic, Texts, Returned, error_text, owned_text, number,
  handle,
}

-- The text of an error or of a panic.
IsFault : Texts → Text → Type 0
IsFault ts t = ((f : Fault) × (t ≡ ts.describe f)) ⊎ ((p : Text) × (t ≡ ts.panic_error p))

-- What a function returns says whether it succeeded, and the message is empty if it did and the
-- text of the error if it did not; an error text that is returned is the message.
unfoldable pub IsReported : Texts → Desktop × Returned → Type 0
unfolding IsFault
IsReported ts (d, error_text none) = d.message ≡ []
IsReported ts (d, error_text (some t)) = (d.message ≡ t) × IsFault ts d.message
IsReported ts (d, owned_text (some t)) = d.message ≡ []
IsReported ts (d, owned_text none) = IsFault ts d.message
IsReported ts (d, number n) =
    ((ltz n (pos 0) ≡ false) × (d.message ≡ [])) ⊎ ((n ≡ negsuc 0) × IsFault ts d.message)
IsReported ts (d, handle h) = d.message ≡ []

-- A number that an action returns is not negative.
IsNumber : Desktop × Result ℤ → Type 0
IsNumber (d, value n) = ltz n (pos 0) ≡ false
IsNumber (d, fault f) = Unit {0}
IsNumber (d, panic t) = Unit {0}
