-- ===== src/Driver/Since.antt =====
-- The requests that an operation makes, whatever is answered.
use csi_plugin.Base.{◌≡◌, ◌∷◌, refl}
use csi_plugin.Driver.{Event, History, Driver, Op}
use csi_plugin.Driver.Keeps.{Keeps}

-- `after` is `before` with more requests, of which each satisfies `Q`.
pub data Since (Q : Event → Type 0) (before : History) : History → Type 0 where
  none_yet : (h : History) → h ≡ before → Since Q before h
  one_more : (e : Event) (h : History) → Q e → Since Q before h → Since Q before (e ∷ h)

abbrev pub SinceThen : (Event → Type 0) → History → Driver → Type 0
SinceThen Q before d = Since Q before d.history

module _ {A : Type 0} {Q : Event → Type 0} where
  pub Since-Keeps :
      (m : Op A)
      → ((before : History) → Keeps (SinceThen Q before) m)
      → (d : Driver) → Since Q d.history (m d).1.history
  Since-Keeps m k d = (k d.history).at d (none_yet d.history refl)
