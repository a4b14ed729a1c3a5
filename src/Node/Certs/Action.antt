-- ===== src/Node/Certs/Action.antt =====
-- node/cert.go and node/lego.go: calls that change the host and may fail. The host comes back after an
-- error, too, since what was written stays written.
use v2b_z.Prelude.{Option, none, some, Result, ok, err}
use v2b_z.Prelude.Text.{Text}
use v2b_z.Node.Certs.{CertError, wrapped, external, Host}

-- An error that is returned, or a panic.
pub data Stop : Type 0 where
  failed : CertError → Stop
  panicked : Stop

abbrev pub Action : Type 0 → Type 0 → Type 0
Action H X = H → H × Result Stop X

module _ {H X : Type 0} where
  abbrev pub pure : X → Action H X
  pure x h = (h, ok x)

  abbrev pub stop : Stop → Action H X
  stop e h = (h, err e)

  -- A result that is read off the host.
  abbrev pub given : (H → Result Stop X) → Action H X
  given f h = (h, f h)

infixl 5 ◌>>=◌ ◌>>◌
abbrev pub ◌>>=◌ : {H X Y : Type 0} → Action H X → (X → Action H Y) → Action H Y
◌>>=◌ m f h = let (h', r) = m h in elim r [ ok x ↦ f x h' | err e ↦ (h', err e) ]

abbrev pub ◌>>◌ : {H X Y : Type 0} → Action H X → Action H Y → Action H Y
m >> k = m >>= λ _. k

abbrev pub map_stop : {X : Type 0} → (CertError → CertError) → Result Stop X → Result Stop X
map_stop f (ok x) = ok x
map_stop f (err (failed e)) = err (failed (f e))
map_stop f (err panicked) = err panicked

-- A call whose error is returned inside another one.
abbrev pub with_error : {H X : Type 0} → (CertError → CertError) → Action H X → Action H X
with_error f m h = let (h', r) = m h in (h', map_stop f r)

abbrev pub with_text : {H X : Type 0} → Text → Action H X → Action H X
with_text t = with_error (wrapped t)

abbrev pub unit_of : Option Text → Result Stop (Unit {0})
unit_of none = ok tt
unit_of (some e) = err (failed (external e))

abbrev pub value_of : {X : Type 0} → Result Text X → Result Stop X
value_of (ok x) = ok x
value_of (err e) = err (failed (external e))

module _ {D A : Type 0} where
  abbrev pub on_disk : (D → D × Option Text) → Action (Host D A) (Unit {0})
  on_disk f h = let (d, r) = f h.disk in (record h { disk = d }, unit_of r)

  abbrev pub on_services : (A → A × Option Text) → Action (Host D A) (Unit {0})
  on_services f h = let (a, r) = f h.services in (record h { services = a }, unit_of r)

  abbrev pub from_services : {X : Type 0} → (A → A × Result Text X) → Action (Host D A) X
  from_services f h = let (a, r) = f h.services in (record h { services = a }, value_of r)
