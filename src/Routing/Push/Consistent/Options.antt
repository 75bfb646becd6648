-- ===== src/Routing/Push/Consistent/Options.antt =====
-- The options of routing/push.go that are consistent, and the updates that keep them so.
use go_openlawsvpn.Base.{
  ◌≡◌, ◌≢◌, ◌⊎◌, refl, inl, inr, false, true, Option, none, some, Result, ok, err, panic, Bool,
  ◌>>=◌, Bytes, ℤ, pos, lt_ℤ, if◌then◌else◌,
}
use go_openlawsvpn.Routing.Push.{Directive, Error, State, PushOptions}
use go_openlawsvpn.Routing.Push.Directives.{
  need, with_ping, with_ping_restart, with_ping_exit, with_mssfix, with_tls_ekm, with_inactive,
}

-- At most one of the two timeouts is set, and every number is within the range that the client takes.
abbrev pub IsConsistent : PushOptions → Type 0
IsConsistent o =
    ((o.ping_restart ≡ pos 0) ⊎ (o.ping_exit ≡ pos 0))
    × (lt_ℤ o.ping_interval (pos 0) ≡ false)
    × (lt_ℤ o.ping_restart (pos 0) ≡ false)
    × (lt_ℤ o.ping_exit (pos 0) ≡ false)
    × ((o.mssfix ≡ pos 0)
        ⊎ ((lt_ℤ o.mssfix (pos 68) ≡ false) × (lt_ℤ (pos 65535) o.mssfix ≡ false)))
    × (lt_ℤ o.inactive_timeout (pos 0) ≡ false)
    × (lt_ℤ o.inactive_bytes (pos 0) ≡ false)

-- A result that is no panic, and keeps the options consistent if it is no error.
abbrev pub Sound : Result Error State → Type 0
Sound (ok st) = IsConsistent st.opts
Sound (err _) = Unit {0}
Sound panic = ⊥

pub >>=-Sound_total {ℓ} :
    {A : Type ℓ} (m : Result Error A) (next : A → Result Error State)
    → m ≢ panic
    → ((a : A) → Sound (next a))
    → Sound (m >>= next)
>>=-Sound_total (ok a) next h k = k a
>>=-Sound_total (err e) next h k = tt
>>=-Sound_total panic next h k = h refl

pub Sound-if :
    (b : Bool) (x y : Result Error State)
    → (b ≡ true → Sound x)
    → (b ≡ false → Sound y)
    → Sound (if b then x else y)
Sound-if true x y h k = h refl
Sound-if false x y h k = k refl

pub need-ne-panic {ℓ} :
    {A : Type ℓ} (o : Option A) (d : Directive) (text : Bytes) → need o d text ≢ panic
need-ne-panic none d text e = cc
need-ne-panic (some a) d text e = cc

abbrev pub IsNatural : ℤ → Type 0
IsNatural v = lt_ℤ v (pos 0) ≡ false

abbrev pub IsMss : ℤ → Type 0
IsMss v = (lt_ℤ v (pos 68) ≡ false) × (lt_ℤ (pos 65535) v ≡ false)

abbrev pub Fits : (ℤ → Type 0) → Option ℤ → Type 0
Fits P none = Unit {0}
Fits P (some v) = P v

pub with_ping-IsConsistent :
    (o : PushOptions) (v : Option ℤ)
    → IsConsistent o
    → Fits IsNatural v
    → IsConsistent (with_ping o v)
with_ping-IsConsistent o none h k = h
with_ping-IsConsistent o (some v) h k = (h.0, k, h.2, h.3, h.4, h.5, h.6)

pub with_ping_restart-IsConsistent :
    (o : PushOptions) (v : Option ℤ)
    → IsConsistent o
    → Fits IsNatural v
    → IsConsistent (with_ping_restart o v)
with_ping_restart-IsConsistent o none h k = h
with_ping_restart-IsConsistent o (some v) h k = (inr refl, h.1, k, refl, h.4, h.5, h.6)

pub with_ping_exit-IsConsistent :
    (o : PushOptions) (v : Option ℤ)
    → IsConsistent o
    → Fits IsNatural v
    → IsConsistent (with_ping_exit o v)
with_ping_exit-IsConsistent o none h k = h
with_ping_exit-IsConsistent o (some v) h k = (inl refl, h.1, refl, k, h.4, h.5, h.6)

pub with_mssfix-IsConsistent :
    (o : PushOptions) (v : Option ℤ)
    → IsConsistent o
    → Fits IsMss v
    → IsConsistent (with_mssfix o v)
with_mssfix-IsConsistent o none h k = h
with_mssfix-IsConsistent o (some v) h k = (h.0, h.1, h.2, h.3, inr k, h.5, h.6)

pub with_inactive-IsConsistent :
    (o : PushOptions) (v b : Option ℤ)
    → IsConsistent o
    → Fits IsNatural v
    → Fits IsNatural b
    → IsConsistent (with_inactive o v b)
with_inactive-IsConsistent o none none h k l = h
with_inactive-IsConsistent o none (some b) h k l = (h.0, h.1, h.2, h.3, h.4, h.5, l)
with_inactive-IsConsistent o (some v) none h k l = (h.0, h.1, h.2, h.3, h.4, k, h.6)
with_inactive-IsConsistent o (some v) (some b) h k l = (h.0, h.1, h.2, h.3, h.4, k, l)

pub with_tls_ekm-IsConsistent :
    (found : Bool) (st : State) → IsConsistent st.opts → IsConsistent (with_tls_ekm found st).opts
with_tls_ekm-IsConsistent true st h = h
with_tls_ekm-IsConsistent false st h = h
