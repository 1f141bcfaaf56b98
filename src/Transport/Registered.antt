-- ===== src/Transport/Registered.antt =====
-- The names and the registry of transports.
use live_cdn.Common.{◌≡◌, refl, sym, subst, true, none, some, ◌∷◌, err}
use live_cdn.Transport.{
  TransportType, plain_ws, reality, hysteria2, grpc, type_name, from_str, TransportFactory,
  TransportRegistry, factory_of, register, registration_failed, same_type, dial, TransportConfig,
}

from_str-type_name : (t : TransportType) → from_str (type_name t) ≡ some t
unfolding from_str
from_str-type_name plain_ws = refl
from_str-type_name reality = refl
from_str-type_name hysteria2 = refl
from_str-type_name grpc = refl

same_type_refl : (t : TransportType) → same_type t t ≡ true
same_type_refl plain_ws = refl
same_type_refl reality = refl
same_type_refl hysteria2 = refl
same_type_refl grpc = refl

register_new :
    {C : Type 0} (r : TransportRegistry C) (f : TransportFactory C)
    → factory_of r.factories f.transport_type ≡ none
    → (register r f).0 ≡ record { factories = f ∷ r.factories }
unfolding register
register_new r f e = rw (register, e) refl

found :
    {C : Type 0} (r : TransportRegistry C) (f : TransportFactory C) (t : TransportType)
    → t ≡ f.transport_type
    → factory_of (f ∷ r.factories) t ≡ some f
found r f t d = rw (d, same_type_refl f.transport_type) refl

dial_found :
    {C : Type 0} (s : TransportRegistry C) (f : TransportFactory C) (c : TransportConfig)
    → factory_of s.factories c.transport_type ≡ some f
    → dial s c ≡ f.dial c
unfolding dial
dial_found s f c e = rw (dial, e) refl

register_known :
    {C : Type 0} (s : TransportRegistry C) (f g : TransportFactory C)
    → factory_of s.factories g.transport_type ≡ some f
    → register s g ≡ (s, err (registration_failed g.transport_type))
unfolding register
register_known s f g e = rw (register, e) refl

-- A factory of a type that has none yet is the one that is found and dialled from then on; a second
-- factory of a type is refused, and the registry stays as it was.
register-dial :
    {C : Type 0} (r : TransportRegistry C) (f g : TransportFactory C) (c : TransportConfig)
    → factory_of r.factories f.transport_type ≡ none
    → c.transport_type ≡ f.transport_type
    → g.transport_type ≡ f.transport_type
    → (dial (register r f).0 c ≡ f.dial c)
      × (register (register r f).0 g
          ≡ ((register r f).0, err (registration_failed g.transport_type)))
register-dial r f g c e d h =
    let s : TransportRegistry _ = record { factories = f ∷ r.factories } in
    (
      subst (λ s. dial s c ≡ f.dial c) (sym (register_new r f e))
          (dial_found s f c (found r f c.transport_type d)),
      subst (λ s. register s g ≡ (s, err (registration_failed g.transport_type)))
          (sym (register_new r f e)) (register_known s f g (found r f g.transport_type h)),
    )
