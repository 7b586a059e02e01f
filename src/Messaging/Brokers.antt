-- ===== src/Messaging/Brokers.antt =====
-- Which lists of broker addresses the client connects to.
use live_trading_engine.Common.{
  ◌≡◌, ◌≢◌, ◌↔◌, inl, inr, refl, ap, Bool, true, false, List-cases, Option, none, some, List, [],
  ◌∷◌, ◌++◌, All, arith, Text, decimal,
}
use live_trading_engine.Common.Streams.{join, IsNonempty, getlines-join, Without, getlines}
use live_trading_engine.Messaging.Address.{
  trim_front, trim_back, check_broker, first_error, check_brokers, validate_broker_address,
}
use live_trading_engine.Messaging.Printed.{
  host_text, Address, address_text, address_texts, brokers_text, address_text-Without,
}
use live_trading_engine.Messaging.Hosts.{GoodAddress, check_broker_iff}

trim_front-Without : (t : Text) → Without 32 t → Without 9 t → trim_front t ≡ t
unfolding trim_front
trim_front-Without [] h k = refl
trim_front-Without (c ∷ cs) h k = rw (h.0, k.0) refl

trim_back-Without : (t : Text) → Without 32 t → Without 9 t → trim_back t ≡ t
unfolding trim_back
trim_back-Without [] h k = refl
trim_back-Without (c ∷ []) h k = rw (h.0, k.0) refl
trim_back-Without (c ∷ d ∷ t) h k = rw (trim_back-Without (d ∷ t) h.1 k.1) refl

check_trimmed_iff :
    (a : Address) → (check_broker (trim_back (trim_front (address_text a))) ≡ none) ↔ GoodAddress a
check_trimmed_iff a =
    let space = address_text-Without 32 a (omega arith) in
    let tab = address_text-Without 9 a (omega arith) in
    rw (trim_front-Without (address_text a) space tab, trim_back-Without (address_text a) space tab)
      (check_broker_iff a)

first_error_iff : (x y : Option Text) → (first_error x y ≡ none) ↔ ((x ≡ none) × (y ≡ none))
first_error_iff none y = (λ e. (refl, e), λ h. h.1)
first_error_iff (some w) y = (λ e. cc, λ h. cc)

check_brokers-next :
    (broker : Text) (rest : List Text) (valid : Bool)
    → (check_brokers (broker ∷ rest) valid ≡ none)
      ↔ ((check_broker (trim_back (trim_front broker)) ≡ none) × (check_brokers rest true ≡ none))
unfolding check_brokers
check_brokers-next broker rest valid =
    first_error_iff (check_broker (trim_back (trim_front broker))) (check_brokers rest true)

check_brokers_iff :
    (addresses : List Address)
    → (check_brokers (address_texts addresses) true ≡ none) ↔ All GoodAddress addresses
unfolding address_texts
check_brokers_iff [] = (λ e. tt, λ t. unfold check_brokers in refl)
check_brokers_iff (a ∷ rest) =
    let (f, g) = check_brokers-next (address_text a) (address_texts rest) true in
    let (p, q) = check_trimmed_iff a in
    let (u, v) = check_brokers_iff rest in
    (λ e. let (x, y) = f e in (p x, u y), λ h. g (q h.0, v h.1))

address_text-IsNonempty : (a : Address) → IsNonempty (address_text a)
unfolding address_text
address_text-IsNonempty a = elim (List-cases (host_text a.host)) [
  | inl e ↦ (b':', decimal a.port, rw e refl)
  | inr (c, t, e) ↦ (c, t ++ (b':' ∷ decimal a.port), rw e refl)
]

address_texts-Parts :
    (addresses : List Address) → All (λ t. Without b',' t × IsNonempty t) (address_texts addresses)
unfolding address_texts
address_texts-Parts [] = tt
address_texts-Parts (a ∷ rest) = (
  (address_text-Without b',' a (omega arith), address_text-IsNonempty a),
  address_texts-Parts rest,
)

validate-getlines :
    (t : Text) → IsNonempty t → validate_broker_address t ≡ check_brokers (getlines b',' t) false
unfolding validate_broker_address
validate-getlines t (c, r, e) = rw e refl

brokers_text-IsNonempty : (a : Address) (rest : List Address) → IsNonempty (brokers_text (a ∷ rest))
unfolding brokers_text join address_texts
brokers_text-IsNonempty a [] = address_text-IsNonempty a
brokers_text-IsNonempty a (b ∷ rest) =
    let (c, t, e) = address_text-IsNonempty a in
    (c, t ++ (b',' ∷ brokers_text (b ∷ rest)), ap (λ x. x ++ (b',' ∷ brokers_text (b ∷ rest))) e)

not_empty : validate_broker_address [] ≢ none
unfolding validate_broker_address
not_empty e = cc

-- A list of addresses, each a host, a colon and a port and with commas between them, is valid exactly
-- if there is an address, every port is from 1 to 65535, and every host is localhost or four
-- numbers of at most 255 with dots between them.
pub validate_broker_address_iff :
    (addresses : List Address)
    → (validate_broker_address (brokers_text addresses) ≡ none)
      ↔ ((addresses ≢ []) × All GoodAddress addresses)
unfolding brokers_text
validate_broker_address_iff [] = (λ e. absurd (not_empty e), λ h. absurd (h.0 refl))
validate_broker_address_iff (a ∷ rest) =
    let t = brokers_text-IsNonempty a rest in
    let (f, g) = check_brokers-next (address_text a) (address_texts rest) false in
    let (p, q) = check_trimmed_iff a in
    let (u, v) = check_brokers_iff rest in
    rw
      (
        validate-getlines (brokers_text (a ∷ rest)) t,
        getlines-join b',' (address_texts (a ∷ rest)) (address_texts-Parts (a ∷ rest)),
      )
      (λ e. let (x, y) = f e in (λ n. cc, (p x, u y)), λ h. g (q h.1.0, v h.1.1))
