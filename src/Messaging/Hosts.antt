-- ===== src/Messaging/Hosts.antt =====
-- Which hosts and ports the client takes.
use live_trading_engine.Common.{
  ℕ, zero, suc, ◌+◌, ◌<◌, ◌≤◌, ◌^◌, ◌≡◌, ◌↔◌, inl, inr, refl, ap, subst, ◌∙◌, Bool, true, false,
  not, ◌&&◌, ◌||◌, Bool-cases, leb, ltb, ◌⊎◌, ◌==◌, none, some, List, [], ◌∷◌, All, arith, Text,
  text_eq, text_eq_iff, codes, decimal, length, if◌then◌else◌,
}
use live_trading_engine.Common.Int.{pos}
use live_trading_engine.Common.Numbers.{
  stoi-decimal, stoi-decimal_large, decimal_zero, decimal_positive, decimal_cons,
}
use live_trading_engine.Common.Streams.{
  join, IsNonempty, getlines-join, Without, split_at, split_at-append,
}
use live_trading_engine.Messaging.Address.{
  is_upto, has_leading_zero, is_segment, check_segments, is_valid_ip_address, check_port,
  check_host_port, check_parts, check_broker,
}
use live_trading_engine.Messaging.Printed.{
  decimals, Host, localhost, dotted, host_text, Address, address_text, host_text-Without,
  decimal-Without, dotted-Without,
}

has_leading_zero-decimal : (n : ℕ) → has_leading_zero (decimal n) ≡ false
unfolding has_leading_zero
has_leading_zero-decimal zero = ap has_leading_zero decimal_zero
has_leading_zero-decimal (suc n) =
    let (c, t, e, h) = decimal_positive (suc n) (omega arith) in
    ap has_leading_zero e ∙ no_zero c t h
  where
    no_zero : (c : ℕ) (t : Text) → (c == b'0') ≡ false → has_leading_zero (c ∷ t) ≡ false
    no_zero c [] h = refl
    no_zero c (d ∷ t) h = h

-- Either an int, or too large for one.
int_or_large : (n : ℕ) → (n < 2 ^ 31) ⊎ (2 ^ 31 ≤ n)
int_or_large n = elim (Bool-cases (ltb n (2 ^ 31))) [
  | inl e ↦ inl (ground arith)
  | inr e ↦ inr (ground arith)
]

is_segment_iff : (n : ℕ) → (is_segment (decimal n) ≡ true) ↔ (n ≤ 255)
unfolding is_segment
is_segment_iff n = elim (int_or_large n) [
  | inl h ↦ rw (stoi-decimal n h, has_leading_zero-decimal n) (λ e. ground arith, λ k. ground arith)
  | inr h ↦ rw (stoi-decimal_large n h) (λ e. cc, λ k. absurd (omega (arith, h, k)))
]

check_segments_iff :
    (k : ℕ) (ns : List ℕ)
    → (check_segments k (decimals ns) ≡ true) ↔ ((k + length ns ≡ 4) × All (λ n. n ≤ 255) ns)
unfolding check_segments decimals
check_segments_iff k [] = (λ e. (ground arith, tt), λ h. ground arith)
check_segments_iff k (n ∷ ns) = elim (Bool-cases (leb 4 k)) [
  | inl many ↦ rw many (λ e. cc, λ h. ground arith)
  | inr few ↦ elim (Bool-cases (is_segment (decimal n))) [
    | inl good ↦
        let ih = check_segments_iff (k + 1) ns in
        rw (few, good)
          (
            λ e. let (l, r) = ih.0 e in (omega arith, ((is_segment_iff n).0 good, r)),
            λ h. ih.1 (omega arith, h.1.1),
          )
    | inr bad ↦ rw (few, bad) (λ e. cc, λ h. let t = (is_segment_iff n).1 h.1.0 in ground arith)
  ]
]

decimals-Plain : (ns : List ℕ) → All (λ t. Without b'.' t × IsNonempty t) (decimals ns)
unfolding decimals
decimals-Plain [] = tt
decimals-Plain (n ∷ ns) =
    ((decimal-Without b'.' n (inl (omega arith)), decimal_cons n), decimals-Plain ns)

-- Numbers with dots between them are an address exactly if there are four, each at most 255.
is_valid_ip_address_iff :
    (ns : List ℕ)
    → (is_valid_ip_address (join b'.' (decimals ns)) ≡ true)
      ↔ ((length ns ≡ 4) × All (λ n. n ≤ 255) ns)
unfolding is_valid_ip_address
is_valid_ip_address_iff ns = rw (getlines-join b'.' (decimals ns) (decimals-Plain ns)) (
    let (f, g) = check_segments_iff 0 ns in
    (λ e. let (l, r) = f e in (omega arith, r), λ (l, r). g (omega arith, r)))

-- A host that the client takes.
abbrev pub GoodHost : Host → Type 0
GoodHost localhost = Unit
GoodHost (dotted ns) = (length ns ≡ 4) × All (λ n. n ≤ 255) ns

abbrev pub GoodAddress : Address → Type 0
GoodAddress a = ((1 ≤ a.port) × (a.port ≤ 65_535)) × GoodHost a.host

abbrev host_ok : Text → Bool
host_ok host = text_eq host (codes "localhost") || is_valid_ip_address host

-- Numbers with dots are never the word localhost: no byte of them is its first.
dotted-ne-localhost : (ns : List ℕ) → text_eq (join b'.' (decimals ns)) (codes "localhost") ≡ false
dotted-ne-localhost ns = elim (Bool-cases (text_eq (join b'.' (decimals ns)) (codes "localhost"))) [
  | inl e ↦
      let w = subst (Without 108) ((text_eq_iff _ _).0 e) (dotted-Without 108 ns (omega arith)) in
      absurd (cc (w.0))
  | inr e ↦ e
]

host_ok_iff : (h : Host) → (host_ok (host_text h) ≡ true) ↔ GoodHost h
unfolding host_text text_eq
host_ok_iff localhost = (λ e. tt, λ t. refl)
host_ok_iff (dotted ns) = rw (dotted-ne-localhost ns) (is_valid_ip_address_iff ns)

two_tests_iff :
    (p q r : Bool) (x y : Text)
    → ((if not p then some x else if not q && not r then some y else none) ≡ none)
      ↔ ((p ≡ true) × ((q || r) ≡ true))
two_tests_iff true true r x y = (λ e. (refl, refl), λ h. refl)
two_tests_iff true false true x y = (λ e. (refl, refl), λ h. refl)
two_tests_iff true false false x y = (λ e. cc, λ h. cc)
two_tests_iff false q r x y = (λ e. cc, λ h. cc)

check_port_iff :
    (host port : Text) (n : ℕ)
    → (check_port host port (some (pos n)) ≡ none)
      ↔ (((1 ≤ n) × (n ≤ 65_535)) × (host_ok host ≡ true))
unfolding check_port
check_port_iff host port n =
    let (f, g) =
      two_tests_iff (is_upto 1 65_535 (some (pos n))) (text_eq host (codes "localhost"))
        (is_valid_ip_address host) _ _ in
    (λ e. let (r, o) = f e in ((ground arith, ground arith), o), λ (r, o). g (ground arith, o))

no_port :
    (n : ℕ)
    → 2 ^ 31 ≤ n
    → (port host : Text) (h : Host)
    → (check_port host port none ≡ none) ↔ (((1 ≤ n) × (n ≤ 65_535)) × GoodHost h)
unfolding check_port
no_port n large port host h = (λ e. cc, λ g. absurd (omega (arith, large, g.0.1)))

check_host_port_iff :
    (a : Address) → (check_host_port (host_text a.host) (decimal a.port) ≡ none) ↔ GoodAddress a
unfolding check_host_port
check_host_port_iff a = elim (int_or_large a.port) [
  | inl small ↦ rw (stoi-decimal a.port small) (
      let (f, g) = check_port_iff (host_text a.host) (decimal a.port) a.port in
      let (p, q) = host_ok_iff a.host in (λ e. let (r, o) = f e in (r, p o), λ (r, o). g (r, q o)))
  | inr large ↦
      rw (stoi-decimal_large a.port large)
        (no_port a.port large (decimal a.port) (host_text a.host) a.host)
]

-- A good host is not empty.
no_host : (h : Host) → [] ≡ host_text h → ¬ GoodHost h
unfolding host_text join decimals
no_host localhost e g = cc
no_host (dotted []) e g = omega (arith, g.0)
no_host (dotted (n ∷ [])) e g = omega (arith, g.0)
no_host (dotted (n ∷ m ∷ ns)) e g = let (c, t, d) = decimal_cons n in cc

split-address_text :
    (a : Address) → split_at b':' (address_text a) ≡ some (host_text a.host, decimal a.port)
unfolding address_text
split-address_text a =
    split_at-append b':' (host_text a.host) (decimal a.port)
      (host_text-Without 58 a.host (inr refl))

check_parts_iff :
    (a : Address) (host port : Text)
    → host ≡ host_text a.host
    → port ≡ decimal a.port
    → (check_parts (address_text a) (some (host, port)) ≡ none) ↔ GoodAddress a
unfolding check_parts
check_parts_iff a host [] e k = let (c, t, d) = decimal_cons a.port in absurd (cc)
check_parts_iff a [] (q ∷ port) e k = (λ h. cc, λ g. absurd (no_host a.host e g.1))
check_parts_iff a (h ∷ host) (q ∷ port) e k = rw (e, k) (check_host_port_iff a)

pub check_broker_iff : (a : Address) → (check_broker (address_text a) ≡ none) ↔ GoodAddress a
unfolding check_broker
check_broker_iff a =
    rw (split-address_text a) (check_parts_iff a (host_text a.host) (decimal a.port) refl refl)
