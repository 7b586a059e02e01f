-- ===== src/Messaging/Printed.antt =====
-- Broker addresses as they are written: hosts, ports and lists of them, and the bytes they consist of.
use live_trading_engine.Common.{
  ℕ, ◌<◌, ◌≤◌, ◌≡◌, ◌≢◌, false, inl, inr, ◌==◌, List, [], ◌∷◌, ◌++◌, ◌⊎◌, All, All-append, All-map,
  arith, Text, codes, decimal,
}
use live_trading_engine.Common.Numbers.{decimal-IsDigits}
use live_trading_engine.Common.Streams.{join, is_digit, Without}

unfoldable pub decimals : List ℕ → List Text
decimals [] = []
decimals (n ∷ ns) = decimal n ∷ decimals ns

pub data Host : Type 0 where
  localhost : Host
  -- numbers with dots between them
  dotted : List ℕ → Host

unfoldable pub host_text : Host → Text
unfolding join decimals
host_text localhost = codes "localhost"
host_text (dotted ns) = join b'.' (decimals ns)

pub record Address : Type 0 where
  pub host : Host
  pub port : ℕ

unfoldable pub address_text : Address → Text
unfolding host_text
address_text a = host_text a.host ++ (b':' ∷ decimal a.port)

unfoldable pub address_texts : List Address → List Text
unfolding address_text
address_texts [] = []
address_texts (a ∷ rest) = address_text a ∷ address_texts rest

unfoldable pub brokers_text : List Address → Text
unfolding join address_texts
brokers_text addresses = join b',' (address_texts addresses)

-- Neither a blank nor a colon nor a comma.
abbrev IsPlain : ℕ → Type 0
IsPlain c = (46 ≤ c) × (c ≢ 58)

decimal-IsPlain : (n : ℕ) → All IsPlain (decimal n)
unfolding is_digit
decimal-IsPlain n = All-map (λ c h. (ground arith, ground arith)) (decimal n) (decimal-IsDigits n)

join-All {κ} :
    (P : ℕ → Type κ) (ns : List ℕ)
    → P b'.'
    → ((n : ℕ) → All P (decimal n))
    → All P (join b'.' (decimals ns))
unfolding join decimals
join-All P [] dot h = tt
join-All P (n ∷ []) dot h = h n
join-All P (n ∷ m ∷ ns) dot h =
    All-append P (decimal n) (b'.' ∷ join b'.' (decimals (m ∷ ns))) (h n)
      (dot, join-All P (m ∷ ns) dot h)

host_text-IsPlain : (h : Host) → All IsPlain (host_text h)
unfolding host_text
host_text-IsPlain localhost = omega arith
host_text-IsPlain (dotted ns) = join-All IsPlain ns (omega arith, omega arith) decimal-IsPlain

IsPlain-Without : (c : ℕ) (t : Text) → (c < 46) ⊎ (c ≡ 58) → All IsPlain t → Without c t
IsPlain-Without c t h p = All-map (λ x q. ground arith) t p

pub decimal-Without : (c n : ℕ) → (c < 48) ⊎ (57 < c) → Without c (decimal n)
unfolding is_digit
decimal-Without c n h = All-map (λ x q. ground arith) (decimal n) (decimal-IsDigits n)

pub dotted-Without : (c : ℕ) (ns : List ℕ) → 57 < c → Without c (join b'.' (decimals ns))
dotted-Without c ns h =
    join-All (λ x. (x == c) ≡ false) ns (ground arith) (λ n. decimal-Without c n (inr h))

pub host_text-Without : (c : ℕ) (h : Host) → (c < 46) ⊎ (c ≡ 58) → Without c (host_text h)
host_text-Without c h k = IsPlain-Without c (host_text h) k (host_text-IsPlain h)

pub address_text-Without : (c : ℕ) (a : Address) → c < 46 → Without c (address_text a)
unfolding address_text
address_text-Without c a h =
    All-append (λ x. (x == c) ≡ false) (host_text a.host) (b':' ∷ decimal a.port)
      (IsPlain-Without c (host_text a.host) (inl h) (host_text-IsPlain a.host))
      (ground arith, IsPlain-Without c (decimal a.port) (inl h) (decimal-IsPlain a.port))
