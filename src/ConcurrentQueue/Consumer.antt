-- ===== src/ConcurrentQueue/Consumer.antt =====
-- What the consumer does to the ring, and what it takes in every run.
use live_trading_engine.Common.{
  ℕ, ◌+◌, ◌%◌, ◌^◌, ◌≤◌, ◌<◌, ◌==◌, ==_iff, ◌≡◌, ◌≢◌, sym, ap, ◌∙◌, subst, inl, inr, Bool-cases,
  true, Option, none, some, List, [], ◌∷◌, ◌++◌, arith, length, length-append, List-cases,
  if◌then◌else◌,
}
use mathlib.Core.List.{append_assoc}
use native.Mathlib.Nat.{mod-eq_of_lt, add-mod_right}
use live_trading_engine.ConcurrentQueue.{
  ConcurrentQueue, slot, claim, publish, has_item, release, try_dequeue,
}
use live_trading_engine.ConcurrentQueue.Window.{same_slot}
use live_trading_engine.ConcurrentQueue.Ring.{
  nth, nth-append_at, nth-some, IsRing, Runs, initially, claimed, published, dequeued, refused,
  initially-IsRing,
}
use live_trading_engine.ConcurrentQueue.Producers.{taken_le_given, claim-IsRing, publish-IsRing}

module _ {ℓ} {A : Type ℓ} where
  module _ (cl tk : List A) (w : ℕ → Option A) (q : ConcurrentQueue A) (two : 2 ≤ q.capacity)
      (h : IsRing cl tk w q) where
    -- A written slot at the consumer's position holds the next value in the order of positions.
    pub next_item :
        has_item q ≡ true
        → (q.dequeue_pos < q.enqueue_pos)
          × (q.storage (slot q q.dequeue_pos) ≡ nth cl q.dequeue_pos)
          × (w q.dequeue_pos ≡ none)
    unfolding has_item
    next_item t = elim (h.slots q.dequeue_pos (omega arith) (omega arith)) [
      | inr (_, below, x, n) ↦ (below, x, n)
      | inl (s, _) ↦
          let k = (==_iff (q.sequence (slot q q.dequeue_pos)) ((q.dequeue_pos + 1) % 2 ^ 64)).0 t in
          absurd (omega (arith, h.bound, taken_le_given cl tk w q two h, s, k))
    ]

    -- The first of what the consumer has not taken yet.
    rest_first :
        (v : A)
        → q.dequeue_pos < q.enqueue_pos
        → nth cl q.dequeue_pos ≡ some v
        → (more : List A) × (cl ≡ tk ++ (v ∷ []) ++ more)
    rest_first v lt e = elim (List-cases h.rest) [
      | inl n ↦
          absurd (
            omega
              (arith, h.taken, h.given, ap length h.split, length-append tk h.rest, ap length n))
      | inr (y, more, r) ↦
          let all : cl ≡ tk ++ (y ∷ more) = h.split ∙ ap (λ x. tk ++ x) r in
          let found : some y ≡ some v =
            sym (nth-append_at tk more y)
            ∙ subst (λ x. nth x (length tk) ≡ some v) all
                (subst (λ n. nth cl n ≡ some v) h.taken e) in
          let same : y ≡ v = cc found in
          (more, all ∙ ap (λ x. tk ++ (x ∷ more)) same ∙ sym (append_assoc tk (v ∷ []) more))
    ]

    release-IsRing :
        (v : A)
        → has_item q ≡ true
        → q.storage (slot q q.dequeue_pos) ≡ some v
        → IsRing cl (tk ++ (v ∷ [])) w (release q)
    unfolding release
    release-IsRing v t e =
        let (below, x, n) = next_item t in
        let (more, split) = rest_first v below (sym x ∙ e) in
        let pos = q.dequeue_pos in
        let far : pos + q.capacity ≡ (pos + q.capacity) % 2 ^ 64 =
          sym (mod-eq_of_lt (omega (arith, h.bound, below))) in
        let next : pos + 1 ≡ (pos + 1) % 2 ^ 64 =
          sym (mod-eq_of_lt (omega (arith, h.bound, below))) in
        subst
          (λ n. IsRing cl (tk ++ (v ∷ [])) w (record q {
            sequence = λ i. if i == slot q pos then n else q.sequence i;
            storage = λ i. if i == slot q pos then none else q.storage i;
            dequeue_pos = (pos + 1) % 2 ^ 64;
          }))
          far
          (subst
            (λ n. IsRing cl (tk ++ (v ∷ [])) w (record q {
              sequence = λ i. if i == slot q pos then pos + q.capacity else q.sequence i;
              storage = λ i. if i == slot q pos then none else q.storage i;
              dequeue_pos = n;
            }))
            next
            (record {
              rest = more;
              split = split;
              taken = omega (arith, h.taken, length-append tk (v ∷ []));
              given = h.given;
              bound = h.bound;
              slots = λ r a b. elim (Bool-cases (slot q r == slot q pos)) [
                | inl t ↦
                    let r_is : r ≡ pos + q.capacity =
                      same_slot q.capacity (pos + 1) r (pos + q.capacity) (omega arith) a b
                        (omega arith) (omega arith)
                        ((==_iff (slot q r) (slot q pos)).0 t
                          ∙ sym (add-mod_right pos q.capacity)) in
                    inl (rw t (sym r_is), λ lt. h.beyond r (omega arith) lt)
                | inr t ↦
                    let ne : r ≢ pos + q.capacity = λ same.
                      (let k = ap (slot q) same ∙ add-mod_right pos q.capacity in
                        let yes = (==_iff (slot q r) (slot q pos)).1 k in ground (arith, yes, t)) in
                    elim (h.slots r (omega arith) (omega (arith, ne))) [
                      | inl (s, f) ↦ inl (rw t s, f)
                      | inr (s, f, x, n) ↦ inr (rw t s, f, rw t x, n)
                    ]
              ];
              beyond = λ r a b. h.beyond r (omega arith) b;
              waits = λ r y k. let (a, b, c) = h.waits r y k in (later r y a k n, b, c);
            }))
      where
        later :
            (r : ℕ) (y : A)
            → q.dequeue_pos ≤ r
            → w r ≡ some y
            → w q.dequeue_pos ≡ none
            → q.dequeue_pos + 1 ≤ r
        later r y a k n = elim (Bool-cases (q.dequeue_pos == r)) [
          | inr t ↦ ground (arith, ==_iff q.dequeue_pos r)
          | inl t ↦
              let same = ap w ((==_iff q.dequeue_pos r).0 t) in
              let no : none ≡ some y = sym n ∙ same ∙ k in cc no
        ]

    pub try_dequeue-IsRing :
        (v : A) → (try_dequeue q).0 ≡ some v → IsRing cl (tk ++ (v ∷ [])) w (try_dequeue q).1
    unfolding try_dequeue
    try_dequeue-IsRing v e = elim (Bool-cases (has_item q)) [
      | inl t ↦ rw t (release-IsRing v t (rw (t, try_dequeue) at e))
      | inr t ↦ cc (rw (t, try_dequeue) at e)
    ]

    pub try_dequeue_none : (try_dequeue q).0 ≡ none → IsRing cl tk w (try_dequeue q).1
    unfolding try_dequeue
    try_dequeue_none e = elim (Bool-cases (has_item q)) [
      | inr t ↦ rw t h
      | inl t ↦
          let (below, x, _) = next_item t in
          let (v, k) = nth-some cl q.dequeue_pos (omega (arith, h.given)) in
          let no : none ≡ some v = sym (rw (t, try_dequeue) at e) ∙ x ∙ k in cc no
    ]

  pub try_dequeue-capacity : (q : ConcurrentQueue A) → (try_dequeue q).1.capacity ≡ q.capacity
  unfolding try_dequeue release
  try_dequeue-capacity q = ground arith

  -- A run keeps the ring.
  pub Runs-IsRing :
      (cl tk : List A) (w : ℕ → Option A) (q : ConcurrentQueue A)
      → Runs cl tk w q
      → 2 ≤ q.capacity
      → IsRing cl tk w q
  unfolding claim publish
  Runs-IsRing cl tk w q (initially n q' e) two = initially-IsRing n q e
  Runs-IsRing cl tk w q (claimed c t x r v runs lt) two =
      claim-IsRing c t x r two (Runs-IsRing c t x r runs two) v lt
  Runs-IsRing cl tk w q (published c t x r p v runs e free) two =
      publish-IsRing c t x r two (Runs-IsRing c t x r runs two) p v e free
  Runs-IsRing cl tk w q (dequeued c t x r v runs e) two =
      let two' = subst (λ n. 2 ≤ n) (try_dequeue-capacity r) two in
      try_dequeue-IsRing c t x r two' (Runs-IsRing c t x r runs two') v e
  Runs-IsRing cl tk w q (refused c t x r runs e) two =
      let two' = subst (λ n. 2 ≤ n) (try_dequeue-capacity r) two in
      try_dequeue_none c t x r two' (Runs-IsRing c t x r runs two') e
