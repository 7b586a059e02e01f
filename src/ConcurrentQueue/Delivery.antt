-- ===== src/ConcurrentQueue/Delivery.antt =====
-- What the consumer is given, and when a producer has to wait.
use live_trading_engine.Common.{
  ℕ, ◌+◌, ◌-◌, ◌%◌, ◌^◌, ◌≤◌, ◌<◌, ◌==◌, ==_iff, ltb, ◌≡◌, sym, ap, ◌∙◌, subst, ◌⊎◌, inl, inr,
  Bool-cases, true, false, Option, none, some, List, [], ◌∷◌, ◌++◌, arith, length, length-append,
  List-cases,
}
use native.Mathlib.Nat.{mod-eq_of_lt}
use live_trading_engine.ConcurrentQueue.{
  ConcurrentQueue, slot, is_free, has_item, try_dequeue, size,
}
use live_trading_engine.ConcurrentQueue.Ring.{nth, nth-append_at, IsRing, Runs}
use live_trading_engine.ConcurrentQueue.Producers.{taken_le_given, free_in_reach}
use live_trading_engine.ConcurrentQueue.Consumer.{Runs-IsRing}

lt_or_le : (a b : ℕ) → (a < b) ⊎ (b ≤ a)
lt_or_le a b = elim (Bool-cases (ltb a b)) [
  | inl t ↦ inl (ground arith)
  | inr t ↦ inr (ground arith)
]

ltb-yes : (a b : ℕ) → a < b → ltb a b ≡ true
ltb-yes a b h = ground arith

ltb-no : (a b : ℕ) → b ≤ a → ltb a b ≡ false
ltb-no a b h = ground arith

module _ {ℓ} {A : Type ℓ} where
  -- The first value that is not taken yet, once its producer holds it no longer.
  unfoldable pub offered : Option A → List A → Option A
  offered held [] = none
  offered none (v ∷ more) = some v
  offered (some x) (v ∷ more) = none

  module _ (cl tk : List A) (w : ℕ → Option A) (q : ConcurrentQueue A) (two : 2 ≤ q.capacity)
      (h : IsRing cl tk w q) where
    nth-rest : (v : A) (more : List A) → h.rest ≡ v ∷ more → nth cl q.dequeue_pos ≡ some v
    nth-rest v more e =
        subst (λ n. nth cl n ≡ some v) (sym h.taken)
          (subst (λ x. nth x (length tk) ≡ some v) (sym (h.split ∙ ap (λ x. tk ++ x) e))
            (nth-append_at tk more v))

    has_rest : q.dequeue_pos < q.enqueue_pos → (v : A) × (more : List A) × (h.rest ≡ v ∷ more)
    has_rest lt = elim (List-cases h.rest) [
      | inr x ↦ x
      | inl e ↦
          absurd (
            omega
              (arith, h.taken, h.given, ap length h.split, length-append tk h.rest, ap length e))
    ]

    no_item : q.sequence (slot q q.dequeue_pos) ≡ q.dequeue_pos → has_item q ≡ false
    unfolding has_item
    no_item s =
        elim (Bool-cases (q.sequence (slot q q.dequeue_pos) == ((q.dequeue_pos + 1) % 2 ^ 64))) [
          | inr t ↦ t
          | inl t ↦
              let k =
                (==_iff (q.sequence (slot q q.dequeue_pos)) ((q.dequeue_pos + 1) % 2 ^ 64)).0 t in
              absurd (omega (arith, h.bound, taken_le_given cl tk w q two h, s, k))
        ]

    is_item :
        q.sequence (slot q q.dequeue_pos) ≡ q.dequeue_pos + 1
        → q.dequeue_pos < q.enqueue_pos
        → has_item q ≡ true
    unfolding has_item
    is_item s lt =
        (==_iff (q.sequence (slot q q.dequeue_pos)) ((q.dequeue_pos + 1) % 2 ^ 64)).1
          (s ∙ sym (mod-eq_of_lt (omega (arith, h.bound, lt))))

    pub try_dequeue-offered : (try_dequeue q).0 ≡ offered (w (length tk)) h.rest
    unfolding try_dequeue offered
    try_dequeue-offered = elim (h.slots q.dequeue_pos (omega arith) (omega arith)) [
      | inr (s, below, x, n) ↦
          let (v, more, e) = has_rest below in
          let free : w (length tk) ≡ none = ap w (sym h.taken) ∙ n in
          rw (is_item s below, free, e) (x ∙ nth-rest v more e)
      | inl (s, f) ↦ elim (List-cases h.rest) [
        | inl e ↦ rw (no_item s, e) (λ i. none)
        | inr (v, more, e) ↦
            let lt : q.dequeue_pos < q.enqueue_pos =
              omega (
                arith,
                h.taken,
                h.given,
                ap length h.split,
                length-append tk h.rest,
                ap length e,
              ) in
            let held : w (length tk) ≡ some v = ap w (sym h.taken) ∙ f lt ∙ nth-rest v more e in
            rw (no_item s, held, e) (λ i. none)
      ]
    ]

    pub is_free_lem : (p : ℕ) (v : A) → w p ≡ some v → is_free q p ≡ ltb p (length tk + q.capacity)
    unfolding is_free
    is_free_lem p v e = elim (lt_or_le p (length tk + q.capacity)) [
      | inl lt ↦ elim (h.slots p (h.waits p v e).0 (omega (arith, h.taken))) [
        | inl (s, _) ↦ (==_iff (q.sequence (slot q p)) p).1 s ∙ sym (ltb-yes p _ lt)
        | inr (_, _, _, n) ↦ cc
      ]
      | inr le ↦ elim (Bool-cases (q.sequence (slot q p) == p)) [
        | inr t ↦ t ∙ sym (ltb-no p _ le)
        | inl t ↦
            let lt =
              free_in_reach cl tk w q two h p (h.waits p v e).0
                ((==_iff (q.sequence (slot q p)) p).0 t) in
            absurd (omega (arith, h.taken, lt, le))
      ]
    ]

  -- In every interleaving of producers and the consumer, over a ring of two slots or more whose
  -- positions do not wrap around: the values that were enqueued, in the order in which their
  -- producers got their positions, are those that the consumer took, in the order in which it took
  -- them, followed by a rest. What the consumer is given next is the first of the rest as soon as
  -- the producer of that value has written it, and nothing before. A producer that has a position
  -- and has not written finds its slot free exactly when that position is less than the number of
  -- values taken plus the capacity. And if size loads the first position in this state and the
  -- second one in any other state of a run, it gives the number of values enqueued by the first
  -- less the number taken by the second, or 0 if that is negative; in one state, the length of the
  -- rest.
  pub Runs-fifo :
      (cl tk cl' tk' : List A) (w w' : ℕ → Option A) (q q' : ConcurrentQueue A)
      → Runs cl tk w q
      → Runs cl' tk' w' q'
      → 2 ≤ q.capacity
      → 2 ≤ q'.capacity
      → (rest : List A) × (cl ≡ tk ++ rest)
        × ((try_dequeue q).0 ≡ offered (w (length tk)) rest)
        × ((p : ℕ) (v : A) → w p ≡ some v → is_free q p ≡ ltb p (length tk + q.capacity))
        × (size q q' ≡ length cl - length tk')
        × (size q q ≡ length rest)
  unfolding size
  Runs-fifo cl tk cl' tk' w w' q q' runs runs' two two' =
      let h = Runs-IsRing cl tk w q runs two in
      let h' = Runs-IsRing cl' tk' w' q' runs' two' in
      (
        h.rest,
        h.split,
        try_dequeue-offered cl tk w q two h,
        is_free_lem cl tk w q two h,
        ground (arith, h.given, h'.taken),
        ground (arith, h.taken, h.given, ap length h.split, length-append tk h.rest),
      )
