-- ===== src/ConcurrentQueue/Producers.antt =====
-- What the producers do to the ring.
use live_trading_engine.Common.{
  ℕ, ◌+◌, ◌%◌, ◌^◌, ◌≤◌, ◌<◌, ◌==◌, ==_iff, leb, ◌≡◌, refl, sym, ap, ◌∙◌, subst, inl, inr,
  Bool-cases, true, false, Option, none, some, List, [], ◌∷◌, ◌++◌, arith, length, length-append,
  if◌then◌else◌,
}
use mathlib.Core.List.{append_assoc}
use native.Mathlib.Nat.{mod-eq_of_lt}
use live_trading_engine.ConcurrentQueue.{ConcurrentQueue, slot, claim, is_free, publish}
use live_trading_engine.ConcurrentQueue.Window.{same_slot, below_in_window}
use live_trading_engine.ConcurrentQueue.Ring.{
  nth, nth-append_left, nth-append_at, update, IsSlot, IsRing,
}

module _ {ℓ} {A : Type ℓ} where
  module _ (cl tk : List A) (w : ℕ → Option A) (q : ConcurrentQueue A) (two : 2 ≤ q.capacity)
      (h : IsRing cl tk w q) where
    pub taken_le_given : q.dequeue_pos ≤ q.enqueue_pos
    taken_le_given = omega (arith, h.taken, h.given, ap length h.split, length-append tk h.rest)

    waiting_claimed :
        (v : A) (p : ℕ)
        → (p < q.enqueue_pos → w p ≡ nth cl p)
        → p < q.enqueue_pos + 1
        → update w q.enqueue_pos (some v) p ≡ nth (cl ++ (v ∷ [])) p
    waiting_claimed v p f lt = elim (Bool-cases (q.enqueue_pos == p)) [
      | inl e ↦ rw e (
          sym (
            subst (λ i. nth (cl ++ (v ∷ [])) i ≡ some v)
              (sym h.given ∙ (==_iff q.enqueue_pos p).0 e) (nth-append_at cl [] v)))
      | inr e ↦
          let below : p < q.enqueue_pos = ground (arith, ==_iff q.enqueue_pos p) in
          rw e (f below ∙ sym (nth-append_left cl (v ∷ []) p (omega (arith, h.given))))
    ]

    pub claim-IsRing :
        (v : A)
        → q.enqueue_pos + q.capacity < 2 ^ 64
        → IsRing (cl ++ (v ∷ [])) tk (update w (claim q).0 (some v)) (claim q).1
    unfolding claim
    claim-IsRing v lt =
        let same : q.enqueue_pos + 1 ≡ (q.enqueue_pos + 1) % 2 ^ 64 =
          sym (mod-eq_of_lt (omega arith)) in
        subst
          (λ n.
            IsRing (cl ++ (v ∷ [])) tk (update w q.enqueue_pos (some v))
              (record q { enqueue_pos = n }))
          same
          (record {
            rest = h.rest ++ (v ∷ []);
            split = ap (λ x. x ++ (v ∷ [])) h.split ∙ append_assoc tk h.rest (v ∷ []);
            taken = h.taken;
            given = omega (arith, h.given, length-append cl (v ∷ []));
            bound = omega arith;
            slots = λ p a b. elim (h.slots p a b) [
              | inl (s, f) ↦ inl (s, waiting_claimed v p f)
              | inr (s, below, x, n) ↦
                  let ne : (q.enqueue_pos == p) ≡ false = ground (arith, ==_iff q.enqueue_pos p) in
                  inr (
                    s,
                    omega arith,
                    x ∙ sym (nth-append_left cl (v ∷ []) p (omega (arith, h.given))),
                    rw ne n,
                  )
            ];
            beyond = λ p a b. waiting_claimed v p (h.beyond p a) b;
            waits = λ p x e. elim (Bool-cases (q.enqueue_pos == p)) [
              | inl t ↦
                  let at_end = (==_iff q.enqueue_pos p).0 t in
                  (
                    omega (arith, taken_le_given, at_end),
                    omega (arith, at_end),
                    subst (λ i. nth (cl ++ (v ∷ [])) i ≡ some v) (sym h.given ∙ at_end)
                          (nth-append_at cl [] v)
                        ∙ rw t at e,
                  )
              | inr t ↦
                  let (a, b, c) = h.waits p x (rw t at e) in
                  (a, omega arith, nth-append_left cl (v ∷ []) p (omega (arith, h.given)) ∙ c)
            ];
          })

    -- A position that its slot is free for is within reach of the consumer.
    pub free_in_reach :
        (p : ℕ) → q.dequeue_pos ≤ p → q.sequence (slot q p) ≡ p → p < q.dequeue_pos + q.capacity
    free_in_reach p a s = elim (Bool-cases (leb (q.dequeue_pos + q.capacity) p)) [
      | inr below ↦ ground arith
      | inl above ↦
          let le : q.dequeue_pos + q.capacity ≤ p = ground arith in
          let (r, b, c, far, same) = below_in_window q.capacity q.dequeue_pos p (omega arith) le in
          let at_r = ap q.sequence same ∙ s in
          elim (h.slots r b c) [
            | inl (t, _) ↦ absurd (omega (arith, t, at_r))
            | inr (t, _, _, _) ↦ absurd (omega (arith, t, at_r))
          ]
    ]

    other_position : (p r : ℕ) → (slot q r == slot q p) ≡ false → (p == r) ≡ false
    other_position p r t = elim (Bool-cases (p == r)) [
      | inr e ↦ e
      | inl e ↦ absurd (
          let k = (==_iff (slot q r) (slot q p)).1 (sym (ap (slot q) ((==_iff p r).0 e))) in
          ground (arith, k, t))
    ]

    pub publish-IsRing :
        (p : ℕ) (v : A)
        → w p ≡ some v
        → is_free q p ≡ true
        → IsRing cl tk (update w p none) (publish q p v)
    unfolding publish is_free
    publish-IsRing p v e free =
        let (a, b, c) = h.waits p v e in
        let at_p : q.sequence (slot q p) ≡ p = (==_iff (q.sequence (slot q p)) p).0 free in
        let reach = free_in_reach p a at_p in
        let self : (slot q p == slot q p) ≡ true = (==_iff (slot q p) (slot q p)).1 refl in
        let me : (p == p) ≡ true = (==_iff p p).1 refl in
        let same : p + 1 ≡ (p + 1) % 2 ^ 64 = sym (mod-eq_of_lt (omega (arith, h.bound))) in
        subst
          (λ n. IsRing cl tk (update w p none) (record q {
            storage = λ i. if i == slot q p then some v else q.storage i;
            sequence = λ i. if i == slot q p then n else q.sequence i;
          }))
          same
          (record {
            rest = h.rest;
            split = h.split;
            taken = h.taken;
            given = h.given;
            bound = h.bound;
            slots = λ r a' b'. elim (Bool-cases (slot q r == slot q p)) [
              | inl t ↦
                  let r_is_p : r ≡ p =
                    same_slot q.capacity q.dequeue_pos r p (omega arith) a' b' a reach
                      ((==_iff (slot q r) (slot q p)).0 t) in
                  subst
                    (IsSlot cl (update w p none) (record q {
                      storage = λ i. if i == slot q p then some v else q.storage i;
                      sequence = λ i. if i == slot q p then p + 1 else q.sequence i;
                    }))
                    (sym r_is_p) (inr (rw self refl, b, rw self (sym c), rw me refl))
              | inr t ↦
                  let ne = other_position p r t in
                  elim (h.slots r a' b') [
                    | inl (s, f) ↦ inl (rw t s, λ lt. rw ne (f lt))
                    | inr (s, f, x, n) ↦ inr (rw t s, f, rw t x, rw ne n)
                  ]
            ];
            beyond = λ r a' b'.
                let ne : (p == r) ≡ false = ground (arith, ==_iff p r, reach) in
                rw ne (h.beyond r a' b');
            waits = λ r x e'. elim (Bool-cases (p == r)) [
              | inl t ↦ cc (rw t at e')
              | inr t ↦ h.waits r x (rw t at e')
            ];
          })
