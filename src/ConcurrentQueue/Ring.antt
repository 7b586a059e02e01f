-- ===== src/ConcurrentQueue/Ring.antt =====
-- Any number of producers and one consumer, interleaved in any order: what a ring of two slots or
-- more keeps true.
use live_trading_engine.Common.{
  ℕ, zero, suc, ◌+◌, ◌^◌, ◌≤◌, ◌<◌, ◌==◌, ◌≡◌, refl, subst, ◌⊎◌, inl, inr, Bool-cases, true, Option,
  none, some, List, [], ◌∷◌, ◌++◌, arith, length, if◌then◌else◌,
}
use native.Mathlib.Nat.{mod-eq_of_lt}
use live_trading_engine.ConcurrentQueue.{
  ConcurrentQueue, new_queue, round_up_to_power_of_two, slot, claim, is_free, publish, try_dequeue,
}

round_up_le : (n : ℕ) → round_up_to_power_of_two n ≤ 2 ^ 64
unfolding round_up_to_power_of_two
round_up_le n = omega arith

module _ {ℓ} {A : Type ℓ} where
  unfoldable pub nth : List A → ℕ → Option A
  nth [] p = none
  nth (x ∷ xs) zero = some x
  nth (x ∷ xs) (suc p) = nth xs p

  pub nth-append_left : (xs ys : List A) (p : ℕ) → p < length xs → nth (xs ++ ys) p ≡ nth xs p
  unfolding nth
  nth-append_left [] ys p h = absurd (omega arith)
  nth-append_left (x ∷ xs) ys zero h = refl
  nth-append_left (x ∷ xs) ys (suc p) h = nth-append_left xs ys p (omega arith)

  pub nth-append_at : (xs ys : List A) (v : A) → nth (xs ++ (v ∷ ys)) (length xs) ≡ some v
  unfolding nth
  nth-append_at [] ys v = refl
  nth-append_at (x ∷ xs) ys v = nth-append_at xs ys v

  pub nth-some : (xs : List A) (p : ℕ) → p < length xs → (v : A) × (nth xs p ≡ some v)
  unfolding nth
  nth-some [] p h = absurd (omega arith)
  nth-some (x ∷ xs) zero h = (x, refl)
  nth-some (x ∷ xs) (suc p) h = nth-some xs p (omega arith)

  abbrev pub update : (ℕ → Option A) → ℕ → Option A → ℕ → Option A
  update w p x i = if p == i then x else w i

  -- A run: the values in the order of their positions, those that the consumer took, the producers
  -- that hold a position whose slot is not written yet, and the queue. The positions are size_t;
  -- a run is one in which they do not wrap around.
  pub data Runs : List A → List A → (ℕ → Option A) → ConcurrentQueue A → Type ℓ where
    initially : (n : ℕ) (q : ConcurrentQueue A) → new_queue n ≡ some q → Runs [] [] (λ _. none) q
    claimed :
        (cl tk : List A) (w : ℕ → Option A) (q : ConcurrentQueue A) (v : A)
        → Runs cl tk w q
        → q.enqueue_pos + q.capacity < 2 ^ 64
        → Runs (cl ++ (v ∷ [])) tk (update w (claim q).0 (some v)) (claim q).1
    published :
        (cl tk : List A) (w : ℕ → Option A) (q : ConcurrentQueue A) (p : ℕ) (v : A)
        → Runs cl tk w q
        → w p ≡ some v
        → is_free q p ≡ true
        → Runs cl tk (update w p none) (publish q p v)
    dequeued :
        (cl tk : List A) (w : ℕ → Option A) (q : ConcurrentQueue A) (v : A)
        → Runs cl tk w q
        → (try_dequeue q).0 ≡ some v
        → Runs cl (tk ++ (v ∷ [])) w (try_dequeue q).1
    refused :
        (cl tk : List A) (w : ℕ → Option A) (q : ConcurrentQueue A)
        → Runs cl tk w q
        → (try_dequeue q).0 ≡ none
        → Runs cl tk w (try_dequeue q).1

  -- The slot of a position within reach of the consumer: free for that position, or written.
  abbrev pub IsSlot : List A → (ℕ → Option A) → ConcurrentQueue A → ℕ → Type ℓ
  IsSlot cl w q p =
      ((q.sequence (slot q p) ≡ p) × (p < q.enqueue_pos → w p ≡ nth cl p))
      ⊎ ((q.sequence (slot q p) ≡ p + 1)
          × (p < q.enqueue_pos)
          × (q.storage (slot q p) ≡ nth cl p)
          × (w p ≡ none))

  pub record IsRing (cl tk : List A) (w : ℕ → Option A) (q : ConcurrentQueue A) : Type ℓ where
    pub rest : List A
    pub split : cl ≡ tk ++ rest
    pub taken : q.dequeue_pos ≡ length tk
    pub given : q.enqueue_pos ≡ length cl
    pub bound : q.enqueue_pos + q.capacity ≤ 2 ^ 64
    pub slots : (p : ℕ) → q.dequeue_pos ≤ p → p < q.dequeue_pos + q.capacity → IsSlot cl w q p
    pub beyond : (p : ℕ) → q.dequeue_pos + q.capacity ≤ p → p < q.enqueue_pos → w p ≡ nth cl p
    pub waits :
        (p : ℕ) (v : A)
        → w p ≡ some v
        → (q.dequeue_pos ≤ p) × (p < q.enqueue_pos) × (nth cl p ≡ some v)

  pub initially-IsRing :
      (n : ℕ) (q : ConcurrentQueue A) → new_queue n ≡ some q → IsRing [] [] (λ _. none) q
  unfolding new_queue
  initially-IsRing n q h = elim (Bool-cases (n == 0)) [
    | inl e ↦ cc (rw e at h)
    | inr e ↦
        let start : ConcurrentQueue A = record {
          capacity = round_up_to_power_of_two n;
          sequence = λ i. i;
          storage = λ _. none;
          enqueue_pos = 0;
          dequeue_pos = 0;
        } in
        let same : start ≡ q = cc (rw e at h) in
        subst (IsRing [] [] (λ _. none)) same (record {
          rest = [];
          split = refl;
          taken = refl;
          given = refl;
          bound = omega (arith, round_up_le n);
          slots = λ p a b.
              let b' : p < round_up_to_power_of_two n = omega arith in
              inl (mod-eq_of_lt b', λ lt. absurd (omega arith));
          beyond = λ p a b. absurd (omega arith);
          waits = λ p v e. cc;
        })
  ]
