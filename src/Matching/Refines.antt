-- ===== src/Matching/Refines.antt =====
-- The loop over the shared orders does what the allocation says, if no order stands in it twice.
use mathlib.Core.List.{append_assoc, append-nil}
use live_trading_engine.Common.{
  ℕ, ◌+◌, ◌%◌, ◌^◌, ◌≡◌, refl, sym, subst, ==_iff, ◌∙◌, ◌≢◌, inl, inr, Bool-cases, none, List, [],
  ◌∷◌, ◌++◌, All, All-map, arith, ◌==◌,
}
use live_trading_engine.Common.Double.{Double, nought, min}
use live_trading_engine.Order.{Order, OrderSide, set_quantity}
use live_trading_engine.Order.Store.{cell-write_self, cell-write_ne}
use live_trading_engine.OrderBook.{remove_order}
use live_trading_engine.Matching.Loop.{Progress, accepts, fill, match_one, match_loop}
use live_trading_engine.Matching.Allocation.{
  Distinct, given, allocate, rest_of, trades_of, after, allocate_congr,
}

module _ {ℓ} {W : Type ℓ} where
  -- The pointers of an allocation.
  abbrev pub Within {κ} : (ℕ → Type κ) → List (ℕ × W) → Type κ
  Within P [] = Unit
  Within P ((r, t) ∷ fs) = P r × Within P fs

  pub given_ne : (fs : List (ℕ × W)) (q : ℕ) → Within (λ r. q ≢ r) fs → given fs q ≡ none
  unfolding given
  given_ne [] q h = refl
  given_ne ((r, t) ∷ fs) q h = ground (arith, given_ne fs q h.1)

  Within-map {κ μ} :
      {P : ℕ → Type κ} {Q : ℕ → Type μ} (f : (r : ℕ) → P r → Q r) (fs : List (ℕ × W))
      → Within P fs
      → Within Q fs
  Within-map f [] h = tt
  Within-map f ((r, t) ∷ fs) (p, h) = (f r p, Within-map f fs h)

module _ {ℓ} {W : Type ℓ} ⦃d : Double W⦄ where
  pub allocate-Within {κ} :
      (P : ℕ → Type κ) (side : OrderSide) (price : W) (c : ℕ → Order W) (remaining : W)
      (rs : List ℕ)
      → All P rs
      → Within P (allocate side price c remaining rs)
  unfolding allocate
  allocate-Within P side price c remaining [] h = tt
  allocate-Within P side price c remaining (r ∷ rs) (p, h) =
      elim (Bool-cases (d.le remaining nought)) [
        | inl e ↦ rw e tt
        | inr e ↦ elim (Bool-cases (accepts side price (c r).price)) [
          | inl f ↦
              rw (e, f)
                (
                  p,
                  allocate-Within P side price c (d.sub remaining (min remaining (c r).quantity)) rs
                      h,
                )
          | inr f ↦ rw (e, f) (allocate-Within P side price c remaining rs h)
        ]
      ]

  trades_of_congr :
      (clock : ℕ → ℕ) (o : Order W) (c c' : ℕ → Order W) (price : W) (n : ℕ) (fs : List (ℕ × W))
      → Within (λ r. c' r ≡ c r) fs
      → trades_of clock o c' price n fs ≡ trades_of clock o c price n fs
  unfolding trades_of
  trades_of_congr clock o c c' price n [] h = refl
  trades_of_congr clock o c c' price n ((r, t) ∷ fs) (e, h) =
      rw (e, trades_of_congr clock o c c' price ((n + 1) % 2 ^ 64) fs h)

  -- What the fills `fs` of the order `o` do to the variables of the loop.
  pub record Outcome (clock : ℕ → ℕ) (o : ℕ) (price : W) (s : Progress W) (fs : List (ℕ × W))
      (s' : Progress W) : Type ℓ where
    pub trades :
        s'.trades
        ≡ s.trades ++ trades_of clock (s.store.cell o) s.store.cell price s.next_trade_id fs
    pub remaining : s'.remaining ≡ rest_of s.remaining fs
    pub orders : (q : ℕ) → s'.store.cell q ≡ after fs s.store.cell q
    pub book : s'.book ≡ s.book

  module _ (clock : ℕ → ℕ) (o : ℕ) (price : W) where
    fill_frame :
        (r : ℕ) (s : Progress W) (q : ℕ)
        → r ≢ q
        → (fill clock o price r s).store.cell q ≡ s.store.cell q
    unfolding fill
    fill_frame r s q h = cell-write_ne s.store r q _ h

    fill_self :
        (r : ℕ) (s : Progress W)
        → (fill clock o price r s).store.cell r
          ≡ set_quantity
              (s.store.cell r)
              (d.sub (s.store.cell r).quantity (min s.remaining (s.store.cell r).quantity))
    unfolding fill
    fill_self r s = cell-write_self s.store r _

    fill_book : (r : ℕ) (s : Progress W) → (fill clock o price r s).book ≡ s.book
    unfolding fill remove_order
    fill_book r s = ground arith

    nothing_Outcome : (s : Progress W) → Outcome clock o price s [] s
    unfolding trades_of rest_of given
    nothing_Outcome s = record {
      trades = sym (append-nil s.trades);
      remaining = refl;
      orders = λ q. refl;
      book = refl;
    }

    fill_trades :
        (r : ℕ) (s : Progress W) (fs : List (ℕ × W))
        → r ≢ o
        → Within (λ q. r ≢ q) fs
        → let s1 = fill clock o price r s in
          s1.trades ++ trades_of clock (s1.store.cell o) s1.store.cell price s1.next_trade_id fs
          ≡ s.trades
            ++ trades_of clock
                (s.store.cell o)
                s.store.cell
                price
                s.next_trade_id
                ((r, min s.remaining (s.store.cell r).quantity) ∷ fs)
    fill_trades r s fs ne fresh =
        rw
          (
            fill_frame r s o ne,
            trades_of_congr clock (s.store.cell o) s.store.cell (fill clock o price r s).store.cell
                price (fill clock o price r s).next_trade_id fs
                (Within-map (fill_frame r s) fs fresh),
          )
          (unfold fill trades_of in append_assoc s.trades _ _)

    fill_orders :
        (r : ℕ) (s : Progress W) (fs : List (ℕ × W)) (q : ℕ)
        → Within (λ q. r ≢ q) fs
        → after fs (fill clock o price r s).store.cell q
          ≡ after ((r, min s.remaining (s.store.cell r).quantity) ∷ fs) s.store.cell q
    unfolding given
    fill_orders r s fs q fresh = elim (Bool-cases (r == q)) [
      | inl e ↦
          subst
            (λ k.
              after fs (fill clock o price r s).store.cell k
              ≡ after ((r, min s.remaining (s.store.cell r).quantity) ∷ fs) s.store.cell k)
            ((==_iff r q).0 e) (rw (given_ne fs r fresh, (==_iff r r).1 refl) (fill_self r s))
      | inr e ↦ rw (e, fill_frame r s q (λ h. cc ((==_iff r q).1 h, e)))
    ]

    fill-allocate :
        (r : ℕ) (s : Progress W) (rs : List ℕ)
        → r ≢ o
        → All (λ q. r ≢ q) rs
        → let s1 = fill clock o price r s in
          allocate (s1.store.cell o).side price s1.store.cell s1.remaining rs
          ≡ allocate
              (s.store.cell o).side
              price
              s.store.cell
              (d.sub s.remaining (min s.remaining (s.store.cell r).quantity))
              rs
    fill-allocate r s rs ne fresh = rw (fill_frame r s o ne) (
        allocate_congr _ price s.store.cell (fill clock o price r s).store.cell
          (fill clock o price r s).remaining rs (All-map (fill_frame r s) rs fresh)
        ∙ unfold fill in refl)

    served_Outcome :
        (r : ℕ) (s s' : Progress W) (fs : List (ℕ × W))
        → r ≢ o
        → Within (λ q. r ≢ q) fs
        → Outcome clock o price (fill clock o price r s) fs s'
        → Outcome clock o price s ((r, min s.remaining (s.store.cell r).quantity) ∷ fs) s'
    served_Outcome r s s' fs ne fresh h = record {
      trades = h.trades ∙ fill_trades r s fs ne fresh;
      remaining = h.remaining ∙ unfold rest_of fill in refl;
      orders = λ q. h.orders q ∙ fill_orders r s fs q fresh;
      book = h.book ∙ fill_book r s;
    }

    -- Over resting orders that are distinct from one another and from the incoming order, the loop
    -- makes the trades of the allocation, in its order and numbered on from the counter, leaves of
    -- the incoming quantity what the allocation leaves, takes from each resting order what it gave,
    -- and changes no other order and not the book.
    pub match_loop_lem :
        (rs : List ℕ) (s : Progress W)
        → Distinct rs
        → All (λ q. q ≢ o) rs
        → Outcome clock o price s
            (allocate (s.store.cell o).side price s.store.cell s.remaining rs)
            (match_loop clock o price rs s)
    unfolding match_loop match_one allocate
    match_loop_lem [] s dis out = nothing_Outcome s
    match_loop_lem (r ∷ rs) s (fresh, dis) (ne, out) = elim (Bool-cases (d.le s.remaining nought)) [
      | inl e ↦ rw e (nothing_Outcome s)
      | inr e ↦ elim (Bool-cases (accepts (s.store.cell o).side price (s.store.cell r).price)) [
        | inl f ↦
            rw (e, f)
              (served_Outcome r s _ _ ne (allocate-Within _ _ price s.store.cell _ rs fresh) (
                subst
                  (λ fs.
                    Outcome clock o price (fill clock o price r s) fs
                      (match_loop clock o price rs (fill clock o price r s)))
                  (fill-allocate r s rs ne fresh)
                  (match_loop_lem rs (fill clock o price r s) dis out)))
        | inr f ↦ rw (e, f) (match_loop_lem rs s dis out)
      ]
    ]
