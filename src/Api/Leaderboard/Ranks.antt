-- ===== src/Api/Leaderboard/Ranks.antt =====
-- The leaderboard: its order, its ranks, and what its entries add up to.
use live_trading_engine.Common.{
  ℕ, suc, ◌≡◌, refl, sym, ap, ◌∙◌, subst, inl, inr, Bool-cases, some, List, [], ◌∷◌, arith, All,
  List-cases, Text, length,
}
use mathlib.Core.List.{Perm}
use live_trading_engine.Common.Dict.{Dict, lookup, keys}
use live_trading_engine.Common.Double.{Double, IsIeee, nought}
use live_trading_engine.Common.Json.{JsonLibrary}
use live_trading_engine.Common.Sorting.{sort, sort-Perm, sort-IsSorted, sort-All}
use live_trading_engine.User.{Position, User}
use live_trading_engine.Matching.{Engine}
use live_trading_engine.Api.Leaderboard.{
  Entry, is_better, market_price, add_positions, net_worths, current_price, show, show_positions,
  entry_of, entries, leaderboard, leaderboard_response, handle_leaderboard_request,
}
use live_trading_engine.Api.Leaderboard.Falling.{
  total, pairs, ids, Descending, Ranked, NumPair, better_asym, IsSorted-Descending, ids-Perm,
}

module _ {ℓ κ} {W : Type ℓ} {S : Type κ} ⦃d : Double W⦄ (e : Engine W S) where
  current_price-market_price :
      (symbol : Text) (average_price : W)
      → market_price e symbol average_price ≡ current_price e symbol average_price
  unfolding market_price current_price
  current_price-market_price symbol average_price = refl

  add_positions-total :
      (m : Dict (Position W)) (n : W) → add_positions e n m ≡ total n (show_positions e m)
  unfolding add_positions show_positions show
  add_positions-total [] n = refl
  add_positions-total ((symbol, p) ∷ m) n = elim (Bool-cases (d.le p.quantity nought)) [
    | inl b ↦ rw b (add_positions-total m n)
    | inr b ↦
        rw (b, current_price-market_price symbol p.average_price)
          (add_positions-total m
            (d.add n (d.mul p.quantity (current_price e symbol p.average_price))))
  ]

  -- The entry shows the user that it names, and its positions add up to the net worth.
  pub record IsEntry (x : Entry W) : Type (ℓ ⊔ κ) where
    pub user : User W
    pub named : lookup x.user_id e.users ≡ some user
    pub cash : x.cash_balance ≡ user.cash_balance
    pub pnl : x.realized_pnl ≡ user.realized_pnl
    pub shown : x.positions ≡ show_positions e user.positions
    pub adds_up : x.net_worth ≡ total x.cash_balance x.positions
    pub portfolio : x.portfolio_value ≡ d.sub x.net_worth x.cash_balance

  -- A pair of a user and the user's net worth.
  record IsPair (p : Text × W) : Type (ℓ ⊔ κ) where
    user : User W
    named : lookup p.0 e.users ≡ some user
    worth : p.1 ≡ add_positions e user.cash_balance user.positions

  net_worths-All :
      (m : Dict (User W)) → All (λ x. lookup x.0 e.users ≡ some x.1) m → All IsPair (net_worths e m)
  unfolding net_worths
  net_worths-All [] h = tt
  net_worths-All ((k, u) ∷ m) (h, hs) =
      (record { user = u; named = h; worth = refl }, net_worths-All m hs)

  ids-net_worths : (m : Dict (User W)) → ids (net_worths e m) ≡ keys m
  unfolding net_worths
  ids-net_worths [] = refl
  ids-net_worths ((k, u) ∷ m) = ap (λ ks. k ∷ ks) (ids-net_worths m)

  length-net_worths : (m : Dict (User W)) → length (net_worths e m) ≡ length m
  unfolding net_worths
  length-net_worths [] = refl
  length-net_worths (x ∷ m) = ap suc (length-net_worths m)

  record Listed (n : ℕ) (ps : List (Text × W)) : Type (ℓ ⊔ κ) where
    board : List (Entry W)
    found : entries e n ps ≡ some board
    ranked : Ranked n board
    same : pairs board ≡ ps
    sound : All IsEntry board

  entries-Listed : (n : ℕ) (ps : List (Text × W)) → All IsPair ps → Listed n ps
  unfolding entries entry_of
  entries-Listed n [] h = record { board = []; found = refl; ranked = tt; same = refl; sound = tt }
  entries-Listed n (p ∷ ps) (h, hs) =
      let rest = entries-Listed (suc n) ps hs in
      record {
        board = entry_of e n p.0 p.1 h.user ∷ rest.board;
        found = rw (h.named, rest.found) refl;
        ranked = (refl, rest.ranked);
        same = ap (λ qs. p ∷ qs) rest.same;
        sound = (
          record {
            user = h.user;
            named = h.named;
            cash = refl;
            pnl = refl;
            shown = refl;
            adds_up = h.worth ∙ add_positions-total h.user.positions h.user.cash_balance;
            portfolio = refl;
          },
          rest.sound,
        );
      }

  -- What the leaderboard shows: every registered user once, ranked from 1 on by falling net worth.
  pub record IsRanking (board : List (Entry W)) : Type (ℓ ⊔ κ) where
    pub ranked : Ranked 1 board
    pub descending : Descending (pairs board)
    pub once : Perm (ids (pairs board)) (keys e.users)
    pub sound : All IsEntry board

  leaderboard-IsRanking :
      IsIeee W
      → All (λ x. lookup x.0 e.users ≡ some x.1) e.users
      → All NumPair (net_worths e e.users)
      → (board : List (Entry W)) × (leaderboard e ≡ some board) × IsRanking board
  unfolding leaderboard
  leaderboard-IsRanking l h n =
      let ps = net_worths e e.users in
      let sorted = sort is_better ps in
      let r = entries-Listed 1 sorted (sort-All is_better IsPair ps (net_worths-All e.users h)) in
      (
        r.board,
        r.found,
        record {
          ranked = r.ranked;
          descending = subst Descending (sym r.same) (
              IsSorted-Descending l sorted (sort-All is_better NumPair ps n)
                (sort-IsSorted is_better (better_asym l) ps));
          once =
              subst (λ qs. Perm (ids qs) (keys e.users)) (sym r.same)
                (subst (λ ks. Perm (ids sorted) ks) (ids-net_worths e.users)
                  (ids-Perm (sort-Perm is_better ps)));
          sound = r.sound;
        },
      )

  empty-leaderboard : e.users ≡ [] → leaderboard e ≡ some []
  unfolding leaderboard sort net_worths entries
  empty-leaderboard none_there =
      ap (λ us. entries e 1 (sort is_better (net_worths e us))) none_there

  handle_none :
      (lib : JsonLibrary W) (missing : Text) (now : ℕ)
      → e.users ≡ []
      → handle_leaderboard_request lib missing now e ≡ leaderboard_response lib now 0 []
  unfolding handle_leaderboard_request
  handle_none lib missing now none_there = ground (arith, none_there)

  handle_some :
      (lib : JsonLibrary W) (missing : Text) (now : ℕ) (u : Text × User W) (us : Dict (User W))
      (board : List (Entry W))
      → e.users ≡ u ∷ us
      → leaderboard e ≡ some board
      → handle_leaderboard_request lib missing now e
        ≡ leaderboard_response lib now (length (net_worths e e.users)) board
  unfolding handle_leaderboard_request
  handle_some lib missing now u us board there found = ground (arith, there, found)

  -- The answer to a request for the leaderboard lists every registered user exactly once, with ranks that
  -- count from 1 and net worths that fall from each entry to the next. Each entry shows the cash and the
  -- profit of its user and all positions with a quantity above zero, and the net worth by which it is
  -- ranked is the cash and the market values that it shows, added up in their order. No request ends in
  -- the exception of a missing user. The map of the users finds each of its entries under its key, and no
  -- net worth is a NaN.
  pub handle_leaderboard_request_lem :
      (lib : JsonLibrary W) (missing : Text) (now : ℕ)
      → IsIeee W
      → All (λ x. lookup x.0 e.users ≡ some x.1) e.users
      → All NumPair (net_worths e e.users)
      → (board : List (Entry W)) × (handle_leaderboard_request lib missing now e
          ≡ leaderboard_response lib now (length e.users) board)
        × IsRanking board
  unfolding handle_leaderboard_request
  handle_leaderboard_request_lem lib missing now l h n =
      let b = leaderboard-IsRanking l h n in
      elim (List-cases e.users) [
        | inl none_there ↦
            let empty : b.0 ≡ [] = cc (b.1, empty-leaderboard none_there) in
            (
              b.0,
              handle_none lib missing now none_there
                  ∙ (λ i. leaderboard_response lib now (length (sym none_there i)) (sym empty i)),
              b.2,
            )
        | inr some_there ↦ (
          b.0,
          handle_some lib missing now some_there.0 some_there.1 b.0 some_there.2 b.1
              ∙ ap (λ t. leaderboard_response lib now t b.0) (length-net_worths e.users),
          b.2,
        )
      ]
