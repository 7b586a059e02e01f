-- ===== src/Api/Flush.antt =====
-- What a flush does to the books.
use live_trading_engine.Common.{
  ◌≡◌, refl, sym, ap, ◌∙◌, subst, true, false, inl, inr, Bool-cases, Option-cases, none, some, List,
  [], ◌∷◌, arith, Text, text_eq, text_eq_iff, has_text,
}
use live_trading_engine.Common.Dict.{lookup-insert, lookup-insert_self}
use live_trading_engine.OrderBook.{OrderBook, new_book}
use live_trading_engine.Matching.{Engine, get_order_book, add_order_book}
use live_trading_engine.Api.Admin.{flush_books}

module _ {ℓ κ} {W : Type ℓ} {S : Type κ} where
  flush_skips :
      (e : Engine W S) (x : Text) (xs : List Text)
      → get_order_book e x ≡ none
      → (flush_books e (x ∷ xs)).1 ≡ (flush_books e xs).1
  unfolding flush_books
  flush_skips e x xs h = rw (h, flush_books) refl

  flush_replaces :
      (e : Engine W S) (x : Text) (xs : List Text) (b : OrderBook W)
      → get_order_book e x ≡ some b
      → (flush_books e (x ∷ xs)).1 ≡ (flush_books (add_order_book e x (new_book x)) xs).1
  unfolding flush_books
  flush_replaces e x xs b h = rw (h, flush_books) refl

  get-add_self :
      (e : Engine W S) (x : Text) (b : OrderBook W)
      → get_order_book (add_order_book e x b) x ≡ some b
  unfolding get_order_book add_order_book
  get-add_self e x b = lookup-insert_self x b e.orderbooks

  get-add_other :
      (e : Engine W S) (x k : Text) (b : OrderBook W)
      → text_eq x k ≡ false
      → get_order_book (add_order_book e x b) k ≡ get_order_book e k
  unfolding get_order_book add_order_book
  get-add_other e x k b ne = rw (lookup-insert k x b e.orderbooks, ne) refl

  flush_keeps :
      (e : Engine W S) (symbols : List Text) (k : Text)
      → has_text symbols k ≡ false
      → get_order_book (flush_books e symbols).1 k ≡ get_order_book e k
  unfolding has_text
  flush_keeps e [] k h = unfold flush_books in refl
  flush_keeps e (x ∷ xs) k h = elim (Option-cases (get_order_book e x)) [
    | inl n ↦ rw (flush_skips e x xs n) (flush_keeps e xs k (ground arith))
    | inr (b, n) ↦ rw (flush_replaces e x xs b n) (
        flush_keeps (add_order_book e x (new_book x)) xs k (ground arith)
        ∙ get-add_other e x k (new_book x) (ground arith))
  ]

  -- The new book of a symbol that was just replaced.
  fresh :
      (e : Engine W S) (x k : Text)
      → text_eq x k ≡ true
      → get_order_book (add_order_book e x (new_book x)) k ≡ some (new_book k)
  fresh e x k t =
      subst (λ y. get_order_book (add_order_book e x (new_book x)) y ≡ some (new_book y))
        ((text_eq_iff x k).0 t) (get-add_self e x (new_book x))

  fresh_stays :
      (e : Engine W S) (symbols : List Text) (k : Text)
      → get_order_book e k ≡ some (new_book k)
      → get_order_book (flush_books e symbols).1 k ≡ some (new_book k)
  fresh_stays e [] k h = unfold flush_books in h
  fresh_stays e (x ∷ xs) k h = elim (Option-cases (get_order_book e x)) [
    | inl n ↦ rw (flush_skips e x xs n) (fresh_stays e xs k h)
    | inr (c, n) ↦
        rw (flush_replaces e x xs c n)
          (fresh_stays (add_order_book e x (new_book x)) xs k (renewed e x k h))
  ]
    where
      renewed :
          (e : Engine W S) (x k : Text)
          → get_order_book e k ≡ some (new_book k)
          → get_order_book (add_order_book e x (new_book x)) k ≡ some (new_book k)
      renewed e x k h = elim (Bool-cases (text_eq x k)) [
        | inl t ↦ fresh e x k t
        | inr t ↦ get-add_other e x k (new_book x) t ∙ h
      ]

  flush_empties :
      (e : Engine W S) (symbols : List Text) (k : Text) (b : OrderBook W)
      → get_order_book e k ≡ some b
      → has_text symbols k ≡ true
      → get_order_book (flush_books e symbols).1 k ≡ some (new_book k)
  unfolding has_text
  flush_empties e [] k b h t = ground arith
  flush_empties e (x ∷ xs) k b h t = elim (Bool-cases (text_eq x k)) [
    | inl same ↦
        let n : get_order_book e x ≡ some b =
          subst (λ y. get_order_book e y ≡ some b) (sym ((text_eq_iff x k).0 same)) h in
        rw (flush_replaces e x xs b n)
          (fresh_stays (add_order_book e x (new_book x)) xs k (fresh e x k same))
    | inr ne ↦ elim (Option-cases (get_order_book e x)) [
      | inl n ↦ rw (flush_skips e x xs n) (flush_empties e xs k b h (ground arith))
      | inr (c, n) ↦ rw (flush_replaces e x xs c n) (
          flush_empties (add_order_book e x (new_book x)) xs k b
            (get-add_other e x k (new_book x) ne ∙ h) (ground arith))
    ]
  ]

  -- No book is made where there was none.
  flush_none :
      (e : Engine W S) (symbols : List Text) (k : Text)
      → get_order_book e k ≡ none
      → get_order_book (flush_books e symbols).1 k ≡ none
  flush_none e [] k h = unfold flush_books in h
  flush_none e (x ∷ xs) k h = elim (Option-cases (get_order_book e x)) [
    | inl n ↦ rw (flush_skips e x xs n) (flush_none e xs k h)
    | inr (c, n) ↦ rw (flush_replaces e x xs c n) (
        flush_none (add_order_book e x (new_book x)) xs k
          (get-add_other e x k (new_book x) (distinct e x k c n h) ∙ h))
  ]
    where
      distinct :
          (e : Engine W S) (x k : Text) (c : OrderBook W)
          → get_order_book e x ≡ some c
          → get_order_book e k ≡ none
          → text_eq x k ≡ false
      distinct e x k c n h = elim (Bool-cases (text_eq x k)) [
        | inr t ↦ t
        | inl t ↦
            let no : none ≡ some c =
              sym h ∙ sym (ap (get_order_book e) ((text_eq_iff x k).0 t)) ∙ n in
            cc no
      ]

  flush-users : (e : Engine W S) (symbols : List Text) → (flush_books e symbols).1.users ≡ e.users
  flush-users e [] = unfold flush_books in refl
  flush-users e (x ∷ xs) = elim (Option-cases (get_order_book e x)) [
    | inl n ↦ rw (flush_skips e x xs n) (flush-users e xs)
    | inr (c, n) ↦
        rw (flush_replaces e x xs c n)
          (flush-users (add_order_book e x (new_book x)) xs ∙ unfold add_order_book in refl)
  ]

  -- A flush empties exactly the books of the given symbols: it leaves the other books and all users
  -- as they are, and makes no book where there was none.
  pub flush_books_lem :
      (e : Engine W S) (symbols : List Text)
      → let e' = (flush_books e symbols).1 in
        (e'.users ≡ e.users)
        × ((k : Text) → has_text symbols k ≡ false → get_order_book e' k ≡ get_order_book e k)
        × ((k : Text) → get_order_book e k ≡ none → get_order_book e' k ≡ none)
        × ((k : Text) (b : OrderBook W)
            → get_order_book e k ≡ some b
            → has_text symbols k ≡ true
            → get_order_book e' k ≡ some (new_book k))
  flush_books_lem e symbols =
      (flush-users e symbols, flush_keeps e symbols, flush_none e symbols, flush_empties e symbols)
