-- ===== src/Http/Received.antt =====
-- A request that comes in any number of parts is read as a whole.
use live_trading_engine.Common.{
  ℕ, ◌+◌, ◌≡◌, refl, sym, ap, subst, ◌∙◌, ◌⊎◌, inl, inr, true, false, ◌&&◌, Bool-cases, ltb, ◌==◌,
  Option, none, some, List, [], ◌∷◌, ◌++◌, arith, Text, length, length-append,
}
use mathlib.Core.List.{append-nil, append_assoc}
use live_trading_engine.Http.Parse.{behind_blank, split_blank, content_length}
use live_trading_engine.Http.Connection.{
  Recv, received, ended, timed_out, failed, positive, read, read_body, read_behind_head, headers_or,
  read_request,
}

-- What is found in a beginning of a text is found in the text.
pub split_blank-append :
    (a b : Text)
    → (split_blank a ≡ none)
      ⊎ ((h : Text) × (r : Text) × (split_blank a ≡ some (h, r))
          × (split_blank (a ++ b) ≡ some (h, r ++ b)))
unfolding split_blank behind_blank
split_blank-append [] b = inl refl
split_blank-append (c ∷ []) b = inl refl
split_blank-append (c ∷ d ∷ []) b = inl refl
split_blank-append (c ∷ d ∷ e ∷ []) b = inl refl
split_blank-append (c ∷ d ∷ e ∷ f ∷ t) b =
    elim (Bool-cases (c == 13 && (d == 10 && (e == 13 && f == 10)))) [
      | inl y ↦ inr ([], t, rw y refl, rw y refl)
      | inr n ↦ elim (split_blank-append (d ∷ e ∷ f ∷ t) b) [
        | inl o ↦ inl (rw (n, o) refl)
        | inr (h, r, x, z) ↦ inr (c ∷ h, r, rw (n, x) refl, rw (n, z) refl)
      ]
    ]

-- Parts of at least one byte, and what recv gives of them.
abbrev pub Part : Type 0
Part = ℕ × Text

unfoldable pub whole : List Part → Text
whole [] = []
whole ((c, t) ∷ ps) = (c ∷ t) ++ whole ps

unfoldable pub receives : List Part → List Recv → List Recv
receives [] events = events
receives ((c, t) ∷ ps) events = received c t ∷ receives ps events

read_body-done :
    (events : List Recv) (raw : Text) (n m : ℕ)
    → ltb m n ≡ false
    → read_body events raw n m ≡ read raw positive 0
unfolding read_body
read_body-done [] raw n m h = rw h refl
read_body-done (received c t ∷ events) raw n m h = rw h refl
read_body-done (ended ∷ events) raw n m h = rw h refl
read_body-done (timed_out ∷ events) raw n m h = rw h refl
read_body-done (failed ∷ events) raw n m h = rw h refl

read_body-more :
    (c : ℕ) (t : Text) (events : List Recv) (raw : Text) (n m : ℕ)
    → ltb m n ≡ true
    → read_body (received c t ∷ events) raw n m
      ≡ read_body events (raw ++ (c ∷ t)) n (m + length (c ∷ t))
unfolding read_body
read_body-more c t events raw n m h = rw h refl

read_body-receives :
    (ps : List Part) (events : List Recv) (raw r : Text) (n : ℕ)
    → n ≡ length (r ++ whole ps)
    → read_body (receives ps events) raw n (length r) ≡ read (raw ++ whole ps) positive 0
unfolding receives whole
read_body-receives [] events raw r n e =
    read_body-done events raw n (length r) (ground (arith, length-append r []))
    ∙ ap (λ x. read x positive 0) (sym (append-nil raw))
read_body-receives ((c, t) ∷ ps) events raw r n e =
    read_body-more c t (receives ps events) raw n (length r)
      (ground (arith, length-append r (c ∷ (t ++ whole ps))))
    ∙ ap (read_body (receives ps events) (raw ++ (c ∷ t)) n) (sym (length-append r (c ∷ t)))
    ∙ read_body-receives ps events (raw ++ (c ∷ t)) (r ++ (c ∷ t)) n
        (e ∙ ap length (sym (append_assoc r (c ∷ t) (whole ps))))
    ∙ ap (λ x. read x positive 0) (append_assoc raw (c ∷ t) (whole ps))

-- The head, the body and its length, of a text.
pub record IsComplete (total head body : Text) : Type 0 where
  pub splits : split_blank total ≡ some (head, body)
  pub length_is : content_length head ≡ some (some (length body))

abbrev KnowsLength : Option (Text × Text) → Type 0
KnowsLength none = Unit
KnowsLength (some (head, body)) = content_length head ≡ some (some (length body))

IsComplete-KnowsLength :
    (total head body : Text) (parts : Option (Text × Text))
    → IsComplete total head body
    → split_blank total ≡ parts
    → KnowsLength parts
IsComplete-KnowsLength total head body parts c e =
    subst KnowsLength (sym c.splits ∙ e) (c.length_is)

-- Once the head is there, the body is read up to its end.
behind_head-receives :
    (ps : List Part) (events : List Recv) (raw h r : Text)
    → content_length h ≡ some (some (length (r ++ whole ps)))
    → read_behind_head (receives ps events) raw r (content_length h)
      ≡ read (raw ++ whole ps) positive 0
unfolding read_behind_head
behind_head-receives ps events raw h r e =
    rw e (read_body-receives ps events raw r (length (r ++ whole ps)) refl)

read_request-step :
    (c : ℕ) (t : Text) (events : List Recv) (raw : Text)
    → read_request (received c t ∷ events) raw
      ≡ headers_or events
          (raw ++ (c ∷ t))
          (split_blank (raw ++ (c ∷ t)))
          (read_request events (raw ++ (c ∷ t)))
unfolding read_request
read_request-step c t events raw = refl

-- However a complete request is cut into parts, and whatever comes behind it, it is read as a whole.
pub read_request-IsComplete :
    (ps : List Part) (events : List Recv) (raw head body : Text)
    → IsComplete (raw ++ whole ps) head body
    → split_blank raw ≡ none
    → read_request (receives ps events) raw ≡ read (raw ++ whole ps) positive 0
unfolding receives whole headers_or
read_request-IsComplete [] events raw head body c h =
    let e = sym h ∙ ap split_blank (sym (append-nil raw)) ∙ c.splits in absurd (cc (e))
read_request-IsComplete ((b, t) ∷ ps) events raw head body c h =
    let raw' = raw ++ (b ∷ t) in
    let regroup = append_assoc raw (b ∷ t) (whole ps) in
    let c' = subst (λ x. IsComplete x head body) (sym regroup) c in
    read_request-step b t (receives ps events) raw
    ∙ (elim (split_blank-append raw' (whole ps)) [
      | inl o ↦ rw o (read_request-IsComplete ps events raw' head body c' o)
      | inr (x, r, e, f) ↦ rw e (
          behind_head-receives ps events raw' x r
            (IsComplete-KnowsLength (raw' ++ whole ps) head body (some (x, r ++ whole ps)) c' f))
    ])
    ∙ ap (λ x. read x positive 0) regroup
