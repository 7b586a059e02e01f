-- ===== src/Logging/Written.antt =====
-- Every message that is logged is written once, in the order of the queue.
use live_trading_engine.Common.{
  ◌≡◌, refl, sym, ap, ◌∙◌, ◌⊎◌, inl, inr, Bool-cases, Bool, true, false, List, [], ◌∷◌, ◌++◌,
  if◌then◌else◌, arith, Text, text_eq, text_eq_refl, if-split,
}
use mathlib.Core.List.{append_assoc, append-nil}
use live_trading_engine.Logging.{
  AsyncLogger, Phase, working, draining, ended, sentinel, start_logger, push_log, push, write_log,
  run_once, request_stop, close,
}

-- All but the sentinels.
unfoldable pub messages : List Text → List Text
messages [] = []
messages (m ∷ ms) = if text_eq m sentinel then messages ms else m ∷ messages ms

messages-append : (xs ys : List Text) → messages (xs ++ ys) ≡ messages xs ++ messages ys
unfolding messages
messages-append [] ys = refl
messages-append (x ∷ xs) ys = elim (Bool-cases (text_eq x sentinel)) [
  | inl e ↦ rw e (messages-append xs ys)
  | inr e ↦ rw e (ap (λ ms. x ∷ ms) (messages-append xs ys))
]

-- What the logger can come to: the messages pushed so far, those of the threads between the test of
-- `done_` and their push, and the logger.
pub data Reaches : List Text → List Text → AsyncLogger → Type 0 where
  initially : Reaches [] [] start_logger
  tested :
      (ms waiting : List Text) (l : AsyncLogger) (m : Text)
      → Reaches ms waiting l
      → l.done ≡ false
      → Reaches ms (m ∷ waiting) l
  pushed :
      (ms before after : List Text) (l : AsyncLogger) (m : Text)
      → Reaches ms (before ++ (m ∷ after)) l
      → Reaches (ms ++ (m ∷ [])) (before ++ after) (push_log l m)
  worked :
      (ms waiting : List Text) (l : AsyncLogger)
      → Reaches ms waiting l
      → Reaches ms waiting (run_once l)
  stopped :
      (ms waiting : List Text) (l : AsyncLogger)
      → Reaches ms waiting l
      → Reaches ms waiting (request_stop l)
  closed :
      (ms waiting : List Text) (l : AsyncLogger)
      → Reaches ms waiting l
      → l.phase ≡ ended
      → Reaches ms waiting (close l)

-- The messages are those written, followed by those still queued; the file is open as long as the
-- worker writes.
abbrev pub IsFaithful : List Text → AsyncLogger → Type 0
IsFaithful ms l =
    (messages ms ≡ l.log_file ++ messages l.log_queue) × ((l.is_open ≡ true) ⊎ (l.phase ≡ ended))

push_log-IsFaithful :
    (ms : List Text) (l : AsyncLogger) (m : Text)
    → IsFaithful ms l
    → IsFaithful (ms ++ (m ∷ [])) (push_log l m)
unfolding push_log push
push_log-IsFaithful ms l m (e, o) = (
  messages-append ms (m ∷ [])
      ∙ ap (λ x. x ++ messages (m ∷ [])) e
      ∙ append_assoc l.log_file (messages l.log_queue) (messages (m ∷ []))
      ∙ ap (λ x. l.log_file ++ x) (sym (messages-append l.log_queue (m ∷ []))),
  o,
)

messages-sentinel : messages (sentinel ∷ []) ≡ []
unfolding messages
messages-sentinel = rw (text_eq_refl sentinel) refl

pub messages-push : (q : List Text) → messages (push q sentinel) ≡ messages q
unfolding push
messages-push q =
    messages-append q (sentinel ∷ [])
    ∙ ap (λ x. messages q ++ x) messages-sentinel
    ∙ append-nil (messages q)

request_stop-IsFaithful :
    (ms : List Text) (l : AsyncLogger) → IsFaithful ms l → IsFaithful ms (request_stop l)
unfolding request_stop
request_stop-IsFaithful ms l (e, o) =
    if-split (IsFaithful ms) l.done _ _ (λ _. (e, o))
      λ _. (e ∙ ap (λ x. l.log_file ++ x) (sym (messages-push l.log_queue)), o)

pub messages-skips :
    (m : Text) (rest : List Text) → text_eq m sentinel ≡ true → messages (m ∷ rest) ≡ messages rest
unfolding messages
messages-skips m rest is = rw is refl

pub messages-keeps :
    (m : Text) (rest : List Text)
    → text_eq m sentinel ≡ false
    → messages (m ∷ rest) ≡ m ∷ messages rest
unfolding messages
messages-keeps m rest is = rw is refl

-- A message taken off the queue is written, and a sentinel is not.
take-IsFaithful :
    (ms f rest : List Text) (m : Text) (d : Bool) (p q : Phase)
    → messages ms ≡ f ++ messages (m ∷ rest)
    → IsFaithful ms (
        if text_eq m sentinel
        then record { log_queue = rest; log_file = f; is_open = true; done = d; phase = q }
        else write_log
            (record { log_queue = rest; log_file = f; is_open = true; done = d; phase = p })
            m)
unfolding write_log
take-IsFaithful ms f rest m d p q e =
    if-split (IsFaithful ms) (text_eq m sentinel) _ _
      (λ is. (e ∙ ap (λ x. f ++ x) (messages-skips m rest is), inl refl))
      λ is. (
        e
            ∙ ap (λ x. f ++ x) (messages-keeps m rest is)
            ∙ sym (append_assoc f (m ∷ []) (messages rest)),
        inl refl,
      )

run_once-keeps :
    (ms q f : List Text) (o d : Bool) (p : Phase)
    → IsFaithful ms (record { log_queue = q; log_file = f; is_open = o; done = d; phase = p })
    → IsFaithful ms
        (run_once (record { log_queue = q; log_file = f; is_open = o; done = d; phase = p }))
unfolding run_once
run_once-keeps ms [] f o d working h = h
run_once-keeps ms [] f o d draining (e, h) = (e, inr refl)
run_once-keeps ms q f o d ended h = h
run_once-keeps ms (m ∷ rest) f true d working (e, h) =
    take-IsFaithful ms f rest m d working draining e
run_once-keeps ms (m ∷ rest) f true d draining (e, h) =
    take-IsFaithful ms f rest m d draining draining e
run_once-keeps ms (m ∷ rest) f false d working (e, h) = grind arith
run_once-keeps ms (m ∷ rest) f false d draining (e, h) = grind arith

run_once-IsFaithful :
    (ms : List Text) (l : AsyncLogger) → IsFaithful ms l → IsFaithful ms (run_once l)
run_once-IsFaithful ms l h = run_once-keeps ms l.log_queue l.log_file l.is_open l.done l.phase h

close-IsFaithful :
    (ms : List Text) (l : AsyncLogger) → l.phase ≡ ended → IsFaithful ms l → IsFaithful ms (close l)
unfolding close
close-IsFaithful ms l end (e, o) = (e, inr end)

-- Whatever the threads that log, the worker and stop have done, in any order, the messages pushed so
-- far, less those that are the text of the sentinel, are the lines of the file followed by those in
-- the queue: none is lost, written twice or out of order, and the file is closed only after the worker
-- has ended.
pub Reaches-IsWritten :
    (ms waiting : List Text) (l : AsyncLogger) → Reaches ms waiting l → IsFaithful ms l
unfolding start_logger messages
Reaches-IsWritten _ _ _ initially = (refl, inl refl)
Reaches-IsWritten _ _ _ (tested ms waiting l m r _) = Reaches-IsWritten _ _ _ r
Reaches-IsWritten _ _ _ (pushed ms before after l m r) =
    push_log-IsFaithful ms l m (Reaches-IsWritten _ _ _ r)
Reaches-IsWritten _ _ _ (worked ms waiting l r) =
    run_once-IsFaithful ms l (Reaches-IsWritten _ _ _ r)
Reaches-IsWritten _ _ _ (stopped ms waiting l r) =
    request_stop-IsFaithful ms l (Reaches-IsWritten _ _ _ r)
Reaches-IsWritten _ _ _ (closed ms waiting l r end) =
    close-IsFaithful ms l end (Reaches-IsWritten _ _ _ r)
