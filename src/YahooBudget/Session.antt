-- ===== src/YahooBudget/Session.antt =====
-- What a session of requests cannot exceed.
use Prim.{tt}
use mathlib.Core.Path.{subst}
use agentic_etf_advisor.Prelude.{
  ℕ, ◌≤◌, ◌≡◌, refl, ap, ◌⊎◌, inl, inr, Option, none, some, List, [], ◌∷◌, leb, length, ℤ, pos,
  negsuc, arith, Bool-cases,
}
use agentic_etf_advisor.YahooBudget.{
  YahooBudgetError, YahooRequestBudget, breach, check, difference, min_int, remaining, Timeout,
  absent, not_a_number, too_large, number, infinity, minus_infinity, nan, Wait, seconds,
  minus_infinite, undefined, Outcome, returned, file_size, other_error, Call, receive_all, join,
  Reply, response, raised, Attempt, refuse, checked_reply, failed_reply, finish, transfer, timed,
  request, session,
}
use agentic_etf_advisor.YahooBudget.Laws.{
  left, sent_count, timed-Settled, request-left, SameLimits, spend, request-cases, Settled,
}
use agentic_etf_advisor.YahooBudget.Served.{request-IsServed}

abbrev pub content_length : Reply → ℕ
content_length (response content) = length content
content_length (raised error) = 0

-- What the transport is given for a call's timeout is no longer than the limit; it is NaN only where
-- the call passes NaN.
abbrev pub AtMost : ℕ → Timeout → Option Wait → Type 0
AtMost limit t none = Unit
AtMost limit t (some (seconds (pos n))) = n ≤ limit
AtMost limit t (some (seconds (negsuc n))) = Unit
AtMost limit t (some minus_infinite) = Unit
AtMost limit t (some undefined) = t ≡ nan

AtMost-min_int :
    (limit : ℕ) (t : Timeout) (m n : ℤ)
    → AtMost limit t (some (seconds n))
    → AtMost limit t (some (seconds (min_int m n)))
unfolding min_int
AtMost-min_int limit t (pos m) (pos n) h = omega arith
AtMost-min_int limit t (pos m) (negsuc n) h = tt
AtMost-min_int limit t (negsuc m) (pos n) h = tt
AtMost-min_int limit t (negsuc m) (negsuc n) h = elim (Bool-cases (leb m n)) [
  | inl e ↦ rw e tt
  | inr e ↦ rw e tt
]

AtMost-remaining :
    (b : YahooRequestBudget) (t : Timeout) (now : ℕ)
    → AtMost b.request_timeout t (some (seconds (remaining b now)))
unfolding remaining min_int difference
AtMost-remaining b t now = elim (Bool-cases (leb now b.deadline)) [
  | inl e ↦ rw e (omega arith)
  | inr e ↦ rw e tt
]

sent-checked_reply :
    (content : List ℕ) (timeout : Wait) (checked : Option YahooBudgetError × YahooRequestBudget)
    → (checked_reply content timeout checked).sent ≡ some timeout
unfolding checked_reply
sent-checked_reply content timeout (some error, b) = refl
sent-checked_reply content timeout (none, b) = refl

sent-finish :
    (timeout : Wait) (outcome : Outcome) (now : ℕ) (received : List (List ℕ) × YahooRequestBudget)
    → (finish timeout outcome now received).sent ≡ some timeout
unfolding finish failed_reply
sent-finish timeout returned now (kept, after) =
    sent-checked_reply (join kept) timeout (check after now)
sent-finish timeout file_size now (kept, after) = refl
sent-finish timeout other_error now (kept, after) = refl

sent-transfer :
    (b : YahooRequestBudget) (c : Call) (timeout : Wait)
    → (transfer b c timeout).sent ≡ some timeout
unfolding transfer
sent-transfer b c timeout = sent-finish timeout c.outcome c.returned_at (receive_all b 0 c.chunks)

AtMost-timed :
    (limit : ℕ) (b : YahooRequestBudget) (c : Call) (t : Timeout) (timeout : ℤ)
    → AtMost limit t (some (seconds timeout))
    → AtMost limit t (timed b c t timeout).sent
unfolding timed refuse
AtMost-timed limit b c absent timeout h = rw (sent-transfer b c (seconds timeout)) h
AtMost-timed limit b c not_a_number timeout h = tt
AtMost-timed limit b c too_large timeout h = tt
AtMost-timed limit b c (number original) timeout h =
    rw (sent-transfer b c (seconds (min_int original timeout)))
      (AtMost-min_int limit (number original) original timeout h)
AtMost-timed limit b c infinity timeout h = rw (sent-transfer b c (seconds timeout)) h
AtMost-timed limit b c minus_infinity timeout h = rw (sent-transfer b c minus_infinite) tt
AtMost-timed limit b c nan timeout h = rw (sent-transfer b c undefined) refl

-- The attempt of a call is within the limits of a number of bytes and of a timeout.
pub record IsLimited (bytes timeout : ℕ) (c : Call) (a : Attempt) : Type 0 where
  pub content : content_length a.reply ≤ bytes
  pub wait : AtMost timeout c.timeout a.sent

Reply-cases :
    (r : Reply)
    → ((content : List ℕ) × (r ≡ response content))
      ⊎ ((error : YahooBudgetError) × (r ≡ raised error))
Reply-cases (response content) = inl (content, refl)
Reply-cases (raised error) = inr (error, refl)

request-IsLimited :
    (b : YahooRequestBudget) (c : Call)
    → IsLimited b.max_response_bytes b.request_timeout c (request b c)
unfolding refuse
request-IsLimited b c = record {
  content = elim (Reply-cases (request b c).reply) [
    | inl (content, e) ↦ rw e (request-IsServed b c content e).bounded
    | inr (error, e) ↦ rw e (omega arith)
  ];
  wait = elim (request-cases b c) [
    | inl (error, after, e, le, same) ↦ rw e tt
    | inr (a, e) ↦ rw e (
        AtMost-timed b.request_timeout (spend b) c c.timeout (remaining (spend b) c.timed_at)
          (AtMost-remaining (spend b) c.timeout c.timed_at))
  ];
}

Settled-SameLimits : {b after : YahooRequestBudget} → Settled b after → SameLimits b after
unfolding breach
Settled-SameLimits (inl e) = (ap (λ x. x.max_response_bytes) e, ap (λ x. x.request_timeout) e)
Settled-SameLimits (inr e) = (ap (λ x. x.max_response_bytes) e, ap (λ x. x.request_timeout) e)

request-SameLimits : (b : YahooRequestBudget) (c : Call) → SameLimits b (request b c).budget
unfolding refuse breach
request-SameLimits b c = elim (request-cases b c) [
  | inl (error, after, e, le, same) ↦ rw e same
  | inr (a, e) ↦
      rw e
        (Settled-SameLimits (timed-Settled (spend b) c c.timeout (remaining (spend b) c.timed_at)))
]

-- One attempt for each call, each within the limits.
abbrev pub AllLimited : ℕ → ℕ → List Call → List Attempt → Type 0
AllLimited bytes timeout [] [] = Unit
AllLimited bytes timeout [] (a ∷ attempts) = ⊥
AllLimited bytes timeout (c ∷ calls) [] = ⊥
AllLimited bytes timeout (c ∷ calls) (a ∷ attempts) =
    IsLimited bytes timeout c a × AllLimited bytes timeout calls attempts

-- However the transport and the callers behave, a session calls the transport no more often than the
-- budget has requests left, and not at all once it is breached; no response has more bytes than the
-- limit, and no timeout is above the limit, but that a caller's NaN is passed on as it is.
pub session-IsLimited :
    (b : YahooRequestBudget) (calls : List Call)
    → (sent_count (session b calls) ≤ left b)
      × AllLimited b.max_response_bytes b.request_timeout calls (session b calls)
unfolding session sent_count
session-IsLimited b [] = (omega arith, tt)
session-IsLimited b (c ∷ calls) =
    let (later, all) = session-IsLimited (request b c).budget calls in
    let (bytes, wait) = request-SameLimits b c in
    let now = request-left b c in
    let rest : List Attempt = session (request b c).budget calls in
    (
      omega arith,
      (
        request-IsLimited b c,
        subst (λ n. AllLimited n b.request_timeout calls rest) bytes
            (subst (λ n. AllLimited (request b c).budget.max_response_bytes n calls rest) wait all),
      ),
    )
