-- ===== src/YahooBudget/Laws.antt =====
-- What a session of requests cannot exceed, and what a response has.
use agentic_etf_advisor.Prelude.{
  ℕ, suc, ◌+◌, ◌-◌, ◌≤◌, ◌<◌, ◌≡◌, refl, ap, ◌∙◌, ◌⊎◌, inl, inr, false, not, ◌||◌, Option, none,
  some, List, [], ◌∷◌, ltb, leb, ◌==◌, if◌then◌else◌, length, ℤ, arith, Bool-cases,
}
use agentic_etf_advisor.YahooBudget.{
  YahooBudgetError, yahoo_budget_breached, yahoo_deadline_exceeded, yahoo_request_limit_exceeded,
  unsupported_yahoo_transport_option, unsupported_yahoo_retry_policy, invalid_yahoo_response_limit,
  YahooRequestBudget, breach, check, admit, before_request, min_int, remaining, Timeout, absent,
  not_a_number, too_large, number, infinity, minus_infinity, nan, Wait, seconds, minus_infinite,
  undefined, Outcome, returned, file_size, other_error, Call, receive_all, join, Attempt, refuse,
  checked_reply, failed_reply, finish, transfer, timed, admitted, valid_cap, request,
}

-- The budget is the same, or the same and breached.
abbrev pub Settled : YahooRequestBudget → YahooRequestBudget → Type 0
Settled b after = (after ≡ b) ⊎ (after ≡ breach b)

pub receive_all-Settled :
    (b : YahooRequestBudget) (total : ℕ) (chunks : List (List ℕ × ℕ))
    → Settled b (receive_all b total chunks).1
unfolding receive_all breach
receive_all-Settled b total [] = inl refl
receive_all-Settled b total ((chunk, now) ∷ chunks) =
    elim (Bool-cases (ltb b.max_response_bytes (total + length chunk) || leb b.deadline now)) [
      | inl over ↦ rw over (elim (receive_all-Settled (breach b) (total + length chunk) chunks) [
        | inl e ↦ inr e
        | inr e ↦ inr e
      ])
      | inr within ↦ rw within (receive_all-Settled b (total + length chunk) chunks)
    ]

check-Settled : (b : YahooRequestBudget) (now : ℕ) → Settled b (check b now).1
unfolding check
check-Settled b now = ground arith

Settled-trans :
    {b after last : YahooRequestBudget} → Settled b after → Settled after last → Settled b last
unfolding breach
Settled-trans (inl e) (inl f) = inl (f ∙ e)
Settled-trans (inl e) (inr f) = inr (f ∙ ap breach e)
Settled-trans (inr e) (inl f) = inr (f ∙ e)
Settled-trans (inr e) (inr f) = inr (f ∙ ap breach e)

budget-checked_reply :
    (content : List ℕ) (timeout : Wait) (checked : Option YahooBudgetError × YahooRequestBudget)
    → (checked_reply content timeout checked).budget ≡ checked.1
unfolding checked_reply
budget-checked_reply content timeout (some error, b) = refl
budget-checked_reply content timeout (none, b) = refl

finish-Settled :
    (b : YahooRequestBudget) (timeout : Wait) (outcome : Outcome) (now : ℕ)
    (received : List (List ℕ) × YahooRequestBudget)
    → Settled b received.1
    → Settled b (finish timeout outcome now received).budget
unfolding finish failed_reply
finish-Settled b timeout returned now (kept, after) s =
    Settled-trans s
      (rw (budget-checked_reply (join kept) timeout (check after now)) (check-Settled after now))
finish-Settled b timeout file_size now (kept, after) s = Settled-trans s (inr refl)
finish-Settled b timeout other_error now (kept, after) s = s

transfer-Settled :
    (b : YahooRequestBudget) (c : Call) (timeout : Wait) → Settled b (transfer b c timeout).budget
unfolding transfer
transfer-Settled b c timeout =
    finish-Settled b timeout c.outcome c.returned_at (receive_all b 0 c.chunks)
      (receive_all-Settled b 0 c.chunks)

pub timed-Settled :
    (b : YahooRequestBudget) (c : Call) (t : Timeout) (timeout : ℤ)
    → Settled b (timed b c t timeout).budget
unfolding timed refuse
timed-Settled b c absent timeout = transfer-Settled b c (seconds timeout)
timed-Settled b c not_a_number timeout = inr refl
timed-Settled b c too_large timeout = inl refl
timed-Settled b c (number original) timeout =
    transfer-Settled b c (seconds (min_int original timeout))
timed-Settled b c infinity timeout = transfer-Settled b c (seconds timeout)
timed-Settled b c minus_infinity timeout = transfer-Settled b c minus_infinite
timed-Settled b c nan timeout = transfer-Settled b c undefined

abbrev one : Option Wait → ℕ
one none = 0
one (some timeout) = 1

one_bounded : (sent : Option Wait) → one sent ≤ 1
one_bounded none = omega arith
one_bounded (some timeout) = omega arith

-- the number of calls of the transport
unfoldable pub sent_count : List Attempt → ℕ
sent_count [] = 0
sent_count (a ∷ attempts) = one a.sent + sent_count attempts

-- the requests that a budget has left
unfoldable pub left : YahooRequestBudget → ℕ
left b = if b.breached then 0 else b.max_requests - b.requests

Settled-left : {b after : YahooRequestBudget} → Settled b after → left after ≤ left b
unfolding left breach
Settled-left {b} {after} (inl e) = rw e (omega arith)
Settled-left {b} {after} (inr e) = rw e (omega arith)

-- The budget after one more request.
abbrev pub spend : YahooRequestBudget → YahooRequestBudget
spend b = record b { requests = b.requests + 1 }

-- The conditions under which a call reaches the transport or its timeout.
pub record IsAdmitted (b : YahooRequestBudget) (c : Call) : Type 0 where
  pub retry : c.retry_count ≡ 0
  pub unbreached : b.breached ≡ false
  pub free : b.requests < b.max_requests
  pub started : c.checked_at < b.deadline

-- The limits of a budget do not change.
abbrev pub SameLimits : YahooRequestBudget → YahooRequestBudget → Type 0
SameLimits b after =
    (after.max_response_bytes ≡ b.max_response_bytes) × (after.request_timeout ≡ b.request_timeout)

-- A call is refused, and leaves no more requests than before, or it spends one.
pub request-cases :
    (b : YahooRequestBudget) (c : Call)
    → ((error : YahooBudgetError) × (after : YahooRequestBudget) × (request b c
          ≡ refuse error after)
        × (left after ≤ left b)
        × SameLimits b after)
      ⊎ (IsAdmitted b c
          × (request b c ≡ timed (spend b) c c.timeout (remaining (spend b) c.timed_at)))
unfolding request admitted before_request admit check left breach
request-cases b c = elim (Bool-cases (not (c.retry_count == 0))) [
  | inl retry ↦
      inl (unsupported_yahoo_retry_policy, breach b, rw retry refl, omega arith, (refl, refl))
  | inr single ↦ elim (Bool-cases (not (valid_cap b.max_response_bytes))) [
    | inl bad ↦
        inl (invalid_yahoo_response_limit, b, rw (single, bad) refl, omega arith, (refl, refl))
    | inr good ↦ elim (Bool-cases b.breached) [
      | inl x ↦
          inl (yahoo_budget_breached, b, ground (arith, single, good, x), omega arith, (refl, refl))
      | inr x ↦ elim (Bool-cases (leb b.deadline c.checked_at)) [
        | inl late ↦ inl (
          yahoo_deadline_exceeded,
          breach b,
          ground (arith, single, good, x, late),
          omega arith,
          (refl, refl),
        )
        | inr early ↦ elim (Bool-cases (leb b.max_requests b.requests)) [
          | inl full ↦ inl (
            yahoo_request_limit_exceeded,
            breach b,
            ground (arith, single, good, x, early, full),
            omega arith,
            (refl, refl),
          )
          | inr free ↦ elim (Bool-cases (c.has_callback || c.is_stream)) [
            | inl option ↦ inl (
              unsupported_yahoo_transport_option,
              breach (spend b),
              ground (arith, single, good, x, early, free, option),
              omega arith,
              (refl, refl),
            )
            | inr plain ↦ inr (
              record {
                retry = ground (arith, single);
                unbreached = x;
                free = ground (arith, free);
                started = ground (arith, early);
              },
              ground (arith, single, good, x, early, free, plain),
            )
          ]
        ]
      ]
    ]
  ]
]

pub request-left :
    (b : YahooRequestBudget) (c : Call)
    → one (request b c).sent + left (request b c).budget ≤ left b
unfolding refuse left
request-left b c = elim (request-cases b c) [
  | inl (error, after, e, le, same) ↦ rw e (omega arith)
  | inr (a, e) ↦
      (let spent =
          Settled-left (timed-Settled (spend b) c c.timeout (remaining (spend b) c.timed_at)) in
        let once =
          one_bounded (timed (spend b) c c.timeout (remaining (spend b) c.timed_at)).sent in
        let fewer : suc (left (spend b)) ≤ left b = ground (arith, a.free, a.unbreached) in
        rw e (omega arith))
]
