-- ===== src/YahooBudget/Tests.antt =====
-- A session of three calls, and the theorems on budgets at it.
use agentic_etf_advisor.Prelude.{
  ℕ, ◌≤◌, ◌+◌, ◌≡◌, refl, true, false, none, some, List, [], ◌∷◌, pos,
}
use agentic_etf_advisor.YahooBudget.{
  yahoo_budget_breached, yahoo_receive_limit_exceeded, YahooRequestBudget, breach, check, admit,
  before_request, difference, min_int, remaining, number, nan, seconds, undefined, Outcome,
  returned, other_error, Call, receive_all, join, response, raised, refuse, checked_reply,
  failed_reply, finish, transfer, timed, admitted, valid_cap, request, session,
}
use agentic_etf_advisor.YahooBudget.Laws.{left, sent_count}
use agentic_etf_advisor.YahooBudget.Served.{IsServed, request-IsServed}
use agentic_etf_advisor.YahooBudget.Session.{AllLimited, session-IsLimited}

abbrev budget : YahooRequestBudget
budget = record {
  deadline = 100;
  max_requests = 12;
  request_timeout = 10;
  max_response_bytes = 4;
  requests = 0;
  breached = false;
}

abbrev call : ℕ → List (List ℕ × ℕ) → Outcome → Call
call start chunks outcome = record {
  retry_count = 0;
  has_callback = false;
  is_stream = false;
  timeout = number (pos 5);
  checked_at = start;
  timed_at = start;
  chunks = chunks;
  outcome = outcome;
  returned_at = start + 2;
}

-- One response, one that is too long, and a call on the breached budget.
abbrev calls : List Call
calls =
    call 10 ((1 ∷ 2 ∷ [], 11) ∷ (3 ∷ 4 ∷ [], 11) ∷ []) returned
    ∷ call 20 ((1 ∷ 2 ∷ [], 21) ∷ (3 ∷ 4 ∷ 5 ∷ [], 21) ∷ []) other_error
    ∷ call 30 [] returned
    ∷ []

first_reply :
    (request budget (call 10 ((1 ∷ 2 ∷ [], 11) ∷ (3 ∷ 4 ∷ [], 11) ∷ []) returned)).reply
    ≡ response (1 ∷ 2 ∷ 3 ∷ 4 ∷ [])
unfolding request valid_cap admitted before_request admit check timed transfer finish receive_all
    checked_reply join
first_reply = refl

replies :
    session budget calls
    ≡ record {
      reply = response (1 ∷ 2 ∷ 3 ∷ 4 ∷ []);
      sent = some (seconds (pos 5));
      budget = record budget { requests = 1 };
    }
      ∷ record {
        reply = raised yahoo_receive_limit_exceeded;
        sent = some (seconds (pos 5));
        budget = record budget { requests = 2; breached = true };
      }
      ∷ record {
        reply = raised yahoo_budget_breached;
        sent = none;
        budget = record budget { requests = 2; breached = true };
      }
      ∷ []
unfolding session request valid_cap admitted before_request admit check timed transfer finish
    receive_all checked_reply failed_reply join refuse breach remaining difference min_int
replies = refl

session-IsLimited_example :
    (sent_count (session budget calls) ≤ 12) × AllLimited 4 10 calls (session budget calls)
unfolding left
session-IsLimited_example = session-IsLimited budget calls

request-IsServed_example :
    IsServed budget
      (call 10 ((1 ∷ 2 ∷ [], 11) ∷ (3 ∷ 4 ∷ [], 11) ∷ []) returned)
      (1 ∷ 2 ∷ 3 ∷ 4 ∷ [])
request-IsServed_example =
    request-IsServed budget (call 10 ((1 ∷ 2 ∷ [], 11) ∷ (3 ∷ 4 ∷ [], 11) ∷ []) returned)
      (1 ∷ 2 ∷ 3 ∷ 4 ∷ []) first_reply

-- A NaN reaches the transport.
nan_passed_on :
    (request budget (record (call 10 [] returned) { timeout = nan })).sent ≡ some undefined
unfolding request valid_cap admitted before_request admit check timed transfer finish receive_all
    checked_reply join
nan_passed_on = refl
