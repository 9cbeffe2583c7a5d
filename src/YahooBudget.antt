-- ===== src/YahooBudget.antt =====
-- The limits of one research attempt on Yahoo, of src/etf_advisor/data/yahoo_budget.py.
use agentic_etf_advisor.Prelude.{
  ℕ, zero, suc, ◌+◌, ◌-◌, ◌^◌, ◌≤◌, ◌<◌, min, String, ◌≡◌, refl, Bool, true, false, not, ◌&&◌, ◌||◌,
  Option, none, some, List, [], ◌∷◌, ◌++◌, ltb, leb, ◌==◌, if◌then◌else◌, length, ℤ, pos, negsuc,
}
pub mod Laws
pub mod Served
pub mod Session
mod Tests

-- The codes of `YahooBudgetError`, and the errors of others: one of the transport that is
-- raised again, and an OverflowError.
pub data YahooBudgetError : Type 0 where
  yahoo_budget_breached yahoo_deadline_exceeded yahoo_request_limit_exceeded : YahooBudgetError
  invalid_yahoo_response_limit unsupported_yahoo_retry_policy : YahooBudgetError
  unsupported_yahoo_transport_option invalid_yahoo_timeout : YahooBudgetError
  yahoo_receive_limit_exceeded transport_error overflow_error : YahooBudgetError

-- Times are readings of the monotonic clock, as whole numbers of its unit.
pub record YahooRequestBudget : Type 0 where
  pub deadline : ℕ
  pub max_requests : ℕ
  pub request_timeout : ℕ
  pub max_response_bytes : ℕ
  pub requests : ℕ
  pub breached : Bool

unfoldable pub breach : YahooRequestBudget → YahooRequestBudget
breach b = record b { breached = true }

-- `check`, where the clock reads `now`: an error or none, and the budget after it
unfoldable pub check : YahooRequestBudget → ℕ → Option YahooBudgetError × YahooRequestBudget
check b now =
    if b.breached
    then (some yahoo_budget_breached, b)
    else if leb b.deadline now
    then (some yahoo_deadline_exceeded, breach b)
    else (none, b)

unfoldable pub admit :
    Option YahooBudgetError × YahooRequestBudget → Option YahooBudgetError × YahooRequestBudget
admit (some error, b) = (some error, b)
admit (none, b) =
    if leb b.max_requests b.requests
    then (some yahoo_request_limit_exceeded, breach b)
    else (none, record b { requests = b.requests + 1 })

-- `before_request`, up to the timeout that it returns
unfoldable pub before_request :
    YahooRequestBudget → ℕ → Option YahooBudgetError × YahooRequestBudget
before_request b now = admit (check b now)

-- `a - b` on the readings
unfoldable pub difference : ℕ → ℕ → ℤ
difference a b = if leb b a then pos (a - b) else negsuc (b - a - 1)

unfoldable pub min_int : ℤ → ℤ → ℤ
min_int (pos m) (pos n) = pos (min m n)
min_int (pos m) (negsuc n) = negsuc n
min_int (negsuc m) (pos n) = negsuc m
min_int (negsuc m) (negsuc n) = if leb m n then negsuc n else negsuc m

-- the timeout that `before_request` returns where the clock reads `now`
unfoldable pub remaining : YahooRequestBudget → ℕ → ℤ
remaining b now = min_int (pos b.request_timeout) (difference b.deadline now)

-- The timeout that a caller passes, by what `float` makes of it: a TypeError or a ValueError, an
-- OverflowError, a finite number, one of the infinities, or NaN.
pub data Timeout : Type 0 where
  absent not_a_number too_large : Timeout
  number : ℤ → Timeout
  infinity minus_infinity nan : Timeout

-- The timeout that the transport is given.
pub data Wait : Type 0 where
  seconds : ℤ → Wait
  minus_infinite undefined : Wait

-- What the transport does after the last chunk: it returns, or raises; `file_size` is the CurlError 63.
pub data Outcome : Type 0 where
  returned file_size other_error : Outcome

-- One call of `BoundedSession.request`: what it reads of its arguments, the readings of the clock, and
-- what the transport does, a chunk with the reading at its receipt.
pub record Call : Type 0 where
  pub retry_count : ℕ
  pub has_callback : Bool
  pub is_stream : Bool
  pub timeout : Timeout
  pub checked_at : ℕ
  pub timed_at : ℕ
  pub chunks : List (List ℕ × ℕ)
  pub outcome : Outcome
  pub returned_at : ℕ

-- `receive` on all chunks that the transport delivers: the chunks that are kept, and the budget
unfoldable pub receive_all :
    YahooRequestBudget → ℕ → List (List ℕ × ℕ) → List (List ℕ) × YahooRequestBudget
receive_all b total [] = ([], b)
receive_all b total ((chunk, now) ∷ chunks) =
    let over = ltb b.max_response_bytes (total + length chunk) || leb b.deadline now in
    let rest = receive_all (if over then breach b else b) (total + length chunk) chunks in
    (if over then rest.0 else chunk ∷ rest.0, rest.1)

-- `b"".join(chunks)`
unfoldable pub join : List (List ℕ) → List ℕ
join [] = []
join (chunk ∷ chunks) = chunk ++ join chunks

pub data Reply : Type 0 where
  response : List ℕ → Reply
  raised : YahooBudgetError → Reply

-- What one call comes to, and the timeout with which the transport was called, if it was.
pub record Attempt : Type 0 where
  pub reply : Reply
  pub sent : Option Wait
  pub budget : YahooRequestBudget

unfoldable pub refuse : YahooBudgetError → YahooRequestBudget → Attempt
refuse error b = record { reply = raised error; sent = none; budget = b }

unfoldable pub checked_reply :
    List ℕ → Wait → Option YahooBudgetError × YahooRequestBudget → Attempt
checked_reply content timeout (some error, b) = record {
  reply = raised error;
  sent = some timeout;
  budget = b;
}
checked_reply content timeout (none, b) = record {
  reply = response content;
  sent = some timeout;
  budget = b;
}

unfoldable pub failed_reply : Wait → YahooRequestBudget → Attempt
failed_reply timeout b = record {
  reply = raised (if b.breached then yahoo_receive_limit_exceeded else transport_error);
  sent = some timeout;
  budget = b;
}

unfoldable pub finish : Wait → Outcome → ℕ → List (List ℕ) × YahooRequestBudget → Attempt
finish timeout returned now (kept, b) = checked_reply (join kept) timeout (check b now)
finish timeout file_size now (kept, b) = failed_reply timeout (breach b)
finish timeout other_error now (kept, b) = failed_reply timeout b

-- the transport's request with its callback
unfoldable pub transfer : YahooRequestBudget → Call → Wait → Attempt
transfer b c timeout = finish timeout c.outcome c.returned_at (receive_all b 0 c.chunks)

-- `min(float(original), timeout)`: the first of the two stands unless the second is less.
unfoldable pub timed : YahooRequestBudget → Call → Timeout → ℤ → Attempt
timed b c absent timeout = transfer b c (seconds timeout)
timed b c not_a_number timeout = refuse invalid_yahoo_timeout (breach b)
timed b c too_large timeout = refuse overflow_error b
timed b c (number original) timeout = transfer b c (seconds (min_int original timeout))
timed b c infinity timeout = transfer b c (seconds timeout)
timed b c minus_infinity timeout = transfer b c minus_infinite
timed b c nan timeout = transfer b c undefined

unfoldable pub admitted : Call → Option YahooBudgetError × YahooRequestBudget → Attempt
admitted c (some error, b) = refuse error b
admitted c (none, b) =
    if c.has_callback || c.is_stream
    then refuse unsupported_yahoo_transport_option (breach b)
    else timed b c c.timeout (remaining b c.timed_at)

-- the limit of bytes that `native_options` takes
unfoldable pub valid_cap : ℕ → Bool
valid_cap cap = ltb 0 cap && ltb cap 9_223_372_036_854_775_808

-- `BoundedSession.request`
unfoldable pub request : YahooRequestBudget → Call → Attempt
request b c =
    if not (c.retry_count == 0)
    then refuse unsupported_yahoo_retry_policy (breach b)
    else if not (valid_cap b.max_response_bytes)
    then refuse invalid_yahoo_response_limit b
    else admitted c (before_request b c.checked_at)

-- the calls of one session, in their order
unfoldable pub session : YahooRequestBudget → List Call → List Attempt
session b [] = []
session b (c ∷ calls) = let attempt = request b c in attempt ∷ session attempt.budget calls
