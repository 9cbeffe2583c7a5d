-- ===== src/YahooBudget/Served.antt =====
-- What a response of a budgeted request has.
use Prim.{tt}
use agentic_etf_advisor.Prelude.{
  ℕ, ◌+◌, ◌≤◌, ◌<◌, ◌≡◌, refl, sym, ap, ◌∙◌, inl, inr, true, false, ◌||◌, List, [], ◌∷◌, ◌++◌, map,
  ltb, leb, length, ℤ, arith, Bool-cases, All,
}
use agentic_etf_advisor.YahooBudget.{
  YahooRequestBudget, breach, check, min_int, remaining, Timeout, absent, not_a_number, too_large,
  number, infinity, minus_infinity, nan, Wait, seconds, minus_infinite, undefined, Outcome,
  returned, file_size, other_error, Call, receive_all, join, response, refuse, checked_reply,
  failed_reply, finish, transfer, timed, request,
}
use agentic_etf_advisor.YahooBudget.Laws.{spend, request-cases, Settled, receive_all-Settled}

length-append : {A : Type 0} (xs ys : List A) → length (xs ++ ys) ≡ length xs + length ys
length-append [] ys = omega arith
length-append (x ∷ xs) ys = ground (arith, length-append xs ys)

-- The bytes of all the chunks.
abbrev pub delivered : List (List ℕ × ℕ) → List ℕ
delivered chunks = join (map (λ c. c.0) chunks)

-- The transport delivered everything before the deadline and within the limit of bytes.
pub record IsWhole (b : YahooRequestBudget) (total : ℕ) (chunks : List (List ℕ × ℕ))
    (kept : List (List ℕ)) : Type 0 where
  pub content : join kept ≡ delivered chunks
  pub in_time : All (λ c. c.1 < b.deadline) chunks
  pub bounded : total + length (delivered chunks) ≤ b.max_response_bytes

breached_stays :
    (b : YahooRequestBudget) (total : ℕ) (chunks : List (List ℕ × ℕ))
    → b.breached ≡ true
    → (receive_all b total chunks).1.breached ≡ true
unfolding receive_all breach
breached_stays b total [] h = h
breached_stays b total ((chunk, now) ∷ chunks) h =
    elim (Bool-cases (ltb b.max_response_bytes (total + length chunk) || leb b.deadline now)) [
      | inl over ↦ rw over (breached_stays (breach b) (total + length chunk) chunks refl)
      | inr within ↦ rw within (breached_stays b (total + length chunk) chunks h)
    ]

receive_all-IsWhole :
    (b : YahooRequestBudget) (total : ℕ) (chunks : List (List ℕ × ℕ))
    → total ≤ b.max_response_bytes
    → (receive_all b total chunks).1.breached ≡ false
    → IsWhole b total chunks (receive_all b total chunks).0
unfolding receive_all breach join
receive_all-IsWhole b total [] le h = record { content = refl; in_time = tt; bounded = omega arith }
receive_all-IsWhole b total ((chunk, now) ∷ chunks) le h =
    elim (Bool-cases (ltb b.max_response_bytes (total + length chunk) || leb b.deadline now)) [
      | inl over ↦
          absurd
            (ground (arith, h, over, breached_stays (breach b) (total + length chunk) chunks refl))
      | inr within ↦
          (let rest =
              receive_all-IsWhole b (total + length chunk) chunks (ground (arith, within))
                (ground (arith, h, within)) in
            record {
              content = rw within (ap (λ l. chunk ++ l) rest.content);
              in_time = (ground (arith, within), rest.in_time);
              bounded = ground (arith, rest.bounded, length-append chunk (delivered chunks));
            })
    ]

-- A response: what the budget and the call had, and all of the bytes.
pub record IsServed (b : YahooRequestBudget) (c : Call) (content : List ℕ) : Type 0 where
  pub retry : c.retry_count ≡ 0
  pub unbreached : b.breached ≡ false
  pub free : b.requests < b.max_requests
  pub started : c.checked_at < b.deadline
  pub received : All (λ chunk. chunk.1 < b.deadline) c.chunks
  pub ended : c.returned_at < b.deadline
  pub whole : content ≡ delivered c.chunks
  pub bounded : length content ≤ b.max_response_bytes

checked_reply-response :
    (kept : List ℕ) (timeout : Wait) (b : YahooRequestBudget) (now : ℕ) {content : List ℕ}
    → (checked_reply kept timeout (check b now)).reply ≡ response content
    → (content ≡ kept) × (b.breached ≡ false) × (now < b.deadline)
unfolding checked_reply check
checked_reply-response kept timeout b now h = elim (Bool-cases b.breached) [
  | inl x ↦ absurd (ground (arith, h, x))
  | inr x ↦ elim (Bool-cases (leb b.deadline now)) [
    | inl late ↦ absurd (ground (arith, h, x, late))
    | inr early ↦ (ground (arith, h, x, early), x, ground (arith, early))
  ]
]

Settled-deadline : {b after : YahooRequestBudget} → Settled b after → after.deadline ≡ b.deadline
unfolding breach
Settled-deadline (inl e) = ap (λ x. x.deadline) e
Settled-deadline (inr e) = ap (λ x. x.deadline) e

-- What the transport delivered and when, where the reply is a response.
Delivered : YahooRequestBudget → Call → List ℕ → Type 0
Delivered b c content =
    (content ≡ delivered c.chunks)
    × All (λ chunk. chunk.1 < b.deadline) c.chunks
    × (c.returned_at < b.deadline)
    × (length content ≤ b.max_response_bytes)

finish-response :
    (timeout : Wait) (outcome : Outcome) (now : ℕ) (received : List (List ℕ) × YahooRequestBudget)
    {content : List ℕ}
    → (finish timeout outcome now received).reply ≡ response content
    → (content ≡ join received.0) × (received.1.breached ≡ false) × (now < received.1.deadline)
unfolding finish failed_reply
finish-response timeout returned now (kept, after) h =
    checked_reply-response (join kept) timeout after now h
finish-response timeout file_size now (kept, after) h = absurd (cc)
finish-response timeout other_error now (kept, after) h = absurd (cc)

transfer-Delivered :
    (b : YahooRequestBudget) (c : Call) (timeout : Wait) {content : List ℕ}
    → (transfer b c timeout).reply ≡ response content
    → Delivered b c content
unfolding transfer Delivered
transfer-Delivered b c timeout {content} h =
    let (same, clean, early) =
      finish-response timeout c.outcome c.returned_at (receive_all b 0 c.chunks) h in
    let whole = receive_all-IsWhole b 0 c.chunks (omega arith) clean in
    let all : content ≡ delivered c.chunks = same ∙ whole.content in
    (
      all,
      whole.in_time,
      ground (arith, early, Settled-deadline (receive_all-Settled b 0 c.chunks)),
      ground (arith, ap (λ l. length l) all, whole.bounded),
    )

timed-Delivered :
    (b : YahooRequestBudget) (c : Call) (t : Timeout) (timeout : ℤ) {content : List ℕ}
    → (timed b c t timeout).reply ≡ response content
    → Delivered b c content
unfolding timed refuse
timed-Delivered b c absent timeout h = transfer-Delivered b c (seconds timeout) h
timed-Delivered b c not_a_number timeout h = absurd (cc)
timed-Delivered b c too_large timeout h = absurd (cc)
timed-Delivered b c (number original) timeout h =
    transfer-Delivered b c (seconds (min_int original timeout)) h
timed-Delivered b c infinity timeout h = transfer-Delivered b c (seconds timeout) h
timed-Delivered b c minus_infinity timeout h = transfer-Delivered b c minus_infinite h
timed-Delivered b c nan timeout h = transfer-Delivered b c undefined h

-- A request that returns a response is the budget's single try of a free request before the deadline,
-- and the response has all the bytes that the transport delivered, all of them before the deadline and
-- within the limit of bytes.
pub request-IsServed :
    (b : YahooRequestBudget) (c : Call) (content : List ℕ)
    → (request b c).reply ≡ response content
    → IsServed b c content
unfolding Delivered refuse
request-IsServed b c content h = elim (request-cases b c) [
  | inl (error, after, e, le, same) ↦ absurd (ground (arith, h, e))
  | inr (a, e) ↦
      (let (all, in_time, ended, bounded) =
          timed-Delivered (spend b) c c.timeout (remaining (spend b) c.timed_at)
            (ap (λ attempt. attempt.reply) (sym e) ∙ h) in
        record {
          retry = a.retry;
          unbreached = a.unbreached;
          free = a.free;
          started = a.started;
          received = in_time;
          ended = ended;
          whole = all;
          bounded = bounded;
        })
]
