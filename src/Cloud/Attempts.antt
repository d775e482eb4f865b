-- ===== src/Cloud/Attempts.antt =====
-- doover/src/api/data.rs, `DataClient::request`: how often a request is sent, what it returns and how long it
-- waits, whatever the server answers.
use doover_rs.Base.{
  ℕ, zero, suc, ◌+◌, ◌*◌, ◌%◌, ◌^◌, ◌≤◌, ◌≡◌, refl, ap, String, Option, none, some, List, [], ◌∷◌,
  length, arith,
}
use native.Mathlib.Nat.{mul-le-mul_left}
use doover_rs.Base.Text.{append}
use doover_rs.Errors.{DooverError, Result}
use doover_rs.Cloud.{
  HttpRequest, Server, Sent, Verdict, finished, again, verdict, pause, after_attempt, attempts,
  request, DataClient, Method,
}
use doover_rs.Json.{Value}

-- The waits added up.
abbrev pub total : List ℕ → ℕ
total [] = 0
total (n ∷ ns) = n + total ns

module _ {N : Type 0} where
  -- The attempts before one that the server lets be tried again, and it.
  abbrev pub IsTried : Server N → HttpRequest N → ℕ → ℕ → Type 0
  IsTried server r attempt zero = Unit
  IsTried server r attempt (suc n) =
      ((e : DooverError) × (verdict (server r attempt) ≡ again e))
      × IsTried server r (suc attempt) n

  module _ (server : Server N) (delay : ℕ) (r : HttpRequest N) where
    length-after_attempt :
        (left : ℕ) (waits : List ℕ) (v : Verdict N)
        (retry : DooverError → Sent N (Option (Value N)))
        → ((e : DooverError) → length (retry e).requests ≤ left)
        → length (after_attempt r waits v retry).requests ≤ suc left
    length-after_attempt left waits (finished result) retry h = omega arith
    length-after_attempt left waits (again e) retry h = let k = h e in omega (arith, k)

    length-attempts :
        (left attempt : ℕ) (last : Option DooverError)
        → length (attempts server delay r left attempt last).requests ≤ left
    unfolding attempts
    length-attempts zero attempt last = omega arith
    length-attempts (suc left) attempt last =
        length-after_attempt left (pause left delay attempt) (verdict (server r attempt))
          (λ e. attempts server delay r left (suc attempt) (some e))
          (λ e. length-attempts left (suc attempt) (some e))

    -- One step of the loop, by what the answer to the attempt is.
    attempts_again :
        (left attempt : ℕ) (last : Option DooverError) (e : DooverError)
        → verdict (server r attempt) ≡ again e
        → attempts server delay r (suc left) attempt last
          ≡ after_attempt r
              (pause left delay attempt)
              (again e)
              (λ e. attempts server delay r left (suc attempt) (some e))
    unfolding attempts
    attempts_again left attempt last e h =
        ap
          (λ v.
            after_attempt r (pause left delay attempt) v
              (λ e. attempts server delay r left (suc attempt) (some e)))
          h

    attempts_ended :
        (left attempt : ℕ) (last : Option DooverError)
        (result : Result DooverError (Option (Value N)))
        → verdict (server r attempt) ≡ finished result
        → attempts server delay r (suc left) attempt last
          ≡ record { requests = r ∷ []; waits = []; result = result }
    unfolding attempts
    attempts_ended left attempt last result h =
        ap
          (λ v.
            after_attempt r (pause left delay attempt) v
              (λ e. attempts server delay r left (suc attempt) (some e)))
          h

    -- After `n` attempts that may be tried again, one that ends the request ends it.
    attempts_finished :
        (n left attempt : ℕ) (last : Option DooverError)
        (result : Result DooverError (Option (Value N)))
        → IsTried server r attempt n
        → verdict (server r (attempt + n)) ≡ finished result
        → ((attempts server delay r (n + suc left) attempt last).result ≡ result)
          × (length (attempts server delay r (n + suc left) attempt last).requests ≡ suc n)
    attempts_finished zero left attempt last result tried h =
        let none_yet : 0 + suc left ≡ suc left = omega arith in
        let here : attempt + 0 ≡ attempt = omega arith in
        rw (none_yet) (rw (attempts_ended left attempt last result (rw (here) at h)) (refl, refl))
    attempts_finished (suc n) left attempt last result ((e, tried), more) h =
        let shift : attempt + suc n ≡ suc attempt + n = omega arith in
        let grown : suc n + suc left ≡ suc (n + suc left) = omega arith in
        let rest = attempts_finished n left (suc attempt) (some e) result more (rw (shift) at h) in
        rw (grown) (rw (attempts_again (n + suc left) attempt last e tried) (rest.0, ap suc rest.1))

    -- A wait is at most the delay doubled at each attempt before it.
    wait-le : (attempt : ℕ) → delay * (2 ^ attempt % 2 ^ 32) ≤ delay * 2 ^ attempt
    wait-le attempt =
        let cut : 2 ^ attempt % 2 ^ 32 ≤ 2 ^ attempt = omega arith in mul-le-mul_left delay cut

    doubled : (attempt : ℕ) → delay * 2 ^ suc attempt ≡ delay * 2 ^ attempt + delay * 2 ^ attempt
    doubled attempt = grind arith

    doubled-le : (k attempt : ℕ) → delay * 2 ^ attempt ≤ delay * 2 ^ (attempt + k)
    doubled-le zero attempt = let e : attempt + 0 ≡ attempt = omega arith in rw (e) (omega arith)
    doubled-le (suc k) attempt =
        let e : attempt + suc k ≡ suc (attempt + k) = omega arith in
        rw (e) (omega (arith, doubled (attempt + k), doubled-le k attempt))

    total-after_attempt :
        (left attempt : ℕ) (v : Verdict N) (retry : DooverError → Sent N (Option (Value N)))
        → ((e : DooverError)
            → total (retry e).waits + delay * 2 ^ suc attempt ≤ delay * 2 ^ (suc attempt + left))
        → total (after_attempt r (pause (suc left) delay attempt) v retry).waits
            + delay * 2 ^ attempt
          ≤ delay * 2 ^ (attempt + suc left)
    total-after_attempt left attempt (finished result) retry h =
        let k = doubled-le (suc left) attempt in omega (arith, k)
    total-after_attempt left attempt (again e) retry h =
        let shift : attempt + suc left ≡ suc attempt + left = omega arith in
        rw (shift) (omega (arith, h e, wait-le attempt, doubled attempt))

    last-after_attempt :
        (attempt : ℕ) (last : Option DooverError) (v : Verdict N)
        → total (after_attempt r [] v (λ e. attempts server delay r 0 (suc attempt) (some e))).waits
            + delay * 2 ^ attempt
          ≤ delay * 2 ^ (attempt + 0)
    unfolding attempts
    last-after_attempt attempt last (finished result) = omega (arith, doubled-le 0 attempt)
    last-after_attempt attempt last (again e) = omega (arith, doubled-le 0 attempt)

    total-attempts :
        (left attempt : ℕ) (last : Option DooverError)
        → total (attempts server delay r (suc left) attempt last).waits + delay * 2 ^ attempt
          ≤ delay * 2 ^ (attempt + left)
    unfolding attempts
    total-attempts zero attempt last = last-after_attempt attempt last (verdict (server r attempt))
    total-attempts (suc left) attempt last =
        total-after_attempt left attempt (verdict (server r attempt))
          (λ e. attempts server delay r (suc left) (suc attempt) (some e))
          (λ e. total-attempts left (suc attempt) (some e))

  module _ (server : Server N) (c : DataClient) (method : Method) (path : String)
      (body : Option (Value N)) (query : List (String × String)) where
    -- The request with the headers that the client puts on it.
    abbrev pub sent_request : HttpRequest N
    sent_request = record {
      method = method;
      url = append c.base_url path;
      body = body;
      query = query;
      token = c.token;
      organisation_id = c.organisation_id;
    }

    -- Whatever the server answers, a request of a client with at least one attempt ends: it is sent at
    -- most `max_retries` times, and its waits add up to less than the delay doubled at each retry,
    -- unless the delay is zero.
    pub request_bounds :
        (n : ℕ)
        → c.max_retries ≡ suc n
        → (length (request server c method path body query).requests ≤ c.max_retries)
          × (total (request server c method path body query).waits + c.retry_delay
              ≤ c.retry_delay * 2 ^ n)
    unfolding request
    request_bounds n h =
        let t = total-attempts server c.retry_delay sent_request n 0 none in
        let start : 0 + n ≡ n = omega arith in
        let t' = rw (start) at t in
        let same = ap (λ m. total (attempts server c.retry_delay sent_request m 0 none).waits) h in
        (
          length-attempts server c.retry_delay sent_request c.max_retries 0 none,
          omega (arith, t', same),
        )

    -- A request returns the first answer that is no server error and no failed connection, after sending
    -- itself once for each answer up to it, if an attempt is left when that answer comes.
    pub request_settled :
        (n left : ℕ) (result : Result DooverError (Option (Value N)))
        → c.max_retries ≡ n + suc left
        → IsTried server sent_request 0 n
        → verdict (server sent_request n) ≡ finished result
        → ((request server c method path body query).result ≡ result)
          × (length (request server c method path body query).requests ≡ suc n)
    unfolding request
    request_settled n left result h tried answer =
        let start : 0 + n ≡ n = omega arith in
        rw (h) (
          attempts_finished server c.retry_delay sent_request n left 0 none result tried
            (rw (start) answer))
