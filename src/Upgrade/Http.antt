-- ===== src/Upgrade/Http.antt =====
-- internal/upgrade/client.go, `get` and `limitedBody`: what a download delivers.
use omnistat.Prelude.{
  ℕ, Bool, false, Bytes, Option, none, some, ◌==◌, ltb, length, take, if◌then◌else◌,
}
use omnistat.Settle.{Result, ok, err}

-- What a body delivers until it ends or fails. A failure comes with a read that delivers nothing.
pub record Body (E : Type 0) : Type 0 where
  pub content : Bytes
  pub failure : Option E

-- The content length is unknown if none is announced.
pub record Response (E : Type 0) : Type 0 where
  pub status : ℕ
  pub content_length : Option ℕ
  pub body : Body E

pub data GetError (E : Type 0) : Type 0 where
  request_failed : E → GetError E
  not_found : GetError E
  bad_status : ℕ → GetError E
  announced_too_large : ℕ → GetError E

-- An error while a body is read.
pub data ReadError (E : Type 0) : Type 0 where
  read_failed : E → ReadError E
  larger_than_allowed : ReadError E

failure_of : {E : Type 0} → Option E → Option (ReadError E)
failure_of none = none
failure_of (some e) = some (read_failed e)

-- Past the limit a read fails; at the limit it asks for one more byte, and takes a failure for
-- the end.
unfoldable pub limited_body : {E : Type 0} → ℕ → Body E → Body (ReadError E)
unfolding failure_of
limited_body limit b =
    if ltb limit (length b.content)
    then record { content = take limit b.content; failure = some larger_than_allowed }
    else if length b.content == limit
    then record { content = b.content; failure = none }
    else record { content = b.content; failure = failure_of b.failure }

exceeds : Option ℕ → ℕ → Bool
exceeds none limit = false
exceeds (some n) limit = ltb limit n

or_zero : Option ℕ → ℕ
or_zero none = 0
or_zero (some n) = n

accept : {E : Type 0} → ℕ → Response E → Result (GetError E) (Body (ReadError E))
unfolding exceeds or_zero limited_body
accept limit r =
    if r.status == 404
    then err not_found
    else if r.status == 200
    then (if exceeds r.content_length limit
        then err (announced_too_large (or_zero r.content_length))
        else ok (limited_body limit r.body))
    else err (bad_status r.status)

-- `get`; `fetch` is `c.Do`.
unfoldable pub get :
    {E S : Type 0}
    → (Bytes → S → Result E (Response E) × S)
    → Bytes
    → ℕ
    → S
    → Result (GetError E) (Body (ReadError E)) × S
unfolding accept
get fetch url limit s =
    let (r, s') = fetch url s in
    elim r [ err e ↦ (err (request_failed e), s') | ok resp ↦ (accept limit resp, s') ]
