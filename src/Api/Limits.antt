-- ===== src/Api/Limits.antt =====
-- internal/api/middleware.go: the limit on requests by address. `now` and `window` are numbers on one
-- clock that does not run backwards; the mutex makes each operation one step.
pub mod Window
use east_validator.Prelude.{
  ℕ, ◌+◌, Bool, true, false, not, List, [], ◌∷◌, ◌++◌, Option, none, some, length, ltb, leb, ◌==◌,
  if◌then◌else◌,
}
use east_validator.Prelude.Int.{lt64}
use east_validator.Prelude.Text.{Text, codes, text_eq, is_empty}
use east_validator.Prelude.Maps.{lookup, insert, text_key}
use east_validator.State.Accounts.{get_or}

-- `max` is not negative.
pub record IpRateLimiter : Type 0 where
  pub hits : List (Text × List ℕ)
  pub max : ℕ
  pub window : ℕ

-- `t.After(now.Add(-window))`.
abbrev pub is_recent : ℕ → ℕ → ℕ → Bool
is_recent now window t = ltb now (t + window)

unfoldable pub recent : ℕ → ℕ → List ℕ → List ℕ
recent now window [] = []
recent now window (t ∷ ts) =
    let rest = recent now window ts in if is_recent now window t then t ∷ rest else rest

unfoldable pub allow : ℕ → Text → IpRateLimiter → IpRateLimiter × Bool
unfolding recent
allow now ip rl =
    let kept = recent now rl.window (get_or (lookup ip rl.hits) []) in
    if leb rl.max (length kept)
    then (record rl { hits = insert ip kept rl.hits }, false)
    else (record rl { hits = insert ip (kept ++ now ∷ []) rl.hits }, true)

abbrev keep_some : Text → List ℕ → List (Text × List ℕ) → List (Text × List ℕ)
keep_some ip [] m = m
keep_some ip (t ∷ ts) m = (ip, t ∷ ts) ∷ m

sweep_all : ℕ → ℕ → List (Text × List ℕ) → List (Text × List ℕ)
sweep_all now window [] = []
sweep_all now window ((ip, ts) ∷ m) = keep_some ip (recent now window ts) (sweep_all now window m)

-- The ticker's turn.
unfoldable pub sweep : ℕ → IpRateLimiter → IpRateLimiter
unfolding sweep_all recent
sweep now rl = record rl { hits = sweep_all now rl.window rl.hits }

-- What the guards read of a request; `remote_host` is the host of RemoteAddr, or all of it if it
-- does not split.
pub record Call : Type 0 where
  pub forwarded_for : Text
  pub real_ip : Text
  pub remote_host : Text
  pub is_options : Bool

before_comma : Text → Text
before_comma [] = []
before_comma (c ∷ s) = let rest = before_comma s in if c == b',' then [] else c ∷ rest

unfoldable pub client_ip : Call → Text
unfolding before_comma
client_ip call =
    if not (is_empty call.forwarded_for)
    then before_comma call.forwarded_for
    else if not (is_empty call.real_ip)
    then call.real_ip
    else call.remote_host

-- How withPublicGuards disposes of a request; the headers that it sets are left out.
pub data Passage : Type 0 where
  too_many preflight passed : Passage

unfoldable pub with_public_guards : ℕ → Call → IpRateLimiter → IpRateLimiter × Passage
unfolding allow client_ip
with_public_guards now call rl =
    let (after, allowed) = allow now (client_ip call) rl in
    (after, if not allowed then too_many else if call.is_options then preflight else passed)
