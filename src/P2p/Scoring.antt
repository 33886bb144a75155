-- ===== src/P2p/Scoring.antt =====
-- internal/p2p/scoring.go: behaviour scores and temporary bans. Scores are int patterns, times
-- milliseconds. `-50` and `-25` are written as patterns.
pub mod Bans
use east_validator.Prelude.{
  ℕ, ◌+◌, ◌-◌, Bool, true, false, List, [], Option, none, some, ltb, if◌then◌else◌,
}
use east_validator.Prelude.Int.{◌+64◌, lt64, le64, div64, two64}
use east_validator.Prelude.Text.{Text, is_empty}
use east_validator.Prelude.Maps.{lookup, insert, delete, text_key}
use east_validator.State.Accounts.{get_or}

pub record PeerScorer : Type 0 where
  pub score : List (Text × ℕ)
  pub banned : List (Text × ℕ)
  pub ban_below : ℕ
  pub ban_for : ℕ

abbrev pub minus_fifty : ℕ
minus_fifty = two64 - 50

unfoldable pub new_peer_scorer : PeerScorer
new_peer_scorer = record { score = []; banned = []; ban_below = minus_fifty; ban_for = 1800000 }

unfoldable pub score_of : Text → PeerScorer → ℕ
score_of id s = get_or (lookup id s.score) 0

unfoldable pub add : ℕ → Text → ℕ → PeerScorer → PeerScorer
unfolding score_of
add now id delta s =
    let sc = score_of id s +64 delta in
    let scored : PeerScorer = record s { score = insert id sc s.score } in
    if is_empty id
    then s
    else if le64 sc s.ban_below
    then record scored { banned = insert id (now + s.ban_for) s.banned }
    else scored

rehabilitate : Text → PeerScorer → PeerScorer
unfolding score_of
rehabilitate id s =
    let freed : PeerScorer = record s { banned = delete id s.banned } in
    if lt64 (score_of id s) 0
    then record freed { score = insert id (div64 s.ban_below 2) s.score }
    else freed

unfoldable pub answer_banned : ℕ → Text → Option ℕ → PeerScorer → PeerScorer × Bool
unfolding rehabilitate
answer_banned now id none s = (s, false)
answer_banned now id (some until) s =
    if ltb until now then (rehabilitate id s, false) else (s, true)

unfoldable pub is_banned : ℕ → Text → PeerScorer → PeerScorer × Bool
unfolding answer_banned
is_banned now id s = answer_banned now id (lookup id s.banned) s
