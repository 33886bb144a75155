-- ===== src/P2p/Scoring/Bans.antt =====
-- scoring.go: when a peer is banned.
use east_validator.Prelude.{ℕ, ◌+◌, ◌≤◌, ◌≡◌, true, false, arith}
use east_validator.Prelude.Int.{◌+64◌, le64}
use east_validator.Prelude.Text.{Text, is_empty}
use east_validator.Prelude.Maps.{lookup-insert_self, text_key}
use east_validator.P2p.Scoring.{PeerScorer, score_of, add, is_banned}

-- A named peer whose score falls to the threshold or below is banned from then on until the ban's
-- time is over.
pub add-is_banned :
    (now later : ℕ) (id : Text) (delta : ℕ) (s : PeerScorer)
    → is_empty id ≡ false
    → le64 (score_of id s +64 delta) s.ban_below ≡ true
    → later ≤ now + s.ban_for
    → (is_banned later id (add now id delta s)).1 ≡ true
unfolding add is_banned
add-is_banned now later id delta s named low before =
    rw (named, low, lookup-insert_self id (now + s.ban_for) s.banned) (ground arith)
