-- ===== src/Consensus/Bft/Agreement.antt =====
-- bft.go and vote.go: two engines that count quorums for different hashes.
use east_validator.Prelude.{
  ℕ, ◌+◌, ◌≤◌, ◌<◌, ◌≡◌, refl, inl, inr, Bool, true, false, List, [], ◌∷◌, Option, none, some,
  arith, length, Bool-cases, ◌&&◌,
}
use east_validator.Prelude.Text.{Text, text_eq, text_eq_iff, text_eq_refl}
use east_validator.Prelude.Maps.{lookup, text_key}
use east_validator.State.Roster.{member}
use east_validator.Mempool.Invariant.{Distinct}
use east_validator.Consensus.Vote.{Vote, quorum_size}
use east_validator.Consensus.Vote.Quorum.{max_faulty, quorum_size_safe_live}
use east_validator.Consensus.Bft.Finalize.{votes_for}
use east_validator.Consensus.Bft.Steps.Counted.{Once}

-- Whether a vote is there and names the hash.
abbrev pub names : Text → Option Vote → Bool
names hash none = false
names hash (some v) = text_eq v.block_hash hash

abbrev one_if : Bool → ℕ
one_if true = 1
one_if false = 0

-- Every voter of the map is one of the validators.
abbrev pub Within : List Text → List (Text × Vote) → Type 0
Within vs [] = Unit
Within vs ((voter, v) ∷ votes) = (member voter vs ≡ true) × Within vs votes

-- How many validators have a vote for the hash.
abbrev voters : Text → List Text → List (Text × Vote) → ℕ
voters hash [] votes = 0
voters hash (v ∷ vs) votes = one_if (names hash (lookup v votes)) + voters hash vs votes

-- How many validators have a vote for `a` in the one map and for `b` in the other.
abbrev pub equivocators : Text → Text → List Text → List (Text × Vote) → List (Text × Vote) → ℕ
equivocators a b [] left right = 0
equivocators a b (v ∷ vs) left right =
    one_if (names a (lookup v left) && names b (lookup v right)) + equivocators a b vs left right

-- A vote of someone else does not change who voted.
voters-skip :
    (hash voter : Text) (v : Vote) (votes : List (Text × Vote)) (vs : List Text)
    → member voter vs ≡ false
    → voters hash vs ((voter, v) ∷ votes) ≡ voters hash vs votes
unfolding lookup member
voters-skip hash voter v votes [] out = refl
voters-skip hash voter v votes (w ∷ vs) out =
    ground (arith, out, text_eq_iff w voter, text_eq_iff voter w, voters-skip hash voter v votes vs)

voters-add :
    (hash voter : Text) (v : Vote) (votes : List (Text × Vote)) (vs : List Text)
    → Distinct vs
    → member voter vs ≡ true
    → lookup voter votes ≡ none
    → voters hash vs ((voter, v) ∷ votes)
      ≡ one_if (text_eq v.block_hash hash) + voters hash vs votes
unfolding lookup member
voters-add hash voter v votes [] d m fresh = ground (arith, m)
voters-add hash voter v votes (w ∷ vs) d m fresh = elim (Bool-cases (text_eq w voter)) [
  | inl e ↦
      let same : w ≡ voter = (text_eq_iff w voter).0 e in
      let out : member voter vs ≡ false = rw (← same) d.0 in
      rw (same, text_eq_refl voter, fresh) (ground (arith, voters-skip hash voter v votes vs out))
  | inr e ↦ ground (
    arith,
    e,
    text_eq_iff w voter,
    text_eq_iff voter w,
    m,
    voters-add hash voter v votes vs d.1 (ground (arith, m, e)) fresh,
  )
]

-- The votes for a hash are the validators that voted for it.
votes_for-voters :
    (hash : Text) (vs : List Text) (votes : List (Text × Vote))
    → Distinct vs
    → Within vs votes
    → Once votes
    → votes_for hash votes ≤ voters hash vs votes
unfolding votes_for
votes_for-voters hash vs [] d w once = ground arith
votes_for-voters hash vs ((voter, v) ∷ votes) d w once = ground (
  arith,
  votes_for-voters hash vs votes d w.1 once.1,
  voters-add hash voter v votes vs d w.0 once.0,
)

voters-overlap :
    (a b : Text) (vs : List Text) (left right : List (Text × Vote))
    → voters a vs left + voters b vs right ≤ length vs + equivocators a b vs left right
voters-overlap a b [] left right = ground arith
voters-overlap a b (v ∷ vs) left right = ground (arith, voters-overlap a b vs left right)

-- Two engines with the same validators, each with at most one vote of each of them, can have a
-- quorum for two hashes only if more validators voted for both than may be faulty.
pub quorums_overlap :
    (a b : Text) (vs : List Text) (left right : List (Text × Vote))
    → 0 < length vs
    → Distinct vs
    → Within vs left × Once left
    → Within vs right × Once right
    → quorum_size (length vs) ≤ votes_for a left
    → quorum_size (length vs) ≤ votes_for b right
    → max_faulty (length vs) < equivocators a b vs left right
quorums_overlap a b vs left right some_validator d l r many_a many_b = omega (
  arith,
  quorum_size_safe_live (length vs) some_validator,
  votes_for-voters a vs left d l.0 l.1,
  votes_for-voters b vs right d r.0 r.1,
  voters-overlap a b vs left right,
)
