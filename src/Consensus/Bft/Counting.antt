-- ===== src/Consensus/Bft/Counting.antt =====
-- bft.go: `counts` and what a quorum in it means.
use east_validator.Prelude.{
  ℕ, ◌+◌, ◌≤◌, ◌≡◌, refl, inl, inr, Bool, false, ◌&&◌, List, [], ◌∷◌, some, arith, length,
  Bool-cases, All,
}
use east_validator.Prelude.Text.{Text, text_eq, text_eq_iff, text_eq_refl, is_empty}
use east_validator.Prelude.Maps.{lookup, insert, lookup-insert, text_key}
use east_validator.State.Accounts.{get_or}
use east_validator.Consensus.Vote.{Vote, quorum_size}
use east_validator.Consensus.Bft.Finalize.{tally, count_of, find_quorum, votes_for}

-- The counter of a hash is the number of votes that name it, whatever the order of the votes.
pub count_of-tally :
    (hash : Text) (votes : List (Text × Vote)) → count_of hash (tally votes) ≡ votes_for hash votes
unfolding tally count_of votes_for lookup
count_of-tally hash [] = refl
count_of-tally hash ((voter, v) ∷ votes) = ground (
  arith,
  text_eq_iff v.block_hash hash,
  count_of-tally hash votes,
  lookup-insert v.block_hash hash (get_or (lookup v.block_hash (tally votes)) 0 + 1) (tally votes),
)

-- Two different hashes share the votes between them.
votes_for_disjoint :
    (a b : Text) (votes : List (Text × Vote))
    → text_eq a b ≡ false
    → votes_for a votes + votes_for b votes ≤ length votes
unfolding votes_for
votes_for_disjoint a b [] ne = ground arith
votes_for_disjoint a b ((voter, v) ∷ votes) ne = ground (
  arith,
  votes_for_disjoint a b votes ne,
  text_eq_iff v.block_hash a,
  text_eq_iff v.block_hash b,
  text_eq_iff a b,
)

-- No entry claims more votes than there are.
Honest : List (Text × Vote) → Text × ℕ → Type 0
Honest votes e = e.1 ≤ votes_for e.0 votes

All-insert :
    (votes : List (Text × Vote)) (hash : Text) (c : ℕ) (counts : List (Text × ℕ))
    → c ≤ votes_for hash votes
    → All (Honest votes) counts
    → All (Honest votes) (insert hash c counts)
unfolding insert Honest
All-insert votes hash c [] le h = (le, tt)
All-insert votes hash c ((k, d) ∷ counts) le h = elim (Bool-cases (text_eq k hash)) [
  | inl e ↦ rw e (rw ((text_eq_iff k hash).0 e) le, h.1)
  | inr e ↦ rw e (h.0, All-insert votes hash c counts le h.1)
]

Honest-more :
    (e : Text × Vote) (votes : List (Text × Vote)) (counts : List (Text × ℕ))
    → All (Honest votes) counts
    → All (Honest (e ∷ votes)) counts
unfolding Honest votes_for
Honest-more e votes [] h = tt
Honest-more (voter, v) votes ((k, d) ∷ counts) h =
    (ground (arith, h.0), Honest-more (voter, v) votes counts h.1)

own_count :
    (voter : Text) (v : Vote) (votes : List (Text × Vote))
    → get_or (lookup v.block_hash (tally votes)) 0 + 1 ≤ votes_for v.block_hash ((voter, v) ∷ votes)
unfolding votes_for count_of
own_count voter v votes =
    ground (arith, text_eq_refl v.block_hash, count_of-tally v.block_hash votes)

tally-Honest : (votes : List (Text × Vote)) → All (Honest votes) (tally votes)
unfolding tally
tally-Honest [] = tt
tally-Honest ((voter, v) ∷ votes) =
    All-insert ((voter, v) ∷ votes) v.block_hash (get_or (lookup v.block_hash (tally votes)) 0 + 1)
      (tally votes) (own_count voter v votes)
      (Honest-more (voter, v) votes (tally votes) (tally-Honest votes))

find_quorum-Honest :
    (named : Bool) (q : ℕ) (hash : Text) (votes : List (Text × Vote)) (counts : List (Text × ℕ))
    → All (Honest votes) counts
    → find_quorum named q counts ≡ some hash
    → (q ≤ votes_for hash votes) × ((named && is_empty hash) ≡ false)
unfolding find_quorum Honest
find_quorum-Honest named q hash votes [] h found = ground (arith, found)
find_quorum-Honest named q hash votes ((k, c) ∷ counts) h found =
    ground (arith, found, h.0, find_quorum-Honest named q hash votes counts h.1)

-- The hash that the loop over the counters stops at has a quorum of the votes, and is not nil
-- when a named one is asked for.
pub find_quorum_sound :
    (named : Bool) (q : ℕ) (hash : Text) (votes : List (Text × Vote))
    → find_quorum named q (tally votes) ≡ some hash
    → (q ≤ votes_for hash votes) × ((named && is_empty hash) ≡ false)
find_quorum_sound named q hash votes found =
    find_quorum-Honest named q hash votes (tally votes) (tally-Honest votes) found

-- With at most `n` votes among `n` validators, a hash that has a quorum is the hash that the loop
-- over the counters stops at, in whatever order the map is walked.
pub quorum_unique :
    (named : Bool) (n : ℕ) (a b : Text) (votes : List (Text × Vote))
    → length votes ≤ n
    → 1 ≤ n
    → find_quorum named (quorum_size n) (tally votes) ≡ some a
    → quorum_size n ≤ votes_for b votes
    → a ≡ b
unfolding quorum_size
quorum_unique named n a b votes few pos found many = ground (
  arith,
  find_quorum_sound named (quorum_size n) a votes found,
  votes_for_disjoint a b votes,
  text_eq_iff a b,
)
