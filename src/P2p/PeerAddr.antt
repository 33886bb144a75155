-- ===== src/P2p/PeerAddr.antt =====
-- internal/p2p/peeraddr.go and normalizeAnnounce of node.go: the spellings of a peer's address. What
-- package net does is a parameter: splitting a host and a port, and knowing an IP address.
use east_validator.Prelude.{
  ℕ, Bool, false, ◌||◌, List, [], ◌∷◌, ◌++◌, Option, none, some, ◌==◌, if◌then◌else◌,
}
use east_validator.Prelude.Text.{Text, codes, trim_space, is_empty}
use east_validator.Errors.{Result, ok, err, invalid_peer_addr}

pub record Net : Type 0 where
  pub split_host_port : Text → Option (Text × Text)
  pub is_ip : Text → Bool

-- What is before and after the last `@`.
abbrev put_first : ℕ → Text → Option (Text × Text) → Option (Text × Text)
put_first c s (some (before, after)) = some (c ∷ before, after)
put_first c s none = if c == b'@' then some ([], s) else none

unfoldable pub last_at : Text → Option (Text × Text)
last_at [] = none
last_at (c ∷ s) = put_first c s (last_at s)

-- strings.Split on commas.
abbrev onto_first : ℕ → List Text → List Text
onto_first c [] = (c ∷ []) ∷ []
onto_first c (part ∷ parts) = (c ∷ part) ∷ parts

unfoldable pub split_commas : Text → List Text
split_commas [] = [] ∷ []
split_commas (c ∷ s) =
    let rest = split_commas s in if c == b',' then [] ∷ rest else onto_first c rest

abbrev is_multiaddr : Text → Bool
is_multiaddr [] = false
is_multiaddr (c ∷ s) = c == b'/'

module _ (net : Net) where
  abbrev with_default_port : Text → Option (Text × Text) → Text × Text
  with_default_port host_port none = (host_port, codes "26656")
  with_default_port host_port (some split) = split

  abbrev multiaddr : Text → Text → Text → Text
  multiaddr id host port =
      (if net.is_ip host then codes "/ip4/" else codes "/dns4/")
      ++ (host ++ (codes "/tcp/" ++ (port ++ (codes "/p2p/" ++ id))))

  abbrev from_parts : Option (Text × Text) → Result Text
  from_parts none = err invalid_peer_addr
  from_parts (some (before, after)) =
      let id = trim_space before in
      let host_port = trim_space after in
      let (host, port) = with_default_port host_port (net.split_host_port host_port) in
      if is_empty before || is_empty after
      then err invalid_peer_addr
      else if is_empty id || is_empty host
      then err invalid_peer_addr
      else ok (multiaddr id host port)

  unfoldable pub normalize_peer_addr : Text → Result Text
  unfolding last_at
  normalize_peer_addr text =
      let raw = trim_space text in
      if is_empty raw
      then err invalid_peer_addr
      else if is_multiaddr raw
      then ok raw
      else from_parts (last_at raw)

  -- An entry that does not parse is kept as it is.
  abbrev or_raw : Text → Result Text → Text
  or_raw raw (ok addr) = addr
  or_raw raw (err e) = raw

  normalize_all : List Text → List Text
  unfolding normalize_peer_addr
  normalize_all [] = []
  normalize_all (part ∷ parts) =
      let p = trim_space part in
      let rest = normalize_all parts in
      if is_empty p then rest else or_raw p (normalize_peer_addr p) ∷ rest

  unfoldable pub normalize_peer_addr_list : Text → List Text
  unfolding normalize_all split_commas
  normalize_peer_addr_list raw = normalize_all (split_commas raw)

  unfoldable pub normalize_announce : Text → Text
  unfolding normalize_peer_addr
  normalize_announce raw = if is_empty raw then [] else or_raw raw (normalize_peer_addr raw)
