-- ===== src/State/Roster/Jail.antt =====
-- internal/state/validators.go: what the jail answers.
use east_validator.Prelude.{
  ℕ, ◌+◌, ◌≤◌, ◌<◌, ◌≡◌, refl, true, false, Option, none, some, arith, Bool-cases, inl, inr,
  if◌then◌else◌,
}
use east_validator.Prelude.Int.{two63, lt64, ◌+64◌}
use east_validator.Prelude.Text.{Text, to_lower, is_empty}
use east_validator.Prelude.Maps.{lookup, lookup-insert_self, text_key}
use east_validator.State.{Store, JailRecord, normalize_addr}
use east_validator.State.Roster.{jail_validator, is_jailed}
use east_validator.Errors.{ok, or_else}

-- The address that a record keeps.
abbrev pub found_address : Option JailRecord → Option Text
found_address none = none
found_address (some rec) = some rec.address

-- Jailing stores one record, under the address in lower case.
jail_validator_stored :
    (now : ℕ) (address reason evidence : Text) (duration : ℕ) (s s' : Store)
    → jail_validator now address reason evidence duration s ≡ ok s'
    → lookup (to_lower (normalize_addr address)) s'.jail
      ≡ some (record {
        address = normalize_addr address;
        reason = reason;
        jailed_at = now;
        until = if lt64 0 duration then now +64 duration else 0;
        evidence = evidence;
      })
unfolding jail_validator
jail_validator_stored now address reason evidence duration s s' jailed =
    elim (Bool-cases (is_empty (normalize_addr address))) [
      | inl e ↦ ground (arith, jailed, e)
      | inr e ↦ ground (
        arith,
        jailed,
        e,
        lookup-insert_self (to_lower (normalize_addr address))
            (record {
              address = normalize_addr address;
              reason = reason;
              jailed_at = now;
              until = if lt64 0 duration then now +64 duration else 0;
              evidence = evidence;
            })
            s.jail,
      )
    ]

-- A validator that has been jailed for a positive time is jailed at every moment until the time
-- is over, whichever spelling of the address is asked about, as long as the clock does not wrap.
pub jailed_until :
    (now later : ℕ) (address asked reason evidence : Text) (duration : ℕ) (s s' : Store)
    → jail_validator now address reason evidence duration s ≡ ok s'
    → normalize_addr asked ≡ normalize_addr address
    → lt64 0 duration ≡ true
    → now + duration < two63
    → later ≤ now + duration
    → found_address (is_jailed later asked s').1 ≡ some (normalize_addr address)
unfolding is_jailed
jailed_until now later address asked reason evidence duration s s' jailed same pos fits before =
    rw same (
      rw (jail_validator_stored now address reason evidence duration s s' jailed)
        (rw pos (ground arith)))

-- Jailing a named address succeeds.
pub jail_validator_ok :
    (now : ℕ) (address reason evidence : Text) (duration : ℕ) (s : Store)
    → is_empty (normalize_addr address) ≡ false
    → jail_validator now address reason evidence duration s
      ≡ ok (or_else (jail_validator now address reason evidence duration s) s)
unfolding jail_validator
jail_validator_ok now address reason evidence duration s named = rw named refl
