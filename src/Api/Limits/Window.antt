-- ===== src/Api/Limits/Window.antt =====
-- internal/api/middleware.go: at most `max` requests of an address pass within a window.
use east_validator.Prelude.{
  ℕ, suc, ◌≤◌, ◌≡◌, refl, sym, ap, ◌∙◌, inl, inr, true, false, List, [], ◌∷◌, ◌++◌, append-nil,
  append_assoc, ◌&&◌, arith, Bool-cases, length, leb, if◌then◌else◌,
}
use mathlib.Core.Path.{subst}
use east_validator.Prelude.Text.{text_eq_iff, Text, text_eq}
use east_validator.Prelude.Maps.{lookup, insert, lookup-insert, text_key}
use east_validator.State.Accounts.{get_or}
use east_validator.Api.Limits.{IpRateLimiter, is_recent, recent, allow}

-- The times that a list of requests passes at, for one address, oldest first.
abbrev pub times : Text → IpRateLimiter → List ℕ
times ip rl = get_or (lookup ip rl.hits) []

-- The times at which `ip` passes in a run of requests, each at a time and from an address.
unfoldable pub passes : Text → List (ℕ × Text) → IpRateLimiter → List ℕ
unfolding allow text_eq
passes ip [] rl = []
passes ip ((now, from) ∷ calls) rl =
    let (after, allowed) = allow now from rl in
    let rest = passes ip calls after in if text_eq from ip && allowed then now ∷ rest else rest

-- The clock does not run backwards, from `clock` over the requests to `final`.
unfoldable pub Ordered : ℕ → List (ℕ × Text) → ℕ → Type 0
Ordered clock [] final = clock ≤ final
Ordered clock ((now, from) ∷ calls) final = (clock ≤ now) × Ordered now calls final

no_longer :
    (now later w t : ℕ) → now ≤ later → is_recent now w t ≡ false → is_recent later w t ≡ false
no_longer now later w t order e = ground (arith, order, e)

length-append_one : (ts : List ℕ) (t : ℕ) → length (ts ++ t ∷ []) ≡ suc (length ts)
length-append_one [] t = omega arith
length-append_one (u ∷ ts) t = omega (arith, length-append_one ts t)

recent-append :
    (now w : ℕ) (a b : List ℕ) → recent now w (a ++ b) ≡ recent now w a ++ recent now w b
unfolding recent
recent-append now w [] b = refl
recent-append now w (t ∷ a) b = elim (Bool-cases (is_recent now w t)) [
  | inl e ↦ rw e (ap (◌∷◌ t) (recent-append now w a b))
  | inr e ↦ rw e (recent-append now w a b)
]

recent-recent :
    (now later w : ℕ) (ts : List ℕ)
    → now ≤ later
    → recent later w (recent now w ts) ≡ recent later w ts
unfolding recent
recent-recent now later w [] order = refl
recent-recent now later w (t ∷ ts) order = elim (Bool-cases (is_recent now w t)) [
  | inl e ↦ rw e (
      ap (λ rest. if is_recent later w t then t ∷ rest else rest)
        (recent-recent now later w ts order))
  | inr e ↦ rw (e, no_longer now later w t order e) (recent-recent now later w ts order)
]

length-recent : (now w : ℕ) (ts : List ℕ) → length (recent now w ts) ≤ length ts
unfolding recent
length-recent now w [] = ground arith
length-recent now w (t ∷ ts) = ground (arith, length-recent now w ts)

-- The limiter's times of an address and all the passes of the address agree on what is recent.
record Agrees (clock w max : ℕ) (kept past : List ℕ) : Type 0 where
  same : (now : ℕ) → clock ≤ now → recent now w kept ≡ recent now w past
  few : length kept ≤ max

Agrees-later :
    (clock now w max : ℕ) (kept past : List ℕ)
    → clock ≤ now
    → Agrees clock w max kept past
    → Agrees now w max kept past
Agrees-later clock now w max kept past order agrees = record {
  same = λ later below. agrees.same later (omega (arith, order, below));
  few = agrees.few;
}

Agrees-recent :
    (clock now w max : ℕ) (kept past : List ℕ)
    → clock ≤ now
    → Agrees clock w max kept past
    → Agrees now w max (recent now w kept) past
Agrees-recent clock now w max kept past order agrees = record {
  same = λ later below.
      recent-recent now later w kept below ∙ agrees.same later (omega (arith, order, below));
  few = omega (arith, length-recent now w kept, agrees.few);
}

Agrees-pass :
    (now w max : ℕ) (kept past : List ℕ)
    → suc (length kept) ≤ max
    → Agrees now w max kept past
    → Agrees now w max (kept ++ now ∷ []) (past ++ now ∷ [])
Agrees-pass now w max kept past room agrees = record {
  same = λ later below.
      recent-append later w kept (now ∷ [])
      ∙ (ap (λ ts. ts ++ recent later w (now ∷ [])) (agrees.same later below)
          ∙ sym (recent-append later w past (now ∷ [])));
  few = omega (arith, length-append_one kept now, room);
}

times-insert :
    (a b : Text) (ts : List ℕ) (rl : IpRateLimiter)
    → times b (record rl { hits = insert a ts rl.hits }) ≡ (if text_eq a b then ts else times b rl)
times-insert a b ts rl =
    ap (λ o. get_or o []) (lookup-insert a b ts rl.hits)
    ∙ elim (Bool-cases (text_eq a b)) [ inl e ↦ rw e refl | inr e ↦ rw e refl ]

-- The limiter after a call from `from` that leaves it the times `ts`.
abbrev noted : Text → List ℕ → IpRateLimiter → IpRateLimiter
noted from ts rl = record rl { hits = insert from ts rl.hits }

Agrees-other :
    (from ip : Text) (ts : List ℕ) (rl : IpRateLimiter) (now : ℕ) (past : List ℕ)
    → text_eq from ip ≡ false
    → Agrees now rl.window rl.max (times ip rl) past
    → Agrees now rl.window rl.max (times ip (noted from ts rl)) past
Agrees-other from ip ts rl now past other agrees =
    subst (λ (kept : List ℕ). Agrees now rl.window rl.max kept past)
      (sym (times-insert from ip ts rl ∙ ap (λ c. if c then ts else times ip rl) other)) agrees

Agrees-same :
    (from ip : Text) (ts : List ℕ) (rl : IpRateLimiter) (now : ℕ) (past : List ℕ)
    → text_eq from ip ≡ true
    → Agrees now rl.window rl.max ts past
    → Agrees now rl.window rl.max (times ip (noted from ts rl)) past
Agrees-same from ip ts rl now past own agrees =
    subst (λ (kept : List ℕ). Agrees now rl.window rl.max kept past)
      (sym (times-insert from ip ts rl ∙ ap (λ c. if c then ts else times ip rl) own)) agrees

passes_few :
    (ip : Text) (calls : List (ℕ × Text)) (clock final : ℕ) (rl : IpRateLimiter) (past : List ℕ)
    → Ordered clock calls final
    → Agrees clock rl.window rl.max (times ip rl) past
    → length (recent final rl.window (past ++ passes ip calls rl)) ≤ rl.max
unfolding passes Ordered
passes_few ip [] clock final rl past order agrees =
    rw (append-nil past, sym (agrees.same final order))
      (omega (arith, length-recent final rl.window (times ip rl), agrees.few))
passes_few ip ((now, from) ∷ calls) clock final rl past order agrees =
    let kept = recent now rl.window (times from rl) in
    let later = Agrees-later clock now rl.window rl.max (times ip rl) past order.0 agrees in
    elim (Bool-cases (text_eq from ip)) [
      | inr other ↦ elim (Bool-cases (leb rl.max (length kept))) [
        | inl full ↦
            rw (other, full)
              (passes_few ip calls now final (noted from kept rl) past order.1
                (Agrees-other from ip kept rl now past other later))
        | inr room ↦
            let ts = kept ++ now ∷ [] in
            rw (other, room)
              (passes_few ip calls now final (noted from ts rl) past order.1
                (Agrees-other from ip ts rl now past other later))
      ]
      | inl own ↦
          let own_kept = Agrees-recent clock now rl.window rl.max (times from rl) past order.0 (
            subst (λ (a : Text). Agrees clock rl.window rl.max (times a rl) past)
              (sym ((text_eq_iff from ip).0 own)) agrees) in
          elim (Bool-cases (leb rl.max (length kept))) [
            | inl full ↦
                rw (own, full)
                  (passes_few ip calls now final (noted from kept rl) past order.1
                    (Agrees-same from ip kept rl now past own own_kept))
            | inr room ↦
                let ts = kept ++ now ∷ [] in
                let rest = passes ip calls (noted from ts rl) in
                rw (own, room)
                  (subst (λ (all : List ℕ). length (recent final rl.window all) ≤ rl.max)
                    (append_assoc past (now ∷ []) rest)
                    (passes_few ip calls now final (noted from ts rl) (past ++ now ∷ []) order.1 (
                      Agrees-same from ip ts rl now (past ++ now ∷ []) own (
                        Agrees-pass now rl.window rl.max kept past (ground (arith, room))
                          own_kept))))
          ]
    ]

-- At any time, of the requests of an address that passed since the limiter was made at most
-- `max` lie in the window that ends then, whatever other addresses ask: the clock does not run
-- backwards, and no time is kept at the start.
pub allow_few :
    (ip : Text) (calls : List (ℕ × Text)) (clock final max window : ℕ)
    → Ordered clock calls final
    → length
        (recent final window (passes ip calls (record { hits = []; max = max; window = window })))
      ≤ max
unfolding lookup recent
allow_few ip calls clock final max window order =
    passes_few ip calls clock final (record { hits = []; max = max; window = window }) [] order
      (record { same = λ now below. refl; few = omega arith })
