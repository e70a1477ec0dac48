-- ===== src/RateLimiter/Concurrent/Linear/Calls.antt =====
-- ratelimiter/token_bucket.go: how the answer of one call joins those that were given before.
use peakshield.Prelude.{
  ℕ, ◌≡◌, refl, sym, ap, ◌∙◌, Bool, true, false, Option, none, some, List, [], ◌∷◌, ◌++◌,
  append-nil, arith, inl, inr, Bool-cases, ◌==◌, if◌then◌else◌,
}
use peakshield.Prelude.Family.{put}
use peakshield.Prelude.Float.{Float64}
use peakshield.RateLimiter.Concurrent.{Pc, answered, looked}
use peakshield.RateLimiter.Concurrent.Linear.{
  Entry, answer_of, returned, times, times-snoc, or_first,
}

pub same_index : (k i : ℕ) → (k == i) ≡ true → k ≡ i
same_index k i h = ground (arith, h)

pub returned-looked : (float : Float64) (o : Option ℕ) → returned (looked float o) ≡ 0
returned-looked float none = refl
returned-looked float (some p) = refl

pub put-times :
    (pc : ℕ → Pc) (i : ℕ) (c : Pc) (es : List Entry)
    → returned (pc i) ≡ 0
    → returned c ≡ 0
    → ((k : ℕ) → times k es ≡ returned (pc k))
    → (k : ℕ) → times k (es ++ []) ≡ returned (put pc i c k)
put-times pc i c es before now once k = rw (append-nil es) (elim (Bool-cases (k == i)) [
  | inl same ↦
      rw same (omega (arith, now, before, once k, ap (λ x. returned (pc x)) (same_index k i same)))
  | inr other ↦ rw other (once k)
])

pub joined_times :
    (pc : ℕ → Pc) (i k : ℕ) (a : Bool) (es : List Entry) (e : Entry)
    → e.call ≡ i
    → returned (pc i) ≡ 0
    → times k es ≡ returned (pc k)
    → times k (es ++ e ∷ []) ≡ returned (put pc i (answered a) k)
joined_times pc i k a es e mine before once = times-snoc k es e ∙ (elim (Bool-cases (k == i)) [
  | inl same ↦
      let here : k ≡ i = same_index k i same in
      let counted : (e.call == k) ≡ true = ground (arith, mine, here) in
      rw (same, counted) (omega (arith, once, before, ap (λ x. returned (pc x)) here))
  | inr other ↦
      let passed : (e.call == k) ≡ false = ground (arith, mine, other) in
      rw (other, passed) (omega (arith, once))
])

pub or_first-none : (a : Option Bool) → or_first a none ≡ a
or_first-none none = refl
or_first-none (some a) = refl

-- The answer of the call `i` joins those that were given before.
pub joined_answer :
    (k i : ℕ) (a b : Bool) (c : Pc) (prior : Option Bool)
    → answer_of c ≡ prior
    → (k ≡ i → prior ≡ none)
    → b ≡ a
    → answer_of (if k == i then answered a else c)
      ≡ or_first prior (if i == k then some b else none)
joined_answer k i a b c prior old first same = elim (Bool-cases (k == i)) [
  | inl mine ↦
      let e : k ≡ i = same_index k i mine in
      let unanswered = first e in
      let turned : (i == k) ≡ true = ground (arith, e) in
      rw (mine, unanswered, turned) (ap some (sym same))
  | inr other ↦
      let turned : (i == k) ≡ false = ground (arith, other) in
      rw (other, turned) (old ∙ sym (or_first-none prior))
]

pub answer_of-looked : (float : Float64) (o : Option ℕ) → answer_of (looked float o) ≡ none
answer_of-looked float none = refl
answer_of-looked float (some p) = refl
