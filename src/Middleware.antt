-- ===== src/Middleware.antt =====
-- middleware/chain.go: Chain.
use peakshield.Prelude.{
  ℕ, zero, suc, ◌≡◌, refl, ap, List, [], ◌∷◌, ◌++◌, ◌∙◌, sym, Option, none, some, length,
}

-- middlewares[i]
abbrev get_elem? {ℓ} : {A : Type ℓ} → List A → ℕ → Option A
get_elem? [] i = none
get_elem? (x ∷ xs) zero = some x
get_elem? (x ∷ xs) (suc i) = get_elem? xs i

module _ {ℓ} {H : Type ℓ} where
  -- one round of the loop
  wrap_at : List (H → H) → ℕ → H → H
  wrap_at middlewares i handler = elim (get_elem? middlewares i) [
    | none ↦ handler
    | some m ↦ m handler
  ]

  -- the loop, with the indices below `n` to come
  chain_loop : ℕ → H → List (H → H) → H
  unfolding wrap_at
  chain_loop zero handler middlewares = handler
  chain_loop (suc i) handler middlewares = chain_loop i (wrap_at middlewares i handler) middlewares

  unfoldable pub chain : H → List (H → H) → H
  unfolding chain_loop
  chain handler middlewares = chain_loop (length middlewares) handler middlewares

  -- The first middleware on the outside, the last one next to the handler.
  abbrev nested : H → List (H → H) → H
  nested handler [] = handler
  nested handler (m ∷ ms) = m (nested handler ms)

  chain_loop-suc :
      (n : ℕ) (handler : H) (m : H → H) (ms : List (H → H))
      → chain_loop (suc n) handler (m ∷ ms) ≡ m (chain_loop n handler ms)
  unfolding chain_loop
  chain_loop-suc zero handler m ms = refl
  chain_loop-suc (suc n) handler m ms = chain_loop-suc n (wrap_at ms n handler) m ms

  -- Chain nests the middlewares so that the first of them is the first to see a request.
  pub chain_lem : (handler : H) (ms : List (H → H)) → chain handler ms ≡ nested handler ms
  unfolding chain
  chain_lem handler [] = unfold chain_loop in refl
  chain_lem handler (m ∷ ms) = chain_loop-suc (length ms) handler m ms ∙ ap m (chain_lem handler ms)

  nested-append :
      (handler : H) (ms ks : List (H → H))
      → nested handler (ms ++ ks) ≡ nested (nested handler ks) ms
  nested-append handler [] ks = refl
  nested-append handler (m ∷ ms) ks = ap m (nested-append handler ms ks)

  -- Two chains after one another are one chain.
  chain-append :
      (handler : H) (ms ks : List (H → H)) → chain handler (ms ++ ks) ≡ chain (chain handler ks) ms
  chain-append handler ms ks =
      chain_lem handler (ms ++ ks)
      ∙ nested-append handler ms ks
      ∙ sym (chain_lem (chain handler ks) ms ∙ ap (λ h. nested h ms) (chain_lem handler ks))
