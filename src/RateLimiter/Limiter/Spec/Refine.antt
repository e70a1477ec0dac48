-- ===== src/RateLimiter/Limiter/Spec/Refine.antt =====
-- ratelimiter/token_bucket.go: a Limiter does what a plain table of buckets would do.
use peakshield.RateLimiter.Limiter.Spec.{Event, request, collect, spec_allow, spec_gc, run, replay}
use peakshield.Prelude.{◌≡◌, refl, sym, ap, ◌∙◌, subst, Bool, none, List, [], ◌∷◌}
use peakshield.Prelude.Float.{Float64}
use peakshield.RateLimiter.Bucket.{Rates}
use peakshield.RateLimiter.Bucket.Bounds.{Sound}
use peakshield.RateLimiter.Limiter.{Limiter, new, lookup, find, allow, run_gc}
use peakshield.RateLimiter.Limiter.Laws.{Inv, bucket_of, allow-Inv, new-Inv}
use peakshield.RateLimiter.Limiter.Spec.Step.{allow_step, run_gc_step, run_gc-Inv, rates-run_gc}

prepend : {a b : Bool} {xs ys : List Bool} → a ≡ b → xs ≡ ys → a ∷ xs ≡ b ∷ ys
prepend e f = cc

module _ (float : Float64) where
  run_refines :
      (l : Limiter float) (es : List Event)
      → Inv float l
      → Sound float l.rates
      → (bucket_of float (run float l es).0 ≡ (replay float l.rates (bucket_of float l) es).0)
        × ((run float l es).1 ≡ (replay float l.rates (bucket_of float l) es).1)
  unfolding run replay
  run_refines l [] inv sound = (refl, refl)
  run_refines l (request ip created now ∷ es) inv sound =
      let (table, answer, rates) = allow_step float l ip created now inv sound in
      let (end, answers) =
        run_refines (allow float l ip created now).0 es (allow-Inv float l ip created now sound inv)
          (subst (Sound float) (sym rates) sound) in
      let same : replay float (allow float l ip created now).0.rates
            (bucket_of float (allow float l ip created now).0) es
          ≡ replay float l.rates (spec_allow float l.rates (bucket_of float l) ip created now).0
              es =
        ap (λ r. replay float r (bucket_of float (allow float l ip created now).0) es) rates
        ∙ ap (λ m. replay float l.rates m es) table in
      (end ∙ ap (λ x. x.0) same, prepend answer (answers ∙ ap (λ x. x.1) same))
  run_refines l (collect now ∷ es) inv sound =
      let (end, answers) =
        run_refines (run_gc float l now) es (run_gc-Inv float l now inv)
          (subst (Sound float) (sym (rates-run_gc float l now)) sound) in
      let same : replay float (run_gc float l now).rates (bucket_of float (run_gc float l now)) es
          ≡ replay float l.rates (spec_gc float (bucket_of float l) now) es =
        ap (λ r. replay float r (bucket_of float (run_gc float l now)) es)
          (rates-run_gc float l now)
        ∙ ap (λ m. replay float l.rates m es) (run_gc_step float l now) in
      (end ∙ ap (λ x. x.0) same, answers ∙ ap (λ x. x.1) same)

  bucket_of-new : (r : Rates float) → bucket_of float (new float r) ≡ (λ ip. none)
  unfolding new lookup find
  bucket_of-new r = refl

  -- A limiter with rates that are numbers answers each call of Allow, in any sequence of calls and of
  -- runs of the collector at any times, as a plain table from addresses to buckets does, in which a
  -- call takes its token from the address's bucket or from a full one, and the collector forgets what
  -- was last used before its cutoff. At the end it holds the buckets of that table and no others.
  pub limiter_refines :
      (r : Rates float) (es : List Event)
      → Sound float r
      → (bucket_of float (run float (new float r) es).0 ≡ (replay float r (λ ip. none) es).0)
        × ((run float (new float r) es).1 ≡ (replay float r (λ ip. none) es).1)
  unfolding new
  limiter_refines r es sound =
      let (end, answers) = run_refines (new float r) es (new-Inv float r sound) sound in
      (
        end ∙ ap (λ m. (replay float r m es).0) (bucket_of-new r),
        answers ∙ ap (λ m. (replay float r m es).1) (bucket_of-new r),
      )
