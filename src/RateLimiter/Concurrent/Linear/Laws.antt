-- ===== src/RateLimiter/Concurrent/Linear/Laws.antt =====
-- ratelimiter/token_bucket.go: racing calls of Allow have the answers of the log.
use peakshield.Prelude.{
  ℕ, ◌≡◌, refl, sym, ap, subst, ◌∙◌, false, none, some, List, [], ◌++◌, append-nil, arith, inl, inr,
  Bool-cases, ◌==◌,
}
use peakshield.Prelude.Int.{ℤ}
use peakshield.Prelude.Family.{put}
use peakshield.Prelude.Bytes.{Bytes, eqb, eqb_iff}
use peakshield.Prelude.Float.{Float64}
use peakshield.RateLimiter.Bucket.{Rates, consume}
use peakshield.RateLimiter.Bucket.Bounds.{Sound}
use peakshield.RateLimiter.Limiter.{Limiter, new, lookup, find, get_or_create, consume_at}
use peakshield.RateLimiter.Limiter.Laws.{Inv, bucket_of}
use peakshield.RateLimiter.Limiter.Spec.{Clients, bucket_for, update}
use peakshield.RateLimiter.Limiter.Spec.Step.{
  bucket_of-some, bucket_of-consume_at, bucket_of-get_or_create,
}
use peakshield.RateLimiter.Concurrent.{
  Pc, looking, creating, consuming, answered, System, init, looked, attempt, Reach, start, serve,
  sweep,
}
use peakshield.RateLimiter.Concurrent.Laws.{some_subst, step_inversion, Reach-Held}
use peakshield.RateLimiter.Concurrent.Single.{Reach-Current}
use peakshield.RateLimiter.Concurrent.Linear.{
  Entry, answer_of, returned, times, called, table_after, answer_in, entries, log, table_after-snoc,
  answer_in-snoc,
}
use peakshield.RateLimiter.Concurrent.Linear.Calls.{
  same_index, returned-looked, put-times, joined_times, joined_answer, answer_of-looked,
}
use peakshield.RateLimiter.Concurrent.Linear.Behind.{
  Behind, Behind-bucket_for, Behind-created, Behind-if,
}

module _ (float : Float64) (ips : ℕ → Bytes) (r : Rates float) where
  abbrev pub empty : Clients float
  empty ip = none

  -- The calls have the answers of the log float ips r, and the limiter the buckets of its table.
  record Agrees (l : Limiter float) (pc : ℕ → Pc) (es : List Entry) : Type 0 where
    answers : (i : ℕ) → answer_of (pc i) ≡ answer_in float ips r empty es i
    once : (i : ℕ) → times i es ≡ returned (pc i)
    table : (j : Bytes) → Behind float r (table_after float ips r empty es j) (bucket_of float l j)

  put-answers :
      (pc : ℕ → Pc) (i : ℕ) (c : Pc) (es : List Entry)
      → answer_of (pc i) ≡ none
      → answer_of c ≡ none
      → ((k : ℕ) → answer_of (pc k) ≡ answer_in float ips r empty es k)
      → (k : ℕ) → answer_of (put pc i c k) ≡ answer_in float ips r empty (es ++ []) k
  put-answers pc i c es before now answers k = rw (append-nil es) (elim (Bool-cases (k == i)) [
    | inl same ↦
        rw same
          (now ∙ sym before ∙ ap (λ x. answer_of (pc x)) (sym (same_index k i same)) ∙ answers k)
    | inr other ↦ rw other (answers k)
  ])

  looked-Agrees :
      (l : Limiter float) (pc : ℕ → Pc) (i : ℕ) (es : List Entry)
      → pc i ≡ looking
      → Agrees l pc es
      → Agrees l (put pc i (looked float (lookup float l (ips i)))) (es ++ [])
  looked-Agrees l pc i es at agrees = record {
    answers =
        put-answers pc i _ es (ap answer_of at) (answer_of-looked float (lookup float l (ips i)))
          agrees.answers;
    once =
        put-times pc i _ es (ap returned at) (returned-looked float (lookup float l (ips i)))
          agrees.once;
    table = rw (append-nil es) agrees.table;
  }

  created-Agrees :
      (l : Limiter float) (pc : ℕ → Pc) (i : ℕ) (now : ℤ) (es : List Entry)
      → Inv float l
      → l.rates ≡ r
      → pc i ≡ creating
      → Agrees l pc es
      → Agrees
          (get_or_create float l (ips i) now).0
          (put pc i (consuming (get_or_create float l (ips i) now).1))
          (es ++ [])
  created-Agrees l pc i now es inv rates at agrees = record {
    answers = put-answers pc i _ es (ap answer_of at) refl agrees.answers;
    once = put-times pc i _ es (ap returned at) refl agrees.once;
    table = λ j. rw (append-nil es) (
        subst (Behind float r (table_after float ips r empty es j))
          (sym (bucket_of-get_or_create float l (ips i) j now inv))
          (elim (Bool-cases (eqb (ips i) j)) [
            | inl mine ↦ rw mine (
                subst (λ x. Behind float r (table_after float ips r empty es j) (some x))
                  (ap (λ x. bucket_for float r x now)
                      (ap (bucket_of float l) (sym ((eqb_iff (ips i) j).0 mine)))
                    ∙ ap (λ x. bucket_for float x (bucket_of float l (ips i)) now) (sym rates))
                  (Behind-created float r (table_after float ips r empty es j) (bucket_of float l j)
                    now (agrees.table j)))
            | inr other ↦ rw other (agrees.table j)
          ]));
  }

  -- consume gives the answer of the table, and leaves the table's bucket.
  spent-Agrees :
      (l : Limiter float) (pc : ℕ → Pc) (i p : ℕ) (now : ℤ) (es : List Entry)
      → Inv float l
      → l.rates ≡ r
      → lookup float l (ips i) ≡ some p
      → pc i ≡ consuming p
      → Agrees l pc es
      → Agrees
          (consume_at float l p now).0
          (put pc i (answered (consume_at float l p now).1))
          (es ++ entries float ips r l i now (consuming p))
  unfolding consume_at
  spent-Agrees l pc i p now es inv rates found at agrees =
      let e : Entry = record { call = i; created = (l.heap p).last_refill_nano; now = now } in
      let known = Behind-bucket_for float r (table_after float ips r empty es (ips i)) (l.heap p) (
        subst (Behind float r (table_after float ips r empty es (ips i)))
          (bucket_of-some float l (ips i) found) (agrees.table (ips i))) in
      let same : called float ips r (table_after float ips r empty es) e ≡ (
        update float (table_after float ips r empty es) (ips i)
            (consume float l.rates now (l.heap p)).0,
        (consume float l.rates now (l.heap p)).1,
      ) =
        ap
          (λ b. (
            update float (table_after float ips r empty es) (ips i) (consume float r now b).0,
            (consume float r now b).1,
          ))
          known
        ∙ ap
            (λ x. (
              update float (table_after float ips r empty es) (ips i)
                  (consume float x now (l.heap p)).0,
              (consume float x now (l.heap p)).1,
            ))
            (sym rates) in
      record {
        answers = λ k.
            joined_answer k i (consume_at float l p now).1
              (called float ips r (table_after float ips r empty es) e).1 (pc k)
              (answer_in float ips r empty es k) (agrees.answers k)
              (λ mine. sym (agrees.answers k) ∙ ap (λ x. answer_of (pc x)) mine ∙ ap answer_of at)
              (ap (λ x. x.1) same)
            ∙ sym (answer_in-snoc float ips r empty es e k);
        once = λ k.
            joined_times pc i k (consume_at float l p now).1 es e refl (ap returned at)
              (agrees.once k);
        table = λ j.
            subst (λ m. Behind float r m (bucket_of float (consume_at float l p now).0 j))
              (sym (ap (λ m. m j) (table_after-snoc float ips r empty es e ∙ ap (λ x. x.0) same)))
              (subst
                (Behind float r (
                  update float (table_after float ips r empty es) (ips i)
                    (consume float l.rates now (l.heap p)).0 j))
                (sym (bucket_of-consume_at float l (ips i) j p now inv found))
                (Behind-if float r (eqb (ips i) j) (consume float l.rates now (l.heap p)).0
                  (table_after float ips r empty es j) (bucket_of float l j) (agrees.table j)));
      }

  attempt-Agrees :
      (l : Limiter float) (pc : ℕ → Pc) (i : ℕ) (now : ℤ) (es : List Entry) (c : Pc)
      {o : Limiter float × Pc}
      → Inv float l
      → l.rates ≡ r
      → pc i ≡ c
      → ((p : ℕ) → c ≡ consuming p → lookup float l (ips i) ≡ some p)
      → Agrees l pc es
      → attempt float l (ips i) now c ≡ some o
      → Agrees o.0 (put pc i o.1) (es ++ entries float ips r l i now c)
  unfolding attempt
  attempt-Agrees l pc i now es looking inv rates at held agrees h =
      some_subst (λ o. Agrees o.0 (put pc i o.1) (es ++ [])) h (looked-Agrees l pc i es at agrees)
  attempt-Agrees l pc i now es creating inv rates at held agrees h =
      some_subst (λ o. Agrees o.0 (put pc i o.1) (es ++ [])) h
        (created-Agrees l pc i now es inv rates at agrees)
  attempt-Agrees l pc i now es (consuming p) inv rates at held agrees h =
      some_subst (λ o. Agrees o.0 (put pc i o.1) (es ++ entries float ips r l i now (consuming p)))
        h (spent-Agrees l pc i p now es inv rates (held p refl) at agrees)
  attempt-Agrees l pc i now es (answered a) inv rates at held agrees h = absurd (ground (arith, h))

  Reach-Agrees :
      Sound float r
      → {s : System float} (reach : Reach float ips r false s)
      → Agrees s.limiter s.pc (log float ips r reach)
  unfolding log init new lookup find
  Reach-Agrees sound (start e) =
      rw e (record { answers = λ i. refl; once = λ i. refl; table = λ j. tt })
  Reach-Agrees sound (serve {s} i now h reach) =
      let (o, moved, e) = step_inversion float ips i now s h in
      let (rates, held) = Reach-Held float ips sound reach in
      subst
        (λ t.
          Agrees t.limiter t.pc
            (log float ips r reach ++ entries float ips r s.limiter i now (s.pc i)))
        (sym e)
        (attempt-Agrees s.limiter s.pc i now (log float ips r reach) (s.pc i) held.inv rates refl
          (Reach-Current float ips reach i) (Reach-Agrees sound reach) moved)
  Reach-Agrees sound (sweep shard cutoff candidates on e reach) = absurd (ground (arith, on))

  -- For a rate and a burst size that are not negative, while the garbage collector is not running:
  -- however calls of Allow race, each call that has returned has the answer that the plain table of
  -- buckets gives when the calls are made one after the other, in the order in which they took
  -- effect. Each call that has returned is among them once, and no other is.
  pub linearizable :
      {s : System float} (i : ℕ)
      → Sound float r
      → (reach : Reach float ips r false s)
      → (answer_of (s.pc i) ≡ answer_in float ips r empty (log float ips r reach) i)
        × (times i (log float ips r reach) ≡ returned (s.pc i))
  linearizable i sound reach =
      let agrees = Reach-Agrees sound reach in (agrees.answers i, agrees.once i)
