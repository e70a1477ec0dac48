-- ===== src/WaitingRoom/Replies.antt =====
-- waitingroom/waitingroom.go: what each client gets to see, over any course of events.
use peakshield.Prelude.{
  List, [], ◌∷◌, ◌++◌, ◌&&◌, if◌then◌else◌, refl, ap, ◌∙◌, ℕ, ◌≡◌, ◌<◌, Bool, true, false, ◌||◌,
  Option, none, some, ◌⊎◌, append-nil, sym, arith, Bool-cases, inl, inr, ◌==◌,
}
use peakshield.WaitingRoom.Room.{Room, Limits}
use peakshield.WaitingRoom.Goroutine.{
  Pc, arriving, overloaded, joining, offering, turned_away, parked, woken, checking, claiming,
  Reply, timeout_page, hung_up, Event, go, timer, disconnect, Outcome, move,
}
use peakshield.WaitingRoom.System.{System, init, keep_reply, step, Reach, start, later}
use peakshield.Prelude.Family.{put}
use peakshield.WaitingRoom.Invariant.{step_inversion}

abbrev same_event : Event → Event → Bool
same_event go go = true
same_event timer timer = true
same_event disconnect disconnect = true
same_event _ _ = false

-- Whether it is settled what becomes of a request.
abbrev pub is_settled : Option Reply → Bool
is_settled none = false
is_settled (some _) = true

-- The places after the point where a request's fate is settled.
abbrev pub answered : Pc → Bool
answered arriving = false
answered overloaded = false
answered joining = false
answered (offering _) = false
answered (turned_away _) = false
answered (parked _) = false
answered (woken _) = false
answered (checking _) = false
answered (claiming _) = false
answered _ = true

move-answered :
    (c : Limits) (i : ℕ) (m : Room) (e : Event) (p : Pc) {o : Outcome}
    → move c i m e p ≡ some o
    → answered o.next ≡ (answered p || is_settled o.reply)
unfolding move
move-answered c i m e p q = ground arith

move_after_answer :
    (c : Limits) (i : ℕ) (m : Room) (e : Event) (p : Pc) {o : Outcome}
    → answered p ≡ true
    → move c i m e p ≡ some o
    → o.reply ≡ none
unfolding move
move_after_answer c i m e p h q = ground arith

is_settled-keep :
    (a b : Option Reply) (x y : Bool)
    → is_settled b ≡ x
    → y ≡ (x || is_settled a)
    → is_settled (keep_reply a b) ≡ y
is_settled-keep a b x y h k = ground arith

-- What a move gives to the client of the goroutine that makes it.
abbrev pub as_list : Option Reply → List Reply
as_list none = []
as_list (some a) = a ∷ []

abbrev told : Limits → ℕ → Room → Event → Pc → List Reply
told c i m e p = elim (move c i m e p) [ none ↦ [] | some o ↦ as_list o.reply ]

-- All that the client of request `i` has been given, in order.
pub given : {n : ℕ} {c : Limits} {s : System} → Reach n c s → ℕ → List Reply
given (start e) i = []
given {c = c} (later {s} j e lt q r) i =
    given r i ++ (if i == j then told c j s.room e (s.pc j) else [])

-- Whether the event has come to goroutine `i`.
pub happened : {n : ℕ} {c : Limits} {s : System} → Reach n c s → ℕ → Event → Bool
happened (start e) i a = false
happened (later j e lt q r) i a = happened r i a || (i == j && same_event e a)

-- What a reply takes: a wait page for a timeout takes the timer, and leaving a client without
-- anything takes its disconnection.
abbrev pub reason : Reply → Event
reason (timeout_page _) = timer
reason hung_up = disconnect
reason _ = go

move-reason :
    (c : Limits) (i : ℕ) (m : Room) (e : Event) (p : Pc) {o : Outcome} {a : Reply}
    → move c i m e p ≡ some o
    → o.reply ≡ some a
    → same_event e (reason a) ≡ true
unfolding move
move-reason c i m e p q h = ground arith

pub reply-answered :
    {n : ℕ} {c : Limits} {s : System}
    → Reach n c s
    → (i : ℕ) → is_settled (s.reply i) ≡ answered (s.pc i)
unfolding init
reply-answered (start e) i = ground arith
reply-answered {n} {c} (later {s} j e lt q r) i =
    let (o, moved, e') = step_inversion c s j e q in
    rw e' (elim (Bool-cases (i == j)) [
      | inl same ↦ rw same (
          is_settled-keep o.reply (s.reply j) (answered (s.pc j)) (answered o.next)
            (reply-answered r j) (move-answered c j s.room e (s.pc j) moved))
      | inr other ↦ rw other (reply-answered r i)
    ])

told-move :
    (c : Limits) (i : ℕ) (m : Room) (e : Event) (p : Pc) {o : Outcome}
    → move c i m e p ≡ some o
    → told c i m e p ≡ as_list o.reply
told-move c i m e p q = rw (q, told) refl

as_list-keep :
    (a b : Option Reply)
    → (is_settled b ≡ true → a ≡ none)
    → as_list b ++ as_list a ≡ as_list (keep_reply a b)
as_list-keep none none h = refl
as_list-keep (some a) none h = refl
as_list-keep none (some b) h = refl
as_list-keep (some a) (some b) h = absurd (ground (arith, h refl))

-- Nothing is given to a client but the reply that it has.
given_lem :
    {n : ℕ} {c : Limits} {s : System} (r : Reach n c s) (i : ℕ) → given r i ≡ as_list (s.reply i)
unfolding given init
given_lem (start e) i = rw e refl
given_lem {n} {c} (later {s} j e lt q r) i =
    let (o, moved, e') = step_inversion c s j e q in
    rw e' (elim (Bool-cases (i == j)) [
      | inl same ↦
          let own : i ≡ j = ground (arith, same) in
          rw (same, own)
            (rw (told-move c j s.room e (s.pc j) moved, given_lem r j)
              (as_list-keep o.reply (s.reply j) (λ settled.
                move_after_answer c j s.room e (s.pc j) (sym (reply-answered r j) ∙ settled)
                  moved)))
      | inr other ↦ rw (other, append-nil (given r i)) (given_lem r i)
    ])

keep-cases :
    (a b : Option Reply) {x : Reply} → keep_reply a b ≡ some x → (a ≡ some x) ⊎ (b ≡ some x)
keep-cases none b h = inr h
keep-cases (some a) b h = inl h

reply-happened :
    {n : ℕ} {c : Limits} {s : System} (r : Reach n c s) (i : ℕ) {a : Reply}
    → s.reply i ≡ some a
    → happened r i (reason a) ≡ true
unfolding happened init
reply-happened (start e) i h = absurd (ground (arith, ap (λ x. x.reply i) e, h))
reply-happened {n} {c} (later {s} j e lt q r) i {a} h =
    let (o, moved, e') = step_inversion c s j e q in
    let now : put s.reply j (keep_reply o.reply (s.reply j)) i ≡ some a =
      ap (λ x. x.reply i) (sym e') ∙ h in
    elim (Bool-cases (i == j)) [
      | inl same ↦ elim (keep-cases o.reply (s.reply j) (rw same at now)) [
        | inl given ↦ ground (arith, same, move-reason c j s.room e (s.pc j) moved given)
        | inr before ↦
            let own : i ≡ j = ground (arith, same) in
            ground (arith, reply-happened r i (ap s.reply own ∙ before))
      ]
      | inr other ↦ ground (arith, reply-happened r i (rw other at now))
    ]

-- In every state that can be reached it is settled what becomes of a request exactly if it stands
-- behind the places where that is decided. A request that is not settled has been given nothing;
-- one that is settled has been given one thing, once: it was forwarded, or shown one wait page, or
-- left without a page, the last only if its client has disconnected, and the page for a timeout only
-- if its timer has fired.
pub settled_once :
    {n : ℕ} {c : Limits} {s : System} (r : Reach n c s) (i : ℕ)
    → (is_settled (s.reply i) ≡ answered (s.pc i))
      × (given r i ≡ as_list (s.reply i))
      × ((a : Reply) → s.reply i ≡ some a → happened r i (reason a) ≡ true)
settled_once r i = (reply-answered r i, given_lem r i, λ a h. reply-happened r i h)

-- A reply is final: whoever moves next, a client that was forwarded, or was shown a wait page, or
-- hung up, keeps this reply, and the move gives it nothing. No request is forwarded twice, or
-- forwarded after a wait page.
pub reply_final :
    {n : ℕ} {c : Limits} {s t : System} (r : Reach n c s) (i j : ℕ) (e : Event) (lt : j < n)
    (q : step c s j e ≡ some t) {a : Reply}
    → s.reply i ≡ some a
    → (t.reply i ≡ some a) × (given (later j e lt q r) i ≡ given r i)
reply_final {n} {c} {s} {t} r i j e lt q {a} h =
    let (o, moved, e') = step_inversion c s j e q in
    let kept : t.reply i ≡ some a =
      ground (arith, reply-answered r i, move_after_answer c j s.room e (s.pc j) {o = o}) in
    (kept, given_lem (later j e lt q r) i ∙ ap as_list (kept ∙ sym h) ∙ sym (given_lem r i))
