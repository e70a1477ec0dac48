-- ===== src/Stripper/Pool.antt =====
-- stripper/stripper.go: the pool of buffers of New, and the buffers that Middleware takes from it and
-- puts back, for requests that run at the same time. A buffer is named by a number.
pub mod Laws
use peakshield.Prelude.{
  ℕ, zero, suc, ◌+◌, ◌<◌, ◌≡◌, Option, none, some, List, [], ◌∷◌, ◌++◌, count, ◌==◌, if◌then◌else◌,
}
use peakshield.Prelude.Bytes.{Bytes}
use peakshield.Prelude.Family.{put}

pub record Pool : Type 0 where
  pub free : List ℕ  -- the buffers that were put back
  pub made : ℕ  -- how many buffers New of the pool has made
  pub text : ℕ → Bytes  -- what each buffer holds

unfoldable pub remove : ℕ → List ℕ → List ℕ
remove b [] = []
remove b (c ∷ cs) = if c == b then cs else c ∷ remove b cs

-- pool.Get() and Reset(). Get answers with any buffer that was put back, or with a new one; `none` for
-- a buffer that is not in the pool.
unfoldable pub get : Option ℕ → Pool → Option (ℕ × Pool)
unfolding remove
get none p = some (p.made, record p { made = suc p.made; text = put p.text p.made [] })
get (some b) p =
    if count b p.free == 0
    then none
    else some (b, record p { free = remove b p.free; text = put p.text b [] })

-- pool.Put(b)
unfoldable pub give : ℕ → Pool → Pool
give b p = record p { free = b ∷ p.free }

unfoldable pub append_to : ℕ → Bytes → Pool → Pool
append_to b chunk p = record p { text = put p.text b (p.text b ++ chunk) }

-- Where a request stands in Middleware.
pub data Pc : Type 0 where
  outside : Pc
  buffering : (buf : ℕ) → Pc  -- in next.ServeHTTP
  rendering : (buf out : ℕ) → Pc  -- in stripHTML, and writing its result
  closing : (buf : ℕ) → Pc  -- outBuf is back in the pool

pub data Event : Type 0 where
  begin : (choice : Option ℕ) → Event  -- the first Get
  chunk : (bytes : Bytes) → Event  -- sw.buf.Write, out.Write
  html : (choice : Option ℕ) → Event  -- the second Get
  leave : Event  -- a deferred Put

abbrev entering : (ℕ → Pc) → Option (ℕ × Pool) → Option (Pool × Pc)
entering at none = none
entering at (some (b, p)) = some (p, at b)

-- The next step of a request; `none` for an event that is none of its place.
unfoldable pub move : Pool → Event → Pc → Option (Pool × Pc)
unfolding get give append_to
move p (begin choice) outside = entering buffering (get choice p)
move p (chunk c) (buffering b) = some (append_to b c p, buffering b)
move p (html choice) (buffering b) = entering (rendering b) (get choice p)
move p leave (buffering b) = some (give b p, outside)
move p (chunk c) (rendering b o) = some (append_to o c p, rendering b o)
move p leave (rendering b o) = some (give o p, closing b)
move p leave (closing b) = some (give b p, outside)
move p _ _ = none

pub record System : Type 0 where
  pub pool : Pool
  pub pc : ℕ → Pc

unfoldable pub step : System → ℕ → Event → Option System
unfolding move
step s i e = elim (move s.pool e (s.pc i)) [
  | none ↦ none
  | some (p, c) ↦ some (record { pool = p; pc = put s.pc i c })
]

unfoldable pub init : System
init = record { pool = record { free = []; made = 0; text = λ _. [] }; pc = λ _. outside }

-- The states that requests 0 to n - 1 can reach, in any order of their steps.
pub data Reach (n : ℕ) : System → Type 0 where
  start : {s : System} → s ≡ init → Reach n s
  later : {s t : System} (i : ℕ) (e : Event) → i < n → step s i e ≡ some t → Reach n s → Reach n t
