-- ===== src/App/Trace/Actions/Balanced.antt =====
-- The depths of the stacks under each way to build an action (celery/app/trace.py).
use celery.Prelude.{
  ℕ, ◌≡◌, refl, ◌∙◌, Bool, true, false, Option, none, some, List, [], ◌∷◌, if◌then◌else◌,
}
use celery.Worker.Request.{Exc}
use celery.App.Trace.Actions.{
  World, Action, pass, throw, or_else, ◌then_do◌, handled, try_else, both, finished, try_finally,
  only_if, each,
}

-- the depths of the stacks
abbrev pub depths : World → ℕ × ℕ
depths w = (w.tasks, w.requests)

-- the action leaves the stacks as deep as it found them, whether it raises or not
pub record IsBalanced (m : Action) : Type 0 where
  pub at : (w : World) → depths (m w).0 ≡ depths w

pub IsBalanced-pass : IsBalanced pass
unfolding pass
IsBalanced-pass = record { at = λ w. refl }

pub IsBalanced-throw : (e : Exc) → IsBalanced (throw e)
unfolding throw
IsBalanced-throw e = record { at = λ w. refl }

pub or_else-depths :
    (n : Action) (r : World × Option Exc) → IsBalanced n → depths (or_else n r).0 ≡ depths r.0
or_else-depths n (w, none) h = h.at w
or_else-depths n (w, some e) h = refl

pub handled-depths :
    (h : Exc → Action) (k : Action) (r : World × Option Exc)
    → ((e : Exc) → IsBalanced (h e))
    → IsBalanced k
    → depths (handled h k r).0 ≡ depths r.0
handled-depths h k (w, none) bh bk = bk.at w
handled-depths h k (w, some e) bh bk = (bh e).at w

pub both-depths : (o : Option Exc) (r : World × Option Exc) → depths (both o r).0 ≡ depths r.0
both-depths o (w, none) = refl
both-depths o (w, some e) = refl

pub finished-depths :
    (n : Action) (r : World × Option Exc) → depths (finished n r).0 ≡ depths (n r.0).0
finished-depths n (w, o) = both-depths o (n w)

pub IsBalanced-then_do : (m n : Action) → IsBalanced m → IsBalanced n → IsBalanced (m then_do n)
unfolding ◌then_do◌
IsBalanced-then_do m n hm hn = record { at = λ w. or_else-depths n (m w) hn ∙ hm.at w }

pub IsBalanced-try_else :
    (m : Action) (h : Exc → Action) (k : Action)
    → IsBalanced m
    → ((e : Exc) → IsBalanced (h e))
    → IsBalanced k
    → IsBalanced (try_else m h k)
unfolding try_else
IsBalanced-try_else m h k hm hh hk = record { at = λ w. handled-depths h k (m w) hh hk ∙ hm.at w }

pub IsBalanced-try_finally :
    (m n : Action) → IsBalanced m → IsBalanced n → IsBalanced (try_finally m n)
unfolding try_finally
IsBalanced-try_finally m n hm hn = record {
  at = λ w. finished-depths n (m w) ∙ hn.at (m w).0 ∙ hm.at w;
}

pub IsBalanced-only_if : (b : Bool) (m : Action) → IsBalanced m → IsBalanced (only_if b m)
unfolding only_if
IsBalanced-only_if true m h = h
IsBalanced-only_if false m h = IsBalanced-pass

pub IsBalanced-if :
    (b : Bool) (m n : Action) → IsBalanced m → IsBalanced n → IsBalanced (if b then m else n)
IsBalanced-if true m n hm hn = hm
IsBalanced-if false m n hm hn = hn

pub IsBalanced-each :
    {A : Type 0} (f : A → Action) (xs : List A)
    → ((a : A) → IsBalanced (f a))
    → IsBalanced (each f xs)
unfolding each
IsBalanced-each f [] h = IsBalanced-pass
IsBalanced-each f (x ∷ xs) h = IsBalanced-then_do (f x) (each f xs) (h x) (IsBalanced-each f xs h)
