-- ===== src/App/Trace/Actions/Does.antt =====
-- What an action comes to, seen by the backend and the callers of the tracer (celery/app/trace.py).
use celery.Prelude.{
  ◌≡◌, refl, ap, ◌∙◌, Bool, true, false, Option, none, some, List, [], ◌∷◌, if◌then◌else◌,
}
use celery.Worker.Request.{Exc}
use celery.App.Trace.Actions.{
  Ending, Call, mark_as_done, mark_as_retry, mark_as_failure, apply, apply_group, apply_chain, Ret,
  World, Action, pass, throw, or_else, ◌then_do◌, handled, try_else, both, finished, try_finally,
  only_if,
}

-- the calls that write a result, or send a task
abbrev pub marks : List Call → List Call
marks [] = []
marks (mark_as_done b ∷ cs) = mark_as_done b ∷ marks cs
marks (mark_as_retry ∷ cs) = mark_as_retry ∷ marks cs
marks (mark_as_failure b c ∷ cs) = mark_as_failure b c ∷ marks cs
marks (apply s n ∷ cs) = apply s n ∷ marks cs
marks (apply_group s n ∷ cs) = apply_group s n ∷ marks cs
marks (apply_chain s l n ∷ cs) = apply_chain s l n ∷ marks cs
marks (_ ∷ cs) = marks cs

-- a world, less its stacks and the calls of hooks
pub record View : Type 0 where
  pub marked : List Call
  pub has_request : Bool
  pub ret : Ret
  pub info : Option Ending
  pub state : Option Ending
  pub returned : Bool

abbrev pub view : World → View
view w = record {
  marked = marks w.calls;
  has_request = w.has_request;
  ret = w.ret;
  info = w.info;
  state = w.state;
  returned = w.returned;
}

-- the action ends as `o`, and changes the view as `f`
pub record Does (m : Action) (o : Option Exc) (f : View → View) : Type 0 where
  pub ends : (w : World) → (m w).1 ≡ o
  pub sees : (w : World) → view (m w).0 ≡ f (view w)

pub Does-pass : Does pass none (λ v. v)
unfolding pass
Does-pass = record { ends = λ w. refl; sees = λ w. refl }

pub Does-throw : (e : Exc) → Does (throw e) (some e) (λ v. v)
unfolding throw
Does-throw e = record { ends = λ w. refl; sees = λ w. refl }

pub or_else-none : (n : Action) (r : World × Option Exc) → r.1 ≡ none → or_else n r ≡ n r.0
or_else-none n (w, none) h = refl
or_else-none n (w, some e) h = cc

or_else-some :
    (n : Action) (r : World × Option Exc) (e : Exc) → r.1 ≡ some e → or_else n r ≡ (r.0, some e)
or_else-some n (w, none) e h = cc
or_else-some n (w, some e') e h = cc

handled-none :
    (h : Exc → Action) (k : Action) (r : World × Option Exc) → r.1 ≡ none → handled h k r ≡ k r.0
handled-none h k (w, none) p = refl
handled-none h k (w, some e) p = cc

handled-some :
    (h : Exc → Action) (k : Action) (r : World × Option Exc) (e : Exc)
    → r.1 ≡ some e
    → handled h k r ≡ h e r.0
handled-some h k (w, none) e p = cc
handled-some h k (w, some e') e p = cc

both-none : (o : Option Exc) (r : World × Option Exc) → r.1 ≡ none → both o r ≡ (r.0, o)
both-none o (w, none) h = refl
both-none o (w, some e) h = cc

finished-none :
    (n : Action) (r : World × Option Exc) (o : Option Exc)
    → r.1 ≡ o
    → (n r.0).1 ≡ none
    → finished n r ≡ ((n r.0).0, o)
finished-none n (w, p) o h q = both-none p (n w) q ∙ ap (λ x. ((n w).0, x)) h

module _ (m n : Action) (o : Option Exc) (f g : View → View) where
  pub Does-then_do : Does m none f → Does n o g → Does (m then_do n) o (λ v. g (f v))
  unfolding ◌then_do◌
  Does-then_do dm dn = record {
    ends = λ w. ap (λ r. r.1) (or_else-none n (m w) (dm.ends w)) ∙ dn.ends (m w).0;
    sees = λ w.
        ap (λ r. view r.0) (or_else-none n (m w) (dm.ends w)) ∙ dn.sees (m w).0 ∙ ap g (dm.sees w);
  }

  pub Does-else :
      (h : Exc → Action) → Does m none f → Does n o g → Does (try_else m h n) o (λ v. g (f v))
  unfolding try_else
  Does-else h dm dn = record {
    ends = λ w. ap (λ r. r.1) (handled-none h n (m w) (dm.ends w)) ∙ dn.ends (m w).0;
    sees = λ w.
        ap (λ r. view r.0) (handled-none h n (m w) (dm.ends w))
        ∙ dn.sees (m w).0
        ∙ ap g (dm.sees w);
  }

  pub Does-finally : Does m o f → Does n none g → Does (try_finally m n) o (λ v. g (f v))
  unfolding try_finally
  Does-finally dm dn = record {
    ends = λ w. ap (λ r. r.1) (finished-none n (m w) o (dm.ends w) (dn.ends (m w).0));
    sees = λ w.
        ap (λ r. view r.0) (finished-none n (m w) o (dm.ends w) (dn.ends (m w).0))
        ∙ dn.sees (m w).0
        ∙ ap g (dm.sees w);
  }

module _ (m : Action) (e : Exc) (f : View → View) where
  pub Does-stop : (n : Action) → Does m (some e) f → Does (m then_do n) (some e) f
  unfolding ◌then_do◌
  Does-stop n dm = record {
    ends = λ w. ap (λ r. r.1) (or_else-some n (m w) e (dm.ends w));
    sees = λ w. ap (λ r. view r.0) (or_else-some n (m w) e (dm.ends w)) ∙ dm.sees w;
  }

  pub Does-except :
      (h : Exc → Action) (k : Action) (o : Option Exc) (g : View → View)
      → Does m (some e) f
      → Does (h e) o g
      → Does (try_else m h k) o (λ v. g (f v))
  unfolding try_else
  Does-except h k o g dm dh = record {
    ends = λ w. ap (λ r. r.1) (handled-some h k (m w) e (dm.ends w)) ∙ dh.ends (m w).0;
    sees = λ w.
        ap (λ r. view r.0) (handled-some h k (m w) e (dm.ends w))
        ∙ dh.sees (m w).0
        ∙ ap g (dm.sees w);
  }

pub Does-only_if :
    (b : Bool) (m : Action) (f : View → View)
    → Does m none f
    → Does (only_if b m) none (λ v. if b then f v else v)
unfolding only_if
Does-only_if true m f d = d
Does-only_if false m f d = Does-pass
