-- ===== src/Worker/Control/Effects.antt =====
-- What the trace of a command has (celery/worker/control.py).
use celery.Prelude.{◌≡◌, refl, ap, String, List, [], ◌∷◌, ◌++◌, map}
use celery.Worker.State.{Handle}
use celery.Worker.Control.{Effect, terminate_request, warning, mark_as_revoked}

-- the requests that are told to terminate_request
abbrev pub terminations : List Effect → List Handle
terminations [] = []
terminations (mark_as_revoked id ∷ es) = terminations es
terminations (warning id ∷ es) = terminations es
terminations (terminate_request r ∷ es) = r ∷ terminations es

-- the ids that the backend is asked to mark
abbrev pub marked : List Effect → List String
marked [] = []
marked (mark_as_revoked id ∷ es) = id ∷ marked es
marked (warning id ∷ es) = marked es
marked (terminate_request r ∷ es) = marked es

pub terminations-append :
    (es fs : List Effect) → terminations (es ++ fs) ≡ terminations es ++ terminations fs
terminations-append [] fs = refl
terminations-append (mark_as_revoked id ∷ es) fs = terminations-append es fs
terminations-append (warning id ∷ es) fs = terminations-append es fs
terminations-append (terminate_request r ∷ es) fs =
    ap {B = List Handle} (λ l. r ∷ l) (terminations-append es fs)

pub marked-append : (es fs : List Effect) → marked (es ++ fs) ≡ marked es ++ marked fs
marked-append [] fs = refl
marked-append (mark_as_revoked id ∷ es) fs =
    ap {B = List String} (λ l. id ∷ l) (marked-append es fs)
marked-append (warning id ∷ es) fs = marked-append es fs
marked-append (terminate_request r ∷ es) fs = marked-append es fs

pub terminations-map : (rs : List Handle) → terminations (map terminate_request rs) ≡ rs
terminations-map [] = refl
terminations-map (r ∷ rs) = ap {B = List Handle} (λ l. r ∷ l) (terminations-map rs)

pub marked-map : (rs : List Handle) → marked (map terminate_request rs) ≡ []
marked-map [] = refl
marked-map (r ∷ rs) = marked-map rs
