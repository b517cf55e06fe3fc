-- ===== src/Backends/Keys/Apart.antt =====
-- The keys of tasks, groups and chords do not meet (celery/backends/base.py).
use Prim.Native.Char.{Char}
use Prim.Native.String.{String, [], ◌∷◌, ◌++◌}
use celery.Prelude.{
  ◌≡◌, ◌≢◌, refl, sym, ap, ◌∙◌, false, false≢true, none, some, ◌==◌, eq_iff, arith,
}
use text.Mathlib.TextLemmas.{append_cancel_left, append_assoc, nil-append, cons-append}
use celery.Backends.Keys.{
  Prefixes, add_global_keyprefix, marked_prefix, get_key_for, get_key_for_task, get_key_for_group,
  after_prefix, strip_prefix,
}

-- texts that go on differently after the same beginning
pub record Splits (p q : String) : Type 0 where
  pub common : String
  pub rest_p : String
  pub rest_q : String
  pub left : p ≡ common ++ rest_p
  pub right : q ≡ common ++ rest_q
  pub differ : (s t : String) → rest_p ++ s ≢ rest_q ++ t

Splits-ne : (p q s t : String) → Splits p q → p ++ s ≢ q ++ t
Splits-ne p q s t d e = d.differ s t (
    append_cancel_left d.common (d.rest_p ++ s) (d.rest_q ++ t) (
      sym (append_assoc d.common d.rest_p s)
      ∙ (ap (λ x. x ++ s) (sym d.left)
          ∙ (e ∙ (ap (λ x. x ++ t) d.right ∙ append_assoc d.common d.rest_q t)))))

after_prefix-append : (p s : String) → after_prefix p (p ++ s) ≡ some s
unfolding after_prefix
after_prefix-append [] s = rw (nil-append s) refl
after_prefix-append (c ∷ p) s =
    rw (cons-append c p s, (eq_iff (c ∷ "") (c ∷ "")).1 refl) (after_prefix-append p s)

after_prefix-cancel : (p q s : String) → after_prefix (p ++ q) (p ++ s) ≡ after_prefix q s
unfolding after_prefix
after_prefix-cancel [] q s = rw (nil-append q, nil-append s) refl
after_prefix-cancel (c ∷ p) q s =
    rw (cons-append c p q, cons-append c p s, (eq_iff (c ∷ "") (c ∷ "")).1 refl)
      (after_prefix-cancel p q s)

-- the first character, as a text
abbrev first : String → String
first [] = ""
first (c ∷ s) = c ∷ ""

first-append : (c : Char) (p s : String) → first ((c ∷ p) ++ s) ≡ c ∷ ""
first-append c p s = rw (cons-append c p s) refl

heads_differ :
    (c d : Char) (p q s t : String) → ((c ∷ "") == (d ∷ "")) ≡ false → (c ∷ p) ++ s ≢ (d ∷ q) ++ t
heads_differ c d p q s t f e = false≢true (
    sym f
    ∙ (eq_iff (c ∷ "") (d ∷ "")).1 (sym (first-append c p s) ∙ (ap first e ∙ first-append d q t)))

set_unlike_dash : (id : String) → after_prefix "-meta-" ("set-meta-" ++ id) ≡ none
unfolding after_prefix
set_unlike_dash id = ap (λ x. after_prefix "-meta-" x) (cons-append "s" "et-meta-" id)

module _ (g : String) where
  task_group : Splits (g ++ "celery-task-meta-") (g ++ "celery-taskset-meta-")
  task_group = record {
    common = g ++ "celery-task";
    rest_p = "-meta-";
    rest_q = "set-meta-";
    left = sym (append_assoc g "celery-task" "-meta-");
    right = sym (append_assoc g "celery-task" "set-meta-");
    differ = λ s t. heads_differ "-" "s" "meta-" "et-meta-" s t refl;
  }

  task_chord : Splits (g ++ "celery-task-meta-") (g ++ "chord-unlock-")
  task_chord = record {
    common = g ++ "c";
    rest_p = "elery-task-meta-";
    rest_q = "hord-unlock-";
    left = sym (append_assoc g "c" "elery-task-meta-");
    right = sym (append_assoc g "c" "hord-unlock-");
    differ = λ s t. heads_differ "e" "h" "lery-task-meta-" "ord-unlock-" s t refl;
  }

  group_chord : Splits (g ++ "celery-taskset-meta-") (g ++ "chord-unlock-")
  group_chord = record {
    common = g ++ "c";
    rest_p = "elery-taskset-meta-";
    rest_q = "hord-unlock-";
    left = sym (append_assoc g "c" "elery-taskset-meta-");
    right = sym (append_assoc g "c" "hord-unlock-");
    differ = λ s t. heads_differ "e" "h" "lery-taskset-meta-" "ord-unlock-" s t refl;
  }

  group_unlike_task :
      (id : String)
      → after_prefix (g ++ "celery-task-meta-") ((g ++ "celery-taskset-meta-") ++ id) ≡ none
  unfolding task_group
  group_unlike_task id =
      let key = (g ++ "celery-taskset-meta-") ++ id in
      ap (λ x. after_prefix x key) task_group.left
      ∙ (ap (λ x. after_prefix ((g ++ "celery-task") ++ "-meta-") x)
            (ap (λ x. x ++ id) task_group.right ∙ append_assoc (g ++ "celery-task") "set-meta-" id)
          ∙ (after_prefix-cancel (g ++ "celery-task") "-meta-" ("set-meta-" ++ id)
              ∙ set_unlike_dash id))

pub key_for_same :
    (prefix id : String) {k : String} → get_key_for prefix id ≡ some k → k ≡ prefix ++ id
unfolding get_key_for
key_for_same prefix id h = ground arith

-- the prefixes keep the keys of tasks, groups and chords apart
pub record AreApart (p : Prefixes) : Type 0 where
  pub task_group : (a b : String) → p.task ++ a ≢ p.group ++ b
  pub task_chord : (a b : String) → p.task ++ a ≢ p.chord ++ b
  pub group_chord : (a b : String) → p.group ++ a ≢ p.chord ++ b

pub add_global_keyprefix-AreApart :
    (configured : String) → AreApart (add_global_keyprefix configured)
unfolding add_global_keyprefix
add_global_keyprefix-AreApart configured =
    let g = marked_prefix configured in
    record {
      task_group = λ a b. Splits-ne _ _ a b (task_group g);
      task_chord = λ a b. Splits-ne _ _ a b (task_chord g);
      group_chord = λ a b. Splits-ne _ _ a b (group_chord g);
    }

strip_task :
    (p : Prefixes) (key id : String) → after_prefix p.task key ≡ some id → strip_prefix p key ≡ id
unfolding strip_prefix
strip_task p key id h = ground arith

strip_group :
    (p : Prefixes) (key id : String)
    → after_prefix p.task key ≡ none
    → after_prefix p.group key ≡ some id
    → strip_prefix p key ≡ id
unfolding strip_prefix
strip_group p key id h k = ground arith

-- Whatever global prefix is configured, an id that is not empty has a key as a task and a key as a
-- group, and is read back from both.
pub strip_prefix-get_key_for :
    (configured id : String)
    → (id == "") ≡ false
    → let p = add_global_keyprefix configured in
      ((k : String) × (get_key_for_task p id ≡ some k) × (strip_prefix p k ≡ id))
      × ((k : String) × (get_key_for_group p id ≡ some k) × (strip_prefix p k ≡ id))
unfolding add_global_keyprefix get_key_for_task get_key_for_group get_key_for
strip_prefix-get_key_for configured id full =
    let g = marked_prefix configured in
    let p = add_global_keyprefix configured in
    (
      (p.task ++ id, rw full refl, strip_task p (p.task ++ id) id (after_prefix-append p.task id)),
      (
        p.group ++ id,
        rw full refl,
        strip_group p (p.group ++ id) id (group_unlike_task g id) (after_prefix-append p.group id),
      ),
    )
