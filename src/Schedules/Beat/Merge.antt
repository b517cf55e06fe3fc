-- ===== src/Schedules/Beat/Merge.antt =====
-- A schedule that is merged into beat's (celery/beat.py, `Scheduler.merge_inplace`). The new schedule is
-- taken as the entries that `Entry(**…)` makes of it, each under its name. It is merged before the heap is made.
use Prim.{Unit}
use mathlib.Core.Logic.{if_pos, if_neg}
use celery.Prelude.{
  String, ◌≡◌, refl, sym, ap, ◌∙◌, Bool-cases, Option, Option-cases, inl, inr, none, some, [], ◌∷◌,
  if◌then◌else◌, string_discrete,
}
use celery.Prelude.Dict.{Dict, get, put, has, is_some, get-put}
use celery.Schedules.Beat.{Entry}

module _ {D : Type 0} where
  -- `ScheduleEntry.update`: the fields that may be edited
  unfoldable pub update_entry : Entry D → Entry D → Entry D
  update_entry e other = record e { details = other.details }

  -- `for key in A ^ B: schedule.pop(key, None)`
  unfoldable pub keep_known : Dict String (Entry D) → Dict String (Entry D) → Dict String (Entry D)
  keep_known new [] = []
  keep_known new ((name, e) ∷ d) =
      let rest = keep_known new d in if has string_discrete name new then (name, e) ∷ rest else rest

  -- an entry as it is after the merge
  unfoldable pub merged_entry : Option (Entry D) → Entry D → Entry D
  unfolding update_entry
  merged_entry none e = e
  merged_entry (some old) e = update_entry old e

  -- the loop over the new schedule
  unfoldable pub merge_each : Dict String (Entry D) → Dict String (Entry D) → Dict String (Entry D)
  unfolding merged_entry
  merge_each [] d = d
  merge_each ((name, e) ∷ new) d =
      merge_each new (put string_discrete name (merged_entry (get string_discrete name d) e) d)

  unfoldable pub merge_inplace :
      Dict String (Entry D) → Dict String (Entry D) → Dict String (Entry D)
  unfolding keep_known merge_each
  merge_inplace new d = merge_each new (keep_known new d)

  -- each name is a key once
  abbrev pub IsDistinct : Dict String (Entry D) → Type 0
  IsDistinct [] = Unit
  IsDistinct ((name, e) ∷ d) = (get string_discrete name d ≡ none) × IsDistinct d

  -- an entry of the new schedule, merged with what there was
  abbrev pub with_old : Option (Entry D) → Option (Entry D) → Option (Entry D)
  with_old old none = old
  with_old old (some e) = some (merged_entry old e)

  -- what stands of a name, from what stood of it and what the new schedule has
  abbrev pub after_merge : Option (Entry D) → Option (Entry D) → Option (Entry D)
  after_merge old none = none
  after_merge none (some e) = some e
  after_merge (some old) (some e) = some (record {
    name = old.name;
    details = e.details;
    last_run_at = old.last_run_at;
    total_run_count = old.total_run_count;
  })

  merged_entry-after :
      (old : Option (Entry D)) (e : Entry D) → some (merged_entry old e) ≡ after_merge old (some e)
  unfolding merged_entry update_entry
  merged_entry-after none e = refl
  merged_entry-after (some old) e = refl

  get-keep_known :
      (k : String) (new d : Dict String (Entry D))
      → get string_discrete k (keep_known new d)
        ≡ (if has string_discrete k new then get string_discrete k d else none)
  unfolding get keep_known
  get-keep_known k new [] = elim (Bool-cases (has string_discrete k new)) [
    | inl known ↦ rw known refl
    | inr unknown ↦ rw unknown refl
  ]
  get-keep_known k new ((name, e) ∷ d) =
      let rest = get-keep_known k new d in
      let within = λ (o : Option (Entry D)). if has string_discrete k new then o else none in
      elim (string_discrete name k) [
        | no differ ↦ elim (Bool-cases (has string_discrete name new)) [
          | inl known ↦ rw known (
              if_neg (string_discrete name k) differ _ _
              ∙ (rest ∙ ap within (sym (if_neg (string_discrete name k) differ _ _))))
          | inr unknown ↦
              rw unknown (rest ∙ ap within (sym (if_neg (string_discrete name k) differ _ _)))
        ]
        | yes same ↦
            let alike = ap (λ j. has string_discrete j new) same in
            elim (Bool-cases (has string_discrete name new)) [
              | inl known ↦ rw known (
                  if_pos (string_discrete name k) same _ _
                  ∙ (ap (λ c. (if c then some e else none)) (sym known ∙ alike)
                      ∙ ap within (sym (if_pos (string_discrete name k) same _ _))))
              | inr unknown ↦ rw unknown (
                  rest
                  ∙ (ap (λ c. (if c then get string_discrete k d else none)) (sym alike ∙ unknown)
                      ∙ ap (λ c. (if c then get string_discrete k ((name, e) ∷ d) else none))
                          (sym unknown ∙ alike)))
            ]
      ]

  get-merge_each :
      (k : String) (new d : Dict String (Entry D))
      → IsDistinct new
      → get string_discrete k (merge_each new d)
        ≡ with_old (get string_discrete k d) (get string_discrete k new)
  unfolding get merge_each
  get-merge_each k [] d distinct = refl
  get-merge_each k ((name, e) ∷ new) d (fresh, distinct) =
      let next = put string_discrete name (merged_entry (get string_discrete name d) e) d in
      let rest = get-merge_each k new next distinct in
      let at = get-put string_discrete name k (merged_entry (get string_discrete name d) e) d in
      elim (string_discrete name k) [
        | yes same ↦
            rest
            ∙ (ap (with_old (get string_discrete k next))
                  (ap (λ j. get string_discrete j new) (sym same) ∙ fresh)
                ∙ (at
                    ∙ (if_pos (string_discrete name k) same _ _
                        ∙ (ap (λ j. some (merged_entry (get string_discrete j d) e)) same
                            ∙ ap (with_old (get string_discrete k d))
                                (sym (if_pos (string_discrete name k) same _ _))))))
        | no differ ↦
            rest
            ∙ (ap (λ o. with_old o (get string_discrete k new))
                  (at ∙ if_neg (string_discrete name k) differ _ _)
                ∙ ap (with_old (get string_discrete k d))
                    (sym (if_neg (string_discrete name k) differ _ _)))
      ]

  -- After a merge the schedule has the names of the new schedule and no other. An entry that was there
  -- before keeps its time and count, and takes the other fields of the new one; an entry that was not
  -- there is the new one.
  pub get-merge_inplace :
      (k : String) (new d : Dict String (Entry D))
      → IsDistinct new
      → get string_discrete k (merge_inplace new d)
        ≡ after_merge (get string_discrete k d) (get string_discrete k new)
  unfolding merge_inplace has
  get-merge_inplace k new d distinct =
      let each = get-merge_each k new (keep_known new d) distinct in
      let kept = get-keep_known k new d in
      let old = get string_discrete k d in
      let known = λ (o : Option (Entry D)). if is_some o then old else none in
      elim (Option-cases (get string_discrete k new)) [
        | inl e ↦
            each
            ∙ (ap (with_old (get string_discrete k (keep_known new d))) e
                ∙ (kept ∙ (ap known e ∙ ap (after_merge old) (sym e))))
        | inr (f, e) ↦
            each
            ∙ (ap (λ o. with_old o (get string_discrete k new)) (kept ∙ ap known e)
                ∙ (ap (with_old old) e ∙ (merged_entry-after old f ∙ ap (after_merge old) (sym e))))
      ]
