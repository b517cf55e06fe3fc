-- ===== src/Backends/Store/Kept.antt =====
-- What the meta data of a result holds (celery/backends/base.py, `_get_result_meta`), spelled out.
use celery.Prelude.{
  String, ◌==◌, ◌≡◌, refl, ap, sym, ◌∙◌, Bool, List, true, false, ◌&&◌, ◌||◌, ◌⊎◌, inl, inr, Option,
  none, some, map, arith, if◌then◌else◌,
}
use celery.Backends.Calls.{returned, raised, returned-inj, raised≢returned, Result}
use celery.States.{exception_states}
use celery.Backends.Meta.{
  Meta, MetaRequest, Codec, one_of, not_empty, request_or, encode_result, current_task_children,
  get_result_meta, with_exception, meta_from_decoded,
}

-- the states that a task does not leave
abbrev pub is_final : String → Bool
is_final s = ("SUCCESS" == s) || ("FAILURE" == s) || ("REVOKED" == s)

-- the states whose result is an exception
abbrev pub is_error : String → Bool
is_error s = ("RETRY" == s) || ("FAILURE" == s) || ("REVOKED" == s)

abbrev pub nonempty : Option String → Option String
nonempty none = none
nonempty (some s) = if s == "" then none else some s

module _ {E B V : Type 0} (codec : Codec E B V) where
  abbrev pub as_encoded : V → String → V
  as_encoded r state =
      if is_error state && codec.is_exception r
      then codec.prepare_exception r
      else codec.prepare_value r

  abbrev pub children_of : MetaRequest V → Option (List V)
  children_of r = some (map codec.as_tuple r.children)

  -- The value with its state and traceback, the children of the request, and else of the one that
  -- runs now, the time of a final state, and the group and the parent of the request.
  abbrev pub kept :
      String
      → Option (MetaRequest V)
      → String
      → V
      → String
      → Option String
      → Option (MetaRequest V)
      → Meta V
  kept now current id value state traceback request = record {
    status = some state;
    result = value;
    traceback = traceback;
    children = elim request [
      | none ↦ elim current [ none ↦ none | some r ↦ children_of r ]
      | some r ↦ children_of r
    ];
    date_done = if is_final state then some now else none;
    group_id = elim request [ none ↦ none | some r ↦ nonempty r.group ];
    parent_id = elim request [ none ↦ none | some r ↦ nonempty r.parent_id ];
    task_id = some id;
  }

  -- what a value is read back as
  abbrev pub IsRead : String → V → V → Type 0
  IsRead state encoded value =
      ((is_error state ≡ true) × (codec.exception_to_python encoded ≡ returned value))
      ⊎ ((is_error state ≡ false) × (value ≡ encoded))

  pub encode_result-as_encoded :
      (r : V) (state : String) → encode_result codec r state ≡ as_encoded r state
  unfolding encode_result one_of
  encode_result-as_encoded r state = ground arith

  not_empty-nonempty : (o : Option String) → not_empty o ≡ nonempty o
  unfolding not_empty
  not_empty-nonempty none = refl
  not_empty-nonempty (some s) = refl

  pub get_result_meta-kept :
      (now : String) (current : Option (MetaRequest V)) (id : String) (value : V) (state : String)
      (traceback : Option String) (request : Option (MetaRequest V))
      → ◌≡◌ {A = Meta V}
          (record (get_result_meta codec now current value state traceback request) {
            task_id = some id;
          })
          (kept now current id value state traceback request)
  unfolding get_result_meta current_task_children one_of request_or not_empty
  get_result_meta-kept now none id value state traceback none = ground arith
  get_result_meta-kept now (some c) id value state traceback none = ground arith
  get_result_meta-kept now current id value state traceback (some r) = ground arith

  if_read :
      (b : Bool) (r : Result E V) (meta m : Meta V)
      → (if b then with_exception codec meta r else returned meta) ≡ returned m
      → (value : V) × (((b ≡ true) × (r ≡ returned value)) ⊎ ((b ≡ false) × (value ≡ meta.result)))
        × (m ≡ record meta { result = value })
  unfolding with_exception
  if_read true (returned v) meta m h = (v, inl (refl, refl), sym (returned-inj h))
  if_read true (raised e) meta m h = absurd (raised≢returned h)
  if_read false r meta m h = (meta.result, inr (refl, refl), sym (returned-inj h))

  error_eq : (state : String) → is_error state ≡ one_of state exception_states
  unfolding one_of
  error_eq state = ground arith

  -- the meta data of a result, as it is read back
  pub meta_from_decoded-kept :
      (now : String) (current : Option (MetaRequest V)) (id : String) (encoded : V) (state : String)
      (traceback : Option String) (request : Option (MetaRequest V)) (m : Meta V)
      → meta_from_decoded codec (kept now current id encoded state traceback request) ≡ returned m
      → (value : V) × IsRead state encoded value
        × (m ≡ kept now current id value state traceback request)
  unfolding meta_from_decoded
  meta_from_decoded-kept now current id encoded state traceback request m h =
      let meta = kept now current id encoded state traceback request in
      let read = λ (b : Bool).
        if b
        then with_exception codec meta (codec.exception_to_python encoded)
        else returned meta in
      if_read (is_error state) (codec.exception_to_python encoded) meta m
        (ap read (error_eq state) ∙ h)
