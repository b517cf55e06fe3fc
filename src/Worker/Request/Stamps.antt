-- ===== src/Worker/Request/Stamps.antt =====
-- Revoking by stamped headers (celery/worker/request.py, `revoked`).
use celery.Prelude.{
  ℕ, suc, ◌≤◌, ◌≡◌, refl, String, string_discrete, Bool, true, false, none, some, List, [], ◌∷◌,
  arith, any, if◌then◌else◌,
}
use celery.Prelude.Dict
use celery.Prelude.Dict.{Dict, is_some}
use celery.Worker.Request.{Stamp}
use celery.Worker.Request.Revoke.{stamp_revoked, revoked_by_header}

module _ (flagged : Dict String (List String)) where
  -- the header is flagged, and the stamp has a value that is revoked
  abbrev pub header_revoked : String × Stamp → Bool
  header_revoked (header, stamp) = elim (Dict.get string_discrete header flagged) [
    | some values ↦ stamp_revoked values stamp
    | none ↦ false
  ]

  -- how many of the headers are flagged
  unfoldable pub flagged_headers : List (String × Stamp) → ℕ
  flagged_headers [] = 0
  flagged_headers ((header, stamp) ∷ stamps) =
      let rest = flagged_headers stamps in
      if is_some (Dict.get string_discrete header flagged) then suc rest else rest

  none_flagged :
      (stamps : List (String × Stamp))
      → flagged_headers stamps ≡ 0
      → any header_revoked stamps ≡ false
  unfolding flagged_headers
  none_flagged [] h = refl
  none_flagged ((header, stamp) ∷ stamps) h = ground (arith, none_flagged stamps)

  -- Where at most one of the message's headers is flagged, the message is revoked by its headers
  -- exactly when one of them is flagged and has a revoked value.
  pub revoked_by_header-eq :
      (stamps : List (String × Stamp))
      → flagged_headers stamps ≤ 1
      → revoked_by_header flagged stamps ≡ any header_revoked stamps
  unfolding flagged_headers revoked_by_header
  revoked_by_header-eq [] h = refl
  revoked_by_header-eq ((header, stamp) ∷ stamps) h =
      ground (arith, revoked_by_header-eq stamps, none_flagged stamps)

  -- A first header that is flagged, and whose value is not revoked, hides the headers behind it:
  -- where one of those is flagged and has a revoked value, the message is still not revoked.
  pub revoked_by_header_hidden :
      (header : String) (stamp : Stamp) (values : List String) (stamps : List (String × Stamp))
      → Dict.get string_discrete header flagged ≡ some values
      → stamp_revoked values stamp ≡ false
      → any header_revoked stamps ≡ true
      → (revoked_by_header flagged ((header, stamp) ∷ stamps) ≡ false)
        × (any header_revoked ((header, stamp) ∷ stamps) ≡ true)
  unfolding revoked_by_header
  revoked_by_header_hidden header stamp values stamps p q r = ground arith
