-- ===== src/Fallback/Counts.antt =====
-- How many endpoints of each kind `refreshEndpoints` (internal/fallback/service.go) leaves active.
use enchanted_proxy.Prelude.{
  ◌+◌, ◌-◌, ℕ, Bool, true, false, not, ◌&&◌, List, [], ◌∷◌, ◌≡◌, refl, ap, ◌∙◌, Text, if◌then◌else◌,
  arith, tally, tally-append, any,
}
use enchanted_proxy.Routing.Types.{ModelEndpoint, ModelRoute, is_primary}
use enchanted_proxy.Fallback.Worker.{
  Sorted, sort_active, sort_inactive, each, start, flip_endpoints,
}
use enchanted_proxy.Fallback.Endpoints.{endpoints, is_ours}

abbrev pub is_fallback : ModelEndpoint → Bool
is_fallback e = not (is_primary e)

-- The number of fallback endpoints that are active.
abbrev pub fallbacks : List ModelEndpoint → ℕ
fallbacks = tally is_fallback

abbrev pub one_if : Bool → ℕ
one_if b = if b then 1 else 0

module _ (p : Text) where
  each-fallbacks_trigger :
      (es : List ModelEndpoint) (s : Sorted)
      → fallbacks (each (sort_active true p) s es).active ≡ fallbacks s.active + fallbacks es
  unfolding sort_active
  each-fallbacks_trigger [] s = omega arith
  each-fallbacks_trigger (e ∷ es) s = ground (
    arith,
    each-fallbacks_trigger es (sort_active true p s e),
    tally-append is_fallback s.active (e ∷ []),
  )

  each-fallbacks_activate :
      (es : List ModelEndpoint) (s : Sorted)
      → fallbacks (each (sort_inactive true p) s es).active
        ≡ fallbacks s.active + one_if (not s.flipped && any is_fallback es)
  unfolding sort_inactive
  each-fallbacks_activate [] s = ground arith
  each-fallbacks_activate (e ∷ es) s = ground (
    arith,
    each-fallbacks_activate es (sort_inactive true p s e),
    tally-append is_fallback s.active (e ∷ []),
  )

  -- A recovery deactivates one, if there is an active one.
  each-fallbacks_recover :
      (es : List ModelEndpoint) (s : Sorted)
      → fallbacks (each (sort_active false p) s es).active
        ≡ fallbacks s.active + (fallbacks es - one_if (not s.flipped))
  unfolding sort_active
  each-fallbacks_recover [] s = ground arith
  each-fallbacks_recover (e ∷ es) s = ground (
    arith,
    each-fallbacks_recover es (sort_active false p s e),
    tally-append is_fallback s.active (e ∷ []),
  )

  each-fallbacks_keep :
      (es : List ModelEndpoint) (s : Sorted)
      → fallbacks (each (sort_inactive false p) s es).active ≡ fallbacks s.active
  unfolding sort_inactive
  each-fallbacks_keep [] s = refl
  each-fallbacks_keep (e ∷ es) s = ground (
    arith,
    each-fallbacks_keep es (sort_inactive false p s e),
    tally-append is_fallback s.active (e ∷ []),
  )

  -- A fallback event activates one fallback endpoint, if an inactive one is there, and deactivates none.
  pub flip_endpoints-fallbacks_trigger :
      (r : ModelRoute)
      → fallbacks (flip_endpoints true p r).active_endpoints
        ≡ fallbacks r.active_endpoints + one_if (any is_fallback r.inactive_endpoints)
  unfolding flip_endpoints
  flip_endpoints-fallbacks_trigger r =
      each-fallbacks_activate r.inactive_endpoints _
      ∙ ap (λ (n : ℕ). n + one_if (any is_fallback r.inactive_endpoints))
          (each-fallbacks_trigger r.active_endpoints start)
      ∙ omega arith

  -- A recovery deactivates one fallback endpoint, if an active one is there, and activates none.
  pub flip_endpoints-fallbacks_recover :
      (r : ModelRoute)
      → fallbacks (flip_endpoints false p r).active_endpoints ≡ fallbacks r.active_endpoints - 1
  unfolding flip_endpoints
  flip_endpoints-fallbacks_recover r =
      each-fallbacks_keep r.inactive_endpoints _
      ∙ each-fallbacks_recover r.active_endpoints start
      ∙ omega arith

  -- The provider's own primary endpoints leave the active list on a fallback event...
  each-ours_trigger :
      (es : List ModelEndpoint) (s : Sorted)
      → tally (is_ours p) (each (sort_active true p) s es).active ≡ tally (is_ours p) s.active
  unfolding sort_active
  each-ours_trigger [] s = refl
  each-ours_trigger (e ∷ es) s = ground (
    arith,
    each-ours_trigger es (sort_active true p s e),
    tally-append (is_ours p) s.active (e ∷ []),
  )

  each-ours_stay :
      (es : List ModelEndpoint) (s : Sorted)
      → tally (is_ours p) (each (sort_inactive true p) s es).active ≡ tally (is_ours p) s.active
  unfolding sort_inactive
  each-ours_stay [] s = refl
  each-ours_stay (e ∷ es) s = ground (
    arith,
    each-ours_stay es (sort_inactive true p s e),
    tally-append (is_ours p) s.active (e ∷ []),
  )

  -- ... and all are active after a recovery.
  each-ours_recover :
      (es : List ModelEndpoint) (s : Sorted)
      → tally (is_ours p) (each (sort_active false p) s es).active
        ≡ tally (is_ours p) s.active + tally (is_ours p) es
  unfolding sort_active
  each-ours_recover [] s = omega arith
  each-ours_recover (e ∷ es) s = ground (
    arith,
    each-ours_recover es (sort_active false p s e),
    tally-append (is_ours p) s.active (e ∷ []),
  )

  each-ours_activate :
      (es : List ModelEndpoint) (s : Sorted)
      → tally (is_ours p) (each (sort_inactive false p) s es).active
        ≡ tally (is_ours p) s.active + tally (is_ours p) es
  unfolding sort_inactive
  each-ours_activate [] s = omega arith
  each-ours_activate (e ∷ es) s = ground (
    arith,
    each-ours_activate es (sort_inactive false p s e),
    tally-append (is_ours p) s.active (e ∷ []),
  )

  each-ours_leave :
      (es : List ModelEndpoint) (s : Sorted)
      → tally (is_ours p) (each (sort_active false p) s es).inactive ≡ tally (is_ours p) s.inactive
  unfolding sort_active
  each-ours_leave [] s = refl
  each-ours_leave (e ∷ es) s = ground (
    arith,
    each-ours_leave es (sort_active false p s e),
    tally-append (is_ours p) s.inactive (e ∷ []),
  )

  each-ours_drain :
      (es : List ModelEndpoint) (s : Sorted)
      → tally (is_ours p) (each (sort_inactive false p) s es).inactive
        ≡ tally (is_ours p) s.inactive
  unfolding sort_inactive
  each-ours_drain [] s = refl
  each-ours_drain (e ∷ es) s = ground (
    arith,
    each-ours_drain es (sort_inactive false p s e),
    tally-append (is_ours p) s.inactive (e ∷ []),
  )

  pub flip_endpoints-ours_drained :
      (r : ModelRoute) → tally (is_ours p) (flip_endpoints false p r).inactive_endpoints ≡ 0
  unfolding flip_endpoints
  flip_endpoints-ours_drained r =
      each-ours_drain r.inactive_endpoints _ ∙ each-ours_leave r.active_endpoints start

  pub flip_endpoints-ours_trigger :
      (r : ModelRoute) → tally (is_ours p) (flip_endpoints true p r).active_endpoints ≡ 0
  unfolding flip_endpoints
  flip_endpoints-ours_trigger r =
      each-ours_stay r.inactive_endpoints _ ∙ each-ours_trigger r.active_endpoints start

  pub flip_endpoints-ours_recover :
      (r : ModelRoute)
      → tally (is_ours p) (flip_endpoints false p r).active_endpoints
        ≡ tally (is_ours p) (endpoints r)
  unfolding flip_endpoints
  flip_endpoints-ours_recover r = omega (
    arith,
    each-ours_activate r.inactive_endpoints
        (record (each (sort_active false p) start r.active_endpoints) { flipped = false }),
    each-ours_recover r.active_endpoints start,
    tally-append (is_ours p) r.active_endpoints r.inactive_endpoints,
  )
