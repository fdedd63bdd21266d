-- ===== src/Fallback/Endpoints.antt =====
-- What `refreshEndpoints` (internal/fallback/service.go) does to the endpoints of a route.
use mathlib.Core.List.{Perm, perm_middle, perm_append_comm, perm_append_singleton}
use mathlib.Core.List.Perm
use enchanted_proxy.Prelude.{
  Bool, false, not, ◌&&◌, List, [], ◌∷◌, ◌++◌, ◌≡◌, refl, sym, ◌∙◌, ◌⊎◌, inl, inr, Text, text_eq,
  arith, select, select-append, append-nil, append_assoc,
}
use enchanted_proxy.Routing.Types.{ModelEndpoint, ModelRoute, is_primary}
use enchanted_proxy.Fallback.Worker.{
  Sorted, sort_active, sort_inactive, each, start, flip_endpoints,
}

abbrev pub endpoints : ModelRoute → List ModelEndpoint
endpoints r = r.active_endpoints ++ r.inactive_endpoints

abbrev both : Sorted → List ModelEndpoint
both s = s.active ++ s.inactive

-- Where a body puts its endpoint, whatever it does to the flag.
abbrev Puts : (Sorted → ModelEndpoint → Sorted) → Type 0
Puts body =
    (s : Sorted) (e : ModelEndpoint)
    → ((body s e).active ≡ s.active ++ e ∷ []) × ((body s e).inactive ≡ s.inactive)
      ⊎ ((body s e).active ≡ s.active) × ((body s e).inactive ≡ s.inactive ++ e ∷ [])

sort_active-Puts : (t : Bool) (p : Text) → Puts (sort_active t p)
unfolding sort_active
sort_active-Puts t p s e = ground arith

sort_inactive-Puts : (t : Bool) (p : Text) → Puts (sort_inactive t p)
unfolding sort_inactive
sort_inactive-Puts t p s e = ground arith

perm_snoc_left :
    (xs ys : List ModelEndpoint) (e : ModelEndpoint) → Perm ((xs ++ e ∷ []) ++ ys) (e ∷ (xs ++ ys))
perm_snoc_left xs ys e = Perm.append_right ys (perm_append_singleton e xs)

perm_snoc_right :
    (xs ys : List ModelEndpoint) (e : ModelEndpoint) → Perm (xs ++ (ys ++ e ∷ [])) (e ∷ (xs ++ ys))
perm_snoc_right xs ys e = rw (← append_assoc) (perm_append_singleton e (xs ++ ys))

body-perm :
    (body : Sorted → ModelEndpoint → Sorted)
    → Puts body
    → (s : Sorted) (e : ModelEndpoint) → Perm (both (body s e)) (e ∷ both s)
body-perm body puts s e = elim (puts s e) [
  | inl (a, b) ↦ rw (a, b) (perm_snoc_left s.active s.inactive e)
  | inr (a, b) ↦ rw (a, b) (perm_snoc_right s.active s.inactive e)
]

each-perm :
    (body : Sorted → ModelEndpoint → Sorted)
    → Puts body
    → (es : List ModelEndpoint) (s : Sorted) → Perm (both (each body s es)) (es ++ both s)
each-perm body puts [] s = Perm.refl _
each-perm body puts (e ∷ es) s =
    Perm.trans (each-perm body puts es (body s e))
      (Perm.trans (Perm.append_left es (body-perm body puts s e)) (perm_middle es (both s)))

-- A change of state moves endpoints between the two lists of the route: none is lost, made up or
-- doubled.
pub flip_endpoints-perm :
    (t : Bool) (p : Text) (r : ModelRoute) → Perm (endpoints (flip_endpoints t p r)) (endpoints r)
unfolding flip_endpoints
flip_endpoints-perm t p r =
    let s = each (sort_active t p) start r.active_endpoints in
    Perm.trans
      (each-perm (sort_inactive t p) (sort_inactive-Puts t p) r.inactive_endpoints
        (record s { flipped = false }))
      (Perm.trans
        (Perm.append_left r.inactive_endpoints
          (each-perm (sort_active t p) (sort_active-Puts t p) r.active_endpoints start))
        (rw append-nil (perm_append_comm r.inactive_endpoints r.active_endpoints)))

-- The primary endpoints that a worker for this provider moves.
abbrev pub is_ours : Text → ModelEndpoint → Bool
is_ours p e = is_primary e && text_eq e.provider.name p

-- The primary endpoints of other providers.
abbrev pub is_foreign : Text → ModelEndpoint → Bool
is_foreign p e = is_primary e && not (text_eq e.provider.name p)

module _ (t : Bool) (p : Text) where
  each-foreign_active :
      (es : List ModelEndpoint) (s : Sorted)
      → select (is_foreign p) (each (sort_active t p) s es).active
        ≡ select (is_foreign p) s.active ++ select (is_foreign p) es
  unfolding sort_active
  each-foreign_active [] s = sym (append-nil _)
  each-foreign_active (e ∷ es) s =
      each-foreign_active es (sort_active t p s e)
      ∙ ground (
        arith,
        select-append (is_foreign p) s.active (e ∷ []),
        append-nil (select (is_foreign p) s.active),
        append_assoc (select (is_foreign p) s.active) (e ∷ []) (select (is_foreign p) es),
      )

  each-foreign_inactive :
      (es : List ModelEndpoint) (s : Sorted)
      → select (is_foreign p) (each (sort_inactive t p) s es).active
        ≡ select (is_foreign p) s.active
  unfolding sort_inactive
  each-foreign_inactive [] s = refl
  each-foreign_inactive (e ∷ es) s =
      each-foreign_inactive es (sort_inactive t p s e)
      ∙ ground (
        arith,
        select-append (is_foreign p) s.active (e ∷ []),
        append-nil (select (is_foreign p) s.active),
      )

  -- Primary endpoints of other providers stay active or inactive, in the same order.
  pub flip_endpoints-foreign :
      (r : ModelRoute)
      → select (is_foreign p) (flip_endpoints t p r).active_endpoints
        ≡ select (is_foreign p) r.active_endpoints
  unfolding flip_endpoints
  flip_endpoints-foreign r =
      each-foreign_inactive r.inactive_endpoints _ ∙ each-foreign_active r.active_endpoints start
