-- ===== src/Routing/Laws.antt =====
-- What `Resolve` of internal/routing/resolver.go promises, against a specification with no loops:
-- membership of a Studio in the online snapshot, and counting.
use roblox_mcp_gateway.Prelude.{
  ℕ, suc, ◌≤◌, String, ◌≡◌, refl, ◌≢◌, ◌⊎◌, inl, inr, ◌↔◌, List, [], ◌∷◌, Any, none, some, Except,
  ok, err, ◌==◌, string_comparable, if◌then◌else◌, arith, eq_iff, Option-cases, length, ap, subst,
}
use roblox_mcp_gateway.Routing.{
  Error, device_offline, ambiguous_studio, cross_device_studio, studio_not_allowed, studio_offline,
  GrantTarget, RequestTarget, Studio, ResolvedTarget, on_device, find_studio, sole, named, resolve,
}

-- The Studio with this id is online on this device.
abbrev pub IsOnline : String → String → List Studio → Type 0
IsOnline d id online = Any (λ s. (s.device_id ≡ d) × (s.studio_id ≡ id)) online

-- The Studio with this id is online on some device.
abbrev pub IsSomewhere : String → List Studio → Type 0
IsSomewhere id online = Any (λ s. s.studio_id ≡ id) online

-- How many Studios the device reports.
abbrev pub studio_count : String → List Studio → ℕ
studio_count d [] = 0
studio_count d (s ∷ online) =
    if s.device_id == d then suc (studio_count d online) else studio_count d online

-- The Studio that a request prefers: its own, else the one that the grant is bound to.
abbrev pub preferred : GrantTarget → RequestTarget → String
preferred grant request = if request.studio_id == "" then grant.studio_id else request.studio_id

-- The request names a Studio other than the bound one.
abbrev pub IsDenied : GrantTarget → RequestTarget → Type 0
IsDenied grant request =
    (request.studio_id ≢ "") × (grant.studio_id ≢ "") × (request.studio_id ≢ grant.studio_id)

find_on_device-IsOnline :
    (d id : String) (online : List Studio) (s : Studio)
    → find_studio (on_device d online) id ≡ some s
    → IsOnline d id online
unfolding find_studio on_device
find_on_device-IsOnline d id [] s h = cc
find_on_device-IsOnline d id (t ∷ online) s h =
    ground
      (arith, find_on_device-IsOnline d id online s, eq_iff t.device_id d, eq_iff t.studio_id id)

find_on_device-none :
    (d id : String) (online : List Studio)
    → find_studio (on_device d online) id ≡ none
    → ¬ IsOnline d id online
unfolding find_studio on_device
find_on_device-none d id [] h o = o
find_on_device-none d id (t ∷ online) h o =
    ground (arith, find_on_device-none d id online, eq_iff t.device_id d, eq_iff t.studio_id id)

find-IsSomewhere :
    (id : String) (online : List Studio) (s : Studio)
    → find_studio online id ≡ some s
    → IsSomewhere id online
unfolding find_studio
find-IsSomewhere id [] s h = cc
find-IsSomewhere id (t ∷ online) s h =
    ground (arith, find-IsSomewhere id online s, eq_iff t.studio_id id)

find-none :
    (id : String) (online : List Studio) → find_studio online id ≡ none → ¬ IsSomewhere id online
unfolding find_studio
find-none id [] h o = o
find-none id (t ∷ online) h o = ground (arith, find-none id online, eq_iff t.studio_id id)

module _ (grant : GrantTarget) (request : RequestTarget) (online : List Studio) where
  -- What each answer of the policy means.
  abbrev pub Means : Except Error ResolvedTarget → Type 0
  Means (ok t) =
      (grant.device_id ≢ "")
      × (t.device_id ≡ grant.device_id)
      × IsOnline grant.device_id t.studio_id online
      × ¬ IsDenied grant request
      × (((preferred grant request ≢ "") × (t.studio_id ≡ preferred grant request))
          ⊎ ((preferred grant request ≡ "") × (studio_count grant.device_id online ≡ 1)))
  Means (err studio_not_allowed) = (grant.device_id ≢ "") × IsDenied grant request
  Means (err cross_device_studio) =
      (grant.device_id ≢ "")
      × (preferred grant request ≢ "")
      × ¬ IsDenied grant request
      × ¬ IsOnline grant.device_id (preferred grant request) online
      × IsSomewhere (preferred grant request) online
  Means (err studio_offline) =
      (grant.device_id ≢ "")
      × (preferred grant request ≢ "")
      × ¬ IsDenied grant request
      × ¬ IsSomewhere (preferred grant request) online
  Means (err ambiguous_studio) =
      (grant.device_id ≢ "")
      × (preferred grant request ≡ "")
      × (2 ≤ studio_count grant.device_id online)
  Means (err device_offline) =
      (grant.device_id ≡ "")
      ⊎ ((grant.device_id ≢ "")
          × (preferred grant request ≡ "")
          × (studio_count grant.device_id online ≡ 0))

length-on_device :
    (d : String) (online : List Studio) → length (on_device d online) ≡ studio_count d online
unfolding on_device
length-on_device d [] = refl
length-on_device d (s ∷ online) = ground (arith, length-on_device d online)

on_device-IsOnline :
    (d : String) (online : List Studio) (s : Studio) (rest : List Studio)
    → on_device d online ≡ s ∷ rest
    → IsOnline d s.studio_id online
unfolding on_device
on_device-IsOnline d [] s rest h = cc
on_device-IsOnline d (t ∷ online) s rest h =
    ground (arith, on_device-IsOnline d online s rest, eq_iff t.device_id d)

not-IsOnline_of_count :
    (d id : String) (online : List Studio) → studio_count d online ≡ 0 → ¬ IsOnline d id online
not-IsOnline_of_count d id [] h o = o
not-IsOnline_of_count d id (t ∷ online) h o =
    ground (arith, not-IsOnline_of_count d id online, eq_iff t.device_id d)

IsOnline-unique :
    (d a b : String) (online : List Studio)
    → studio_count d online ≡ 1
    → IsOnline d a online
    → IsOnline d b online
    → a ≡ b
IsOnline-unique d a b [] h p q = absurd p
IsOnline-unique d a b (t ∷ online) h p q = ground (
  arith,
  IsOnline-unique d a b online,
  not-IsOnline_of_count d a online,
  not-IsOnline_of_count d b online,
  eq_iff t.device_id d,
)

IsSomewhere-of_IsOnline :
    (d id : String) (online : List Studio) → IsOnline d id online → IsSomewhere id online
IsSomewhere-of_IsOnline d id [] o = o
IsSomewhere-of_IsOnline d id (t ∷ online) o = ground (arith, IsSomewhere-of_IsOnline d id online)

-- Two answers that both hold of one request are one answer.
Means-unique :
    (grant : GrantTarget) (request : RequestTarget) (online : List Studio)
    (x y : Except Error ResolvedTarget)
    → Means grant request online x
    → Means grant request online y
    → x ≡ y
Means-unique grant request online (ok s) (ok t) p q =
    ground (arith, IsOnline-unique grant.device_id s.studio_id t.studio_id online)
Means-unique grant request online (err device_offline) (err device_offline) p q = refl
Means-unique grant request online (ok s) (err device_offline) p q =
    ground (arith, not-IsOnline_of_count grant.device_id s.studio_id online)
Means-unique grant request online (err device_offline) (ok t) p q =
    ground (arith, not-IsOnline_of_count grant.device_id t.studio_id online)
Means-unique grant request online (ok s) (err e) p q =
    ground (arith, IsSomewhere-of_IsOnline grant.device_id s.studio_id online)
Means-unique grant request online (err e) (ok t) p q =
    ground (arith, IsSomewhere-of_IsOnline grant.device_id t.studio_id online)
Means-unique grant request online (err d) (err e) p q = ground arith

sole-Means :
    (grant : GrantTarget) (request : RequestTarget) (online : List Studio)
    → grant.device_id ≢ ""
    → preferred grant request ≡ ""
    → ¬ IsDenied grant request
    → (l : List Studio) → on_device grant.device_id online ≡ l
    → Means grant request online (sole grant.device_id l)
unfolding sole
sole-Means grant request online d w a [] e =
    ground (arith, length-on_device grant.device_id online, ap length e)
sole-Means grant request online d w a (s ∷ []) e = ground (
  arith,
  length-on_device grant.device_id online,
  ap length e,
  on_device-IsOnline grant.device_id online s [],
)
sole-Means grant request online d w a (s ∷ t ∷ rest) e =
    (d, w, omega (arith, length-on_device grant.device_id online, ap length e))

named-Means :
    (grant : GrantTarget) (request : RequestTarget) (online : List Studio)
    → grant.device_id ≢ ""
    → preferred grant request ≢ ""
    → ¬ IsDenied grant request
    → Means grant request online (named grant.device_id online (preferred grant request))
unfolding named
named-Means grant request online d w a =
    let id = preferred grant request in
    let dev = grant.device_id in
    elim (Option-cases (find_studio (on_device dev online) id)) [
      | inr (s, e) ↦
          rw (e, named) (d, refl, find_on_device-IsOnline dev id online s e, a, inl (w, refl))
      | inl away ↦ elim (Option-cases (find_studio online id)) [
        | inr (s, e) ↦
            rw (away, e, named)
              (d, w, a, find_on_device-none dev id online away, find-IsSomewhere id online s e)
        | inl e ↦ rw (away, e, named) (d, w, a, find-none id online e)
      ]
    ]

-- The four ways through the guards of `Resolve`.
resolve_cases :
    (grant : GrantTarget) (request : RequestTarget) (online : List Studio)
    → ((resolve grant request online ≡ err device_offline) × (grant.device_id ≡ ""))
      ⊎ ((resolve grant request online ≡ err studio_not_allowed)
          × (grant.device_id ≢ "")
          × IsDenied grant request)
      ⊎ ((resolve grant request online ≡ named grant.device_id online (preferred grant request))
          × (grant.device_id ≢ "")
          × (preferred grant request ≢ "")
          × ¬ IsDenied grant request)
      ⊎ ((resolve grant request online ≡ sole grant.device_id (on_device grant.device_id online))
          × (grant.device_id ≢ "")
          × (preferred grant request ≡ "")
          × ¬ IsDenied grant request)
unfolding resolve
resolve_cases grant request online = ground (
  arith,
  eq_iff grant.device_id "",
  eq_iff request.studio_id "",
  eq_iff grant.studio_id "",
  eq_iff request.studio_id grant.studio_id,
)

resolve-Means :
    (grant : GrantTarget) (request : RequestTarget) (online : List Studio)
    → Means grant request online (resolve grant request online)
resolve-Means grant request online = elim (resolve_cases grant request online) [
  | inl (e, d) ↦ rw e (inl d)
  | inr (inl (e, d, a)) ↦ rw e (d, a)
  | inr (inr (inl (e, d, w, a))) ↦ rw e (named-Means grant request online d w a)
  | inr (inr (inr (e, d, w, a))) ↦
      rw e (sole-Means grant request online d w a (on_device grant.device_id online) refl)
]

-- The answer of `Resolve` is the one that holds of the request: a target exactly for an online
-- Studio of the grant's device that the grant allows and the request prefers (or the device's sole
-- Studio), and each error exactly in its case.
pub resolve_iff :
    (grant : GrantTarget) (request : RequestTarget) (online : List Studio)
    (x : Except Error ResolvedTarget)
    → (resolve grant request online ≡ x) ↔ Means grant request online x
resolve_iff grant request online x = (
  λ e. subst (Means grant request online) e (resolve-Means grant request online),
  λ m. Means-unique grant request online _ x (resolve-Means grant request online) m,
)
