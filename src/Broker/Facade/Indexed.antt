-- ===== src/Broker/Facade/Indexed.antt =====
-- The index of services by workspace in src/relay-broker/relay-broker-facade.ts.
use deepseek_harness_relay_m.Base.{
  ℕ, String, ◌≡◌, refl, sym, ap, ◌∙◌, inl, inr, Bool, true, false, Option, none, some, arith, ◌==◌,
  ==_iff, string_eq, Bool-cases, Option-cases, is_some,
}
use deepseek_harness_relay_m.Base.Map
use deepseek_harness_relay_m.Base.Map.{Map}
use deepseek_harness_relay_m.Base.Result.{Result, ok, err}
use deepseek_harness_relay_m.Types.{ServiceSnapshot}
use deepseek_harness_relay_m.Broker.Facade.{Broker, is_running_service}
use deepseek_harness_relay_m.Broker.Facade.Services.{
  Workspace, Resolution, Outside, Done, put, existing, stopped, with_stopped, open_service_page,
  persist_and_return, new_service, attached, attach, start_new, reuse, start_resolved_service,
  open_known, open_service, stop_known, stop_service,
}

-- Services are listed under their ids, and the index names a running service of each workspace in it.
pub record IsIndexed (b : Broker) : Type 0 where
  pub keyed :
      (id : String) (s : ServiceSnapshot) → Map.get b.services id ≡ some s → s.service_id ≡ id
  pub indexed :
      (path id : String)
      → Map.get b.service_by_workspace path ≡ some id
      → (s : ServiceSnapshot) × (Map.get b.services id ≡ some s)
        × (is_running_service s.status ≡ true)
        × (s.workspace ≡ path)

-- A change of a listed service that leaves its id, its workspace and its status.
put-IsIndexed :
    (b : Broker) (id : String) (s t : ServiceSnapshot)
    → IsIndexed b
    → Map.get b.services id ≡ some s
    → t.service_id ≡ s.service_id
    → t.workspace ≡ s.workspace
    → t.status ≡ s.status
    → IsIndexed (put b t)
put-IsIndexed b id s t v known same_id same_workspace same_status =
    let at_id : t.service_id ≡ id = same_id ∙ v.keyed id s known in
    record {
      keyed = λ i u h. elim (Bool-cases (t.service_id == i)) [
        | inl same ↦
            let found : t ≡ u = ground (arith, Map.get-set b.services t.service_id i t, h) in
            sym (ap (λ x. x.service_id) found) ∙ (==_iff t.service_id i).0 same
        | inr different ↦ v.keyed i u (ground (arith, Map.get-set b.services t.service_id i t, h))
      ];
      indexed = λ path i h.
          let (u, found, runs, place) = v.indexed path i h in
          elim (Bool-cases (t.service_id == i)) [
            | inr different ↦
                (u, Map.get-set b.services t.service_id i t ∙ rw different found, runs, place)
            | inl same ↦
                let here : i ≡ id = sym ((==_iff t.service_id i).0 same) ∙ at_id in
                let same_service : u ≡ s = ground (arith, found, known, here) in
                (
                  t,
                  Map.get-set b.services t.service_id i t ∙ rw same refl,
                  ap (λ x. is_running_service x) same_status
                      ∙ ap (λ x. is_running_service x.status) (sym same_service)
                      ∙ runs,
                  same_workspace ∙ ap (λ x. x.workspace) (sym same_service) ∙ place,
                )
          ];
    }

module _ {ℓ} {E : Type ℓ} (o : Outside E) where
  -- The new service's id is fresh.
  attached-IsIndexed :
      (b : Broker) (w : Workspace)
      → Map.get b.services o.fresh_id ≡ none
      → IsIndexed b
      → IsIndexed (attached o b w)
  attached-IsIndexed b w fresh v =
      let made = new_service o w in
      record {
        keyed = λ i u h. elim (Bool-cases (o.fresh_id == i)) [
          | inl same ↦
              let found : made ≡ u = ground (arith, Map.get-set b.services o.fresh_id i made, h) in
              sym (ap (λ x. x.service_id) found) ∙ (==_iff o.fresh_id i).0 same
          | inr different ↦
              v.keyed i u (ground (arith, Map.get-set b.services o.fresh_id i made, h))
        ];
        indexed = λ path i h. elim (Bool-cases (w.path == path)) [
          | inl here ↦
              let named : o.fresh_id ≡ i =
                ground (arith, Map.get-set b.service_by_workspace w.path path o.fresh_id, h) in
              (
                made,
                ground
                    (arith, Map.get-set b.services o.fresh_id i made, ==_iff o.fresh_id i, named),
                refl,
                (==_iff w.path path).0 here,
              )
          | inr elsewhere ↦
              let (u, found, runs, place) =
                v.indexed path i
                  (ground (arith, Map.get-set b.service_by_workspace w.path path o.fresh_id, h)) in
              let other_id : (o.fresh_id == i) ≡ false =
                ground (arith, ==_iff o.fresh_id i, fresh, found) in
              (u, Map.get-set b.services o.fresh_id i made ∙ rw other_id found, runs, place)
        ];
      }

with_stopped-IsIndexed :
    (b : Broker) (id : String) (s : ServiceSnapshot) (now : ℕ)
    → IsIndexed b
    → Map.get b.services id ≡ some s
    → IsIndexed (with_stopped now b s)
with_stopped-IsIndexed b id s now v known =
    let t = stopped now s in
    let at_id : s.service_id ≡ id = v.keyed id s known in
    record {
      keyed = λ i u h. elim (Bool-cases (s.service_id == i)) [
        | inl same ↦
            let found : t ≡ u = ground (arith, Map.get-set b.services s.service_id i t, h) in
            sym (ap (λ x. x.service_id) found) ∙ (==_iff s.service_id i).0 same
        | inr different ↦ v.keyed i u (ground (arith, Map.get-set b.services s.service_id i t, h))
      ];
      indexed = λ path i h. elim (Bool-cases (s.workspace == path)) [
        | inl gone ↦
            absurd (ground (arith, Map.get-delete b.service_by_workspace s.workspace path, h))
        | inr kept ↦
            let (u, found, runs, place) =
              v.indexed path i
                (ground (arith, Map.get-delete b.service_by_workspace s.workspace path, h)) in
            elim (Bool-cases (s.service_id == i)) [
              | inr different ↦
                  (u, Map.get-set b.services s.service_id i t ∙ rw different found, runs, place)
              | inl same ↦
                  let here : i ≡ id = sym ((==_iff s.service_id i).0 same) ∙ at_id in
                  let same_service : u ≡ s = ground (arith, found, known, here) in
                  let same_place : s.workspace ≡ path =
                    ap (λ x. x.workspace) (sym same_service) ∙ place in
                  absurd (ground (arith, ==_iff s.workspace path, kept, same_place))
            ]
      ];
    }

module _ {ℓ} {E : Type ℓ} (o : Outside E) where
  persist_and_return-IsIndexed :
      (r : Result E (Unit {0})) (b : Broker) (s : ServiceSnapshot)
      → IsIndexed b
      → IsIndexed (persist_and_return r b s).1
  unfolding persist_and_return
  persist_and_return-IsIndexed (ok _) b s v = v
  persist_and_return-IsIndexed (err e) b s v = v

  open_service_page-IsIndexed :
      (r : Result String (Unit {0})) (b : Broker) (id : String) (s : ServiceSnapshot)
      (rest : Broker → ServiceSnapshot → Done E)
      → IsIndexed b
      → Map.get b.services id ≡ some s
      → ((c : Broker) (t : ServiceSnapshot) → IsIndexed c → IsIndexed (rest c t).1)
      → IsIndexed (open_service_page r b s rest).1
  unfolding open_service_page
  open_service_page-IsIndexed (ok _) b id s rest v known k =
      k _ _ (put-IsIndexed b id s _ v known refl refl refl)
  open_service_page-IsIndexed (err text) b id s rest v known k =
      put-IsIndexed b id s _ v known refl refl refl

  module _ (b : Broker) (v : IsIndexed b) where
    attach-IsIndexed :
        (r : Result E Workspace) (open_browser : Bool)
        → Map.get b.services o.fresh_id ≡ none
        → IsIndexed (attach o b open_browser r).1
    unfolding attach
    attach-IsIndexed (err e) open_browser fresh = v
    attach-IsIndexed (ok w) false fresh =
        persist_and_return-IsIndexed o.persisted _ _ (attached-IsIndexed o b w fresh v)
    attach-IsIndexed (ok w) true fresh =
        open_service_page-IsIndexed o.opens _ o.fresh_id _ _ (attached-IsIndexed o b w fresh v)
          (ground (
            arith,
            Map.get-set b.services o.fresh_id o.fresh_id (new_service o w),
            ==_iff o.fresh_id o.fresh_id,
          ))
          (λ c t. persist_and_return-IsIndexed o.persisted c t)

    start_new-IsIndexed :
        (r : Result E (Unit {0})) (open_browser : Bool) (w : Option Workspace)
        → Map.get b.services o.fresh_id ≡ none
        → IsIndexed (start_new o b open_browser w r).1
    unfolding start_new
    start_new-IsIndexed (err e) open_browser w fresh = v
    start_new-IsIndexed (ok _) open_browser w fresh = attach-IsIndexed _ open_browser fresh

    stop_known-IsIndexed :
        (known : Option ServiceSnapshot) (id : String)
        → Map.get b.services id ≡ known
        → IsIndexed (stop_known o b id known).1
    unfolding stop_known
    stop_known-IsIndexed none id h = v
    stop_known-IsIndexed (some s) id h = elim (Bool-cases (is_running_service s.status)) [
      | inl runs ↦
          rw runs
            (persist_and_return-IsIndexed o.persisted _ _ (with_stopped-IsIndexed b id s o.now v h))
      | inr stopped_before ↦ rw stopped_before (persist_and_return-IsIndexed o.persisted b s v)
    ]

    open_known-IsIndexed :
        (known : Option ServiceSnapshot) (id : String)
        → Map.get b.services id ≡ known
        → IsIndexed (open_known o b id known).1
    unfolding open_known
    open_known-IsIndexed none id h = v
    open_known-IsIndexed (some s) id h = elim (Bool-cases (is_running_service s.status)) [
      | inl runs ↦ rw runs (
          open_service_page-IsIndexed o.opens b id s _ v h
            (λ c t. persist_and_return-IsIndexed o.persisted c t))
      | inr stopped_before ↦ rw stopped_before v
    ]

    reuse-IsIndexed :
        (known : Option ServiceSnapshot) (open_browser : Bool) (r : Resolution) (id : String)
        → (is_some known ≡ true → Map.get b.services id ≡ known)
        → Map.get b.services o.fresh_id ≡ none
        → IsIndexed (reuse o b open_browser r known).1
    unfolding reuse
    reuse-IsIndexed none open_browser r id h fresh =
        start_new-IsIndexed o.described open_browser r.workspace fresh
    reuse-IsIndexed (some s) open_browser r id h fresh =
        elim (Bool-cases (is_running_service s.status)) [
          | inr stopped_before ↦
              rw stopped_before (start_new-IsIndexed o.described open_browser r.workspace fresh)
          | inl runs ↦ elim (Bool-cases open_browser) [
            | inr stays_shut ↦ rw (runs, stays_shut) v
            | inl opens ↦
                rw (runs, opens)
                  (open_service_page-IsIndexed o.opens b id s _ v (h refl) (λ c t w. w))
          ]
        ]

    existing-listed :
        (path : String)
        → (id : String) × (is_some (existing b path) ≡ true
            → Map.get b.services id ≡ existing b path)
    existing-listed path = elim (Option-cases (Map.get b.service_by_workspace path)) [
      | inl absent ↦ ("", λ h. absurd (ground arith))
      | inr (id, present) ↦ (id, λ h. rw (existing, present) refl)
    ]

    -- Whatever the Host, the browser and the state store answer, starting a service under a fresh id,
    -- opening one and stopping one keep the index: services stand under their ids, and the index
    -- names for a workspace only a running service in that workspace.
    pub service_calls-IsIndexed :
        (open_browser : Bool) (r : Resolution) (id : String)
        → Map.get b.services o.fresh_id ≡ none
        → IsIndexed (start_resolved_service o b open_browser r).1
          × IsIndexed (open_service o b id).1
          × IsIndexed (stop_service o b id).1
    unfolding start_resolved_service open_service stop_service
    service_calls-IsIndexed open_browser r id fresh =
        let (at_id, listed) = existing-listed r.path in
        (
          reuse-IsIndexed (existing b r.path) open_browser r at_id listed fresh,
          open_known-IsIndexed (Map.get b.services id) id refl,
          stop_known-IsIndexed (Map.get b.services id) id refl,
        )
