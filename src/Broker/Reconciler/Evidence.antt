-- ===== src/Broker/Reconciler/Evidence.antt =====
-- What the events of a run say of its success, for `refresh` of
-- src/relay-broker/run-reconciler.ts.
use deepseek_harness_relay_m.Base.{
  ℕ, ◌<◌, ◌≡◌, sym, ◌∙◌, ◌⊎◌, inl, inr, Bool, true, Option, none, some, List, [], ◌∷◌, arith, ◌==◌,
  ==_iff, string_eq, find, filter, Bool-cases, Option-cases,
}
use deepseek_harness_relay_m.Types.{RunStatus, RpcEvent}
use deepseek_harness_relay_m.Events.RunEvents.{user_rpc_id, kind_of}
use deepseek_harness_relay_m.Broker.Reconciler.Run.{
  World, Refreshed, owned_events, last_turn_end, ends_before,
}

-- Being one of the events.
abbrev pub IsIn : RpcEvent → List RpcEvent → Type 0
IsIn e [] = ⊥
IsIn e (x ∷ events) = (e ≡ x) ⊎ IsIn e events

pub IsIn-find :
    (events : List RpcEvent) (p : RpcEvent → Bool) (e : RpcEvent)
    → find p events ≡ some e
    → IsIn e events
IsIn-find [] p e h = absurd (cc)
IsIn-find (x ∷ events) p e h = elim (Bool-cases (p x)) [
  | inl first ↦ inl (ground arith)
  | inr later ↦ inr (IsIn-find events p e (rw later at h))
]

IsIn-filter :
    (events : List RpcEvent) (p : RpcEvent → Bool) (e : RpcEvent)
    → IsIn e (filter p events)
    → IsIn e events × (p e ≡ true)
IsIn-filter [] p e h = absurd h
IsIn-filter (x ∷ events) p e h = elim (Bool-cases (p x)) [
  | inr out ↦ let (later, holds) = IsIn-filter events p e (rw out at h) in (inr later, holds)
  | inl kept ↦
      let first_or_later : (e ≡ x) ⊎ IsIn e (filter p events) = rw kept at h in
      elim first_or_later [
        | inl same ↦ (inl same, rw same kept)
        | inr later ↦ let (in_rest, holds) = IsIn-filter events p e later in (inr in_rest, holds)
      ]
]

pub last_turn_end-IsIn :
    (events : List RpcEvent) (e : RpcEvent)
    → last_turn_end events ≡ some e
    → IsIn e events × (e.type ≡ "turn/end")
unfolding last_turn_end
last_turn_end-IsIn [] e h = absurd (cc)
last_turn_end-IsIn (x ∷ events) e h = elim (Option-cases (last_turn_end events)) [
  | inr (later, found) ↦
      let (in_rest, ends) = last_turn_end-IsIn events e (found ∙ rw found at h) in
      (inr in_rest, ends)
  | inl none_later ↦ elim (Bool-cases (x.type == "turn/end")) [
    | inr another ↦ absurd (ground arith)
    | inl ends ↦
        let same : x ≡ e = ground arith in
        (inl (sym same), rw (sym same) ((==_iff x.type "turn/end").0 ends))
  ]
]

-- What a success rests on: the prompt's event, and after it the end of a turn that was completed.
abbrev pub Evidence : World → Type 0
Evidence w =
    (prompt terminal : RpcEvent) × IsIn prompt w.run.events
    × IsIn terminal w.run.events
    × (user_rpc_id prompt ≡ some w.run.prompt_rpc_id)
    × (prompt.seq < terminal.seq)
    × (terminal.type ≡ "turn/end")
    × (kind_of terminal ≡ some "completed")

abbrev pub IsSuccess : World → Type 0
IsSuccess w = w.run.snapshot.status ≡ RunStatus.succeeded

pub record Supported {ℓ} {E : Type ℓ} (o : Refreshed E) : Type 0 where
  pub support : IsSuccess o.1 → Evidence o.1

owned_after :
    (prompt : RpcEvent) (foreign : Option RpcEvent) (seq : ℕ)
    → ends_before prompt.seq foreign seq ≡ true
    → prompt.seq < seq
owned_after prompt none seq h = ground arith
owned_after prompt (some f) seq h = ground arith

pub owned_events-IsIn :
    (w : World) (prompt e : RpcEvent)
    → IsIn e (owned_events w prompt)
    → IsIn e w.run.events × (prompt.seq < e.seq)
unfolding owned_events
owned_events-IsIn w prompt e h =
    let (inside, holds) = IsIn-filter w.run.events _ e h in
    (inside, owned_after prompt _ e.seq holds)
