-- ===== src/Monitor/Deliver/Filed.antt =====
-- Which events are filed as delivered.
use mathlib.Core.Logic.Or
use mathlib.Core.Path.{subst}
use mathlib.Core.List.{Mem, mem-cons, mem-cons_self}
use cpa_quota_alert_plugin.Base.{
  ℕ, String, Bool, true, false, Option, none, some, List, [], ◌∷◌, ◌==◌, ◌≡◌, ◌⊎◌, refl, sym, ap,
  ◌∙◌, arith, eq_iff, Bool-cases, inl, inr,
}
use cpa_quota_alert_plugin.Base.Dict.{Dict, lookup, insert, lookup-insert}
use cpa_quota_alert_plugin.Runtime.{Runtime}
use cpa_quota_alert_plugin.Monitor.Types.{Event, State}
use cpa_quota_alert_plugin.Monitor.Deliver.{
  status_at, all_delivered, update_delivered_time, all_configured_delivered, note_delivery,
  note_pending, file_delivered, mark_noted, mark_delivered,
}

lookup-all_delivered :
    (d : Dict String) (c status : String)
    → all_delivered d ≡ true
    → lookup c d ≡ some status
    → status ≡ "delivered"
unfolding all_delivered lookup
lookup-all_delivered [] c status all found = absurd (ground arith)
lookup-all_delivered ((other, value) ∷ d) c status all found =
    ground (arith, lookup-all_delivered d c status, eq_iff value "delivered")

lookup-insert_delivered :
    (d : Dict String) (channel value c status : String)
    → all_delivered (insert channel value d) ≡ true
    → lookup c d ≡ some status
    → (lookup c (insert channel value d) ≡ some "delivered")
      × ((status ≡ "delivered") ⊎ ((c ≡ channel) × (value ≡ "delivered")))
lookup-insert_delivered d channel value c status all found =
    let after = lookup-insert channel c value d in
    let known = lookup-all_delivered (insert channel value d) c in
    elim (Bool-cases (channel == c)) [
      | inl own ↦
          let at : lookup c (insert channel value d) ≡ some value = ground arith in
          let same : value ≡ "delivered" = known value all at in
          (ground arith, inr (ground (arith, eq_iff channel c), same))
      | inr other ↦
          let at : lookup c (insert channel value d) ≡ some status = ground arith in
          let same : status ≡ "delivered" = known status all at in (ground arith, inl same)
    ]

module _ (rt : Runtime) where
  -- Each channel that the first event is addressed to has the second as delivered, since it had the
  -- first or is the channel of a delivery that succeeds.
  abbrev pub IsReached : String → Bool → Event rt → Event rt → Type 0
  IsReached channel delivered before after =
      (c status : String)
      → lookup c before.delivery ≡ some status
      → (lookup c after.delivery ≡ some "delivered")
        × ((status ≡ "delivered") ⊎ ((c ≡ channel) × (delivered ≡ true)))

  note_delivery-IsReached :
      (e : Event rt) (channel : String) (delivered : Bool)
      → all_configured_delivered rt (note_delivery rt e channel delivered) ≡ true
      → IsReached channel delivered e (note_delivery rt e channel delivered)
  unfolding note_delivery all_configured_delivered
  note_delivery-IsReached e channel true all c status found =
      let (here, from) =
        lookup-insert_delivered e.delivery channel "delivered" c status (ground arith) found in
      (here, ground arith)
  note_delivery-IsReached e channel false all c status found =
      elim (Bool-cases (status_at channel e.delivery == "delivered")) [
        | inl had ↦
            let same = lookup-all_delivered e.delivery c status (ground arith) found in
            (ground arith, inl same)
        | inr failed ↦
            let (here, from) =
              lookup-insert_delivered e.delivery channel "failed" c status (ground arith) found in
            (
              ground arith,
              elim from [
                | inl same ↦ inl same
                | inr (_, bad) ↦ absurd (ground (arith, (eq_iff "failed" "delivered").1 bad))
              ],
            )
      ]

  -- What is filed under a key comes from a pending event with that key, which the delivery is of and
  -- which has reached its channels.
  abbrev pub IsFiledOf : State rt → String → String → Bool → String → Event rt → Type 0
  IsFiledOf s id channel delivered key e =
      (p : Event rt) × Mem p s.pending_events
      × (p.id ≡ key)
      × (key ≡ id)
      × IsReached channel delivered p e

  found-note_pending :
      (events : List (Event rt)) (id channel : String) (delivered : Bool) (e : Event rt)
      → (note_pending rt events id channel delivered).1 ≡ some e
      → (p : Event rt) × Mem p events × (p.id ≡ id) × (e ≡ note_delivery rt p channel delivered)
  unfolding note_pending
  found-note_pending [] id channel delivered e h = absurd (ground arith)
  found-note_pending (event ∷ more) id channel delivered e h = elim (Bool-cases (event.id == id)) [
    | inl this ↦ (event, mem-cons_self, ground (arith, eq_iff event.id id), ground arith)
    | inr other ↦
        let (p, member, same, noted) =
          found-note_pending more id channel delivered e (ground arith) in
        (p, mem-cons.1 (Or.inr member), same, noted)
  ]

  mark_noted-filed :
      (s : State rt) (delivered : Bool) (now : ℕ) (pending : List (Event rt)) (noted e : Event rt)
      (key : String)
      → lookup key (mark_noted rt s delivered now (pending, some noted)).delivered_events ≡ some e
      → (lookup key s.delivered_events ≡ some e)
        ⊎ ((noted.id ≡ key) × (noted ≡ e) × (all_configured_delivered rt noted ≡ true))
  unfolding mark_noted file_delivered update_delivered_time
  mark_noted-filed s delivered now pending noted e key h =
      ground (arith, lookup-insert noted.id key noted s.delivered_events, eq_iff noted.id key)

  id-note_delivery :
      (e : Event rt) (channel : String) (delivered : Bool)
      → (note_delivery rt e channel delivered).id ≡ e.id
  unfolding note_delivery
  id-note_delivery e channel delivered = ground arith

  filed-mark_noted :
      (s : State rt) (id channel : String) (delivered : Bool) (now : ℕ) (key : String)
      (e : Event rt) (r : List (Event rt) × Option (Event rt))
      → ((noted : Event rt)
          → r.1 ≡ some noted
          → (p : Event rt) × Mem p s.pending_events
            × (p.id ≡ id)
            × (noted ≡ note_delivery rt p channel delivered))
      → lookup key (mark_noted rt s delivered now r).delivered_events ≡ some e
      → (lookup key s.delivered_events ≡ some e) ⊎ IsFiledOf s id channel delivered key e
  unfolding mark_noted
  filed-mark_noted s id channel delivered now key e (pending, none) origin h = inl h
  filed-mark_noted s id channel delivered now key e (pending, some noted) origin h =
      let (p, member, named, made) = origin noted refl in
      elim (mark_noted-filed s delivered now pending noted e key h) [
        | inl before ↦ inl before
        | inr (filed, same, all) ↦
            let kept = id-note_delivery p channel delivered in
            let reached =
              note_delivery-IsReached p channel delivered
                (subst (λ x. all_configured_delivered rt x ≡ true) made all) in
            inr (
              p,
              member,
              ground (arith, ap (λ (x : Event rt). x.id) made),
              ground (arith, ap (λ (x : Event rt). x.id) made),
              subst (IsReached channel delivered p) (sym made ∙ same) reached,
            )
      ]

  -- Where a delivery is noted, an event is found among the delivered ones only if it was there before,
  -- or if it is the event of the delivery, was pending, and every channel that it was addressed to has
  -- it as delivered: from before, or because the channel is that of a delivery that succeeds.
  pub mark_delivered-IsFiledOf :
      (s : State rt) (id channel : String) (delivered : Bool) (now : ℕ) (key : String)
      (e : Event rt)
      → lookup key (mark_delivered rt s id channel delivered now).delivered_events ≡ some e
      → (lookup key s.delivered_events ≡ some e) ⊎ IsFiledOf s id channel delivered key e
  unfolding mark_delivered
  mark_delivered-IsFiledOf s id channel delivered now key e =
      filed-mark_noted s id channel delivered now key e
        (note_pending rt s.pending_events id channel delivered)
        (found-note_pending s.pending_events id channel delivered)
