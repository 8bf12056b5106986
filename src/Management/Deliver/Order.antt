-- ===== src/Management/Deliver/Order.antt =====
-- The order in which `deliverPending` sends and saves, and the messages it may send.
use cpa_quota_alert_plugin.Base.{
  ℕ, String, Bool, true, false, not, ◌&&◌, ◌||◌, Option, none, some, List, [], ◌∷◌, ◌++◌, ◌==◌, ◌≡◌,
  refl, arith, ap, ◌∙◌, ◌⊎◌, inl, inr, if◌then◌else◌, contains, All, All-append, eq_iff,
}
use cpa_quota_alert_plugin.Base.Dict.{Dict}
use cpa_quota_alert_plugin.Runtime.{Runtime}
use cpa_quota_alert_plugin.Monitor.Types.{Event, State}
use cpa_quota_alert_plugin.Monitor.Deliver.{mark_delivered}
use cpa_quota_alert_plugin.Management.Types.{Dependencies, Effect, saved, sent, sent_test, updated}
use cpa_quota_alert_plugin.Management.Deliver.{
  Progress, note, attempt, succeeded, deliver_channel, deliver_event, deliver_events,
  deliver_pending,
}

module _ (rt : Runtime) where
  -- What is known of the saved state after some effects: nothing is saved, this state is saved and no
  -- message is sent since, one message is sent since, or a message went out with no save before it.
  pub data Log : Type 0 where
    start : Log
    persisted : State rt → Log
    in_doubt : Log
    broken : Log

  unfoldable pub log_step : Log → Effect rt → Log
  log_step broken e = broken
  log_step l (saved s) = persisted s
  log_step (persisted s) (sent channel event) = in_doubt
  log_step start (sent channel event) = broken
  log_step in_doubt (sent channel event) = broken
  log_step l (sent_test channel) = broken
  log_step l (updated set clear) = broken

  unfoldable pub log : Log → List (Effect rt) → Log
  unfolding log_step
  log l [] = l
  log l (e ∷ more) = log (log_step l e) more

  log-append : (l : Log) (xs ys : List (Effect rt)) → log l (xs ++ ys) ≡ log (log l xs) ys
  unfolding log
  log-append l [] ys = refl
  log-append l (e ∷ xs) ys = log-append (log_step l e) xs ys

  abbrev pub is_broken : Log → Bool
  is_broken broken = true
  is_broken start = false
  is_broken (persisted s) = false
  is_broken in_doubt = false

  log-snoc :
      (l : Log) (xs : List (Effect rt)) (e : Effect rt)
      → log l (xs ++ e ∷ []) ≡ log_step (log l xs) e
  unfolding log
  log-snoc l xs e = log-append l xs (e ∷ [])

  abbrev pub unsent_at : String → Dict String → Bool
  unsent_at channel [] = false
  unsent_at channel ((c, status) ∷ more) =
      (c == channel && not (status == "delivered")) || unsent_at channel more

  -- A message goes to a channel that has a sender and is one of the event's own, not yet delivered.
  abbrev pub IsUnsent : List String → Effect rt → Type 0
  IsUnsent senders (sent channel event) =
      (contains senders channel ≡ true) × (unsent_at channel event.delivery ≡ true)
  IsUnsent senders (saved s) = Unit
  IsUnsent senders (sent_test channel) = Unit
  IsUnsent senders (updated set clear) = Unit

module _ (rt : Runtime) (deps : Dependencies rt) where
  -- While the loop runs, its state is the saved one and no message is sent since.
  abbrev pub InOrder : Progress rt deps → Type 0
  InOrder p =
      if p.stopped
      then is_broken rt (log rt start p.effects) ≡ false
      else log rt start p.effects ≡ persisted p.state

  abbrev IsLogged : Progress rt deps → Type 0
  IsLogged p = (log rt start p.effects ≡ persisted p.state) ⊎ (log rt start p.effects ≡ in_doubt)

  abbrev noted_state : Progress rt deps → Event rt → String → Option String → State rt
  noted_state p event channel outcome =
      mark_delivered rt p.state event.id channel (succeeded rt deps outcome) deps.now

  log_step-saved :
      (p : Progress rt deps) (s : State rt)
      → IsLogged p
      → log_step rt (log rt start p.effects) (saved s) ≡ persisted s
  unfolding log_step
  log_step-saved p s (inl h) = rw (h)
  log_step-saved p s (inr h) = rw (h)

  note-InOrder :
      (p : Progress rt deps) (event : Event rt) (channel : String) (outcome : Option String)
      → IsLogged p
      → InOrder (note rt deps p event channel outcome)
  unfolding note log
  note-InOrder p event channel outcome h =
      let s = noted_state p event channel outcome in
      ground (
        arith,
        log-append rt start p.effects [],
        log-snoc rt start p.effects (saved s),
        log_step-saved p s h,
      )

  attempt-InOrder :
      (p : Progress rt deps) (event : Event rt) (channel : String) (outcome : Option String)
      → log rt start p.effects ≡ persisted p.state
      → InOrder (attempt rt deps p event channel outcome)
  unfolding attempt log_step log
  attempt-InOrder p event channel (some code) h = note-InOrder p event channel (some code) (inl h)
  attempt-InOrder p event channel none h =
      note-InOrder (record p { effects = p.effects ++ sent channel event ∷ [] }) event channel
        (deps.send channel event)
        (inr (
          log-snoc rt start p.effects (sent channel event)
          ∙ ap (λ l. log_step rt l (sent channel event)) h))

  deliver_channel-InOrder :
      (senders : List String) (p : Progress rt deps) (event : Event rt) (channel status : String)
      → InOrder p
      → InOrder (deliver_channel rt deps senders p event channel status)
  unfolding deliver_channel
  deliver_channel-InOrder senders p event channel status h =
      ground (arith, attempt-InOrder p event channel (deps.render event))

  deliver_event-InOrder :
      (senders : List String) (p : Progress rt deps) (event : Event rt) (channels : Dict String)
      → InOrder p
      → InOrder (deliver_event rt deps senders p event channels)
  unfolding deliver_event
  deliver_event-InOrder senders p event [] h = h
  deliver_event-InOrder senders p event ((c, status) ∷ more) h =
      deliver_event-InOrder senders (deliver_channel rt deps senders p event c status) event more
        (deliver_channel-InOrder senders p event c status h)

  deliver_events-InOrder :
      (senders : List String) (p : Progress rt deps) (events : List (Event rt))
      → InOrder p
      → InOrder (deliver_events rt deps senders p events)
  unfolding deliver_events
  deliver_events-InOrder senders p [] h = h
  deliver_events-InOrder senders p (e ∷ more) h =
      deliver_events-InOrder senders (deliver_event rt deps senders p e e.delivery) more
        (deliver_event-InOrder senders p e e.delivery h)

  -- From a saved state on, the delivery sends no two messages with no save between them; unless a
  -- save failed, its final state is the saved one, and no message is sent since.
  pub deliver_pending-InOrder :
      (senders : List String) (state : State rt) (effects : List (Effect rt)) (saves : ℕ)
      → log rt start effects ≡ persisted state
      → InOrder (deliver_pending rt deps senders state effects saves)
  unfolding deliver_pending
  deliver_pending-InOrder senders state effects saves h =
      deliver_events-InOrder senders
        (record { state = state; results = []; effects = effects; saves = saves; stopped = false })
        state.pending_events h

  abbrev AllUnsent : List String → Progress rt deps → Type 0
  AllUnsent senders p = All (IsUnsent rt senders) p.effects

  save-IsUnsent :
      (senders : List String) (b : Bool) (s : State rt)
      → All (IsUnsent rt senders) (if b then saved s ∷ [] else [])
  save-IsUnsent senders true s = (tt, tt)
  save-IsUnsent senders false s = tt

  note-IsUnsent :
      (senders : List String) (p : Progress rt deps) (event : Event rt) (channel : String)
      (outcome : Option String)
      → AllUnsent senders p
      → AllUnsent senders (note rt deps p event channel outcome)
  unfolding note
  note-IsUnsent senders p event channel outcome h =
      let s = noted_state p event channel outcome in
      All-append (IsUnsent rt senders) p.effects (if deps.save p.saves then saved s ∷ [] else []) h
        (save-IsUnsent senders (deps.save p.saves) s)

  attempt-IsUnsent :
      (senders : List String) (p : Progress rt deps) (event : Event rt) (channel : String)
      (outcome : Option String)
      → contains senders channel ≡ true
      → unsent_at rt channel event.delivery ≡ true
      → AllUnsent senders p
      → AllUnsent senders (attempt rt deps p event channel outcome)
  unfolding attempt
  attempt-IsUnsent senders p event channel (some code) c u h =
      note-IsUnsent senders p event channel (some code) h
  attempt-IsUnsent senders p event channel none c u h =
      note-IsUnsent senders (record p { effects = p.effects ++ sent channel event ∷ [] }) event
        channel (deps.send channel event)
        (All-append (IsUnsent rt senders) p.effects (sent channel event ∷ []) h ((c, u), tt))

  -- The entries that are not delivered are the event's own.
  abbrev AreEntries : Event rt → Dict String → Type 0
  AreEntries event m =
      All (λ e. (e.1 == "delivered") ≡ false → unsent_at rt e.0 event.delivery ≡ true) m

  AreEntries-all :
      (event : Event rt) (m : Dict String)
      → ((c : String) → unsent_at rt c m ≡ true → unsent_at rt c event.delivery ≡ true)
      → AreEntries event m
  AreEntries-all event [] f = tt
  AreEntries-all event ((c, status) ∷ more) f = (
    λ h. f c (ground (arith, h, eq_iff c c)),
    AreEntries-all event more (λ c' h. f c' (ground (arith, h))),
  )

  deliver_channel-IsUnsent :
      (senders : List String) (p : Progress rt deps) (event : Event rt) (channel status : String)
      → ((status == "delivered") ≡ false → unsent_at rt channel event.delivery ≡ true)
      → AllUnsent senders p
      → AllUnsent senders (deliver_channel rt deps senders p event channel status)
  unfolding deliver_channel
  deliver_channel-IsUnsent senders p event channel status u h =
      ground (arith, attempt-IsUnsent senders p event channel (deps.render event))

  deliver_event-IsUnsent :
      (senders : List String) (p : Progress rt deps) (event : Event rt) (channels : Dict String)
      → AreEntries event channels
      → AllUnsent senders p
      → AllUnsent senders (deliver_event rt deps senders p event channels)
  unfolding deliver_event
  deliver_event-IsUnsent senders p event [] u h = h
  deliver_event-IsUnsent senders p event ((c, status) ∷ more) (u, us) h =
      deliver_event-IsUnsent senders (deliver_channel rt deps senders p event c status) event more
        us (deliver_channel-IsUnsent senders p event c status u h)

  deliver_events-IsUnsent :
      (senders : List String) (p : Progress rt deps) (events : List (Event rt))
      → AllUnsent senders p
      → AllUnsent senders (deliver_events rt deps senders p events)
  unfolding deliver_events
  deliver_events-IsUnsent senders p [] h = h
  deliver_events-IsUnsent senders p (e ∷ more) h =
      deliver_events-IsUnsent senders (deliver_event rt deps senders p e e.delivery) more
        (deliver_event-IsUnsent senders p e e.delivery (AreEntries-all e e.delivery (λ c u. u)) h)

  -- A delivery sends an event only to a channel with a sender to which the event is addressed, and never
  -- to one that has it already.
  pub deliver_pending-IsUnsent :
      (senders : List String) (state : State rt) (effects : List (Effect rt)) (saves : ℕ)
      → All (IsUnsent rt senders) effects
      → All (IsUnsent rt senders) (deliver_pending rt deps senders state effects saves).effects
  unfolding deliver_pending
  deliver_pending-IsUnsent senders state effects saves h =
      deliver_events-IsUnsent senders
        (record { state = state; results = []; effects = effects; saves = saves; stopped = false })
        state.pending_events h
