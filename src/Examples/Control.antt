-- ===== src/Examples/Control.antt =====
-- Two clients on one PTY, and a request through a sink that takes two bytes at a time.
use agenttender.Common.{
  ℕ, ◌≡◌, ◌≤◌, refl, arith, ◌⊎◌, false, List, [], ◌∷◌, ◌++◌, none, some, ok, is_ok, min, length,
  take, codes, Bytes, bytes_eq,
}
use agenttender.Common.Words.{u64_max}
use agenttender.Model.Ids.{RunId}
use agenttender.Model.PtyControl.Arbiter.{
  InputArbiter, new, human, agent, owned, epoch_of, ControllerHandle, HandleKey, claim, takeover,
  release, authorize, stale_reason,
}
use agenttender.Model.PtyControl.Requests.{
  PtyInputSink, PendingInput, accepted_all, new_pending, expire,
}
use agenttender.Model.PtyControl.Arbiter.Epochs.{
  claim_by, takeover_by, release_with, perform, perform_mints, ControlOp, Advances,
}
use agenttender.Model.PtyControl.Arbiter.Ownership.{
  perform_all, takeover_revokes, release_revokes, perform_protects,
}
use agenttender.Model.PtyControl.Requests.Sound.{Tells}
use agenttender.Model.PtyControl.Requests.Writes.{
  IsHonest, WriteEvent, attempt_under, deadline, write_events, new_pending-write_events,
}
use agenttender.Model.PtyControl.Requests.Progress.{IsEager, write_steps, new_pending-write_steps}

abbrev run_1 : RunId
run_1 = record { uuid = 1 ∷ 144 ∷ 2 ∷ [] }

abbrev agent_key : HandleKey
agent_key = record { run_id = run_1; epoch = 1; holder = 7 }

abbrev agent_handle : ControllerHandle
agent_handle = record { key = agent_key; kind = agent }

abbrev held : InputArbiter
held = record { run_id = run_1; state = owned 1 7 agent }

claimed : claim 7 agent (new run_1) ≡ (held, ok agent_handle)
unfolding claim new
claimed = refl

abbrev human_key : HandleKey
human_key = record { run_id = run_1; epoch = 2; holder = 9 }

perform_mints_example :
    (epoch_of (perform (takeover_by 9) held).0.state ≤ u64_max)
    × (epoch_of held.state ≤ epoch_of (perform (takeover_by 9) held).0.state)
    × Advances held (perform (takeover_by 9) held)
perform_mints_example = perform_mints (takeover_by 9) held (omega arith)

abbrev afterwards : List ControlOp
afterwards = claim_by 7 agent ∷ takeover_by 7 ∷ release_with agent_handle ∷ []

takeover_revokes_example :
    is_ok (authorize (perform_all afterwards (takeover 9 held).0) agent_key) ≡ false
takeover_revokes_example =
    takeover_revokes 9 held agent_key afterwards (omega arith) (unfold takeover in refl)

release_revokes_example :
    is_ok (authorize (perform_all afterwards (release agent_handle held).0) agent_handle.key)
    ≡ false
release_revokes_example =
    release_revokes agent_handle held afterwards (unfold release bytes_eq in refl)

perform_protects_example :
    ((holder : ℕ) × (claim_by 9 human ≡ takeover_by holder))
    ⊎ (((r : ControllerHandle) × (claim_by 9 human ≡ release_with r) × (r.key ≡ agent_key))
        ⊎ ((is_ok (perform (claim_by 9 human) held).1 ≡ false)
            × ((perform (claim_by 9 human) held).0 ≡ held)
            × (authorize (perform (claim_by 9 human) held).0 agent_key ≡ ok tt)))
perform_protects_example =
    perform_protects (claim_by 9 human) held agent_key (unfold authorize bytes_eq in refl)

-- Its state is all that it was given.
abbrev slow : PtyInputSink
slow = record {
  State = Bytes;
  try_write = λ bytes s. (s ++ take (min 2 (length bytes)) bytes, ok (min 2 (length bytes)));
}

slow_honest : IsHonest slow
slow_honest = record { written = λ s. s; writes = λ bytes s. (omega arith, refl) }

slow_eager : IsEager slow
slow_eager = λ bytes s h. (min 2 (length bytes), refl, omega arith, omega arith)

abbrev request : PendingInput
request = record {
  request_id = 3;
  key = agent_key;
  kind = agent;
  bytes = codes "ls -l";
  accepted = 0;
  outcome = none;
}

abbrev taken_over : InputArbiter
taken_over = (takeover 9 held).0

abbrev busy_hour : List WriteEvent
busy_hour = attempt_under held ∷ attempt_under taken_over ∷ attempt_under held ∷ deadline ∷ []

new_pending-write_events_example :
    let (p', s') = write_events slow slow_honest busy_hour (request, []) in
    (slow_honest.written s' ≡ slow_honest.written [] ++ take p'.accepted (codes "ls -l"))
    × Tells p' p'.outcome
    × (p'.bytes ≡ codes "ls -l")
new_pending-write_events_example =
    new_pending-write_events slow slow_honest busy_hour 3 agent_handle (codes "ls -l") request []
      (unfold new_pending in refl)

new_pending-write_steps_example :
    (write_steps slow slow_eager held 5 (request, [])).0.outcome ≡ some (accepted_all 3 1 5)
new_pending-write_steps_example =
    new_pending-write_steps slow slow_eager held 3 agent_handle (codes "ls -l") request []
      (unfold new_pending in refl) (unfold stale_reason bytes_eq in refl)

abbrev expired : PendingInput
expired = (expire request).0
