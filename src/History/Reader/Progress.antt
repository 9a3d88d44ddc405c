-- ===== src/History/Reader/Progress.antt =====
-- The loop of `push` in src/history/cth1.rs ends.
use construct_core.Prelude.{
  ℕ, zero, suc, ◌≤◌, ◌+◌, ◌*◌, ◌≡◌, refl, ◌∙◌, ◌⊎◌, inl, inr, Option, some, List, [], ◌∷◌, ◌++◌,
  arith, length, err, Result-cases,
}
use construct_core.History.{HistoryFailure}
use construct_core.History.Reader.{
  Envelope, State, at_preamble, at_header, in_record, in_discard, in_media_head, in_media_blob,
  done, failed, Reader, new_reader, step, Pushed, after, fail_with, push_loop, push_running, push,
}
use construct_core.History.Reader.Payload.{IsReader, slack}
use construct_core.History.Reader.Steps.{step-Less}

-- The loop does not run out of fuel, and leaves a well-formed reader.
Ended : Option Pushed → Type 0
Ended o = (p : Pushed) × (o ≡ some p) × IsReader p.reader

push_loop-Ended :
    (fuel : ℕ) (r : Reader) (data' : List ℕ)
    → IsReader r
    → 2 * length data' + slack r.state ≤ fuel
    → Ended (push_loop fuel r data')
unfolding push_loop Ended fail_with after
push_loop-Ended fuel r [] w enough = (_, refl, w)
push_loop-Ended zero r (b ∷ bs) w enough = absurd (omega arith)
push_loop-Ended (suc fuel) r (b ∷ bs) w enough = elim (Result-cases (step r r.state (b ∷ bs))) [
  | inr (f, e) ↦ (fail_with r f, rw (e, push_loop) refl, tt)
  | inl (t, e) ↦
      let (v, l) = step-Less r r.state (b ∷ bs) t refl (omega arith) w e in
      let (p, f, u) = push_loop-Ended fuel t.reader t.left v (omega arith) in
      (record p { events = t.events ++ p.events }, rw (e, push_loop) (rw f refl), u)
]

pub slack-le_one : (s : State) → slack s ≤ 1
unfolding slack
slack-le_one at_preamble = omega arith
slack-le_one at_header = omega arith
slack-le_one (in_record ty remaining) = omega arith
slack-le_one (in_discard ty remaining) = omega arith
slack-le_one (in_media_head payload_len) = omega arith
slack-le_one (in_media_blob remaining) = omega arith
slack-le_one done = omega arith
slack-le_one (failed f) = omega arith

-- A reader that has not failed enters the loop.
pub push_running-cases :
    (r : Reader) (s : State) (data' : List ℕ)
    → (push_running r s data' ≡ push_loop (2 * length data' + 1) r data')
      ⊎ ((f : HistoryFailure) × (s ≡ failed f)
          × (push_running r s data' ≡ some (record { reader = r; events = []; outcome = err f })))
unfolding push_running
push_running-cases r at_preamble data' = inl refl
push_running-cases r at_header data' = inl refl
push_running-cases r (in_record ty remaining) data' = inl refl
push_running-cases r (in_discard ty remaining) data' = inl refl
push_running-cases r (in_media_head payload_len) data' = inl refl
push_running-cases r (in_media_blob remaining) data' = inl refl
push_running-cases r done data' = inl refl
push_running-cases r (failed f) data' = inr (f, refl, refl)

-- Pushing any bytes to a well-formed reader comes to an end, and leaves a well-formed reader.
pub push-IsReader :
    (r : Reader) (data' : List ℕ)
    → IsReader r
    → (p : Pushed) × (push r data' ≡ some p) × IsReader p.reader
unfolding push Ended
push-IsReader r data' w = elim (push_running-cases r r.state data') [
  | inr (f, at, e) ↦ (_, e, w)
  | inl e ↦
      let (p, g, v) =
        push_loop-Ended (2 * length data' + 1) r data' w (omega (arith, slack-le_one r.state)) in
      (p, e ∙ g, v)
]

pub new_reader-IsReader : (envelope : Option Envelope) → IsReader (new_reader envelope)
unfolding new_reader
new_reader-IsReader envelope = omega arith
