-- ===== src/History/Reader/Runs.antt =====
-- Runs of the reader of src/history/cth1.rs: the steps that take a byte string in whole.
use construct_core.Prelude.{
  subst, append_assoc, ℕ, zero, suc, ◌≤◌, ◌+◌, ◌*◌, ◌≡◌, refl, sym, ◌∙◌, ◌≢◌, inl, inr, some, List,
  [], ◌∷◌, ◌++◌, arith, length, ok,
}
use construct_core.History.{HistoryFailure}
use construct_core.History.Reader.{turn, Event, Reader, Turn, step, after, push_loop, push, failed}
use construct_core.History.Reader.Payload.{IsReader, slack}
use construct_core.History.Reader.Progress.{slack-le_one, push_running-cases}
use construct_core.History.Reader.Steps.{step-Less}

-- The reader `r` takes the data step by step, and leaves `r'` and the events.
pub data Runs : Reader → List ℕ → Reader → List Event → Type 0 where
  stop : {r : Reader} → Runs r [] r []
  go :
      {r r' : Reader} {b : ℕ} {bs : List ℕ} {events : List Event} (t : Turn)
      → step r r.state (b ∷ bs) ≡ ok t
      → Runs t.reader t.left r' events
      → Runs r (b ∷ bs) r' (t.events ++ events)

Runs-push_loop :
    (r r' : Reader) (data' : List ℕ) (events : List Event) (fuel : ℕ)
    → Runs r data' r' events
    → IsReader r
    → 2 * length data' + slack r.state ≤ fuel
    → push_loop fuel r data' ≡ some (record { reader = r'; events = events; outcome = ok tt })
unfolding push_loop after
Runs-push_loop r r' [] events fuel stop w enough = refl
Runs-push_loop r r' (b ∷ bs) events zero (go t e run) w enough = absurd (omega arith)
Runs-push_loop r r' (b ∷ bs) events (suc fuel) (go {events = rest} t e run) w enough =
    let (v, l) = step-Less r r.state (b ∷ bs) t refl (omega arith) w e in
    rw (e, push_loop) (rw (Runs-push_loop t.reader r' t.left rest fuel run v (omega arith)) refl)

-- A push of the data makes the run.
pub Runs-push :
    (r r' : Reader) (data' : List ℕ) (events : List Event)
    → Runs r data' r' events
    → IsReader r
    → ((f : HistoryFailure) → r.state ≢ failed f)
    → push r data' ≡ some (record { reader = r'; events = events; outcome = ok tt })
unfolding push
Runs-push r r' data' events run w fine = elim (push_running-cases r r.state data') [
  | inr (f, at, e) ↦ absurd (fine f at)
  | inl e ↦
      e
      ∙ Runs-push_loop r r' data' events (2 * length data' + 1) run w
          (omega (arith, slack-le_one r.state))
]

-- The reader `r` takes `xs`, whatever is behind them.
abbrev pub Takes : Reader → List ℕ → Reader → List Event → Type 0
Takes r xs r' events =
    (rest : List ℕ) (last : Reader) (more : List Event)
    → Runs r' rest last more
    → Runs r (xs ++ rest) last (events ++ more)

pub Takes-append :
    (r r' r'' : Reader) (xs ys : List ℕ) (events more : List Event)
    → Takes r xs r' events
    → Takes r' ys r'' more
    → Takes r (xs ++ ys) r'' (events ++ more)
Takes-append r r' r'' xs ys events more first second rest last after' run =
    subst (λ zs. Runs r zs last (events ++ more ++ after')) (sym (append_assoc xs ys rest))
      (subst (λ es. Runs r (xs ++ (ys ++ rest)) last es) (sym (append_assoc events more after'))
        (first (ys ++ rest) last (more ++ after') (second rest last after' run)))

-- One step that takes exactly `xs`.
pub Takes-step :
    (r r' : Reader) (x : ℕ) (xs : List ℕ) (events : List Event)
    → ((rest : List ℕ) → step r r.state (x ∷ (xs ++ rest)) ≡ ok (turn r' rest events))
    → Takes r (x ∷ xs) r' events
Takes-step r r' x xs events made rest last more run = go (turn r' rest events) (made rest) run
