-- ===== src/History/Reader/Failure.antt =====
-- A failure of the reader of src/history/cth1.rs stays.
use construct_core.Prelude.{
  ℕ, zero, suc, ◌+◌, ◌*◌, ◌≡◌, refl, sym, ap, ◌∙◌, inl, inr, Option, some, List, [], ◌∷◌, length,
  Option_map-eq_some, Result, ok, err, Result-cases,
}
use mathlib.Core.Option.{some-injective}
use construct_core.History.{HistoryFailure}
use construct_core.History.Reader.{
  Reader, State, failed, step, Pushed, after, fail_with, push_loop, push_running, push, finish,
}
use construct_core.History.Reader.Progress.{push_running-cases}

failed_at :
    {o : Option Pushed} {q p : Pushed} {f : HistoryFailure}
    → o ≡ some q
    → o ≡ some p
    → p.outcome ≡ err f
    → q.outcome ≡ err f
failed_at {q} {p} e h k = ap (λ (r : Pushed). r.outcome) (some-injective q p (sym e ∙ h)) ∙ k

err-injective :
    {f g : HistoryFailure} → ◌≡◌ {A = Result HistoryFailure (Unit {0})} (err f) (err g) → f ≡ g
err-injective {f} h = ap (λ r. why r) h
  where
    why : Result HistoryFailure (Unit {0}) → HistoryFailure
    why (ok u) = f
    why (err g) = g

push_loop-failed :
    (fuel : ℕ) (r : Reader) (data' : List ℕ) (p : Pushed) (f : HistoryFailure)
    → push_loop fuel r data' ≡ some p
    → p.outcome ≡ err f
    → p.reader.state ≡ failed f
unfolding push_loop fail_with after
push_loop-failed fuel r [] p f h k = let l = failed_at refl h k in cc
push_loop-failed zero r (b ∷ bs) p f h k = cc
push_loop-failed (suc fuel) r (b ∷ bs) p f h k = elim (Result-cases (step r r.state (b ∷ bs))) [
  | inr (g, e) ↦
      let l = rw (e, push_loop) at h in
      let same = some-injective (fail_with r g) p l in
      let why = err-injective (ap (λ (q : Pushed). q.outcome) same ∙ k) in
      sym (ap (λ (q : Pushed). q.reader.state) same) ∙ ap (λ q. failed q) why
  | inl (t, e) ↦
      let l = rw (e, push_loop) at h in
      let (q, here, same) =
        Option_map-eq_some (after t.events) (push_loop fuel t.reader t.left) l in
      let found =
        push_loop-failed fuel t.reader t.left q f here
          (sym (ap (λ (s : Pushed). s.outcome) same) ∙ k) in
      ap (λ (s : Pushed). s.reader.state) same ∙ found
]

failed_by :
    (r : Reader) (s : State) (data' : List ℕ) (p : Pushed) (f : HistoryFailure)
    → r.state ≡ s
    → push_running r s data' ≡ some p
    → p.outcome ≡ err f
    → p.reader.state ≡ failed f
failed_by r s data' p f at h k = elim (push_running-cases r s data') [
  | inl e ↦ push_loop-failed (2 * length data' + 1) r data' p f (sym e ∙ h) k
  | inr (g, state, e) ↦
      let here : Pushed = record { reader = r; events = []; outcome = err g } in
      let same = some-injective here p (sym e ∙ h) in
      let why = err-injective (ap (λ (q : Pushed). q.outcome) same ∙ k) in
      sym (ap (λ (q : Pushed). q.reader.state) same) ∙ at ∙ state ∙ ap (λ q. failed q) why
]

-- After a push that failed, every later push returns the same failure and no events, and so does
-- the end of the stream; the reader does not change any more.
pub push-failed :
    (r : Reader) (data' : List ℕ) (p : Pushed) (f : HistoryFailure)
    → push r data' ≡ some p
    → p.outcome ≡ err f
    → ((more : List ℕ)
        → push p.reader more ≡ some (record { reader = p.reader; events = []; outcome = err f }))
      × (finish p.reader p.reader.state ≡ (p.reader, err f))
unfolding push push_running finish
push-failed r data' p f h k =
    let at = failed_by r r.state data' p f refl h k in
    (λ more. ap (λ s. push_running p.reader s more) at, ap (finish p.reader) at)
