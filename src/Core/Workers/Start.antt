-- ===== src/Core/Workers/Start.antt =====
-- The time at which a worker started, through the calls of the registry.
use media_shuttle.Prelude.{ℕ, ◌≡◌, refl, ap, ◌∙◌, inl, inr, Option, some, List, [], ◌∷◌, Bool-cases}
use media_shuttle.Py.Text.{Text, text_eq}
use media_shuttle.Py.Text.Equality.{text_eq→eq}
use media_shuttle.Py.Dict
use media_shuttle.Py.Dict.{Dict}
use media_shuttle.Core.Workers.{
  WorkerDocument, Report, Call, reported, beaten, started_at_or, next_document, register_worker,
  beat, heartbeat, after_call, after_calls,
}

-- The worker is known, and started then.
abbrev pub HasStarted : Text → Text → Dict WorkerDocument → Type 0
HasStarted h started items =
    (r : WorkerDocument) × (Dict.get h items ≡ some r) × (r.started_at ≡ started)

started_at_or-known :
    (now : Text) (c : ℕ) (t : Text) (o : Option WorkerDocument) (r : WorkerDocument)
    → o ≡ some r
    → r.started_at ≡ c ∷ t
    → started_at_or now o ≡ c ∷ t
unfolding started_at_or
started_at_or-known now c t o r known since = rw (known, since) refl

report-HasStarted :
    (now : Text) (report : Report) (h : Text) (c : ℕ) (t : Text) (items : Dict WorkerDocument)
    → HasStarted h (c ∷ t) items
    → HasStarted h (c ∷ t) (register_worker now report items).1
unfolding register_worker next_document started_at_or
report-HasStarted now report h c t items (r, known, since) =
    elim (Bool-cases (text_eq report.hostname h)) [
      | inr other ↦ (r, Dict.get-put report.hostname h _ items ∙ rw other known, since)
      | inl own ↦
          let same = text_eq→eq report.hostname h own in
          (
            next_document now report (Dict.get report.hostname items),
            Dict.get-put report.hostname h _ items ∙ rw own refl,
            started_at_or-known now c t _ r (ap (λ k. Dict.get k items) same ∙ known) since,
          )
    ]

heartbeat-HasStarted :
    (now hostname h started : Text) (items : Dict WorkerDocument)
    → HasStarted h started items
    → HasStarted h started (heartbeat now hostname items).1
unfolding heartbeat beat
heartbeat-HasStarted now hostname h started items (r, known, since) =
    elim (Bool-cases (text_eq hostname h)) [
      | inr other ↦ (r, Dict.get-modify hostname h (beat now) items ∙ rw other known, since)
      | inl own ↦
          (beat now r, Dict.get-modify hostname h (beat now) items ∙ rw (own, known) refl, since)
    ]

-- Once a worker is known with a time of its start that is not empty, it stays known with that time,
-- whatever is reported and however often it beats.
pub after_calls-HasStarted :
    (calls : List Call) (h : Text) (c : ℕ) (t : Text) (items : Dict WorkerDocument)
    → HasStarted h (c ∷ t) items
    → HasStarted h (c ∷ t) (after_calls calls items)
unfolding after_calls after_call
after_calls-HasStarted [] h c t items known = known
after_calls-HasStarted (reported now report ∷ calls) h c t items known =
    after_calls-HasStarted calls h c t _ (report-HasStarted now report h c t items known)
after_calls-HasStarted (beaten now hostname ∷ calls) h c t items known =
    after_calls-HasStarted calls h c t _ (heartbeat-HasStarted now hostname h (c ∷ t) items known)
