-- ===== src/Core/Workers/Mongo/Wish.antt =====
-- The number of slots that an operator wishes for, through the calls of the registry.
use media_shuttle.Prelude.{
  ℕ, suc, ◌≡◌, refl, ap, ◌∙◌, inl, inr, Option, some, List, [], ◌∷◌, ℤ, pos, Bool-cases,
  Option-cases, arith,
}
use media_shuttle.Py.Text.{Text, text_eq}
use media_shuttle.Py.Text.Equality.{text_eq→eq}
use media_shuttle.Core.Collection.{Collection}
use media_shuttle.Core.Workers.{Report, Call, reported, beaten}
use media_shuttle.Core.Workers.Mongo.{
  StoredWorker, wish_or, wish_of, reported_document, beaten_document, upsert_stored,
  heartbeat_stored, stored_after, replace_found,
}

module _ {C : Type 0} (collection : Collection StoredWorker C) where
  -- The worker is stored, with that wish.
  abbrev pub HasWish : Text → ℕ → C → Type 0
  HasWish h n c =
      (d : StoredWorker) × (collection.find_one h c ≡ some d)
      × (d.desired_concurrency ≡ some (pos (suc n)))

  wish_kept :
      (concurrency : ℤ) (n : ℕ) (o : Option StoredWorker) (d : StoredWorker)
      → o ≡ some d
      → d.desired_concurrency ≡ some (pos (suc n))
      → wish_or concurrency (wish_of o) ≡ suc n
  unfolding wish_or
  wish_kept concurrency n o d known wish = rw (known, wish) (omega arith)

  report-HasWish :
      (now : Text) (report : Report) (h : Text) (n : ℕ) (c : C)
      → HasWish h n c
      → HasWish h n (upsert_stored collection now report c).1
  unfolding upsert_stored reported_document
  report-HasWish now report h n c (d, known, wish) = elim (Bool-cases (text_eq report.hostname h)) [
    | inr other ↦ (d, collection.find_one-replace_one report.hostname h _ c ∙ rw other known, wish)
    | inl own ↦
        let same = text_eq→eq report.hostname h own in
        (
          reported_document now report (collection.find_one report.hostname c),
          collection.find_one-replace_one report.hostname h _ c ∙ rw own refl,
          ap (λ k. some (pos k))
              (wish_kept report.concurrency n _ d (ap (λ k. collection.find_one k c) same ∙ known)
                wish),
        )
  ]

  heartbeat-HasWish :
      (now hostname h : Text) (n : ℕ) (c : C)
      → HasWish h n c
      → HasWish h n (heartbeat_stored collection now hostname c).1
  unfolding heartbeat_stored beaten_document replace_found
  heartbeat-HasWish now hostname h n c (d, known, wish) = elim (Bool-cases (text_eq hostname h)) [
    | inr other ↦ elim (Option-cases (collection.find_one hostname c)) [
      | inl nobody ↦ rw nobody (d, known, wish)
      | inr (e, there) ↦
          rw there (d, collection.find_one-replace_one hostname h _ c ∙ rw other known, wish)
    ]
    | inl own ↦
        let same = text_eq→eq hostname h own in
        let there = ap (λ k. collection.find_one k c) same ∙ known in
        rw there (
          beaten_document now d,
          collection.find_one-replace_one hostname h _ c ∙ rw own refl,
          wish,
        )
  ]

  -- Once a worker is stored with a wish of one slot or more, it stays stored with that wish, whatever
  -- is reported and however often it beats.
  pub stored_after-HasWish :
      (calls : List Call) (h : Text) (n : ℕ) (c : C)
      → HasWish h n c
      → HasWish h n (stored_after collection calls c)
  unfolding stored_after
  stored_after-HasWish [] h n c held = held
  stored_after-HasWish (reported now report ∷ calls) h n c held =
      stored_after-HasWish calls h n _ (report-HasWish now report h n c held)
  stored_after-HasWish (beaten now hostname ∷ calls) h n c held =
      stored_after-HasWish calls h n _ (heartbeat-HasWish now hostname h n c held)
