-- ===== src/Api/Store/Mongo/RoundTrip.antt =====
-- What is written to the collections is read back.
use media_shuttle.Prelude.{
  ℕ, ◌≡◌, ◌≤◌, refl, ap, false, some, List, [], ◌∷◌, max, arith, ◌∙◌, if◌then◌else◌,
}
use media_shuttle.Py.Text.{Text, is_empty}
use media_shuttle.Py.Text.Equality.{text_eq_refl}
use media_shuttle.Py.Exec.{ok, Exec, ◌>>=◌}
use media_shuttle.Core.Env.{Env}
use media_shuttle.Core.Collection.{Collection}
use media_shuttle.Core.Repository.Mongo.{TaskDocument}
use media_shuttle.Core.Repository.Mongo.RoundTrip.{dicts_of-map}
use media_shuttle.Core.Workers.Mongo.{StoredWorker}
use media_shuttle.Api.Model.{TaskRecord, WorkerRecord}
use media_shuttle.Api.Store.Mongo.{
  MongoState, task_document, worker_document, queue_or, read_task, read_option, create, get, upsert,
}

queue_or-filled :
    (queue : Text) (queues : List Text) → is_empty queue ≡ false → queue_or queue queues ≡ queue
unfolding queue_or
queue_or-filled [] queues filled = cc filled
queue_or-filled (c ∷ queue) queues filled = refl

positive : (n : ℕ) → 1 ≤ n → max 1 n ≡ n
positive n h = omega (arith, h)

read_task-document :
    {S : Type 0} (r : TaskRecord) (s : S) → read_task (task_document r) s ≡ (ok r, s)
unfolding read_task task_document ◌>>=◌
read_task-document r s = rw (dicts_of-map r.sources, dicts_of-map r.artifacts) refl

read_some :
    {S D A : Type 0} (read : D → Exec S A) (d : D) (r : A) (s s' : S)
    → read d s ≡ (ok r, s')
    → read_option read (some d) s ≡ (ok (some r), s')
unfolding read_option ◌>>=◌
read_some read d r s s' e = rw e refl

found_again :
    {D C : Type 0} (collection : Collection D C) (i : Text) (d : D) (c : C)
    → collection.find_one i (collection.replace_one i d c) ≡ some d
found_again collection i d c =
    collection.find_one-replace_one i i d c
    ∙ ap (λ b. if b then some d else collection.find_one i c) (text_eq_refl i)

module _ {C W : Type 0} (env : Env W) where
  -- Right after a task was created, its record is read as it was given.
  pub get-create :
      (collection : Collection TaskDocument C) (r : TaskRecord) (s : MongoState C W)
      → get env collection r.task_id (create env collection r s).1
        ≡ (ok (some r), (create env collection r s).1)
  unfolding get create ◌>>=◌
  get-create collection r s =
      let s' : MongoState C W = record s {
        documents = collection.replace_one r.task_id (task_document r) s.documents;
      } in
      rw (found_again collection r.task_id (task_document r) s.documents)
        (read_some read_task (task_document r) r s' s' (read_task-document r s'))

  -- A worker with a slot, a wish of a slot and a queue is given back as it was when it is stored, and
  -- its document is what is then found.
  pub upsert-returns :
      (collection : Collection StoredWorker C) (r : WorkerRecord) (s : MongoState C W)
      → 1 ≤ r.concurrency
      → 1 ≤ r.desired_concurrency
      → is_empty r.queue ≡ false
      → ((upsert env collection r s).0 ≡ ok r)
        × (collection.find_one r.hostname (upsert env collection r s).1.documents
            ≡ some (worker_document r))
  unfolding upsert ◌>>=◌
  upsert-returns collection r s slots wished named =
      let found = found_again collection r.hostname (worker_document r) s.documents in
      (
        rw
            (
              found,
              dicts_of-map r.queues,
              queue_or-filled r.queue r.queues named,
              positive r.concurrency slots,
              positive r.desired_concurrency wished,
            )
            refl,
        rw found found,
      )
