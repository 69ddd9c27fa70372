-- ===== src/Witness/Workers.antt =====
-- The theorem on the registry of workers at a worker that reports, beats and reports again.
use media_shuttle.Prelude.{refl, none, [], ◌∷◌, pos, some}
use media_shuttle.Py.Text.{str, text_eq}
use media_shuttle.Py.Dict
use media_shuttle.Py.Dict.{Dict}
use media_shuttle.Core.Workers.{
  WorkerDocument, Report, reported, beaten, after_calls, register_worker, next_document,
  started_at_or,
}
use media_shuttle.Core.Workers.Start.{HasStarted, after_calls-HasStarted}

abbrev report : Report
report = record {
  hostname = str "w1";
  role = str "parse";
  queues = str "q1" ∷ [];
  concurrency = pos 0;
  status = str "READY";
  node_id = str "NODE";
  pid = some 12;
  exit_code = none;
  reason = [];
}

abbrev first : Dict WorkerDocument
first = (register_worker (str "2026-01-01") report []).1

w1_started : HasStarted (str "w1") (str "2026-01-01") first
unfolding register_worker next_document started_at_or Dict.get Dict.put text_eq
w1_started = (_, refl, refl)

after_calls-HasStarted_example : HasStarted (str "w1") (str "2026-01-01") (
    after_calls
      (beaten (str "2026-01-02") (str "w1") ∷ reported (str "2026-01-03") report ∷ [])
      first)
after_calls-HasStarted_example =
    after_calls-HasStarted
      (beaten (str "2026-01-02") (str "w1") ∷ reported (str "2026-01-03") report ∷ []) (str "w1")
      b'2' (str "026-01-01") first w1_started
