-- ===== src/Transactions/Samples.antt =====
-- One promotion as test data: two bytes to a new file, and a crash after the rename.
use lit_grove.Prelude.{String, none, some, [], ◌∷◌}
use lit_grove.Transactions.State.{Bytes, Journal, Canonical}
use lit_grove.Transactions.Action.{works, dies, Rest}
use lit_grove.Transactions.Manager.{Env, Request, new_journal}

abbrev pub sample_digest : Bytes → String
sample_digest [] = "empty"
sample_digest (b ∷ bs) = "full"

abbrev pub sample_env : Env
sample_env = record { sha256 = sample_digest; timestamp = λ n. "2026-01-01T00:00:00Z" }

abbrev pub sample_request : Request
sample_request = record {
  target = "pipeline_jobs.jsonl";
  content = 123 ∷ 125 ∷ [];
  target_store = "pipeline_jobs";
  operation = "pipeline_job_create";
  actor = "user";
  input_refs = [];
  output_refs = "job-state-1" ∷ [];
  expected_before = some none;
  event_id = "event-1";
  job_id = some "job-1";
}

abbrev pub empty_disk : Canonical
empty_disk = record { files = λ p. none; journals = []; events = [] }

abbrev pub first_journal : Journal
first_journal = new_journal sample_env sample_request none 0

-- The process is gone right after the rename of the target.
abbrev pub crash_after_rename : Rest
crash_after_rename = record {
  temporaries = [];
  schedule =
      works ∷ works ∷ works ∷ works ∷ works ∷ works ∷ works ∷ works ∷ works ∷ works ∷ works ∷ works
      ∷ works ∷ works ∷ dies ∷ [];
  temporary = none;
  ticks = 0;
}

-- The disk after a crash right behind the first journal.
abbrev pub prepared_disk : Canonical
prepared_disk = record {
  files = λ p. none;
  journals = ("event-1", first_journal) ∷ [];
  events = [];
}
