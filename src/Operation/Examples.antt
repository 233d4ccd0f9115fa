-- ===== src/Operation/Examples.antt =====
-- The theorems of the operations at concrete records.
use mydocker.Operation.Sample.{operation_opened}
use mydocker.Base.{
  ◌==◌, Bool, true, ◌≡◌, ◌≢◌, ◌↔◌, ◌⊎◌, ◌+◌, refl, true, false, [], ◌∷◌, ok, some, none, length,
}
use mydocker.Base.Int.{pos}
use mydocker.Text.{text_eq, Text, bytes}
use mydocker.Operation.Vocabulary
use mydocker.Operation.Target
use mydocker.Operation.Target.{Target, Binding}
use mydocker.Operation.Record
use mydocker.Operation.Record.{Operation}
use mydocker.Operation.Record.Laws.{Coherent, validate_operation-eq-ok}
use mydocker.Operation.Event.{Event}
use mydocker.Operation.Event.Laws
use mydocker.Operation.Resolve.{new, resume, replay, resolve}
use mydocker.Operation.Resolve.Laws.{Matches, resolve_lem}

-- The answer of strictjson.Decode on the two payloads of the examples.
abbrev decodes : Text → Bool
decodes payload = payload == bytes "{}"

abbrev demo : Target
demo = record { kind = Vocabulary.sandbox; id = bytes "demo" }

abbrev stopping : Binding
stopping = record {
  id = bytes "op-1";
  type = Vocabulary.stop;
  target = demo;
  fingerprint = record {
    version = 1;
    sha256 = bytes "0123456789abcdef0123456789abcdef0123456789abcdef0123456789abcdef";
  };
}

abbrev other_stop : Binding
other_stop = record {
  id = bytes "op-2";
  type = Vocabulary.stop;
  target = demo;
  fingerprint = stopping.fingerprint;
}

abbrev accepted : Operation
accepted = record {
  version = 1;
  id = stopping.id;
  type = stopping.type;
  target = demo;
  fingerprint = stopping.fingerprint;
  state = Vocabulary.pending;
  stage = Vocabulary.validate;
  result = Vocabulary.result_pending;
  reason = Vocabulary.reason_none;
  response = [];
}

abbrev stop_event : Event
stop_event = record {
  version = 2;
  sequence = 7;
  operation_id = bytes "op-1";
  type = Vocabulary.stop;
  target = demo;
  resources = demo ∷ [];
  stage = Vocabulary.teardown;
  result = Vocabulary.result_pending;
  reason = Vocabulary.reason_none;
  occurred_at = some (pos 100);
  duration = none;
  generation = 1;
  observed_generation = 1;
  details = [];
}

abbrev next_event : Event
next_event = record {
  version = 2;
  sequence = 8;
  operation_id = bytes "op-1";
  type = Vocabulary.stop;
  target = demo;
  resources = demo ∷ [];
  stage = Vocabulary.complete;
  result = Vocabulary.result_succeeded;
  reason = Vocabulary.reason_none;
  occurred_at = some (pos 101);
  duration = none;
  generation = 1;
  observed_generation = 1;
  details = [];
}

resolve_example :
    ((resolve decodes none stopping ≡ ok new) ↔ (Target.validate_binding stopping ≡ ok tt))
    × ((resolve decodes (some accepted) stopping ≡ ok resume) ↔ (
        Matches decodes accepted stopping
        × (Vocabulary.is_pending_or_running accepted.state ≡ true)))
    × ((resolve decodes (some accepted) stopping ≡ ok replay) ↔ (
        Matches decodes accepted stopping
        × (Vocabulary.is_pending_or_running accepted.state ≡ false)))
    × (resolve decodes (some accepted) stopping ≢ ok new)
resolve_example = resolve_lem decodes accepted stopping

apart : true ≢ false
apart h = cc

validate_operation_example : (Record.validate_operation decodes accepted ≡ ok tt) ↔ (
    (Record.validate_fields accepted ≡ ok tt)
    × Coherent accepted.state accepted.stage accepted.result accepted.reason
    × ((accepted.response ≡ []) ⊎ (decodes accepted.response ≡ true)))
validate_operation_example = validate_operation-eq-ok decodes accepted

last_event_example : next_event.sequence ≡ stop_event.sequence + length (next_event ∷ [])
unfolding operation_opened
last_event_example = Laws.last_event-sequence decodes stop_event (next_event ∷ []) (refl, tt)
