-- ===== src/Evidence.antt =====
-- src/v2/evidence.rs: evidence records and their checks.
use hacp.Common.{String, not, Bool, false, Result, ◌>>◌, fail_if, map_err, str_is_empty}
use hacp.Envelope.Urn
use hacp.Envelope.Urn.{UrnError}
use hacp.Artifact.Shape.{is_digest_shape, is_hex_id}

pub data EvidenceKind : Type 0 where
  command_transcript : EvidenceKind
  log_excerpt : EvidenceKind
  test_output : EvidenceKind
  signature : EvidenceKind
  other : String → EvidenceKind

pub data EvidenceSubject : Type 0 where
  artifact : String → EvidenceSubject
  claim : String → EvidenceSubject

pub record Evidence : Type 0 where
  pub evidence_id : String
  pub kind : EvidenceKind
  pub subject : EvidenceSubject
  pub digest : String
  pub produced_by : String
  pub statement : String

pub data EvidenceError : Type 0 where
  bad_id : (found : String) → EvidenceError
  bad_digest : (found : String) → EvidenceError
  bad_producer : UrnError → EvidenceError
  bad_subject : EvidenceError
  bad_statement : EvidenceError
  bad_other : EvidenceError

-- `if let EvidenceKind::Other(label)`, with an empty label.
abbrev pub is_unlabelled : EvidenceKind → Bool
is_unlabelled (other label) = str_is_empty label
is_unlabelled _ = false

abbrev pub subject_text : EvidenceSubject → String
subject_text (artifact s) = s
subject_text (claim s) = s

unfoldable pub validate : Evidence → Result EvidenceError Unit
validate e = do
  fail_if (not (is_hex_id "e-" e.evidence_id)) (bad_id e.evidence_id)
  fail_if (is_unlabelled e.kind) bad_other
  fail_if (str_is_empty (subject_text e.subject)) bad_subject
  fail_if (not (is_digest_shape e.digest)) (bad_digest e.digest)
  map_err bad_producer (Urn.parse e.produced_by)
  fail_if (str_is_empty e.statement) bad_statement
